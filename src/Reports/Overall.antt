-- ===== src/Reports/Overall.antt =====
-- The statistics of an assessment as a whole. Scores are whole numbers, as the scores of problems are
-- taken to be.
use assessment_microservice.Base.{
  ℕ, zero, suc, ◌+◌, ◌*◌, Bool, true, false, List, [], ◌∷◌, map, leb, length, max, min,
}
use assessment_microservice.Models.{active, submitted, timed_out}
use assessment_microservice.Models.{AssessmentProblem, User, Attempt}
use assessment_microservice.Store.{filter}
use assessment_microservice.Attempts.Expiry.{is_active}

-- The exact value that `Number(x.toFixed(places))` rounds.
pub record Rounded : Type 0 where
  pub numerator : ℕ
  pub denominator : ℕ
  pub places : ℕ

abbrev nothing : Rounded
nothing = record { numerator = 0; denominator = 1; places = 0 }

abbrev pub sum : List ℕ → ℕ
sum [] = 0
sum (n ∷ ns) = n + sum ns

abbrev pub or_hundred : ℕ → ℕ
or_hundred zero = 100
or_hundred (suc n) = suc n

-- `reduce((sum, p) => sum + (p.maxScore || 100), 0) || 100`
unfoldable pub max_possible_score : List AssessmentProblem → ℕ
max_possible_score ps = or_hundred (sum (map (λ p. or_hundred p.max_score) ps))

abbrev pub is_completed : Attempt → Bool
is_completed a = elim a.status [ active ↦ false | submitted ↦ true | timed_out ↦ true ]

-- `score >= maxPossibleScore * 0.4`
abbrev pub is_passed : ℕ → Attempt → Bool
is_passed max_score a = leb (2 * max_score) (5 * a.score)

abbrev pub scores : List Attempt → List ℕ
scores attempts = map (λ a. a.score) attempts

-- Math.max(...scores) and Math.min(...scores), of one score at least
abbrev pub highest : ℕ → List ℕ → ℕ
highest n [] = n
highest n (m ∷ ns) = max n (highest m ns)

abbrev pub lowest : ℕ → List ℕ → ℕ
lowest n [] = n
lowest n (m ∷ ns) = min n (lowest m ns)

pub record OverallStats : Type 0 where
  pub total_students : ℕ
  pub started_count : ℕ
  pub submitted_count : ℕ
  pub active_count : ℕ
  pub avg_score : Rounded
  pub highest_score : ℕ
  pub lowest_score : ℕ
  pub pass_rate : Rounded
  pub max_possible_score : ℕ

-- Without a completed attempt the four are 0.
unfoldable pub overall_of : List User → List Attempt → ℕ → List Attempt → OverallStats
overall_of students attempts max_score [] = record {
  total_students = length students;
  started_count = length attempts;
  submitted_count = 0;
  active_count = length (filter (λ a. is_active a.status) attempts);
  avg_score = nothing;
  highest_score = 0;
  lowest_score = 0;
  pass_rate = nothing;
  max_possible_score = max_score;
}
overall_of students attempts max_score (a ∷ completed) = record {
  total_students = length students;
  started_count = length attempts;
  submitted_count = length (a ∷ completed);
  active_count = length (filter (λ a. is_active a.status) attempts);
  avg_score = record {
    numerator = sum (scores (a ∷ completed));
    denominator = length (a ∷ completed);
    places = 1;
  };
  highest_score = highest a.score (scores completed);
  lowest_score = lowest a.score (scores completed);
  pass_rate = record {
    numerator = length (filter (is_passed max_score) (a ∷ completed)) * 100;
    denominator = length (a ∷ completed);
    places = 0;
  };
  max_possible_score = max_score;
}

-- No status of an attempt is 'Not Started', so every attempt counts as started.
unfoldable pub overall_stats : List User → List Attempt → ℕ → OverallStats
overall_stats students attempts max_score =
    overall_of students attempts max_score (filter is_completed attempts)
