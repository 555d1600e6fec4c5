-- ===== src/Reports/Bounds.antt =====
-- How the figures of the overall statistics bound each other.
use assessment_microservice.Base.{
  ℕ, suc, ◌+◌, ◌*◌, ◌≤◌, ◌≡◌, refl, sym, ap, ◌∙◌, Bool, true, false, List, [], ◌∷◌, arith,
  if◌then◌else◌, length, min, max, length-map,
}
use assessment_microservice.Models.{active, submitted, timed_out}
use assessment_microservice.Reports.Overall.{
  sum, lowest, overall_of, overall_stats, OverallStats, highest, is_completed, scores, is_passed,
}
use assessment_microservice.Models.{Attempt, User, AttemptStatus}
use assessment_microservice.Store.{filter}
use assessment_microservice.Attempts.Expiry.{is_active}

-- Every number is at least, or at most, the first.
abbrev AtLeast : ℕ → List ℕ → Type 0
AtLeast x [] = Unit {0}
AtLeast x (n ∷ ns) = (x ≤ n) × AtLeast x ns

abbrev AtMost : ℕ → List ℕ → Type 0
AtMost x [] = Unit {0}
AtMost x (n ∷ ns) = (n ≤ x) × AtMost x ns

AtLeast-lower : (x y : ℕ) (ns : List ℕ) → y ≤ x → AtLeast x ns → AtLeast y ns
AtLeast-lower x y [] l h = tt
AtLeast-lower x y (n ∷ ns) l h = (omega (arith, h.0), AtLeast-lower x y ns l h.1)

AtMost-raise : (x y : ℕ) (ns : List ℕ) → x ≤ y → AtMost x ns → AtMost y ns
AtMost-raise x y [] l h = tt
AtMost-raise x y (n ∷ ns) l h = (omega (arith, h.0), AtMost-raise x y ns l h.1)

lowest-AtLeast : (n : ℕ) (ns : List ℕ) → AtLeast (lowest n ns) (n ∷ ns)
lowest-AtLeast n [] = (omega arith, tt)
lowest-AtLeast n (m ∷ ns) = (
  omega arith,
  AtLeast-lower (lowest m ns) (min n (lowest m ns)) (m ∷ ns) (omega arith) (lowest-AtLeast m ns),
)

highest-AtMost : (n : ℕ) (ns : List ℕ) → AtMost (highest n ns) (n ∷ ns)
highest-AtMost n [] = (omega arith, tt)
highest-AtMost n (m ∷ ns) = (
  omega arith,
  AtMost-raise (highest m ns) (max n (highest m ns)) (m ∷ ns) (omega arith) (highest-AtMost m ns),
)

sum-AtLeast : (x : ℕ) (ns : List ℕ) → AtLeast x ns → x * length ns ≤ sum ns
sum-AtLeast x [] h = omega arith
sum-AtLeast x (n ∷ ns) h = grind (arith, h.0, sum-AtLeast x ns h.1)

sum-AtMost : (x : ℕ) (ns : List ℕ) → AtMost x ns → sum ns ≤ x * length ns
sum-AtMost x [] h = omega arith
sum-AtMost x (n ∷ ns) h = grind (arith, h.0, sum-AtMost x ns h.1)

length-filter : {A : Type 0} (p : A → Bool) (xs : List A) → length (filter p xs) ≤ length xs
length-filter p [] = omega arith
length-filter p (x ∷ xs) = ground (arith, length-filter p xs)

-- An attempt is completed or active, and not both.
split_by_status :
    (attempts : List Attempt)
    → length (filter is_completed attempts) + length (filter (λ a. is_active a.status) attempts)
      ≡ length attempts
split_by_status [] = refl
split_by_status (a ∷ attempts) = go a.status (split_by_status attempts)
  where
    go :
        (s : AttemptStatus)
        → length (filter is_completed attempts) + length (filter (λ a. is_active a.status) attempts)
          ≡ length attempts
        → length (
              if elim s [ active ↦ false | submitted ↦ true | timed_out ↦ true ]
              then a ∷ filter is_completed attempts
              else filter is_completed attempts)
            + length (
                if is_active s
                then a ∷ filter (λ a. is_active a.status) attempts
                else filter (λ a. is_active a.status) attempts)
          ≡ suc (length attempts)
    go active h = omega (arith, h)
    go submitted h = omega (arith, h)
    go timed_out h = omega (arith, h)

-- What the figures promise each other.
abbrev pub Consistent : OverallStats → Type 0
Consistent s =
    (s.submitted_count + s.active_count ≡ s.started_count)
    × (s.lowest_score * s.avg_score.denominator ≤ s.avg_score.numerator)
    × (s.avg_score.numerator ≤ s.highest_score * s.avg_score.denominator)
    × (s.pass_rate.numerator ≤ 100 * s.pass_rate.denominator)

overall_of-Consistent :
    (students : List User) (attempts : List Attempt) (max_score : ℕ) (completed : List Attempt)
    → filter is_completed attempts ≡ completed
    → Consistent (overall_of students attempts max_score completed)
unfolding overall_of
overall_of-Consistent students attempts max_score [] e = (
  ap (λ c. length c + length (filter (λ a. is_active a.status) attempts)) (sym e)
      ∙ split_by_status attempts,
  omega arith,
  omega arith,
  omega arith,
)
overall_of-Consistent students attempts max_score (a ∷ completed) e = (
  ap (λ c. length c + length (filter (λ a. is_active a.status) attempts)) (sym e)
      ∙ split_by_status attempts,
  rw (← length-map completed (λ a. a.score)) (
      sum-AtLeast (lowest a.score (scores completed)) (scores (a ∷ completed))
        (lowest-AtLeast a.score (scores completed))),
  rw (← length-map completed (λ a. a.score)) (
      sum-AtMost (highest a.score (scores completed)) (scores (a ∷ completed))
        (highest-AtMost a.score (scores completed))),
  hundredfold (length-filter (is_passed max_score) (a ∷ completed)),
)
  where
    hundredfold : {x y : ℕ} → x ≤ y → x * 100 ≤ 100 * y
    hundredfold h = omega arith

-- Of the overall statistics: the completed and the active attempts are all that were started, the
-- average score lies between the lowest and the highest, and no more attempts have passed than were
-- completed.
pub overall_stats-Consistent :
    (students : List User) (attempts : List Attempt) (max_score : ℕ)
    → Consistent (overall_stats students attempts max_score)
unfolding overall_stats
overall_stats-Consistent students attempts max_score =
    overall_of-Consistent students attempts max_score (filter is_completed attempts) refl
