-- ===== src/Reports/Sections.antt =====
-- The reports by section. `sectionStats` is an object with a key for each section; a key that every
-- object inherits is found there without having been set. The list has the keys in the order of their
-- setting; JavaScript lists keys that are whole numbers first.
use assessment_microservice.Base.{
  ℕ, zero, suc, ◌+◌, ◌*◌, Bool, true, false, ◌||◌, none, some, List, [], ◌∷◌, ◌++◌, if◌then◌else◌,
  String, text_eq, length,
}
use assessment_microservice.Store.{
  World, any, or_default, Result, is_id, map_option, user_at, ok, err, type_error,
}
use assessment_microservice.Reports.Overall.{sum, Rounded, is_passed, is_completed}
use assessment_microservice.Models.{Attempt, User}
use assessment_microservice.Billing.Plans.{inherited}
use assessment_microservice.Accounts.Register.{required}

pub record SectionStats : Type 0 where
  pub section : String
  pub total : ℕ
  pub started : ℕ
  pub submitted : ℕ
  pub scores : List ℕ
  pub passed_count : ℕ

abbrev pub new_section : String → SectionStats
new_section section = record {
  section = section;
  total = 0;
  started = 0;
  submitted = 0;
  scores = [];
  passed_count = 0;
}

-- `if (!sectionStats[sec]) sectionStats[sec] = …`, and the changes to it
unfoldable pub update_section :
    String → (SectionStats → SectionStats) → List SectionStats → List SectionStats
update_section section f [] = f (new_section section) ∷ []
update_section section f (s ∷ stats) =
    let rest = update_section section f stats in
    if text_eq s.section section then f s ∷ stats else s ∷ rest

unfoldable pub is_inherited : String → Bool
is_inherited name = any (λ x. text_eq x name) inherited

-- `student.section || 'Unassigned'`
unfoldable pub section_of : User → String
section_of u = or_default (required u.section) "Unassigned"

-- What an attempt adds to its section.
abbrev pub count_completed : Bool → ℕ → Attempt → SectionStats → SectionStats
count_completed false max_score a s = s
count_completed true max_score a s = record s {
  submitted = s.submitted + 1;
  scores = s.scores ++ (a.score ∷ []);
  passed_count = s.passed_count + (if is_passed max_score a then 1 else 0);
}

unfoldable pub count_attempt : ℕ → Attempt → SectionStats → SectionStats
count_attempt max_score a s =
    count_completed (is_completed a) max_score a
      (record s { total = s.total + 1; started = s.started + 1 })

-- An inherited property has no `scores` to push to.
unfoldable pub add_to_section :
    String → ℕ → Attempt → List SectionStats → Result (List SectionStats)
add_to_section section max_score a stats =
    if is_inherited section
    then if is_completed a then err type_error else ok stats
    else ok (update_section section (count_attempt max_score a) stats)

abbrev pub add_attempt : World → ℕ → Attempt → List SectionStats → Result (List SectionStats)
add_attempt w max_score a stats = elim (user_at a.student_id w) [
  | none ↦ ok stats
  | some u ↦ add_to_section (section_of u) max_score a stats
]

-- `attempts.forEach(…)`
unfoldable pub add_attempts :
    World → ℕ → List Attempt → List SectionStats → Result (List SectionStats)
add_attempts w max_score [] stats = ok stats
add_attempts w max_score (a ∷ attempts) stats = elim (add_attempt w max_score a stats) [
  | err e ↦ err e
  | ok stats' ↦ add_attempts w max_score attempts stats'
]

-- An attempt whose student's account is gone is nobody's.
unfoldable pub has_attempt : World → List Attempt → User → Bool
has_attempt w attempts u =
    any (λ a. is_id (map_option (λ v. v.id) (user_at a.student_id w)) u.id) attempts

abbrev pub count_student : SectionStats → SectionStats
count_student s = record s { total = s.total + 1 }

-- `students.forEach(…)`, for a student without an attempt
unfoldable pub add_students :
    World → List Attempt → List User → List SectionStats → List SectionStats
add_students w attempts [] stats = stats
add_students w attempts (u ∷ students) stats = add_students w attempts students (
    if has_attempt w attempts u || is_inherited (section_of u)
    then stats
    else update_section (section_of u) count_student stats)

unfoldable pub section_stats : World → ℕ → List Attempt → List User → Result (List SectionStats)
section_stats w max_score attempts students = elim (add_attempts w max_score attempts []) [
  | err e ↦ err e
  | ok stats ↦ ok (add_students w attempts students stats)
]

pub record SectionReport : Type 0 where
  pub section : String
  pub total : ℕ
  pub started : ℕ
  pub submitted : ℕ
  pub avg_score : Rounded
  pub pass_rate : Rounded

-- `n > 0 ? x / n : 0`
abbrev pub rate_of : ℕ → ℕ → ℕ → Rounded
rate_of x zero places = record { numerator = 0; denominator = 1; places = places }
rate_of x (suc n) places = record { numerator = x; denominator = suc n; places = places }

unfoldable pub section_report : SectionStats → SectionReport
section_report s = record {
  section = s.section;
  total = s.total;
  started = s.started;
  submitted = s.submitted;
  avg_score = rate_of (sum s.scores) (length s.scores) 1;
  pass_rate = rate_of (s.passed_count * 100) s.submitted 0;
}
