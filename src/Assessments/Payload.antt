-- ===== src/Assessments/Payload.antt =====
-- `validateAssessmentPayload` of assessments.service.js. A payload is the body of a request: each
-- field may be missing, and a date may be unreadable. Durations and scores are taken to be whole
-- numbers.
use assessment_microservice.Base.{
  ℕ, Bool, true, false, not, ◌||◌, Option, none, some, List, [], ◌∷◌, ◌++◌, ◌==◌, if◌then◌else◌,
  String, text_eq,
}
use assessment_microservice.Store.{is_some, Request, any, pure, raise, invalid}
use assessment_microservice.Base.Int.{ℤ, leb_ℤ, pos}
use assessment_microservice.Models.{AssessmentStatus, Announcement}

-- new Date(value): milliseconds, or an invalid date, whose comparisons are all false.
pub data Date : Type 0 where
  invalid_date : Date
  date : ℤ → Date

pub record PayloadProblem : Type 0 where
  pub problem_id : ℕ
  pub max_score : Option ℤ

pub record Payload : Type 0 where
  pub title : Option String
  pub start_time : Option Date
  pub end_time : Option Date
  pub duration_minutes : Option ℤ
  pub allowed_languages : Option (List String)
  pub problems : Option (List PayloadProblem)
  pub created_by : Option ℕ
  pub college_id : Option ℕ
  pub status : Option AssessmentStatus
  pub locked : Option Bool
  pub announcements : Option (List Announcement)

-- if (b) errors.push(message)
abbrev pub error_if : Bool → String → List String
error_if b message = if b then message ∷ [] else []

-- !text
abbrev pub is_blank : Option String → Bool
is_blank none = true
is_blank (some t) = text_eq t ""

-- !(n > 0), where a missing number is NaN
abbrev pub is_not_positive : Option ℤ → Bool
is_not_positive none = true
is_not_positive (some n) = leb_ℤ n (pos 0)

-- new Date(startTime) >= new Date(endTime)
abbrev pub is_not_before : Date → Date → Bool
is_not_before invalid_date _ = false
is_not_before (date start) invalid_date = false
is_not_before (date start) (date end_) = leb_ℤ end_ start

abbrev pub ends_too_early : Option Date → Option Date → Bool
ends_too_early (some start) (some end_) = is_not_before start end_
ends_too_early none _ = false
ends_too_early (some start) none = false

-- new Set(problemIds).size !== problemIds.length
unfoldable pub has_duplicates : List PayloadProblem → Bool
has_duplicates [] = false
has_duplicates (p ∷ ps) =
    any (λ (q : PayloadProblem). q.problem_id == p.problem_id) ps || has_duplicates ps

abbrev pub is_bad_score : PayloadProblem → Bool
is_bad_score p = elim p.max_score [ none ↦ false | some n ↦ leb_ℤ n (pos 0) ]

abbrev pub problem_errors : Option (List PayloadProblem) → List String
problem_errors none = "At least one problem is required" ∷ []
problem_errors (some []) = "At least one problem is required" ∷ []
problem_errors (some (p ∷ ps)) =
    error_if (has_duplicates (p ∷ ps)) "An assessment cannot contain duplicate problems"
    ++ error_if (any is_bad_score (p ∷ ps)) "Every problem max score must be greater than zero"

unfoldable pub payload_errors : Payload → List String
payload_errors payload =
    error_if (is_blank payload.title) "Title is required"
    ++ error_if (not (is_some payload.start_time)) "Start time is required"
    ++ error_if (not (is_some payload.end_time)) "End time is required"
    ++ error_if (is_not_positive payload.duration_minutes) "Duration must be greater than zero"
    ++ error_if (ends_too_early payload.start_time payload.end_time)
        "End time must be after start time"
    ++ problem_errors payload.problems

abbrev pub refuse : List String → Request (Unit {0})
refuse [] = pure tt
refuse (e ∷ es) = raise (invalid (e ∷ es))

unfoldable pub validate_assessment_payload : Payload → Request (Unit {0})
validate_assessment_payload payload = refuse (payload_errors payload)
