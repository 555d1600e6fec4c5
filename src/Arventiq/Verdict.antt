-- ===== src/Arventiq/Verdict.antt =====
-- `mapCaseVerdict`, `mapSubmissionToArventiqVerdict` and `getArventiqSubmissionResult`. A judge's
-- report is here a record of the keys that these read, each of which may be missing.
use assessment_microservice.Base.{
  ℕ, zero, suc, ◌+◌, Bool, true, false, ◌||◌, Option, none, some, List, [], ◌∷◌, ltb, if◌then◌else◌,
  String, text_eq,
}
use assessment_microservice.Store.{is_some, or_default, Request, ◌>>=◌, pure}
use assessment_microservice.Models.{Submission, SubmissionStatus, pending, running}
use assessment_microservice.Submissions.Sanitize.{coalesce}
use assessment_microservice.Attempts.Expiry.{Caller}
use assessment_microservice.Submissions.Access.{missing, refused, fetched, get_submission_by_id}

pub record CaseDetail : Type 0 where
  pub test : Option ℕ
  pub error : Option String
  pub error_type : Option String
  pub passed : Option Bool
  pub ok : Option Bool
  pub time_ms : Option ℕ
  pub memory_kb : Option ℕ
  pub input : Option String
  pub expected : Option String
  pub output : Option String
  pub stdout : Option String
  pub stderr : Option String

pub record JudgeReport : Type 0 where
  pub status : Option String
  pub total : Option ℕ
  pub total_count : Option ℕ
  pub passed : Option ℕ
  pub passed_count : Option ℕ
  pub max_time_ms : Option ℕ
  pub details : Option (List CaseDetail)

-- The constant `weight` and `group` are left out.
pub record CaseVerdict : Type 0 where
  pub index : ℕ
  pub verdict : String
  pub time_ms : ℕ
  pub memory_kb : Option ℕ
  pub passed : Bool
  pub input : Option String
  pub expected : Option String
  pub actual : Option String
  pub stderr : String

-- `score` is the pair of the numbers that are divided, before the quotient is rounded to four digits.
pub record Verdict : Type 0 where
  pub verdict : String
  pub score : ℕ × ℕ
  pub max_time_ms : ℕ
  pub compile_output : Option String
  pub passed_count : ℕ
  pub total_count : ℕ
  pub cases : List CaseVerdict

abbrev pub verdict_map : String → String
verdict_map t =
    if text_eq t "Accepted"
    then "accepted"
    else if text_eq t "Wrong Answer"
    then "wrong_answer"
    else if text_eq t "Time Limit Exceeded"
    then "time_limit_exceeded"
    else if text_eq t "Memory Limit Exceeded"
    then "memory_limit_exceeded"
    else if text_eq t "Runtime Error"
    then "runtime_error"
    else if text_eq t "Compilation Error"
    then "compilation_error"
    else "runtime_error"

abbrev pub says : Option String → String → Bool
says none t = false
says (some s) t = text_eq s t

-- a || null, and whether a is truthy, of a text
abbrev pub text_or_null : Option String → Option String
text_or_null none = none
text_or_null (some t) = if text_eq t "" then none else some t

abbrev pub number_or_null : Option ℕ → Option ℕ
number_or_null none = none
number_or_null (some zero) = none
number_or_null (some (suc n)) = some (suc n)

-- detail.passed ?? detail.ok
abbrev pub has_passed : CaseDetail → Bool
has_passed d = or_default (coalesce d.passed d.ok) false

unfoldable pub map_case_verdict : CaseDetail → String → String
map_case_verdict d overall =
    if says d.error "Time Limit Exceeded" || says d.error_type "timeout"
    then "time_limit_exceeded"
    else if says d.error_type "memory_limit"
    then "memory_limit_exceeded"
    else if has_passed d
    then "accepted"
    else if says d.error_type "wrong_answer"
    then "wrong_answer"
    else if is_some (text_or_null d.error)
    then "runtime_error"
    else overall

abbrev pub case_of : String → ℕ → CaseDetail → CaseVerdict
case_of overall idx d = record {
  index = or_default d.test (idx + 1);
  verdict = map_case_verdict d overall;
  time_ms = or_default d.time_ms 0;
  memory_kb = number_or_null d.memory_kb;
  passed = has_passed d;
  input = d.input;
  expected = d.expected;
  actual = coalesce d.output d.stdout;
  stderr = or_default d.stderr "";
}

-- details.map((d, idx) => …), from position `idx` on
unfoldable pub cases_from : String → ℕ → List CaseDetail → List CaseVerdict
cases_from overall idx [] = []
cases_from overall idx (d ∷ ds) = case_of overall idx d ∷ cases_from overall (suc idx) ds

-- VERDICT_MAP[tr.status] || "runtime_error"
abbrev pub overall_verdict : Option String → String
overall_verdict none = "runtime_error"
overall_verdict (some t) = verdict_map t

abbrev pub is_waiting : SubmissionStatus → Bool
is_waiting pending = true
is_waiting running = true
is_waiting _ = false

abbrev pub verdict_of : JudgeReport → Option String → Verdict
verdict_of tr output =
    let overall = overall_verdict tr.status in
    let total = or_default (coalesce tr.total tr.total_count) 0 in
    let passed = or_default (coalesce tr.passed tr.passed_count) 0 in
    record {
      verdict = overall;
      score = if ltb 0 total then (passed, total) else (0, 1);
      max_time_ms = or_default tr.max_time_ms 0;
      compile_output = if text_eq overall "compilation_error" then text_or_null output else none;
      passed_count = passed;
      total_count = total;
      cases = cases_from overall 0 (or_default tr.details []);
    }

-- `null` as long as the submission is not judged.
unfoldable pub map_submission_to_arventiq_verdict :
    SubmissionStatus → Option JudgeReport → Option String → Option Verdict
map_submission_to_arventiq_verdict status none output = none
map_submission_to_arventiq_verdict status (some tr) output =
    if is_waiting status then none else some (verdict_of tr output)

pub data ArventiqResult : Type 0 where
  unknown : ArventiqResult
  forbidden_result : ArventiqResult
  -- `none` is a result that is still pending
  answer : Option Verdict → ArventiqResult

abbrev pub is_of_arventiq : Submission → Bool
is_of_arventiq s =
    is_some (text_or_null s.external_student_id) || is_some (text_or_null s.external_assessment_id)

-- `report` and `text` read the stored `testResult` and `output` of a submission.
module _ (report : Submission → Option JudgeReport) (text : Submission → Option String) where
  abbrev pub answer_of : Submission → ArventiqResult
  answer_of s =
      if is_of_arventiq s
      then answer (map_submission_to_arventiq_verdict s.status (report s) (text s))
      else forbidden_result

  unfoldable pub get_arventiq_submission_result : Bool → ℕ → Caller → Request ArventiqResult
  get_arventiq_submission_result redis k user = do
    result ← get_submission_by_id redis k user
    pure (elim result [
      | missing ↦ unknown
      | refused ↦ forbidden_result
      | fetched from_cache s ↦ answer_of s
    ])
