-- ===== src/Submissions/Sanitize.antt =====
-- What a student sees of a result: `isSampleTestCase`, `sanitizeResultDetails` and
-- `sanitizeSubmissionForStudent` of submissions.service.js (problems.service.js has a copy of the
-- first two).
use assessment_microservice.Base.{
  ℕ, zero, suc, Bool, true, false, not, Option, none, some, List, [], ◌∷◌, if◌then◌else◌, get_elem?,
}
use assessment_microservice.Models.{
  TestNumber, ResultDetail, TestCase, Submission, whole, Output, Report, Problem, plain, unusual,
  json,
}
use assessment_microservice.Base.Int.{ℤ, pos, negsuc}
use assessment_microservice.Store.{or_default, map_option, is_some}

unfoldable pub is_sample_test_case : TestCase → Bool
is_sample_test_case tc = elim tc.is_sample [
  | some sample ↦ sample
  | none ↦ elim tc.is_hidden [ some hidden ↦ not hidden | none ↦ false ]
]

-- a ?? b, where b may be missing too
abbrev pub coalesce {ℓ} : {A : Type ℓ} → Option A → Option A → Option A
coalesce none b = b
coalesce (some a) b = some a

-- detail.passed ?? detail.ok ?? detail.Passed ?? detail.Ok ?? false
abbrev pub verdict : ResultDetail → Bool
verdict d = or_default (coalesce d.passed (coalesce d.ok (coalesce d.passed_cap d.ok_cap))) false

abbrev pub test_number : ResultDetail → Option TestNumber
test_number d = coalesce d.test d.test_cap

-- testCases[i], where i may be negative
abbrev pub test_case_at : List TestCase → ℤ → Option TestCase
test_case_at tcs (pos i) = get_elem? tcs i
test_case_at tcs (negsuc i) = none

-- n - 1
abbrev pub pred_ℤ : ℤ → ℤ
pred_ℤ (pos zero) = negsuc 0
pred_ℤ (pos (suc n)) = pos n
pred_ℤ (negsuc n) = negsuc (suc n)

-- Number.isInteger(testNum) ? testNum - 1 : idx
abbrev pub test_index : Option TestNumber → ℕ → ℤ
test_index (some (whole n)) idx = pred_ℤ n
test_index (some (unusual t)) idx = pos idx
test_index none idx = pos idx

-- Whether the test case behind a detail is hidden; a detail with no test case is not.
abbrev pub is_hidden_case : Option TestCase → Bool
is_hidden_case none = false
is_hidden_case (some tc) = not (is_sample_test_case tc)

unfoldable pub is_hidden_detail : ResultDetail → ℕ → List TestCase → Bool
unfolding is_sample_test_case
is_hidden_detail d idx tcs = is_hidden_case (test_case_at tcs (test_index (test_number d) idx))

-- What is shown of a sample test.
unfoldable pub shown : ResultDetail → ResultDetail
shown d = record d {
  inputs = coalesce d.inputs (coalesce d.input d.input_cap);
  expected = coalesce d.expected d.expected_cap;
  output = coalesce d.output d.output_cap;
  passed = some (verdict d);
  ok = some (verdict d);
  stdout = coalesce d.stdout d.stdout_cap;
  stderr = coalesce d.stderr d.stderr_cap;
  traceback = coalesce d.traceback d.traceback_cap;
  time_ms = coalesce d.time_ms d.time_ms_cap;
}

-- What is shown of a hidden test: console output in practice, none in an assessment.
unfoldable pub redacted : Bool → ResultDetail → ResultDetail
redacted is_assessment d = record {
  test = test_number d;
  test_cap = none;
  inputs = none;
  input = none;
  input_cap = none;
  expected = none;
  expected_cap = none;
  output = none;
  output_cap = none;
  passed = some (verdict d);
  ok = some (verdict d);
  passed_cap = none;
  ok_cap = none;
  is_hidden = some true;
  stdout = if is_assessment then none else coalesce d.stdout d.stdout_cap;
  stdout_cap = none;
  stderr = if is_assessment then none else coalesce d.stderr d.stderr_cap;
  stderr_cap = none;
  traceback = if is_assessment then none else coalesce d.traceback d.traceback_cap;
  traceback_cap = none;
  time_ms = coalesce d.time_ms d.time_ms_cap;
  time_ms_cap = none;
  rest = "";
}

unfoldable pub sanitize_detail : Bool → List TestCase → ℕ → ResultDetail → ResultDetail
unfolding is_hidden_detail
sanitize_detail is_assessment tcs idx d =
    if is_hidden_detail d idx tcs then redacted is_assessment d else shown d

-- details.map((detail, idx) => …), from position `idx` on
unfoldable pub sanitize_from : Bool → List TestCase → ℕ → List ResultDetail → List ResultDetail
sanitize_from is_assessment tcs idx [] = []
sanitize_from is_assessment tcs idx (d ∷ ds) =
    sanitize_detail is_assessment tcs idx d ∷ sanitize_from is_assessment tcs (suc idx) ds

unfoldable pub sanitize_result_details :
    List ResultDetail → List TestCase → Bool → List ResultDetail
unfolding sanitize_from
sanitize_result_details details tcs is_assessment = sanitize_from is_assessment tcs 0 details

abbrev pub sanitize_report : List TestCase → Bool → Report → Report
sanitize_report tcs is_assessment r = record r {
  details = map_option (λ ds. sanitize_result_details ds tcs is_assessment) r.details;
}

abbrev pub sanitize_output : List TestCase → Bool → Output → Output
sanitize_output tcs is_assessment (plain t) = plain t
sanitize_output tcs is_assessment (json r) = json (sanitize_report tcs is_assessment r)

-- A missing problem leaves the submission as it is.
unfoldable pub sanitize_submission_for_student : Submission → Option Problem → Submission
sanitize_submission_for_student s none = s
sanitize_submission_for_student s (some p) =
    let is_assessment = is_some s.assessment_id in
    record s {
      output = map_option (sanitize_output p.test_cases is_assessment) s.output;
      test_result = map_option (sanitize_report p.test_cases is_assessment) s.test_result;
    }
