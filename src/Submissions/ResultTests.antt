-- ===== src/Submissions/ResultTests.antt =====
-- The theorems about what of a result is shown and what of a problem is sent, at a hidden test.
use assessment_microservice.Base.{◌≡◌, refl, inr, true, false, none, some, [], ◌∷◌, arith, String}
use assessment_microservice.Submissions.Sanitize.{is_hidden_detail, sanitize_result_details}
use assessment_microservice.Base.Int.{pos}
use assessment_microservice.Models.{TestCase, ResultDetail, whole}
use assessment_microservice.Submissions.Secrecy.{SamePublic, sanitize_result_details_same}

abbrev hidden_test : TestCase
hidden_test = record { inputs = "1 2"; expected = "3"; is_sample = none; is_hidden = some true }

-- What the judge reports of the first test, with the output that it saw.
abbrev report_of : String → ResultDetail
report_of seen = record {
  test = some (whole (pos 1));
  test_cap = none;
  inputs = some "1 2";
  input = none;
  input_cap = none;
  expected = some "3";
  expected_cap = none;
  output = some seen;
  output_cap = none;
  passed = none;
  ok = some false;
  passed_cap = none;
  ok_cap = none;
  is_hidden = none;
  stdout = some seen;
  stdout_cap = none;
  stderr = none;
  stderr_cap = none;
  traceback = none;
  traceback_cap = none;
  time_ms = some 12;
  time_ms_cap = none;
  rest = "";
}

same_public : SamePublic true (report_of "4") (report_of "5")
same_public = record {
  same_test = refl;
  same_test_cap = refl;
  same_verdict = refl;
  same_time = refl;
  same_stdout = λ h. ground arith;
  same_stderr = λ h. refl;
  same_traceback = λ h. refl;
}

sanitize_result_details_same_example :
    sanitize_result_details (report_of "4" ∷ []) (hidden_test ∷ []) true
    ≡ sanitize_result_details (report_of "5" ∷ []) (hidden_test ∷ []) true
unfolding is_hidden_detail
sanitize_result_details_same_example =
    sanitize_result_details_same true (hidden_test ∷ []) (report_of "4" ∷ []) (report_of "5" ∷ [])
      (inr (same_public, refl), tt)
