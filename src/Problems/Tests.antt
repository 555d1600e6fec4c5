-- ===== src/Problems/Tests.antt =====
-- Runs of the views and of a run with own tests.
use assessment_microservice.Base.{◌≡◌, refl, true, false, Option, none, some, [], ◌∷◌, String, List}
use assessment_microservice.Submissions.Sanitize.{is_sample_test_case}
use assessment_microservice.Models.{Problem, Report, TestCase, student, function, exact}
use assessment_microservice.Problems.{
  fill_map, get_problem_by_id, CustomTest, RunMessage, run_message, run_problem, problem_at,
  replied, ok,
}
use assessment_microservice.Attempts.Expiry.{Caller}
use assessment_microservice.Store.{find_by, World}
use assessment_microservice.Problems.Secret.{
  get_problem_by_id_same, SameButHidden, run_problem-fills,
}
use assessment_microservice.Samples.{world, problem}
use assessment_microservice.Problems.Payload.{
  ProblemPayload, normalize_problem_payload, validate_problem_payload, heading_errors,
  signature_errors,
}
use assessment_microservice.Problems.Stored.{Presentable, create_problem-Presentable}
use assessment_microservice.Problems.Create.{create_problem, check_payload, problem_document}
use assessment_microservice.Accounts.Words.{trim_text}
use assessment_microservice.Types.{is_space, is_line_end}

abbrev sample_case : TestCase
sample_case = record { inputs = "[1,2]"; expected = "3"; is_sample = some true; is_hidden = none }

abbrev hidden_case : String → TestCase
hidden_case e = record {
  inputs = "[7,8]";
  expected = e;
  is_sample = some false;
  is_hidden = some true;
}

abbrev with_hidden : String → Problem
with_hidden e = record (problem 5) { test_cases = sample_case ∷ hidden_case e ∷ [] }

abbrev holding : String → World
holding e = record world { problems = with_hidden e ∷ [] }

abbrev reader : Option Caller
reader = some record { id = 1; role = student; college_id = some 7 }

held : (e : String) → problem_at 5 (holding e) ≡ some (with_hidden e)
unfolding find_by
held e = refl

same_samples : SameButHidden (with_hidden "15") (with_hidden "16")
unfolding is_sample_test_case
same_samples = (refl, refl)

get_problem_by_id_same_example :
    get_problem_by_id none 5 reader (holding "15") ≡ get_problem_by_id none 5 reader (holding "16")
get_problem_by_id_same_example =
    get_problem_by_id_same none 5 reader (holding "15") (holding "16") (with_hidden "15")
      (with_hidden "16") refl refl (held "15") (held "16") same_samples

abbrev empty_report : Report
empty_report = record { details = some []; others = "" }

abbrev own : CustomTest
own = record { inputs = "[7,8]"; expected = none }

abbrev message : RunMessage
message = run_message 9 (with_hidden "15") "python" "pass" (own ∷ [])

run_problem-fills_example :
    (message.tests ≡ record { inputs = "[7,8]"; expected = some "15" } ∷ [])
    × (run_problem (λ m. replied empty_report) 9 5 "python" "pass" (own ∷ []) (holding "15")
        ≡ ok empty_report)
unfolding fill_map
run_problem-fills_example =
    run_problem-fills (λ m. replied empty_report) 9 5 "python" "pass" (holding "15")
      (with_hidden "15") (sample_case ∷ []) [] (hidden_case "15") empty_report [] (held "15") refl
      refl refl refl

abbrev sum_payload : ProblemPayload
sum_payload = record {
  title = some " Sum";
  description = some "Add two numbers";
  difficulty = some "Easy";
  function_name = some "sum";
  return_type = some "number";
  parameters = some (record { name = some "a"; type = some "number" } ∷ []);
  test_cases = some (
      record { inputs = some ("1" ∷ []); expected = some "1"; is_sample = true }
      ∷ record { inputs = some ("7" ∷ []); expected = some "7"; is_sample = false }
      ∷ []);
  mode = none;
  float_tolerance = none;
  problem_type = function;
  is_premium = false;
}

abbrev first_input : List String → String
first_input [] = ""
first_input (s ∷ ss) = s

abbrev sum_problem : Problem
sum_problem = record {
  id = 8;
  external_id = none;
  title = "Sum";
  problem_type = function;
  function_name = some "sum";
  compare_mode = exact;
  test_cases =
      record { inputs = "1"; expected = "1"; is_sample = some true; is_hidden = some false }
      ∷ record { inputs = "7"; expected = "7"; is_sample = some false; is_hidden = some true }
      ∷ [];
  is_premium = false;
}

sum_created :
    create_problem first_input (λ p. true) 8 sum_payload world
    ≡ (ok sum_problem, record world { problems = sum_problem ∷ world.problems })
unfolding create_problem check_payload normalize_problem_payload validate_problem_payload
    heading_errors signature_errors problem_document trim_text is_space is_line_end
sum_created = refl

create_problem-Presentable_example :
    Presentable sum_problem
    × (record world { problems = sum_problem ∷ world.problems }
        ≡ record world { problems = sum_problem ∷ world.problems })
create_problem-Presentable_example =
    create_problem-Presentable first_input (λ p. true) 8 sum_payload world
      (record world { problems = sum_problem ∷ world.problems }) sum_problem sum_created
