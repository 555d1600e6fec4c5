-- ===== src/Arventiq/SyncTests.antt =====
-- Runs of the synchronisation of problems.
use assessment_microservice.Base.{
  ℕ, ◌≡◌, refl, Bool, true, false, none, some, List, [], ◌∷◌, String,
}
use assessment_microservice.Arventiq.Sync.{
  ArventiqTest, sync_problem, resolve_arventiq_language, ArventiqPayload,
  validate_arventiq_problem_payload, assign_document, blank_problem, judged, inherited_name,
  is_arventiq_test_hidden, find_by_external_id,
}
use assessment_microservice.Arventiq.Submit.{ArventiqSolution}
use assessment_microservice.Models.{Problem}
use assessment_microservice.Arventiq.Synced.{Synced, sync_problem-Synced}
use assessment_microservice.Quota.Window.{fail_open}
use assessment_microservice.Submissions.Intake.{Surroundings}
use assessment_microservice.Store.{World, ok, err, invalid}
use assessment_microservice.Samples.{world, at}
use assessment_microservice.Base.Int.{pos}
use assessment_microservice.Accounts.Words.{to_lower_case, lower_char, trim_text}
use assessment_microservice.Types.{is_space, is_line_end}
use assessment_microservice.Submissions.Judge.{answering}

abbrev to_json : List String → String
to_json [] = ""
to_json (s ∷ ss) = s

abbrev test : Bool → ArventiqTest
test hidden = record {
  input = some "1 2";
  expected_output = some "3";
  is_hidden = hidden;
  visibility = none;
}

abbrev payload : ArventiqPayload
payload = record {
  id = some "77";
  title = none;
  code_language = some " Python3 ";
  question_text = some "Add two numbers.";
  test_cases = some (test false ∷ test true ∷ []);
}

abbrev synced : Problem
synced = assign_document to_json payload (blank_problem 9)

abbrev synced_world : World
synced_world = record world { problems = synced ∷ world.problems }

language_found : resolve_arventiq_language (some " Python3 ") ≡ some (judged "python")
unfolding resolve_arventiq_language to_lower_case lower_char trim_text is_space is_line_end
language_found = refl

-- The map's lookup also finds what every object inherits.
constructor_found : resolve_arventiq_language (some "constructor") ≡ some inherited_name
unfolding resolve_arventiq_language to_lower_case lower_char trim_text is_space is_line_end
constructor_found = refl

payload_accepted : sync_problem to_json 9 payload world ≡ (ok synced, synced_world)
unfolding sync_problem validate_arventiq_problem_payload resolve_arventiq_language to_lower_case
    lower_char trim_text is_space is_line_end is_arventiq_test_hidden find_by_external_id
payload_accepted = refl

-- Nothing of a payload without a visible test case is stored.
hidden_refused :
    sync_problem to_json 9 (record payload { test_cases = some (test true ∷ []) }) world
    ≡ (err (invalid ("at least one test case must be visible" ∷ [])), world)
unfolding sync_problem validate_arventiq_problem_payload resolve_arventiq_language to_lower_case
    lower_char trim_text is_space is_line_end is_arventiq_test_hidden
hidden_refused = refl

sync_problem-Synced_example :
    Synced payload synced synced_world
    × ((j : ℕ) → sync_problem to_json j payload synced_world ≡ (ok synced, synced_world))
sync_problem-Synced_example =
    sync_problem-Synced to_json 9 payload world synced_world synced payload_accepted

abbrev arventiq_solution : ArventiqSolution
arventiq_solution = record {
  user_id = 3;
  question_id = some "77";
  code = some "print(3)";
  external_student_id = some "s1";
  external_assessment_id = none;
}

abbrev surroundings : Surroundings
surroundings = record {
  price = none;
  month = pos 0;
  database = true;
  student_quota = fail_open;
  college_quota = fail_open;
  broker = answering;
  new_id = 50;
  clock = at 5;
}
