-- ===== src/Submissions/Judge.antt =====
-- The message for the judge, `buildJudgeTests`, `buildJudgeMessageBody` and
-- `validateSubmissionMessage` of submissions.service.js, and `publishSubmissionMessage` of
-- evaluation.service.js. How RabbitMQ answers is the argument `broker`; a message that it was sent is
-- in its queue.
use assessment_microservice.Base.{
  ℕ, zero, suc, ◌≡◌, ◌≢◌, ◌↔◌, refl, ap, inl, inr, Bool, true, false, not, ◌&&◌, Option, none, some,
  List, [], ◌∷◌, ◌++◌, arith, leb, if◌then◌else◌, String, text_eq, Bool-cases, length, get_elem?,
  text_eq_iff,
}
use assessment_microservice.Models.{Problem, ProblemType, TestCase, function, stdin}
use assessment_microservice.Store.{
  JudgeMessage, JudgeTest, Request, err, map_option, http, ok, Failure,
}
use assessment_microservice.Submissions.Sanitize.{is_sample_test_case}

abbrev pub judge_test : TestCase → JudgeTest
judge_test tc = record {
  inputs = tc.inputs;
  expected = tc.expected;
  is_hidden = not (is_sample_test_case tc);
  is_sample = is_sample_test_case tc;
}

unfoldable pub build_judge_tests : List TestCase → List JudgeTest
build_judge_tests [] = []
build_judge_tests (tc ∷ tcs) = judge_test tc ∷ build_judge_tests tcs

-- problem.functionName || "solution"
abbrev pub function_or_default : Option String → String
function_or_default none = "solution"
function_or_default (some name) = if text_eq name "" then "solution" else name

abbrev pub wrapped_function : ProblemType → Option String → Option String
wrapped_function function name = some (function_or_default name)
wrapped_function stdin name = none

-- The request's id, which only the logs use, is left out; `college` is added by `submitSolution`.
unfoldable pub build_judge_message_body : ℕ → Problem → String → String → Option ℕ → JudgeMessage
build_judge_message_body submission problem language code college = record {
  submission_id = submission;
  problem_id = problem.id;
  language = language;
  code = code;
  tests = build_judge_tests problem.test_cases;
  problem_type = problem.problem_type;
  compare_mode = problem.compare_mode;
  function_name = wrapped_function problem.problem_type problem.function_name;
  college_id = college;
}

-- Whether the function's name that the problem's type asks for is there.
abbrev pub is_named : ProblemType → Option String → Bool
is_named stdin name = true
is_named function none = false
is_named function (some name) = not (text_eq name "")

-- An id is never an empty text, and a test always has its two keys.
unfoldable pub validate_submission_message : JudgeMessage → Bool
validate_submission_message m =
    not (text_eq m.language "")
    && not (text_eq m.code "")
    && is_named m.problem_type m.function_name

abbrev pub max_queue_depth : ℕ
max_queue_depth = 5000

-- A step before the message is sent fails; all steps are done; or the closing of the connection, which
-- the service opens and closes for a message where it holds none, fails.
pub data Broker : Type 0 where
  unreachable answering failing_to_close : Broker

abbrev pub queue_unavailable : Failure
queue_unavailable = http 503 "Queue Service Unavailable"

-- The connection is closed before the error about a full queue is made, and after the message is
-- sent: the `catch` answers a failure there as it does any other.
unfoldable pub publish_submission_message : Broker → JudgeMessage → Request (Unit {0})
publish_submission_message unreachable m w = (err queue_unavailable, w)
publish_submission_message answering m w =
    if leb max_queue_depth (length w.queue)
    then (err (http 503 "Service Overloaded: Too many pending submissions"), w)
    else (ok tt, record w { queue = w.queue ++ m ∷ [] })
publish_submission_message failing_to_close m w =
    if leb max_queue_depth (length w.queue)
    then (err queue_unavailable, w)
    else (err queue_unavailable, record w { queue = w.queue ++ m ∷ [] })

-- Each test that is sent keeps its data, and exactly the hidden ones are marked as hidden: the judge
-- gets the tests in the order of the problem.
pub get_elem?-build_judge_tests :
    (tcs : List TestCase) (i : ℕ)
    → get_elem? (build_judge_tests tcs) i ≡ map_option judge_test (get_elem? tcs i)
unfolding build_judge_tests
get_elem?-build_judge_tests [] i = refl
get_elem?-build_judge_tests (tc ∷ tcs) zero = refl
get_elem?-build_judge_tests (tc ∷ tcs) (suc i) = get_elem?-build_judge_tests tcs i

function_or_default_nonempty :
    (name : Option String) → text_eq (function_or_default name) "" ≡ false
function_or_default_nonempty none = refl
function_or_default_nonempty (some name) = elim (Bool-cases (text_eq name "")) [
  | inl e ↦ cc
  | inr e ↦ cc
]

is_named_wrapped :
    (t : ProblemType) (name : Option String) → is_named t (wrapped_function t name) ≡ true
is_named_wrapped stdin name = refl
is_named_wrapped function name = ap not (function_or_default_nonempty name)

-- The message that the service builds passes its own validation as soon as there are a language and
-- a code, whatever the problem is.
pub validate_submission_message_iff :
    (submission : ℕ) (p : Problem) (language code : String) (college : Option ℕ)
    → (validate_submission_message (build_judge_message_body submission p language code college)
        ≡ true)
      ↔ ((language ≢ "") × (code ≢ ""))
unfolding validate_submission_message build_judge_message_body
validate_submission_message_iff submission p language code college = ground (
  arith,
  text_eq_iff language "",
  text_eq_iff code "",
  is_named_wrapped p.problem_type p.function_name,
)
