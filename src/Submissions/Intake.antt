-- ===== src/Submissions/Intake.antt =====
-- `submitSolution` of submissions.service.js. The answers of the two burst quotas (Quota.Window) are
-- arguments, as are the price of the paid plan, the start of the month, whether the database answers
-- the plan's check, how RabbitMQ answers, the clock and the id of the new document.
use assessment_microservice.Base.{
  ℕ, Bool, false, not, ◌&&◌, ◌||◌, Option, none, some, ◌∷◌, if◌then◌else◌, String, text_eq,
}
use assessment_microservice.Store.{
  Request, World, pure, err, ◌>>=◌, ◌>>◌, validation_error, update_attempt, modify, raise_if, ok,
  http, gets, problem_at,
}
use assessment_microservice.Models.{Submission, Problem, pending, solution}
use assessment_microservice.Base.Int.{ℤ}
use assessment_microservice.Quota.Window.{QuotaResult}
use assessment_microservice.Submissions.Gate.{validate_assessment_submission}
use assessment_microservice.Billing.Service.{college_allows_premium, check_plan_usage_limit}
use assessment_microservice.Attempts.Expiry.{Clock}
use assessment_microservice.Attempts.Submit.{push_event}
use assessment_microservice.Submissions.Judge.{
  build_judge_message_body, validate_submission_message, publish_submission_message, Broker,
}

pub record Solution : Type 0 where
  pub problem_id : ℕ
  pub code : String
  pub language : String
  pub user_id : ℕ
  pub college_id : Option ℕ
  pub assessment_id : Option ℕ
  pub attempt_id : Option ℕ
  pub external_student_id : Option String
  pub external_assessment_id : Option String

-- What the request meets outside of the database.
pub record Surroundings : Type 0 where
  pub price : Option String
  pub month : ℤ
  pub database : Bool
  pub student_quota : QuotaResult
  pub college_quota : QuotaResult
  pub broker : Broker
  pub new_id : ℕ
  pub clock : Clock

pub data Submitted : Type 0 where
  no_problem : Submitted
  accepted_as : Submission → Submitted

abbrev pub pending_submission : ℕ → Solution → Submission
pending_submission k s = record {
  id = k;
  problem_id = s.problem_id;
  user_id = s.user_id;
  assessment_id = s.assessment_id;
  attempt_id = s.attempt_id;
  college_id = s.college_id;
  score = 0;
  code = s.code;
  language = s.language;
  status = pending;
  output = none;
  test_result = none;
  external_student_id = s.external_student_id;
  external_assessment_id = s.external_assessment_id;
}

-- submissionsRepo.create: the schema requires a code and a language, and takes no empty text.
abbrev pub submission_create : Submission → Request Submission
submission_create s w =
    if text_eq s.code "" || text_eq s.language ""
    then (err validation_error, w)
    else (ok s, record w { submissions = s ∷ w.submissions })

-- The checks on the college: its burst quota, then its plan.
unfoldable pub check_college : Surroundings → Option ℕ → Request (Unit {0})
check_college o none = pure tt
check_college o (some college) = do
  raise_if (not o.college_quota.allowed) (http 429 "Submission quota exceeded")
  usage ← gets (check_plan_usage_limit o.price (some college) o.month o.database)
  raise_if (not usage.0) (http 402 "Plan usage limit exceeded")

-- problem.isPremium && collegeId && !(await collegeAllowsPremium(collegeId))
abbrev pub is_locked_premium : Surroundings → Problem → Option ℕ → World → Bool
is_locked_premium o problem none w = false
is_locked_premium o problem (some college) w =
    problem.is_premium && not (college_allows_premium o.price (some college) w)

-- The entry in the attempt's timeline; a failure to write it is only logged.
abbrev pub log_solution : Surroundings → Solution → Problem → World → World
log_solution o s problem w = elim s.attempt_id [
  | none ↦ w
  | some attempt ↦
      update_attempt attempt
        (push_event (record {
          event = "SUBMIT_PROBLEM";
          timestamp = o.clock 1;
          details = solution s.problem_id problem.title o.new_id;
        }))
        w
]

-- The part of `submitSolution` behind its checks: the document, the timeline, the message.
unfoldable pub enqueue_solution : Surroundings → Solution → Problem → Request Submitted
enqueue_solution o s problem = do
  submission ← submission_create (pending_submission o.new_id s)
  modify (log_solution o s problem)
  let message = build_judge_message_body submission.id problem s.language s.code s.college_id
  raise_if (not (validate_submission_message message)) (http 500 "Invalid submission message")
  publish_submission_message o.broker message
  pure (accepted_as submission)

-- From the lookup of the problem on.
unfoldable pub solution_of_problem : Surroundings → Solution → Request Submitted
solution_of_problem o s = do
  found ← gets (problem_at s.problem_id)
  elim found [
    | none ↦ pure no_problem
    | some problem ↦ do
      premium ← gets (is_locked_premium o problem s.college_id)
      raise_if premium (http 402 "Upgrade required for premium problems")
      enqueue_solution o s problem
  ]

unfoldable pub submit_solution : Surroundings → Solution → Request Submitted
submit_solution o s = do
  validate_assessment_submission s.problem_id s.language s.user_id s.assessment_id s.attempt_id
      (o.clock 0)
  raise_if (not o.student_quota.allowed) (http 429 "Submission quota exceeded")
  check_college o s.college_id
  solution_of_problem o s
