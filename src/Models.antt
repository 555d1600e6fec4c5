-- ===== src/Models.antt =====
-- assessment-api/models/*.mjs: the documents that the API keeps, a record for each schema and a
-- data type for each `enum`. An ObjectId is only ever compared, so it is a number. A date is the
-- number of milliseconds that JavaScript gives it, a whole number of either sign; minutes are whole
-- numbers too. An optional path of a schema is an `Option`. Fields that no modelled operation reads
-- or writes (descriptions, `createdAt` stamps) are left out.
use assessment_microservice.Base.{ℕ, String, Bool, Option, List}
use assessment_microservice.Base.Int.{ℤ}

-- User.role
pub data Role : Type 0 where
  student faculty admin superadmin : Role

pub record User : Type 0 where
  pub id : ℕ
  pub name : String
  pub email : String
  -- a bcrypt hash
  pub password : String
  pub role : Role
  pub usn : Option String
  pub section : Option String
  pub college_id : Option ℕ

-- Assessment.status
pub data AssessmentStatus : Type 0 where
  draft published completed : AssessmentStatus

-- An entry of Assessment.problems. `max_score` has its schema default by the time it is stored.
pub record AssessmentProblem : Type 0 where
  pub problem_id : ℕ
  pub max_score : ℕ

pub record Announcement : Type 0 where
  pub message : String
  pub sent_at : ℤ

pub record Assessment : Type 0 where
  pub id : ℕ
  pub title : String
  pub start_time : ℤ
  pub end_time : ℤ
  pub duration_minutes : ℤ
  pub allowed_languages : List String
  pub problems : List AssessmentProblem
  pub created_by : ℕ
  pub college_id : Option ℕ
  pub status : AssessmentStatus
  pub locked : Bool
  pub announcements : List Announcement

-- AssessmentAttempt.status
pub data AttemptStatus : Type 0 where
  active submitted timed_out : AttemptStatus

-- AssessmentAttempt.challenge.status
pub data ChallengeStatus : Type 0 where
  unchallenged raised accepted rejected : ChallengeStatus

pub record Challenge : Type 0 where
  pub status : ChallengeStatus
  pub reason : Option String
  pub faculty_comment : Option String
  pub raised_at : Option ℤ
  pub resolved_at : Option ℤ

-- What the code stores under `details` of a timeline entry.
pub data Details : Type 0 where
  bare : Details
  grace : ℤ → ℤ → Details
  reason : String → Details
  comment : String → Details
  solution : ℕ → String → ℕ → Details

pub record TimelineEvent : Type 0 where
  pub event : String
  pub timestamp : ℤ
  pub details : Details

pub record Attempt : Type 0 where
  pub id : ℕ
  pub assessment_id : ℕ
  pub student_id : ℕ
  pub college_id : Option ℕ
  pub started_at : ℤ
  pub submitted_at : Option ℤ
  pub score : ℕ
  pub status : AttemptStatus
  pub grace_minutes : ℤ
  pub code_drafts : String
  pub challenge : Challenge
  pub tab_switch_count : ℕ
  pub copy_count : ℕ
  pub paste_count : ℕ
  pub fullscreen_exit_count : ℕ
  pub problem_order : List ℕ
  pub timeline : List TimelineEvent

-- Submission.status
pub data SubmissionStatus : Type 0 where
  pending running success fail error : SubmissionStatus

-- `test` of a result detail: a whole number, or anything else.
pub data TestNumber : Type 0 where
  whole : ℤ → TestNumber
  unusual : String → TestNumber

-- One entry of a judge's `details`, a JSON object: the keys that the API reads, each present or
-- absent, and in `rest` all its other keys. The judge writes a key small or capitalised: `test` and
-- `Test`, here `test` and `test_cap`.
pub record ResultDetail : Type 0 where
  pub test : Option TestNumber
  pub test_cap : Option TestNumber
  pub inputs : Option String
  pub input : Option String
  pub input_cap : Option String
  pub expected : Option String
  pub expected_cap : Option String
  pub output : Option String
  pub output_cap : Option String
  pub passed : Option Bool
  pub ok : Option Bool
  pub passed_cap : Option Bool
  pub ok_cap : Option Bool
  pub is_hidden : Option Bool
  pub stdout : Option String
  pub stdout_cap : Option String
  pub stderr : Option String
  pub stderr_cap : Option String
  pub traceback : Option String
  pub traceback_cap : Option String
  pub time_ms : Option ℕ
  pub time_ms_cap : Option ℕ
  pub rest : String

-- A judge's report: its `details`, if that is an array, and its other keys.
pub record Report : Type 0 where
  pub details : Option (List ResultDetail)
  pub others : String

-- Submission.output: a text that `JSON.parse` refuses, or a report as JSON.
pub data Output : Type 0 where
  plain : String → Output
  json : Report → Output

pub record Submission : Type 0 where
  pub id : ℕ
  pub problem_id : ℕ
  pub user_id : ℕ
  pub assessment_id : Option ℕ
  pub attempt_id : Option ℕ
  pub college_id : Option ℕ
  pub score : ℕ
  pub code : String
  pub language : String
  pub status : SubmissionStatus
  pub output : Option Output
  pub test_result : Option Report
  pub external_student_id : Option String
  pub external_assessment_id : Option String

-- Problem.problemType
pub data ProblemType : Type 0 where
  function stdin : ProblemType

-- Problem.compareConfig.mode
pub data CompareMode : Type 0 where
  exact structural : CompareMode

pub record TestCase : Type 0 where
  pub inputs : String
  pub expected : String
  pub is_sample : Option Bool
  pub is_hidden : Option Bool

pub record Problem : Type 0 where
  pub id : ℕ
  pub external_id : Option String
  pub title : String
  pub problem_type : ProblemType
  pub function_name : Option String
  pub compare_mode : CompareMode
  pub test_cases : List TestCase
  pub is_premium : Bool

-- College.planId, a free text; config/plans.js says what each names.
-- College.subscriptionStatus
pub data SubscriptionStatus : Type 0 where
  unsubscribed trialing subscribed past_due canceled : SubscriptionStatus

pub record College : Type 0 where
  pub id : ℕ
  pub name : String
  -- character codes
  pub slug : List ℕ
  pub plan_id : String
  pub stripe_customer_id : Option String
  pub stripe_subscription_id : Option String
  pub subscription_status : SubscriptionStatus
  pub current_period_end : Option ℤ

pub record UsageEvent : Type 0 where
  pub college_id : ℕ
  pub created_at : ℤ

pub record AuditLog : Type 0 where
  pub event : String
  pub user_id : Option ℕ
