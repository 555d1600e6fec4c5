-- ===== src/Submissions/Rejudge.antt =====
-- `rejudgeSubmission`, `rejudgeProblemSubmissions` and `rejudgeAssessmentSubmissions` of
-- submissions.service.js.
use assessment_microservice.Base.{
  ℕ, Bool, true, not, ◌&&◌, Option, none, some, List, [], ◌∷◌, ◌==◌, length,
}
use assessment_microservice.Store.{
  World, Request, pure, ◌>>◌, update_by, filter, JudgeMessage, ◌>>=◌, is_id, gets, modify,
  submission_at, problem_at, assessment_by_id, or_raise, http, raise_if,
}
use assessment_microservice.Models.{Problem, Submission, pending}
use assessment_microservice.Submissions.Judge.{
  build_judge_message_body, publish_submission_message, validate_submission_message, Broker,
}

-- The fields that a new run fills in again.
abbrev pub reset : Submission → Submission
reset s = record s { status = pending; score = 0; output = none; test_result = none }

abbrev pub update_submission : ℕ → (Submission → Submission) → World → World
update_submission k f w = record w { submissions = update_by (λ s. s.id) k f w.submissions }

abbrev pub message_again : Problem → Submission → JudgeMessage
message_again p s = build_judge_message_body s.id p s.language s.code none

unfoldable pub rejudge_submission : Broker → ℕ → Request Submission
rejudge_submission broker k = do
  found ← gets (submission_at k)
  submission ← or_raise found (http 404 "Submission not found")
  problem? ← gets (problem_at submission.problem_id)
  problem ← or_raise problem? (http 404 "Problem not found for this submission")
  modify (update_submission submission.id reset)
  raise_if (not (validate_submission_message (message_again problem submission)))
      (http 500 "Invalid submission message configuration")
  publish_submission_message broker (message_again problem submission)
  pure (reset submission)

-- One turn of the two loops.
unfoldable pub rejudge_one : Broker → Problem → Submission → Request (Unit {0})
rejudge_one broker p s = do
  modify (update_submission s.id reset)
  publish_submission_message broker (message_again p s)

-- for (const submission of submissions) …, for one problem
unfoldable pub rejudge_each : Broker → Problem → List Submission → Request (Unit {0})
rejudge_each broker p [] = pure tt
rejudge_each broker p (s ∷ rest) = do rejudge_one broker p s; rejudge_each broker p rest

-- filter.assessmentId = assessmentId, where one is given
abbrev pub in_assessment : Option ℕ → Submission → Bool
in_assessment none s = true
in_assessment (some a) s = is_id s.assessment_id a

abbrev pub submissions_of : ℕ → Option ℕ → World → List Submission
submissions_of problem assessment w =
    filter (λ s. s.problem_id == problem && in_assessment assessment s) w.submissions

unfoldable pub rejudge_problem_submissions : Broker → ℕ → Option ℕ → Request ℕ
rejudge_problem_submissions broker problem assessment = do
  found ← gets (problem_at problem)
  p ← or_raise found (http 404 "Problem not found")
  submissions ← gets (submissions_of problem assessment)
  rejudge_each broker p submissions
  pure (length submissions)

-- Of a submission whose problem is gone nothing is done. The source keeps the problems that it has
-- read, and nothing here changes a problem.
unfoldable pub rejudge_found : Broker → List Submission → Request (Unit {0})
rejudge_found broker [] = pure tt
rejudge_found broker (s ∷ rest) = do
  found ← gets (problem_at s.problem_id)
  elim found [ none ↦ pure tt | some p ↦ rejudge_one broker p s ]
  rejudge_found broker rest

unfoldable pub rejudge_assessment_submissions : Broker → ℕ → Request ℕ
rejudge_assessment_submissions broker assessment = do
  found ← gets (assessment_by_id (some assessment) none)
  or_raise found (http 404 "Assessment not found")
  submissions ← gets (λ w. filter (λ s. is_id s.assessment_id assessment) w.submissions)
  rejudge_found broker submissions
  pure (length submissions)
