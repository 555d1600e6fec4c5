-- ===== src/Attempts/Start.antt =====
-- `startAssessment` of assessments.service.js. Between the lookup of an attempt and its creation
-- other requests run: what they do to the world is the argument `meanwhile`. The identifier of the
-- new document and the random order of its problems are arguments too.
use assessment_microservice.Base.{ℕ, Bool, true, false, not, Option, none, some, List, [], ◌∷◌}
use assessment_microservice.Base.Int.{ℤ, pos, ltb_ℤ}
use assessment_microservice.Models.{
  Assessment, AssessmentStatus, published, AssessmentProblem, Attempt, active, Challenge,
  unchallenged, bare,
}
use assessment_microservice.Store.{
  World, Request, Result, ok, err, http, type_error, pure, gets, modify, or_raise, raise_if, ◌>>=◌,
  ◌>>◌, catch_duplicate, assessment_by_id, attempt_of, attempt_create, problem_ref, log_event,
}
use assessment_microservice.Attempts.Expiry.{Caller, Clock, college_scope_for}

abbrev pub is_published : AssessmentStatus → Bool
is_published published = true
is_published _ = false

-- assessment.problems.map(p => p.problemId._id || p.problemId)
abbrev pub problem_ids : World → List AssessmentProblem → Result (List ℕ)
problem_ids w [] = ok []
problem_ids w (p ∷ ps) = elim (problem_ref w p) [
  | none ↦ err type_error
  | some k ↦ elim (problem_ids w ps) [ ok ks ↦ ok (k ∷ ks) | err e ↦ err e ]
]

-- The schema's default for `challenge`.
abbrev pub no_challenge : Challenge
no_challenge = record {
  status = unchallenged;
  reason = none;
  faculty_comment = none;
  raised_at = none;
  resolved_at = none;
}

abbrev pub first_of_two : Option ℕ → Option ℕ → Option ℕ
first_of_two none b = b
first_of_two (some a) b = some a

abbrev pub new_attempt : ℕ → Assessment → Caller → ℤ → List ℕ → Attempt
new_attempt id assessment user now order = record {
  id = id;
  assessment_id = assessment.id;
  student_id = user.id;
  college_id = first_of_two assessment.college_id user.college_id;
  started_at = now;
  submitted_at = none;
  score = 0;
  status = active;
  grace_minutes = pos 0;
  code_drafts = "{}";
  challenge = no_challenge;
  tab_switch_count = 0;
  copy_count = 0;
  paste_count = 0;
  fullscreen_exit_count = 0;
  problem_order = order;
  timeline = record { event = "START"; timestamp = now; details = bare } ∷ [];
}

-- The world once a new attempt is stored and logged.
abbrev pub started : Attempt → Caller → World → World
started a user w = record w {
  attempts = a ∷ w.attempts;
  audit_logs = record { event = "ASSESSMENT_STARTED"; user_id = some user.id } ∷ w.audit_logs;
}

module _ (meanwhile : World → World) (shuffle : List ℕ → List ℕ) (new_id : ℕ) where
  -- The creation of the attempt, once the shuffled order is there.
  unfoldable pub create_attempt : Assessment → Caller → ℤ → List ℕ → Request (Option Attempt)
  create_attempt assessment user now ids =
      modify meanwhile
      >> catch_duplicate
          (do
            attempt ← attempt_create (new_attempt new_id assessment user now (shuffle ids))
            log_event "ASSESSMENT_STARTED" (some user.id)
            pure (some attempt))
          (gets (attempt_of assessment.id user.id))

  unfoldable pub start_assessment : ℕ → Caller → Clock → Request (Option Attempt)
  unfolding create_attempt
  start_assessment assessment_id user clock = do
    found ← gets (assessment_by_id (some assessment_id) (college_scope_for user))
    assessment ← or_raise found (http 404 "Assessment not found")
    raise_if (not (is_published assessment.status)) (http 400 "Assessment is not active")
    raise_if assessment.locked (http 409 "Assessment is locked by the faculty")
    raise_if (ltb_ℤ (clock 0) assessment.start_time) (http 400 "Assessment has not started yet")
    raise_if (ltb_ℤ assessment.end_time (clock 0)) (http 400 "Assessment has already ended")
    existing ← gets (attempt_of assessment_id user.id)
    elim existing [
      | some attempt ↦ pure (some attempt)
      | none ↦ λ w. elim (problem_ids w assessment.problems) [
        | err e ↦ (err e, w)
        | ok ids ↦ create_attempt assessment user (clock 0) ids w
      ]
    ]
