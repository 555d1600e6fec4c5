-- ===== src/Attempts/Outcomes.antt =====
-- What `submitAssessment`, `addGraceTime` and `startAssessment` do on each of their branches.
use assessment_microservice.Base.{ℕ, ◌≡◌, refl, true, false, some, arith, if◌then◌else◌}
use assessment_microservice.Attempts.Expiry.{
  Clock, Caller, is_active, is_attempt_expired, expiration_time, college_scope_for,
}
use assessment_microservice.Attempts.Submit.{
  close_attempt, submit_assessment, time_out, hand_in, is_other_student,
}
use assessment_microservice.Store.{
  World, attempt_at, ok, assessment_at, in_scope, err, type_error, find_by-update_by, is_some,
  user_at,
}
use assessment_microservice.Models.{Attempt, Assessment, active}
use assessment_microservice.Attempts.Score.{
  earned, successful, all_present, recalculate_attempt_score-attempt_at, recalculate_attempt_score,
}

-- The attempt with the score that it has earned.
abbrev pub scored : ℕ → World → Assessment → Attempt → Attempt
scored k w s a = record a { score = earned (successful k w) s.problems }

-- How an active attempt ends.
abbrev pub ended : ℕ → Clock → World → Assessment → Attempt → Attempt
ended k clock w s a =
    if is_attempt_expired a s (clock 0)
    then time_out (expiration_time a s) (scored k w s a)
    else hand_in (clock 1) (clock 2) (scored k w s a)

-- The guards of `submitAssessment` that a caller meets.
pub record MayClose (k : ℕ) (user : Caller) (w : World) (a : Attempt) (s : Assessment)
    : Type 0 where
  pub found : attempt_at k w ≡ some a
  pub there : assessment_at a.assessment_id w ≡ some s
  pub attempt_in_scope : in_scope (college_scope_for user) a.college_id ≡ true
  pub assessment_in_scope : in_scope (college_scope_for user) s.college_id ≡ true
  pub student_there : is_some (user_at a.student_id w) ≡ true
  pub own : is_other_student user a.student_id ≡ false

close_attempt-ended :
    (k : ℕ) (user : Caller) (clock : Clock) (w : World) (a : Attempt) (s : Assessment)
    → attempt_at k w ≡ some a
    → assessment_at a.assessment_id w ≡ some s
    → all_present w s.problems ≡ true
    → let (r, w') = close_attempt k user clock a s w in
      (r ≡ ok (some (ended k clock w s a))) × (attempt_at k w' ≡ some (ended k clock w s a))
unfolding close_attempt
close_attempt-ended k user clock w a s found there present = ground (
  arith,
  recalculate_attempt_score-attempt_at k k w a s found there,
  find_by-update_by (λ (x : Attempt). x.id) k k (time_out (expiration_time a s))
      (recalculate_attempt_score k w).1.attempts (λ x. refl),
  find_by-update_by (λ (x : Attempt). x.id) k k (hand_in (clock 1) (clock 2))
      (recalculate_attempt_score k w).1.attempts (λ x. refl),
)

-- For a caller who meets the guards of `MayClose`, submitting an active attempt, all of whose
-- problems still exist, scores it and ends it: past its expiration time as timed out at that time,
-- before it as submitted at the time of the request. The caller gets the attempt as it is then
-- stored.
pub submit_assessment-ended :
    (k : ℕ) (user : Caller) (clock : Clock) (w : World) (a : Attempt) (s : Assessment)
    → MayClose k user w a s
    → a.status ≡ active
    → all_present w s.problems ≡ true
    → let (r, w') = submit_assessment k user clock w in
      (r ≡ ok (some (ended k clock w s a))) × (attempt_at k w' ≡ some (ended k clock w s a))
unfolding submit_assessment
submit_assessment-ended k user clock w a s v on present =
    ground (arith, close_attempt-ended k user clock w a s v.found v.there present)

-- For a caller who meets the guards of `MayClose`, submitting an attempt that is no longer active
-- changes nothing and returns the attempt.
pub submit_assessment-again :
    (k : ℕ) (user : Caller) (clock : Clock) (w : World) (a : Attempt) (s : Assessment)
    → MayClose k user w a s
    → is_active a.status ≡ false
    → submit_assessment k user clock w ≡ (ok (some a), w)
unfolding submit_assessment
submit_assessment-again k user clock w a s v over = ground arith

-- A deleted problem blocks its assessment: whoever meets the guards of `MayClose`, and at any time,
-- cannot submit an active attempt of it; the request raises a TypeError and the attempt stays as it
-- was.
pub submit_assessment-deleted_problem :
    (k : ℕ) (user : Caller) (clock : Clock) (w : World) (a : Attempt) (s : Assessment)
    → MayClose k user w a s
    → a.status ≡ active
    → all_present w s.problems ≡ false
    → ((submit_assessment k user clock w).0 ≡ err type_error)
      × (attempt_at k (submit_assessment k user clock w).1 ≡ some a)
unfolding submit_assessment close_attempt
submit_assessment-deleted_problem k user clock w a s v on gone =
    ground (arith, recalculate_attempt_score-attempt_at k k w a s v.found v.there)
