-- ===== src/Attempts/Submit.antt =====
-- `submitAssessment` and `getAssessmentAttemptById` of assessments.service.js: the ways an attempt
-- comes to its end.
use assessment_microservice.Base.{
  ℕ, ◌≡◌, Bool, true, false, not, ◌&&◌, Option, none, some, List, [], ◌∷◌, ◌++◌, ◌==◌, leb,
  if◌then◌else◌, arith, String,
}
use assessment_microservice.Base.Int.{ℤ}
use assessment_microservice.Models.{
  Assessment, AssessmentProblem, Attempt, submitted, timed_out, TimelineEvent, bare,
}
use assessment_microservice.Store.{
  World, Request, Failure, http, type_error, pure, gets, or_raise, raise_if, ◌>>=◌, ◌>>◌, branch,
  modify, update_attempt, attempt_by_id, attempt_update_by_id, assessment_by_id, log_event,
  or_default,
}
use assessment_microservice.Attempts.Expiry.{
  Caller, Clock, college_scope_for, is_student, is_active, expiration_time, is_attempt_expired,
}
use assessment_microservice.Attempts.Score.{recalculate_attempt_score}

abbrev pub attempt_not_found : Failure
attempt_not_found = http 404 "Attempt not found"

abbrev pub forbidden : Failure
forbidden = http 403 "Forbidden"

-- user.role === 'student' && String(studentId) !== String(user._id)
abbrev pub is_other_student : Caller → ℕ → Bool
is_other_student user owner = is_student user.role && not (owner == user.id)

abbrev pub push_event : TimelineEvent → Attempt → Attempt
push_event e a = record a { timeline = a.timeline ++ e ∷ [] }

abbrev pub time_out : ℤ → Attempt → Attempt
time_out at a =
    push_event (record { event = "TIMED_OUT"; timestamp = at; details = bare })
      (record a { status = timed_out; submitted_at = some at })

abbrev pub hand_in : ℤ → ℤ → Attempt → Attempt
hand_in at logged a =
    push_event (record { event = "SUBMIT"; timestamp = logged; details = bare })
      (record a { status = submitted; submitted_at = some at })

-- The part of `submitAssessment` behind its guards. The clock was read once before.
unfoldable pub close_attempt : ℕ → Caller → Clock → Attempt → Assessment → Request (Option Attempt)
close_attempt attempt_id user clock attempt assessment =
    branch (is_attempt_expired attempt assessment (clock 0))
      (do
        recalculate_attempt_score attempt_id
        result ← attempt_update_by_id attempt_id (time_out (expiration_time attempt assessment))
        log_event "ASSESSMENT_TIMEOUT" (some user.id)
        pure result)
      (do
        recalculate_attempt_score attempt_id
        result ← attempt_update_by_id attempt_id (hand_in (clock 1) (clock 2))
        -- `result.score`, for the audit log
        or_raise result type_error
        log_event "ASSESSMENT_SUBMITTED" (some user.id)
        pure result)

unfoldable pub submit_assessment : ℕ → Caller → Clock → Request (Option Attempt)
submit_assessment attempt_id user clock = do
  found ← attempt_by_id attempt_id (college_scope_for user)
  attempt ← or_raise found attempt_not_found
  assessment? ← gets (assessment_by_id attempt.assessment (college_scope_for user))
  assessment ← or_raise assessment? (http 404 "Assessment not found")
  owner ← or_raise attempt.student type_error
  raise_if (is_other_student user owner) forbidden
  branch (is_active attempt.status) (close_attempt attempt_id user clock attempt.doc assessment)
      (pure (some attempt.doc))

-- The position that `orderMap` keeps for a problem: its last one, and 999 for one that has none.
unfoldable pub order_index : List ℕ → ℕ → ℕ → Option ℕ
order_index [] next k = none
order_index (j ∷ order) next k = elim (order_index order (Prim.Native.Nat.suc next) k) [
  | some i ↦ some i
  | none ↦ if j == k then some next else none
]

abbrev pub rank : List ℕ → AssessmentProblem → ℕ
rank order p = or_default (order_index order 0 p.problem_id) 999

-- Array.prototype.sort, which is stable, by the rank.
unfoldable pub insert_ranked :
    List ℕ → AssessmentProblem → List AssessmentProblem → List AssessmentProblem
insert_ranked order p [] = p ∷ []
insert_ranked order p (q ∷ qs) =
    if leb (rank order p) (rank order q) then p ∷ q ∷ qs else q ∷ insert_ranked order p qs

unfoldable pub sort_problems : List ℕ → List AssessmentProblem → List AssessmentProblem
unfolding insert_ranked
sort_problems order [] = []
sort_problems order (p ∷ ps) = insert_ranked order p (sort_problems order ps)

abbrev pub in_attempt_order : List ℕ → List AssessmentProblem → List AssessmentProblem
in_attempt_order [] ps = ps
in_attempt_order (k ∷ ks) ps = sort_problems (k ∷ ks) ps

-- The auto-timeout check of a view.
abbrev pub refreshed : ℕ → Attempt → Assessment → ℤ → World → World
refreshed attempt_id attempt assessment now w =
    if is_active attempt.status && is_attempt_expired attempt assessment now
    then update_attempt attempt_id
        (λ a. record a {
          status = timed_out;
          submitted_at = some (expiration_time attempt assessment);
        })
        w
    else w

-- `getAssessmentAttemptById`: the attempt, and its assessment's problems as they are shown.
unfoldable pub get_assessment_attempt_by_id :
    ℕ → Caller → Clock → Request (Option (Attempt × List AssessmentProblem))
get_assessment_attempt_by_id attempt_id user clock = do
  found ← attempt_by_id attempt_id (college_scope_for user)
  elim found [
    | none ↦ pure none
    | some attempt ↦ do
      assessment? ← gets (assessment_by_id attempt.assessment (college_scope_for user))
      elim assessment? [
        | none ↦ pure none
        | some assessment ↦ do
          modify (refreshed attempt_id attempt.doc assessment (clock 0))
          recalculate_attempt_score attempt_id
          again ← attempt_by_id attempt_id none
          final ← or_raise again type_error
          owner ← or_raise final.student type_error
          raise_if (is_other_student user owner) forbidden
          pure (some (final.doc, in_attempt_order final.problem_order assessment.problems))
      ]
  ]

abbrev pub audited : String → ℕ → World → World
audited event user w = record w {
  audit_logs = record { event = event; user_id = some user } ∷ w.audit_logs;
}

-- Closing rescores the attempt and, if that did not raise, writes its end.
pub close_attempt_cases :
    (P : World → Type 0) (k : ℕ) (user : Caller) (clock : Clock) (a : Attempt) (s : Assessment)
    (w : World)
    → let w' = (recalculate_attempt_score k w).1 in
      P w'
      → (is_attempt_expired a s (clock 0) ≡ true
          → P (
              audited "ASSESSMENT_TIMEOUT" user.id
                (update_attempt k (time_out (expiration_time a s)) w')))
      → (is_attempt_expired a s (clock 0) ≡ false
          → P (update_attempt k (hand_in (clock 1) (clock 2)) w'))
      → (is_attempt_expired a s (clock 0) ≡ false
          → P (
              audited "ASSESSMENT_SUBMITTED" user.id
                (update_attempt k (hand_in (clock 1) (clock 2)) w')))
      → P (close_attempt k user clock a s w).1
unfolding close_attempt
close_attempt_cases P k user clock a s w raised expired vanished handed = ground arith
