-- ===== src/Attempts/Unique.antt =====
-- The unique index on assessmentId and studentId, and the race that `startAssessment` has with it.
use assessment_microservice.Base.{
  ℕ, ◌≡◌, refl, inl, inr, ◌&&◌, none, List, [], ◌∷◌, arith, ◌==◌, Bool-cases,
}
use assessment_microservice.Models.{Attempt, Assessment}
use assessment_microservice.Attempts.Calls.{
  step, Call, start, submit, view, log, draft, extend, challenge, resolve, solve, run,
}
use assessment_microservice.Store.{update_by, World, find, update_attempt}
use assessment_microservice.Attempts.Score.{
  recalculate_attempt_score, recalculate_attempt_score_cases,
}
use assessment_microservice.Attempts.Expiry.{
  Caller, Clock, is_active, expiration_time, is_attempt_expired, attempt_expiration,
}
use assessment_microservice.Attempts.Start.{start_assessment}
use assessment_microservice.Attempts.Cases.{
  submit_assessment_cases, start_assessment_cases, get_assessment_attempt_by_id_cases,
  log_anti_cheating_event_cases, save_draft_cases, add_grace_time_cases, raise_challenge_cases,
  resolve_challenge_cases, validate_assessment_submission_cases,
}
use assessment_microservice.Attempts.Submit.{close_attempt, close_attempt_cases, time_out, hand_in}
use assessment_microservice.Submissions.Gate.{expire}
use assessment_microservice.Attempts.Events.{logged_event, granted, challenged, resolved}
use assessment_microservice.Attempts.Evolution.{Evolves-logged_event}

-- No student has two attempts at one assessment.
abbrev pub Distinct : List Attempt → Type 0
Distinct [] = Unit {0}
Distinct (a ∷ xs) =
    (find (λ x. x.assessment_id == a.assessment_id && x.student_id == a.student_id) xs ≡ none)
    × Distinct xs

abbrev IsDistinct : World → Type 0
IsDistinct w = Distinct w.attempts

-- An update that leaves both references alone.
abbrev KeepsOwner : (Attempt → Attempt) → Type 0
KeepsOwner f =
    (x : Attempt) → ((f x).assessment_id ≡ x.assessment_id) × ((f x).student_id ≡ x.student_id)

find-update_by :
    (s u k : ℕ) (f : Attempt → Attempt) (xs : List Attempt)
    → KeepsOwner f
    → find (λ x. x.assessment_id == s && x.student_id == u) xs ≡ none
    → find
        (λ x. x.assessment_id == s && x.student_id == u)
        (update_by (λ (x : Attempt). x.id) k f xs)
      ≡ none
unfolding update_by
find-update_by s u k f [] keeps h = refl
find-update_by s u k f (a ∷ xs) keeps h = ground (arith, keeps a, find-update_by s u k f xs keeps)

Distinct-update_by :
    (k : ℕ) (f : Attempt → Attempt) (xs : List Attempt)
    → KeepsOwner f
    → Distinct xs
    → Distinct (update_by (λ (x : Attempt). x.id) k f xs)
unfolding update_by
Distinct-update_by k f [] keeps h = tt
Distinct-update_by k f (a ∷ xs) keeps h = elim (Bool-cases (a.id == k)) [
  | inl hit ↦ rw hit (rw ((keeps a).0, (keeps a).1) h)
  | inr miss ↦ rw miss (
    find-update_by a.assessment_id a.student_id k f xs keeps h.0,
    Distinct-update_by k f xs keeps h.1,
  )
]

module _ (w : World) (d : IsDistinct w) where
  updated : (k : ℕ) (f : Attempt → Attempt) → KeepsOwner f → IsDistinct (update_attempt k f w)
  updated k f keeps = Distinct-update_by k f w.attempts keeps d

  rescoring : (k : ℕ) → IsDistinct (recalculate_attempt_score k w).1
  rescoring k =
      recalculate_attempt_score_cases IsDistinct k w d
        λ n. updated k (λ x. record x { score = n }) (λ x. (refl, refl))

  closing :
      (k : ℕ) (user : Caller) (clock : Clock) (a : Attempt) (s : Assessment)
      → IsDistinct (close_attempt k user clock a s w).1
  closing k user clock a s =
      close_attempt_cases IsDistinct k user clock a s w (rescoring k)
        (λ _. later (time_out (expiration_time a s)) (λ x. (refl, refl)))
        (λ _. later (hand_in (clock 1) (clock 2)) (λ x. (refl, refl)))
        (λ _. later (hand_in (clock 1) (clock 2)) (λ x. (refl, refl)))
    where
      later :
          (f : Attempt → Attempt)
          → KeepsOwner f
          → IsDistinct (update_attempt k f (recalculate_attempt_score k w).1)
      later f keeps =
          Distinct-update_by k f (recalculate_attempt_score k w).1.attempts keeps (rescoring k)

  -- If no student has two attempts at one assessment, then starting an assessment keeps it so,
  -- whatever other requests do between the check for an attempt and its creation, as long as they
  -- keep it so themselves. They may make the very attempt that the check did not find.
  pub start_assessment-Distinct :
      (meanwhile : World → World) (shuffle : List ℕ → List ℕ) (new_id assessment_id : ℕ)
      (user : Caller) (clock : Clock)
      → ((v : World) → IsDistinct v → IsDistinct (meanwhile v))
      → IsDistinct (start_assessment meanwhile shuffle new_id assessment_id user clock w).1
  start_assessment-Distinct meanwhile shuffle new_id assessment_id user clock keeps =
      start_assessment_cases IsDistinct w d meanwhile shuffle new_id assessment_id user clock
        (keeps w d) λ s ids _ _ _ _ _ absent. (absent, keeps w d)

-- None of the requests, one after the other, gives any student a second attempt.
pub step-Distinct : (c : Call) (w : World) → Distinct w.attempts → Distinct (step c w).attempts
unfolding step
step-Distinct (start shuffle new_id assessment user clock) w d =
    start_assessment-Distinct w d (λ v. v) shuffle new_id assessment user clock (λ v h. h)
step-Distinct (submit k user clock) w d =
    submit_assessment_cases IsDistinct k user w d clock
      λ a s _ _ _ _ _. closing w d k user clock a s
step-Distinct (view k user clock) w d =
    get_assessment_attempt_by_id_cases IsDistinct k user w d clock λ a s _ _ _.
      elim (Bool-cases (is_active a.status && is_attempt_expired a s (clock 0))) [
        | inr later ↦ rw later (rescoring w d k)
        | inl over ↦
            rw over
              (rescoring _ (updated w d k (expire (expiration_time a s)) (λ x. (refl, refl))) k)
      ]
step-Distinct (log k type user clock) w d =
    log_anti_cheating_event_cases IsDistinct k user w d type clock λ a _ _ _ _ _.
      updated w d k (logged_event type (clock 0))
        (λ x. let v = Evolves-logged_event x type (clock 0) in (v.same_assessment, v.same_student))
step-Distinct (draft k code user) w d =
    save_draft_cases IsDistinct k user w d code
      λ a _ _ _ _. updated w d k (λ x. record x { code_drafts = code }) (λ x. (refl, refl))
step-Distinct (extend k minutes user clock) w d =
    add_grace_time_cases IsDistinct k user w d minutes clock
      λ a m _ _ _ _. updated w d k (granted a m (clock 0)) (λ x. ground arith)
step-Distinct (challenge k why user clock) w d =
    raise_challenge_cases IsDistinct k user w d why clock
      λ a _ _ _ _. updated w d k (challenged why (clock 0) (clock 1)) (λ x. (refl, refl))
step-Distinct (resolve k status text user clock) w d =
    resolve_challenge_cases IsDistinct k user w d status text clock
      λ a _ _ _ _. updated w d k (resolved status text (clock 0) (clock 1)) (λ x. (refl, refl))
step-Distinct (solve problem language user assessment attempt now) w d =
    validate_assessment_submission_cases IsDistinct w d problem language user assessment attempt now
      λ k a s _ _ _ _. updated w d k (expire (attempt_expiration a s)) (λ x. (refl, refl))

pub run-Distinct : (cs : List Call) (w : World) → Distinct w.attempts → Distinct (run cs w).attempts
unfolding run
run-Distinct [] w d = d
run-Distinct (c ∷ cs) w d = run-Distinct cs (step c w) (step-Distinct c w d)
