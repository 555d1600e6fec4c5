-- ===== src/Attempts/History.antt =====
-- Any sequence of requests about attempts, by any callers, at any times, and what no such sequence
-- can do.
use assessment_microservice.Base.{
  ℕ, ◌≡◌, refl, subst, ◌∙◌, Option, none, some, List, [], ◌∷◌, arith, Extends-refl, Extends-trans,
  Extends,
}
use assessment_microservice.Attempts.Calls.{
  step, Call, IsFresh, start, submit, view, log, run, AllFresh, draft, extend, challenge, resolve,
  solve,
}
use assessment_microservice.Store.{World, attempt_at}
use assessment_microservice.Attempts.Evolution.{
  EvolvesAt, Evolves, Transition, Evolves-logged_event, Evolves-code_drafts, Evolves-granted,
  id-granted, stay, submits, expires, Evolves-challenged, reopens, Evolves-resolved, Evolves-expire,
}
use assessment_microservice.Attempts.Cases.{
  start_assessment_cases, submit_assessment_cases, get_assessment_attempt_by_id_cases,
  log_anti_cheating_event_cases, save_draft_cases, add_grace_time_cases, raise_challenge_cases,
  resolve_challenge_cases, validate_assessment_submission_cases,
}
use assessment_microservice.Attempts.Kept.{
  Kept, Kept-refl, Kept-started, Kept-close, Kept-view, Kept-update, Kept-found,
}
use assessment_microservice.Attempts.Start.{new_attempt}
use assessment_microservice.Models.{AttemptStatus, Attempt, submitted}
use assessment_microservice.Attempts.Events.{logged_event, granted, challenged, resolved}
use assessment_microservice.Submissions.Gate.{expire}
use assessment_microservice.Attempts.Expiry.{attempt_expiration}

-- In one request an attempt only moves along the diagrams of its status and its challenge, provided
-- that the id of a newly started attempt is not in use. Nobody can change whose it is, which
-- assessment it belongs to, when it began, or the order of its problems; its event counts never
-- fall, its timeline only grows, its drafts change only while it is active, and the time of a
-- submission stays.
pub step-EvolvesAt :
    (c : Call) (j : ℕ) (w : World)
    → IsFresh c w
    → EvolvesAt (attempt_at j w) (attempt_at j (step c w))
unfolding step
step-EvolvesAt (start shuffle new_id assessment user clock) j w fresh =
    start_assessment_cases (Kept j w) w (Kept-refl j w) (λ v. v) shuffle new_id assessment user
      clock (Kept-refl j w)
      λ s ids _ _ _ _ _ _.
        Kept-started j w (new_attempt new_id s user (clock 0) (shuffle ids)) user fresh
step-EvolvesAt (submit k user clock) j w fresh =
    submit_assessment_cases (Kept j w) k user w (Kept-refl j w) clock
      λ a s found _ on _ _. Kept-close j w k user clock a s found on
step-EvolvesAt (view k user clock) j w fresh =
    get_assessment_attempt_by_id_cases (Kept j w) k user w (Kept-refl j w) clock
      λ a s found _ _. Kept-view j w k a s (clock 0) found
step-EvolvesAt (log k type user clock) j w fresh =
    log_anti_cheating_event_cases (Kept j w) k user w (Kept-refl j w) type clock λ a _ _ _ _ _.
      Kept-update j w k (logged_event type (clock 0)) (λ x _. Evolves-logged_event x type (clock 0))
        (λ x. (Evolves-logged_event x type (clock 0)).same_id)
step-EvolvesAt (draft k code user) j w fresh =
    save_draft_cases (Kept j w) k user w (Kept-refl j w) code λ a found on _ _.
      Kept-found j w k a (λ x. record x { code_drafts = code }) found
        (Evolves-code_drafts a code on) (λ x. refl)
step-EvolvesAt (extend k minutes user clock) j w fresh =
    add_grace_time_cases (Kept j w) k user w (Kept-refl j w) minutes clock λ a m found _ _ _.
      Kept-found j w k a (granted a m (clock 0)) found (Evolves-granted a m (clock 0))
        (λ x. id-granted a x m (clock 0))
step-EvolvesAt (challenge k why user clock) j w fresh =
    raise_challenge_cases (Kept j w) k user w (Kept-refl j w) why clock λ a found _ _ none_yet.
      Kept-found j w k a (challenged why (clock 0) (clock 1)) found
        (Evolves-challenged a why (clock 0) (clock 1) none_yet) (λ x. refl)
step-EvolvesAt (resolve k status text user clock) j w fresh =
    resolve_challenge_cases (Kept j w) k user w (Kept-refl j w) status text clock
      λ a found _ was valid.
        Kept-found j w k a (resolved status text (clock 0) (clock 1)) found
          (Evolves-resolved a status text (clock 0) (clock 1) was valid) (λ x. refl)
step-EvolvesAt (solve problem language user assessment attempt now) j w fresh =
    validate_assessment_submission_cases (Kept j w) w (Kept-refl j w) problem language user
      assessment attempt now
      λ k a s found _ on _.
        Kept-found j w k a (expire (attempt_expiration a s)) found
          (Evolves-expire a (attempt_expiration a s) on) (λ x. refl)

submits_only : {s t : AttemptStatus} → Transition s t → s ≡ submitted → t ≡ submitted
submits_only stay e = e
submits_only submits e = cc
submits_only expires e = cc
submits_only reopens e = cc

-- What of a handed-in attempt is still the same after any requests.
pub record Sealed (a b : Attempt) : Type 0 where
  pub still_submitted : b.status ≡ submitted
  pub same_time : b.submitted_at ≡ a.submitted_at
  pub same_drafts : b.code_drafts ≡ a.code_drafts
  pub same_student : b.student_id ≡ a.student_id
  pub timeline_extended : Extends a.timeline b.timeline

Sealed-step : (a b c : Attempt) → Sealed a b → Evolves b c → Sealed a c
Sealed-step a b c s v = record {
  still_submitted = submits_only v.transition s.still_submitted;
  same_time = v.submission_kept s.still_submitted ∙ s.same_time;
  same_drafts = v.drafts_kept (rw s.still_submitted) ∙ s.same_drafts;
  same_student = v.same_student ∙ s.same_student;
  timeline_extended =
      Extends-trans a.timeline b.timeline c.timeline s.timeline_extended v.timeline_extended;
}

EvolvesAt-inv :
    (a : Attempt) (x y : Option Attempt)
    → x ≡ some a
    → EvolvesAt x y
    → (b : Attempt) × (y ≡ some b) × Evolves a b
EvolvesAt-inv a none y e v = cc
EvolvesAt-inv a (some x) none e v = absurd v
EvolvesAt-inv a (some x) (some y) e v =
    (y, refl, subst (λ (z : Attempt). Evolves z y) (ground arith) v)

run-Sealed_from :
    (cs : List Call) (j : ℕ) (w : World) (a b : Attempt)
    → AllFresh cs w
    → attempt_at j w ≡ some b
    → Sealed a b
    → (c : Attempt) × (attempt_at j (run cs w) ≡ some c) × Sealed a c
unfolding run
run-Sealed_from [] j w a b fresh found s = (b, found, s)
run-Sealed_from (c ∷ cs) j w a b fresh found s =
    let (b', found', v) = EvolvesAt-inv b _ _ found (step-EvolvesAt c j w fresh.0) in
    run-Sealed_from cs j (step c w) a b' fresh.1 found' (Sealed-step a b b' s v)

-- A handed-in attempt is final: whatever requests of `Call` follow, as long as newly started
-- attempts get ids that are not in use, it is still there and submitted, at the same time, by the
-- same student, with the same drafts, and its timeline begins as it did.
pub run-Sealed :
    (cs : List Call) (j : ℕ) (w : World) (a : Attempt)
    → AllFresh cs w
    → attempt_at j w ≡ some a
    → a.status ≡ submitted
    → (b : Attempt) × (attempt_at j (run cs w) ≡ some b) × Sealed a b
run-Sealed cs j w a fresh found done = run-Sealed_from cs j w a a fresh found (record {
  still_submitted = done;
  same_time = refl;
  same_drafts = refl;
  same_student = refl;
  timeline_extended = Extends-refl a.timeline;
})
