-- ===== src/Attempts/Tenancy.antt =====
-- The walls between colleges: `collegeScopeFor` in the requests about an attempt.
use assessment_microservice.Base.{
  ℕ, ◌≡◌, refl, inl, inr, true, false, ◌&&◌, Option, none, some, arith, Bool-cases,
}
use assessment_microservice.Attempts.Calls.{Call, submit, step, view, log, draft, extend, resolve}
use assessment_microservice.Store.{
  World, attempt_at, update_attempt, is_id, find_by-update_by, in_scope,
}
use assessment_microservice.Attempts.Expiry.{
  Caller, Clock, college_scope_for, expiration_time, is_active, is_attempt_expired,
}
use assessment_microservice.Models.{Attempt, Assessment}
use assessment_microservice.Attempts.Score.{
  recalculate_attempt_score, recalculate_attempt_score_cases,
}
use assessment_microservice.Attempts.Submit.{
  close_attempt, close_attempt_cases, refreshed, time_out, hand_in,
}
use assessment_microservice.Attempts.Cases.{
  submit_assessment_cases, get_assessment_attempt_by_id_cases, log_anti_cheating_event_cases,
  save_draft_cases, add_grace_time_cases, resolve_challenge_cases,
}
use assessment_microservice.Attempts.Events.{logged_event, granted, resolved}
use assessment_microservice.Attempts.Evolution.{Evolves-logged_event, id-granted}
use assessment_microservice.Base.Int.{ℤ}
use assessment_microservice.Submissions.Gate.{expire}

-- Who makes the request, where the request looks only into the caller's college. (A challenge is
-- raised by the attempt's own student, and a solution is checked for its owner.)
abbrev pub scoped_caller : Call → Option Caller
scoped_caller (submit k user clock) = some user
scoped_caller (view k user clock) = some user
scoped_caller (log k type user clock) = some user
scoped_caller (draft k code user) = some user
scoped_caller (extend k minutes user clock) = some user
scoped_caller (resolve k status text user clock) = some user
scoped_caller _ = none

module _ (j : ℕ) (w : World) (a : Attempt) (there : attempt_at j w ≡ some a) where
  abbrev Untouched : World → Type 0
  Untouched v = attempt_at j v ≡ some a

  elsewhere :
      (k : ℕ) (f : Attempt → Attempt) (v : World)
      → ((x : Attempt) → (f x).id ≡ x.id)
      → (k ≡ j → ⊥)
      → Untouched v
      → Untouched (update_attempt k f v)
  elsewhere k f v keeps other h =
      ground (arith, find_by-update_by (λ (x : Attempt). x.id) j k f v.attempts keeps)

  rescoring_elsewhere :
      (k : ℕ) (v : World) → (k ≡ j → ⊥) → Untouched v → Untouched (recalculate_attempt_score k v).1
  rescoring_elsewhere k v other h =
      recalculate_attempt_score_cases Untouched k v h
        λ n. elsewhere k (λ x. record x { score = n }) v (λ x. refl) other h

  closing_elsewhere :
      (k : ℕ) (user : Caller) (clock : Clock) (b : Attempt) (s : Assessment)
      → (k ≡ j → ⊥)
      → Untouched (close_attempt k user clock b s w).1
  closing_elsewhere k user clock b s other =
      let h = rescoring_elsewhere k w other there in
      close_attempt_cases Untouched k user clock b s w h
        (λ _.
          elsewhere k (time_out (expiration_time b s)) (recalculate_attempt_score k w).1 (λ x. refl)
            other h)
        (λ _.
          elsewhere k (hand_in (clock 1) (clock 2)) (recalculate_attempt_score k w).1 (λ x. refl)
            other h)
        (λ _.
          elsewhere k (hand_in (clock 1) (clock 2)) (recalculate_attempt_score k w).1 (λ x. refl)
            other h)

  viewing_elsewhere :
      (k : ℕ) (b : Attempt) (s : Assessment) (now : ℤ)
      → (k ≡ j → ⊥)
      → Untouched (recalculate_attempt_score k (refreshed k b s now w)).1
  viewing_elsewhere k b s now other =
      elim (Bool-cases (is_active b.status && is_attempt_expired b s now)) [
        | inr later ↦ rw later (rescoring_elsewhere k w other there)
        | inl over ↦ rw over (
            rescoring_elsewhere k (update_attempt k (expire (expiration_time b s)) w) other
              (elsewhere k (expire (expiration_time b s)) w (λ x. refl) other there))
      ]

  outside :
      (user : Caller) (college k : ℕ) (b : Attempt)
      → college_scope_for user ≡ some college
      → is_id a.college_id college ≡ false
      → attempt_at k w ≡ some b
      → in_scope (college_scope_for user) b.college_id ≡ true
      → k ≡ j
      → ⊥
  outside user college k b scope foreign found inside e = ground arith

  -- A member of one college cannot change an attempt of another: none of the requests that look
  -- into the caller's college (submit, view, log an event, save a draft, add grace time, resolve a
  -- challenge) touches it, whatever the caller's role and the request's arguments.
  pub step-foreign :
      (c : Call) (user : Caller) (college : ℕ)
      → scoped_caller c ≡ some user
      → college_scope_for user ≡ some college
      → is_id a.college_id college ≡ false
      → attempt_at j (step c w) ≡ some a
  unfolding step
  step-foreign (submit k u clock) user college e scope foreign =
      submit_assessment_cases Untouched k u w there clock λ b s found _ _ inside _.
        closing_elsewhere k u clock b s (outside u college k b (ground arith) foreign found inside)
  step-foreign (view k u clock) user college e scope foreign =
      get_assessment_attempt_by_id_cases Untouched k u w there clock λ b s found _ inside.
        viewing_elsewhere k b s (clock 0)
          (outside u college k b (ground arith) foreign found inside)
  step-foreign (log k type u clock) user college e scope foreign =
      log_anti_cheating_event_cases Untouched k u w there type clock λ b found _ inside _ _.
        elsewhere k (logged_event type (clock 0)) w
          (λ x. (Evolves-logged_event x type (clock 0)).same_id)
          (outside u college k b (ground arith) foreign found inside) there
  step-foreign (draft k code u) user college e scope foreign =
      save_draft_cases Untouched k u w there code λ b found _ inside _.
        elsewhere k (λ x. record x { code_drafts = code }) w (λ x. refl)
          (outside u college k b (ground arith) foreign found inside) there
  step-foreign (extend k minutes u clock) user college e scope foreign =
      add_grace_time_cases Untouched k u w there minutes clock λ b m found _ inside _.
        elsewhere k (granted b m (clock 0)) w (λ x. id-granted b x m (clock 0))
          (outside u college k b (ground arith) foreign found inside) there
  step-foreign (resolve k status text u clock) user college e scope foreign =
      resolve_challenge_cases Untouched k u w there status text clock λ b found inside _ _.
        elsewhere k (resolved status text (clock 0) (clock 1)) w (λ x. refl)
          (outside u college k b (ground arith) foreign found inside) there
  step-foreign _ user college e scope foreign = cc
