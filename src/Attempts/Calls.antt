-- ===== src/Attempts/Calls.antt =====
-- The requests about attempts as data, and their histories.
use assessment_microservice.Base.{List, ℕ, ◌∷◌, ◌≡◌, none, String, Option, []}
use assessment_microservice.Store.{World, attempt_at}
use assessment_microservice.Attempts.Start.{start_assessment}
use assessment_microservice.Attempts.Expiry.{Caller, Clock}
use assessment_microservice.Attempts.Submit.{submit_assessment, get_assessment_attempt_by_id}
use assessment_microservice.Attempts.Events.{
  log_anti_cheating_event, EventType, save_draft, add_grace_time, raise_challenge,
  resolve_challenge, Resolution,
}
use assessment_microservice.Base.Int.{ℤ}
use assessment_microservice.Submissions.Gate.{validate_assessment_submission}

-- A request with its arguments.
pub data Call : Type 0 where
  start : (List ℕ → List ℕ) → ℕ → ℕ → Caller → Clock → Call
  submit : ℕ → Caller → Clock → Call
  view : ℕ → Caller → Clock → Call
  log : ℕ → EventType → Caller → Clock → Call
  draft : ℕ → String → Caller → Call
  extend : ℕ → Option ℤ → Caller → Clock → Call
  challenge : ℕ → String → Caller → Clock → Call
  resolve : ℕ → Resolution → String → Caller → Clock → Call
  solve : ℕ → String → ℕ → Option ℕ → Option ℕ → ℤ → Call

-- The world that a request leaves, whether it returns or raises.
unfoldable pub step : Call → World → World
step (start shuffle new_id assessment user clock) w =
    (start_assessment (λ v. v) shuffle new_id assessment user clock w).1
step (submit k user clock) w = (submit_assessment k user clock w).1
step (view k user clock) w = (get_assessment_attempt_by_id k user clock w).1
step (log k type user clock) w = (log_anti_cheating_event k type user clock w).1
step (draft k code user) w = (save_draft k code user w).1
step (extend k minutes user clock) w = (add_grace_time k minutes user clock w).1
step (challenge k why user clock) w = (raise_challenge k why user clock w).1
step (resolve k status text user clock) w = (resolve_challenge k status text user clock w).1
step (solve problem language user assessment attempt now) w =
    (validate_assessment_submission problem language user assessment attempt now w).1

unfoldable pub run : List Call → World → World
run [] w = w
run (c ∷ cs) w = run cs (step c w)

-- A new attempt has an identifier of its own.
abbrev pub IsFresh : Call → World → Type 0
IsFresh (start shuffle new_id assessment user clock) w = attempt_at new_id w ≡ none
IsFresh _ w = Unit {0}

abbrev pub AllFresh : List Call → World → Type 0
AllFresh [] w = Unit {0}
AllFresh (c ∷ cs) w = IsFresh c w × AllFresh cs (step c w)
