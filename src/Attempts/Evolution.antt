-- ===== src/Attempts/Evolution.antt =====
-- What may become of an attempt in one request: the diagram of its status and of its challenge, and
-- what never changes.
use assessment_microservice.Base.{
  ℕ, inl, inr, ◌≤◌, ◌≡◌, true, false, Option, none, some, arith, Extends, Extends-refl,
  Extends-append, String, Option-cases, Bool-cases, ◌==◌, arith, Option-cases, String, subst, arith,
  Option-cases, String, sym, arith, Option-cases, ==_iff, String, arith, Option-cases, String,
  arith, Option-cases, String, arith, Option-cases, String, arith, Option-cases, String, arith,
  Option-cases, String, arith, Option-cases, String, arith, Option-cases, String, arith,
  Option-cases, String, arith, Option-cases, String,
}
use assessment_microservice.Models.{
  Attempt, AttemptStatus, ChallengeStatus, unchallenged, active, submitted, timed_out, raised,
  accepted, rejected,
}
use assessment_microservice.Attempts.Expiry.{is_active}
use assessment_microservice.Base.Int.{ℤ}
use assessment_microservice.Attempts.Events.{
  Resolution, count_event, challenged, is_valid, granted, EventType, resolved, logged_event,
}
use assessment_microservice.Submissions.Gate.{expire}
use assessment_microservice.Attempts.Submit.{hand_in, time_out}
use assessment_microservice.Store.{World, attempt_at, update_attempt, find_by-update_by}

-- The edges of the status diagram.
pub data Transition : AttemptStatus → AttemptStatus → Type 0 where
  stay : {s : AttemptStatus} → Transition s s
  submits : Transition active submitted
  expires : Transition active timed_out
  reopens : Transition timed_out active

-- The edges of the challenge diagram: a challenge is raised once and resolved once.
pub data ChallengeStep : ChallengeStatus → ChallengeStatus → Type 0 where
  keep : {s : ChallengeStatus} → ChallengeStep s s
  raise : ChallengeStep unchallenged raised
  accept : ChallengeStep raised accepted
  reject : ChallengeStep raised rejected

pub record Evolves (a b : Attempt) : Type 0 where
  pub same_id : b.id ≡ a.id
  pub same_assessment : b.assessment_id ≡ a.assessment_id
  pub same_student : b.student_id ≡ a.student_id
  pub same_college : b.college_id ≡ a.college_id
  pub same_start : b.started_at ≡ a.started_at
  pub same_order : b.problem_order ≡ a.problem_order
  pub transition : Transition a.status b.status
  pub challenge_step : ChallengeStep a.challenge.status b.challenge.status
  pub submission_kept : a.status ≡ submitted → b.submitted_at ≡ a.submitted_at
  pub drafts_kept : is_active a.status ≡ false → b.code_drafts ≡ a.code_drafts
  pub tab_switches_counted : a.tab_switch_count ≤ b.tab_switch_count
  pub copies_counted : a.copy_count ≤ b.copy_count
  pub pastes_counted : a.paste_count ≤ b.paste_count
  pub exits_counted : a.fullscreen_exit_count ≤ b.fullscreen_exit_count
  pub timeline_extended : Extends a.timeline b.timeline

abbrev pub EvolvesAt : Option Attempt → Option Attempt → Type 0
EvolvesAt none b = Unit {0}
EvolvesAt (some a) none = ⊥
EvolvesAt (some a) (some b) = Evolves a b

ruleset diagrams =
    (stay, submits, expires, reopens, keep, raise, accept, reject, Extends-append, Extends-refl)

pub Evolves-refl : (a : Attempt) → Evolves a a
Evolves-refl a = grind (arith, diagrams)

-- A score written on top changes nothing of this.
pub Evolves-score : (a b : Attempt) (n : ℕ) → Evolves a b → Evolves a (record b { score = n })
Evolves-score a b n v = grind (arith, diagrams)

pub Evolves-of_score : (a b : Attempt) (n : ℕ) → Evolves (record a { score = n }) b → Evolves a b
Evolves-of_score a b n v = grind (arith, diagrams)

pub Evolves-code_drafts :
    (a : Attempt) (code : String) → a.status ≡ active → Evolves a (record a { code_drafts = code })
Evolves-code_drafts a code h = grind (arith, diagrams)

pub Evolves-time_out : (a : Attempt) (at : ℤ) → a.status ≡ active → Evolves a (time_out at a)
Evolves-time_out a at h = grind (arith, diagrams)

pub Evolves-hand_in :
    (a : Attempt) (at logged : ℤ) → a.status ≡ active → Evolves a (hand_in at logged a)
Evolves-hand_in a at logged h = grind (arith, diagrams)

pub Evolves-expire : (a : Attempt) (at : ℤ) → a.status ≡ active → Evolves a (expire at a)
Evolves-expire a at h = grind (arith, diagrams)

pub Evolves-logged_event :
    (a : Attempt) (type : EventType) (now : ℤ) → Evolves a (logged_event type now a)
unfolding count_event
Evolves-logged_event a type now = grind (arith, diagrams)

pub Evolves-granted : (a : Attempt) (m now : ℤ) → Evolves a (granted a m now a)
Evolves-granted a m now = grind (arith, diagrams)

pub id-granted : (a b : Attempt) (m now : ℤ) → (granted a m now b).id ≡ b.id
id-granted a b m now = ground arith

pub Evolves-challenged :
    (a : Attempt) (why : String) (now logged : ℤ)
    → a.challenge.status ≡ unchallenged
    → Evolves a (challenged why now logged a)
Evolves-challenged a why now logged h = grind (arith, diagrams)

pub Evolves-resolved :
    (a : Attempt) (status : Resolution) (text : String) (now logged : ℤ)
    → a.challenge.status ≡ raised
    → is_valid status ≡ true
    → Evolves a (resolved status text now logged a)
Evolves-resolved a status text now logged h v = grind (arith, diagrams)

-- An update by an evolution is an evolution of every attempt.
pub EvolvesAt-update_attempt :
    (j k : ℕ) (f : Attempt → Attempt) (w : World)
    → ((a : Attempt) → attempt_at k w ≡ some a → Evolves a (f a))
    → ((a : Attempt) → (f a).id ≡ a.id)
    → EvolvesAt (attempt_at j w) (attempt_at j (update_attempt k f w))
EvolvesAt-update_attempt j k f w h keeps = elim (Option-cases (attempt_at j w)) [
  | inl e ↦ rw e tt
  | inr (a, e) ↦ elim (Bool-cases (k == j)) [
    | inl hit ↦
        rw (find_by-update_by (λ (x : Attempt). x.id) j k f w.attempts keeps, hit, e)
          (h a (subst (λ i. attempt_at i w ≡ some a) (sym ((==_iff k j).0 hit)) e))
    | inr miss ↦
        rw (find_by-update_by (λ (x : Attempt). x.id) j k f w.attempts keeps, miss, e)
          (Evolves-refl a)
  ]
]
