-- ===== src/Submissions/Endings.antt =====
-- The four endings that `submitSolution` can have, and the steps that stay clear of them.
use assessment_microservice.Base.{
  ℕ, ◌≤◌, ◌<◌, ◌≡◌, ◌≢◌, ◌⊎◌, refl, sym, ap, subst, inl, inr, Option, none, some, List, [], ◌∷◌,
  ◌++◌, arith, leb, String, Bool-cases, Option-cases, length,
}
use assessment_microservice.Submissions.Intake.{
  check_college, Surroundings, Solution, log_solution, Submitted, accepted_as, pending_submission,
}
use assessment_microservice.Submissions.Gate.{validate_assessment_submission, check_attempt}
use assessment_microservice.Store.{World, JudgeMessage, Result, Request, ok, err, http}
use assessment_microservice.Models.{Problem, Submission}
use assessment_microservice.Base.Int.{ℤ}
use assessment_microservice.Submissions.Judge.{
  build_judge_message_body, max_queue_depth, publish_submission_message, unreachable, Broker,
  queue_unavailable, failing_to_close, answering,
}

module _ (o : Surroundings) (s : Solution) where
  -- `subs` and `queue` are the submissions and the judge's queue before the request.
  pub data Outcome (subs : List Submission) (queue : List JudgeMessage)
      : Result Submitted × World → Type 0 where
    turned_away :
        (r : Result Submitted) (w : World)
        → ((d : Submission) → r ≢ ok (accepted_as d))
        → w.submissions ≡ subs
        → w.queue ≡ queue
        → Outcome subs queue (r, w)
    queued :
        (p : Problem) (w : World)
        → w.submissions ≡ pending_submission o.new_id s ∷ subs
        → w.queue ≡ queue ++ build_judge_message_body o.new_id p s.language s.code s.college_id ∷ []
        → length queue < max_queue_depth
        → Outcome subs queue (ok (accepted_as (pending_submission o.new_id s)), w)
    orphaned :
        (reason : String) (w : World)
        → w.submissions ≡ pending_submission o.new_id s ∷ subs
        → w.queue ≡ queue
        → (o.broker ≡ unreachable) ⊎ (max_queue_depth ≤ length queue)
        → Outcome subs queue (err (http 503 reason), w)
    unconfirmed :
        (p : Problem) (w : World)
        → w.submissions ≡ pending_submission o.new_id s ∷ subs
        → w.queue ≡ queue ++ build_judge_message_body o.new_id p s.language s.code s.college_id ∷ []
        → length queue < max_queue_depth
        → o.broker ≡ failing_to_close
        → Outcome subs queue (err queue_unavailable, w)

  -- The request goes on with `f` from a step that has left the submissions and the queue alone.
  pub Outcome-after :
      {A : Type 0} (subs : List Submission) (queue : List JudgeMessage) (out : Result A × World)
      (f : A → Request Submitted)
      → out.1.submissions ≡ subs
      → out.1.queue ≡ queue
      → ((a : A) (w : World) → w.submissions ≡ subs → w.queue ≡ queue → Outcome subs queue (f a w))
      → Outcome subs queue (elim out.0 [ ok a ↦ f a out.1 | err e ↦ (err e, out.1) ])
  Outcome-after subs queue (ok a, w) f e g rest = rest a w e g
  Outcome-after subs queue (err x, w) f e g rest = turned_away (err x) w (λ d h. ground arith) e g

-- Only an attempt's end is ever written by the checks.
pub validate_submissions_kept :
    (problem : ℕ) (language : String) (user : ℕ) (a k : Option ℕ) (now : ℤ) (w : World)
    → ((validate_assessment_submission problem language user a k now w).1.submissions
        ≡ w.submissions)
      × ((validate_assessment_submission problem language user a k now w).1.queue ≡ w.queue)
unfolding validate_assessment_submission check_attempt
validate_submissions_kept problem language user none none now w = (refl, refl)
validate_submissions_kept problem language user none (some k) now w = (refl, refl)
validate_submissions_kept problem language user (some a) none now w = (refl, refl)
validate_submissions_kept problem language user (some a) (some k) now w = ground arith

pub check_college_kept :
    (o : Surroundings) (college : Option ℕ) (w : World) → (check_college o college w).1 ≡ w
unfolding check_college
check_college_kept o none w = refl
check_college_kept o (some c) w = ground arith

pub log_solution_kept :
    (o : Surroundings) (s : Solution) (p : Problem) (w : World)
    → ((log_solution o s p w).submissions ≡ w.submissions)
      × ((log_solution o s p w).queue ≡ w.queue)
log_solution_kept o s p w = elim (Option-cases s.attempt_id) [
  | inl e ↦ (ground arith, ground arith)
  | inr (k, e) ↦ (ground arith, ground arith)
]

-- The message is in the queue, and the answer is as given.
abbrev Sent : Broker → JudgeMessage → World → Result (Unit {0}) → Type 0
Sent broker m w r =
    (publish_submission_message broker m w ≡ (r, record w { queue = w.queue ++ m ∷ [] }))
    × (length w.queue < max_queue_depth)

publish_cases :
    (broker : Broker) (m : JudgeMessage) (w : World)
    → Sent broker m w (ok tt)
      ⊎ ((Sent broker m w (err queue_unavailable) × (broker ≡ failing_to_close))
          ⊎ ((reason : String) × (publish_submission_message broker m w
                ≡ (err (http 503 reason), w))
              × ((broker ≡ unreachable) ⊎ (max_queue_depth ≤ length w.queue))))
unfolding publish_submission_message
publish_cases unreachable m w = inr (inr ("Queue Service Unavailable", refl, inl refl))
publish_cases answering m w = elim (Bool-cases (leb max_queue_depth (length w.queue))) [
  | inl e ↦
      inr
        (inr ("Service Overloaded: Too many pending submissions", ground arith, inr (ground arith)))
  | inr e ↦ inl (ground arith, ground arith)
]
publish_cases failing_to_close m w = elim (Bool-cases (leb max_queue_depth (length w.queue))) [
  | inl e ↦ inr (inr ("Queue Service Unavailable", ground arith, inr (ground arith)))
  | inr e ↦ inr (inl ((ground arith, ground arith), refl))
]

-- What `submitSolution` answers once the queue has answered.
abbrev pub answered : Submission → Result (Unit {0}) × World → Result Submitted × World
answered d out = elim out.0 [ ok u ↦ (ok (accepted_as d), out.1) | err e ↦ (err e, out.1) ]

pub publish-Outcome :
    (o : Surroundings) (s : Solution) (p : Problem) (subs : List Submission)
    (queue : List JudgeMessage) (w : World)
    → w.submissions ≡ pending_submission o.new_id s ∷ subs
    → w.queue ≡ queue
    → Outcome o s subs queue (
        answered (pending_submission o.new_id s) (
          publish_submission_message o.broker
            (build_judge_message_body o.new_id p s.language s.code s.college_id)
            w))
publish-Outcome o s p subs queue w e g = elim (publish_cases o.broker m w) [
  | inl (h, room) ↦
      subst (λ out. Outcome o s subs queue (answered (pending_submission o.new_id s) out)) (sym h)
        (queued p sent e (ap (λ q. q ++ m ∷ []) g) (has_room room))
  | inr (inl ((h, room), failing)) ↦
      subst (λ out. Outcome o s subs queue (answered (pending_submission o.new_id s) out)) (sym h)
        (unconfirmed p sent e (ap (λ q. q ++ m ∷ []) g) (has_room room) failing)
  | inr (inr (reason, h, why)) ↦
      subst (λ out. Outcome o s subs queue (answered (pending_submission o.new_id s) out)) (sym h)
        (orphaned reason w e g
          (subst (λ q. (o.broker ≡ unreachable) ⊎ (max_queue_depth ≤ length q)) g why))
]
  where
    m : JudgeMessage
    m = build_judge_message_body o.new_id p s.language s.code s.college_id

    sent : World
    sent = record w { queue = w.queue ++ m ∷ [] }

    has_room : length w.queue < max_queue_depth → length queue < max_queue_depth
    has_room = subst (λ q. length q < max_queue_depth) g
