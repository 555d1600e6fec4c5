-- ===== src/Submissions/Backlog.antt =====
-- What a rejudge leaves in the database and in the judge's queue.
use assessment_microservice.Base.{
  ℕ, ◌+◌, ◌≤◌, ◌<◌, ◌≡◌, refl, sym, inl, inr, Option, some, List, [], ◌∷◌, ◌++◌, arith, ◌==◌, leb,
  if◌then◌else◌, Bool-cases, Option-cases, length, length-append,
}
use mathlib.Core.List.{append-nil, append_assoc}
use assessment_microservice.Store.{
  World, JudgeMessage, ok, submission_at, any, map_option, Result, find_by-update_by, Request, err,
  problem_at,
}
use assessment_microservice.Submissions.Rejudge.{
  rejudge_one, rejudge_each, message_again, update_submission, reset, rejudge_problem_submissions,
  submissions_of,
}
use assessment_microservice.Submissions.Judge.{
  publish_submission_message, max_queue_depth, Broker, answering, unreachable, failing_to_close,
}
use assessment_microservice.Models.{Problem, Submission}

-- The queue holds at most `max_queue_depth` messages.
abbrev pub Bounded : World → Type 0
Bounded w = length w.queue ≤ max_queue_depth

publish-Bounded :
    (broker : Broker) (m : JudgeMessage) (w : World)
    → Bounded w
    → Bounded (publish_submission_message broker m w).1
unfolding publish_submission_message
publish-Bounded unreachable m w h = h
publish-Bounded answering m w h = elim (Bool-cases (leb max_queue_depth (length w.queue))) [
  | inl e ↦ ground arith
  | inr e ↦ ground (arith, length-append w.queue (m ∷ []))
]
publish-Bounded failing_to_close m w h = elim (Bool-cases (leb max_queue_depth (length w.queue))) [
  | inl e ↦ ground arith
  | inr e ↦ ground (arith, length-append w.queue (m ∷ []))
]

rejudge_one-queue :
    (p : Problem) (s : Submission) (w : World)
    → length w.queue < max_queue_depth
    → rejudge_one answering p s w ≡ (
      ok tt,
      record (update_submission s.id reset w) { queue = w.queue ++ message_again p s ∷ [] },
    )
unfolding rejudge_one publish_submission_message
rejudge_one-queue p s w h = ground arith

-- One message for each submission, in order.
abbrev pub messages : Problem → List Submission → List JudgeMessage
messages p [] = []
messages p (s ∷ rest) = message_again p s ∷ messages p rest

-- While there is room in the queue, every submission of the list is sent to the judge again, once
-- and in order.
pub rejudge_each-queue :
    (p : Problem) (xs : List Submission) (w : World)
    → length w.queue + length xs ≤ max_queue_depth
    → ((rejudge_each answering p xs w).0 ≡ ok tt)
      × ((rejudge_each answering p xs w).1.queue ≡ w.queue ++ messages p xs)
unfolding rejudge_each
rejudge_each-queue p [] w h = (refl, sym (append-nil w.queue))
rejudge_each-queue p (s ∷ rest) w h = ground (
  arith,
  rejudge_one-queue p s w (omega arith),
  rejudge_each-queue p rest
      (record (update_submission s.id reset w) { queue = w.queue ++ message_again p s ∷ [] })
      (omega (arith, length-append w.queue (message_again p s ∷ []))),
  append_assoc w.queue (message_again p s ∷ []) (messages p rest),
)

-- The loop goes on with `m` unless the queue refused.
abbrev onward : Result (Unit {0}) × World → Request (Unit {0}) → Result (Unit {0}) × World
onward out m = elim out.0 [ ok a ↦ m out.1 | err e ↦ (err e, out.1) ]

onward-Bounded :
    (out : Result (Unit {0}) × World) (m : Request (Unit {0}))
    → Bounded out.1
    → ((v : World) → Bounded v → Bounded (m v).1)
    → Bounded (onward out m).1
onward-Bounded (ok u, v) m h rest = rest v h
onward-Bounded (err e, v) m h rest = h

pub rejudge_each-Bounded :
    (broker : Broker) (p : Problem) (xs : List Submission) (w : World)
    → Bounded w
    → Bounded (rejudge_each broker p xs w).1
unfolding rejudge_each rejudge_one
rejudge_each-Bounded broker p [] w h = h
rejudge_each-Bounded broker p (s ∷ rest) w h =
    onward-Bounded
      (publish_submission_message broker (message_again p s) (update_submission s.id reset w))
      (rejudge_each broker p rest)
      (publish-Bounded broker (message_again p s) (update_submission s.id reset w) h)
      (λ v g. rejudge_each-Bounded broker p rest v g)

rejudge_each-submission_at :
    (p : Problem) (xs : List Submission) (k : ℕ) (w : World)
    → length w.queue + length xs ≤ max_queue_depth
    → submission_at k (rejudge_each answering p xs w).1 ≡ (
        if any (λ s. s.id == k) xs then map_option reset (submission_at k w) else submission_at k w)
unfolding rejudge_each
rejudge_each-submission_at p [] k w h = refl
rejudge_each-submission_at p (s ∷ rest) k w h = ground (
  arith,
  rejudge_one-queue p s w (omega arith),
  rejudge_each-submission_at p rest k
      (record (update_submission s.id reset w) { queue = w.queue ++ message_again p s ∷ [] })
      (omega (arith, length-append w.queue (message_again p s ∷ []))),
  find_by-update_by (λ (x : Submission). x.id) k s.id reset w.submissions (λ x. refl),
)

-- A rejudge of a problem that exists: if RabbitMQ answers and the queue has room for them all,
-- every submission of the problem (in the assessment, if one is named) is counted, is sent to the
-- judge again, and stands in the database as pending without score or output, and no other
-- submission has changed.
pub rejudge_problem_submissions_complete :
    (problem : ℕ) (assessment : Option ℕ) (k : ℕ) (w : World) (p : Problem)
    → problem_at problem w ≡ some p
    → length w.queue + length (submissions_of problem assessment w) ≤ max_queue_depth
    → let chosen = submissions_of problem assessment w in
      let (r, w') = rejudge_problem_submissions answering problem assessment w in
      (r ≡ ok (length chosen))
      × (w'.queue ≡ w.queue ++ messages p chosen)
      × (submission_at k w' ≡ (
          if any (λ s. s.id == k) chosen
          then map_option reset (submission_at k w)
          else submission_at k w))
unfolding rejudge_problem_submissions
rejudge_problem_submissions_complete problem assessment k w p found room = ground (
  arith,
  rejudge_each-queue p (submissions_of problem assessment w) w room,
  rejudge_each-submission_at p (submissions_of problem assessment w) k w room,
)

-- Backpressure: whatever is rejudged, a queue that is no longer than its limit of 5000 messages
-- stays so.
pub rejudge_problem_submissions-Bounded :
    (broker : Broker) (problem : ℕ) (assessment : Option ℕ) (w : World)
    → Bounded w
    → Bounded (rejudge_problem_submissions broker problem assessment w).1
unfolding rejudge_problem_submissions
rejudge_problem_submissions-Bounded broker problem assessment w h =
    elim (Option-cases (problem_at problem w)) [
      | inl e ↦ ground arith
      | inr (p, e) ↦
          ground (arith, rejudge_each-Bounded broker p (submissions_of problem assessment w) w h)
    ]
