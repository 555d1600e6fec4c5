-- ===== src/Attempts/Tests.antt =====
-- The theorems about attempts at a small world.
use assessment_microservice.Base.{◌≡◌, refl, some, List, [], ◌∷◌}
use assessment_microservice.Attempts.Submit.{submit_assessment, close_attempt, hand_in}
use assessment_microservice.Store.{find_by, World, attempt_at, ok, update_by}
use assessment_microservice.Models.{Attempt, faculty, student, admin}
use assessment_microservice.Attempts.Unique.{Distinct, start_assessment-Distinct, run-Distinct}
use assessment_microservice.Attempts.Expiry.{expiration_time, is_attempt_expired}
use assessment_microservice.Attempts.Calls.{Call, step, extend, start, log, run, draft, view}
use assessment_microservice.Samples.{caller, sitting, world, exam, problem, at}
use assessment_microservice.Attempts.Score.{
  recalculate_attempt_score, recalculate_attempt_score-attempt_at,
}
use assessment_microservice.Attempts.Evolution.{EvolvesAt}
use assessment_microservice.Attempts.Outcomes.{MayClose, ended, submit_assessment-ended}
use assessment_microservice.Base.Int.{pos, ◌+ℤ◌, ◌*ℤ◌}
use assessment_microservice.Attempts.Events.{tab_switch}
use assessment_microservice.Attempts.History.{Sealed, run-Sealed, step-EvolvesAt}
use assessment_microservice.Attempts.Tenancy.{step-foreign}
use assessment_microservice.Attempts.Start.{start_assessment}

ended_at_ten :
    (submit_assessment 20 (caller student 1 7) (at 600000) world).0
    ≡ ok (some (hand_in (pos 600000) (pos 600000) (record sitting { score = 40 })))
unfolding submit_assessment close_attempt recalculate_attempt_score is_attempt_expired
    expiration_time find_by update_by ◌+ℤ◌ ◌*ℤ◌
ended_at_ten = refl

may_close : MayClose 20 (caller student 1 7) world sitting exam
unfolding find_by
may_close = record {
  found = refl;
  there = refl;
  attempt_in_scope = refl;
  assessment_in_scope = refl;
  student_there = refl;
  own = refl;
}

step-EvolvesAt_example :
    EvolvesAt
      (some sitting)
      (attempt_at 20 (step (log 20 tab_switch (caller student 1 7) (at 5)) world))
unfolding find_by
step-EvolvesAt_example = step-EvolvesAt (log 20 tab_switch (caller student 1 7) (at 5)) 20 world tt

abbrev handed_in : Attempt
handed_in = hand_in (pos 600000) (pos 600000) sitting

abbrev afterwards : World
afterwards = record world { attempts = handed_in ∷ [] }

abbrev later_calls : List Call
later_calls =
    extend 20 (some (pos 30)) (caller faculty 2 7) (at 700000)
    ∷ draft 20 "x" (caller student 1 7)
    ∷ view 20 (caller student 1 7) (at 9000000)
    ∷ []

run-Sealed_example :
    (b : Attempt) × (attempt_at 20 (run later_calls afterwards) ≡ some b) × Sealed handed_in b
unfolding find_by
run-Sealed_example = run-Sealed later_calls 20 afterwards handed_in (tt, (tt, (tt, tt))) refl refl

submit_assessment-ended_example :
    let (r, w') = submit_assessment 20 (caller student 1 7) (at 600000) world in
    (r ≡ ok (some (ended 20 (at 600000) world exam sitting)))
    × (attempt_at 20 w' ≡ some (ended 20 (at 600000) world exam sitting))
unfolding find_by
submit_assessment-ended_example =
    submit_assessment-ended 20 (caller student 1 7) (at 600000) world sitting exam may_close refl
      refl

abbrev without_problem : World
without_problem = record world { problems = problem 5 ∷ [] }

recalculate_attempt_score-attempt_at_example :
    let (r, w') = recalculate_attempt_score 20 world in
    (r ≡ ok tt)
    × (attempt_at 20 w' ≡ some (record sitting { score = 40 }))
    × (w' ≡ record world { attempts = w'.attempts })
unfolding find_by
recalculate_attempt_score-attempt_at_example =
    recalculate_attempt_score-attempt_at 20 20 world sitting exam refl refl

step-foreign_example :
    attempt_at 20 (step (extend 20 (some (pos 5)) (caller admin 3 8) (at 5)) world) ≡ some sitting
unfolding find_by
step-foreign_example =
    step-foreign 20 world sitting refl (extend 20 (some (pos 5)) (caller admin 3 8) (at 5))
      (caller admin 3 8) 8 refl refl refl

-- The student's second click, which is served between the check and the creation of the first.
abbrev second_click : List Call
second_click = start (λ ids. ids) 22 10 (caller student 1 7) (at 5) ∷ []

abbrev not_started : World
not_started = record world { attempts = [] }

start_assessment-Distinct_example :
    Distinct
      (start_assessment
        (run second_click)
        (λ ids. ids)
        21
        10
        (caller student 1 7)
        (at 5)
        not_started).1.attempts
start_assessment-Distinct_example =
    start_assessment-Distinct not_started tt (run second_click) (λ ids. ids) 21 10
      (caller student 1 7) (at 5) (run-Distinct second_click)
