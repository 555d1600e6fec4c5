-- ===== src/Submissions/QueueTests.antt =====
-- The theorems about handing in, reading and rejudging submissions at the sample world.
use assessment_microservice.Base.{◌≡◌, refl, true, none, [], ◌∷◌, arith, some}
use assessment_microservice.Submissions.Judge.{unreachable}
use assessment_microservice.Submissions.Backlog.{rejudge_problem_submissions_complete}
use assessment_microservice.Store.{find_by, World, ok, submission_at}
use assessment_microservice.Submissions.Endings.{Outcome}
use assessment_microservice.Submissions.Intake.{Surroundings, Solution}
use assessment_microservice.Submissions.Rejudge.{
  rejudge_problem_submissions, rejudge_submission, reset,
}
use assessment_microservice.Samples.{world, solution, at, problem, caller}
use assessment_microservice.Base.Int.{pos}
use assessment_microservice.Quota.Window.{fail_open}
use assessment_microservice.Submissions.Judge.{answering}
use assessment_microservice.Submissions.Access.{
  get_submission_by_id, can_access_submission, fetched, as_seen_by,
}
use assessment_microservice.Models.{student}
use assessment_microservice.Submissions.Reading.{rejudge_submission-stale}

abbrev practice : Solution
practice = record {
  problem_id = 5;
  code = "print(a + b)";
  language = "python";
  user_id = 1;
  college_id = none;
  assessment_id = none;
  attempt_id = none;
  external_student_id = none;
  external_assessment_id = none;
}

-- RabbitMQ is down.
abbrev offline : Surroundings
offline = record {
  price = none;
  month = pos 0;
  database = true;
  student_quota = fail_open;
  college_quota = fail_open;
  broker = unreachable;
  new_id = 31;
  clock = at 0;
}

rejudge_problem_submissions_complete_example :
    (rejudge_problem_submissions answering 5 none world).0 ≡ ok 1
unfolding find_by
rejudge_problem_submissions_complete_example =
    (rejudge_problem_submissions_complete 5 none 30 world (problem 5) refl (omega arith)).0

abbrev result_cached : World
result_cached = record world { cache = solution ∷ [] }

rejudge_submission-stale_example :
    let (_, w') = rejudge_submission answering 30 result_cached in
    (submission_at 30 w' ≡ some (reset solution))
    × ((get_submission_by_id true 30 (caller student 1 7) w').0
        ≡ ok (fetched true (as_seen_by (caller student 1 7) result_cached solution)))
unfolding find_by can_access_submission
rejudge_submission-stale_example =
    rejudge_submission-stale 30 (caller student 1 7) result_cached solution solution (problem 5)
      refl refl refl refl
