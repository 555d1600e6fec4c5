-- ===== src/Arventiq/Tests.antt =====
-- The theorems about verdicts at a submission with one failed case.
use assessment_microservice.Base.{false, none, some, [], ◌∷◌}
use assessment_microservice.Arventiq.Verdict.{JudgeReport, CaseDetail}
use assessment_microservice.Store.{World}
use assessment_microservice.Models.{Submission}
use assessment_microservice.Samples.{solution, world}

abbrev failed_case : CaseDetail
failed_case = record {
  test = none;
  error = some "exit status 1";
  error_type = some "runtime";
  passed = some false;
  ok = none;
  time_ms = some 12;
  memory_kb = some 0;
  input = some "1 2";
  expected = some "3";
  output = none;
  stdout = some "4";
  stderr = none;
}

abbrev report_of_failure : JudgeReport
report_of_failure = record {
  status = some "Wrong Answer";
  total = some 1;
  total_count = none;
  passed = some 0;
  passed_count = none;
  max_time_ms = some 12;
  details = some (failed_case ∷ []);
}

abbrev theirs : Submission
theirs = record solution { external_student_id = some "s-1" }

abbrev their_world : World
their_world = record world { submissions = theirs ∷ [] }
