-- ===== src/Samples.antt =====
-- The data that the tests share: one college, a student with an active attempt at an assessment of
-- two problems, one of which is solved.
use assessment_microservice.Base.{ℕ, false, none, some, [], ◌∷◌}
use assessment_microservice.Models.{
  Attempt, Assessment, Submission, Role, Problem, User, function, student, success, exact,
  published,
}
use assessment_microservice.Store.{World}
use assessment_microservice.Attempts.Expiry.{Clock, Caller}
use assessment_microservice.Attempts.Start.{new_attempt}
use assessment_microservice.Base.Int.{pos}

abbrev pub ann : User
ann = record {
  id = 1;
  name = "Ann";
  email = "ann@a.edu";
  password = "hash";
  role = student;
  usn = none;
  section = none;
  college_id = some 7;
}

abbrev pub problem : ℕ → Problem
problem k = record {
  id = k;
  external_id = none;
  title = "Sum";
  problem_type = function;
  function_name = some "sum";
  compare_mode = exact;
  test_cases = [];
  is_premium = false;
}

abbrev pub exam : Assessment
exam = record {
  id = 10;
  title = "Midterm";
  start_time = pos 0;
  end_time = pos 7200000;
  duration_minutes = pos 60;
  allowed_languages = [];
  problems =
      record { problem_id = 5; max_score = 40 } ∷ record { problem_id = 6; max_score = 60 } ∷ [];
  created_by = 2;
  college_id = some 7;
  status = published;
  locked = false;
  announcements = [];
}

abbrev pub caller : Role → ℕ → ℕ → Caller
caller role k college = record { id = k; role = role; college_id = some college }

abbrev pub sitting : Attempt
sitting = new_attempt 20 exam (caller student 1 7) (pos 0) (6 ∷ 5 ∷ [])

abbrev pub solution : Submission
solution = record {
  id = 30;
  problem_id = 5;
  user_id = 1;
  assessment_id = some 10;
  attempt_id = some 20;
  college_id = some 7;
  score = 100;
  code = "sum = a + b";
  language = "python";
  status = success;
  output = none;
  test_result = none;
  external_student_id = none;
  external_assessment_id = none;
}

abbrev pub world : World
world = record {
  users = ann ∷ [];
  colleges = [];
  problems = problem 5 ∷ problem 6 ∷ [];
  assessments = exam ∷ [];
  attempts = sitting ∷ [];
  submissions = solution ∷ [];
  usage_events = [];
  audit_logs = [];
  queue = [];
  cache = [];
}

abbrev pub at : ℕ → Clock
at t n = pos t
