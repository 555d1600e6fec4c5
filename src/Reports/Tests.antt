-- ===== src/Reports/Tests.antt =====
-- The reports of a small assessment.
use assessment_microservice.Base.{ℕ, ◌≤◌, ◌≡◌, refl, true, none, some, List, [], ◌∷◌, map}
use assessment_microservice.Reports.{
  attempts_at, get_assessment_attendance, assessment_by_id, report_on, students_of, attendance_rows,
  find_own, ok, err, type_error, attendance_row, Result, http,
}
use assessment_microservice.Reports.Overall.{overall_stats, overall_of}
use assessment_microservice.Models.{
  Attempt, AttemptStatus, User, submitted, timed_out, faculty, active, Submission, student, fail,
}
use assessment_microservice.Reports.Bounds.{Consistent, overall_stats-Consistent}
use assessment_microservice.Store.{find_by, World, attempt_of}
use assessment_microservice.Reports.Sections.{
  SectionStats, is_inherited, section_stats, add_attempts, add_to_section, section_of,
  update_section, count_attempt, add_students, has_attempt,
}
use assessment_microservice.Assessments.Paging.{All}
use assessment_microservice.Samples.{solution, world, sitting, caller, ann, exam, problem}
use assessment_microservice.Reports.Attended.{
  Known, get_assessment_attendance-gone_account, get_assessment_attendance_complete,
}
use assessment_microservice.Reports.Analytics.{get_assessment_analytics, Analytics}
use assessment_microservice.Reports.Solved.{
  question_report, submissions_to, id_set, is_success, has_id,
}
use assessment_microservice.Reports.Tallied.{CountsOf, section_stats-CountsOf}
use assessment_microservice.Reports.Keys.{stats_of}
use assessment_microservice.Reports.Distinct.{StudentsOf, question_report-StudentsOf}

-- Attempts by students who are there, with their statuses and scores.
abbrev with_score : ℕ → AttemptStatus → Attempt
with_score n status = record sitting { score = n; status = status }

abbrev bob : User
bob = record ann { id = 2; email = "bob@x.org"; section = some "B" }

abbrev class : World
class = record world { users = ann ∷ bob ∷ []; attempts = with_score 150 submitted ∷ [] }

-- The account of the attempt's student is gone.
abbrev without_ann : World
without_ann = record class { users = bob ∷ [] }

ann-Known : All (Known class) (attempts_at 10 class)
unfolding attempts_at find_by
ann-Known = ((ann, refl), tt)

exam_found : assessment_by_id (some 10) (some 7) class ≡ some exam
unfolding find_by
exam_found = refl

two_rows :
    get_assessment_attendance 10 (caller faculty 4 7) class
    ≡ ok (attendance_row ann (some (with_score 150 submitted)) ∷ attendance_row bob none ∷ [])
unfolding get_assessment_attendance report_on find_by students_of attempts_at attendance_rows
    find_own attendance_row
two_rows = refl

get_assessment_attendance_complete_example :
    get_assessment_attendance 10 (caller faculty 4 7) class
    ≡ ok (map (λ u. attendance_row u (attempt_of 10 u.id class)) (students_of (some 7) class))
get_assessment_attendance_complete_example =
    get_assessment_attendance_complete 10 (caller faculty 4 7) class exam refl exam_found ann-Known

get_assessment_attendance-gone_account_example :
    get_assessment_attendance 10 (caller faculty 4 7) without_ann ≡ err type_error
unfolding attempts_at find_by students_of
get_assessment_attendance-gone_account_example =
    get_assessment_attendance-gone_account 10 (caller faculty 4 7) without_ann exam
      (with_score 150 submitted) [] bob [] refl refl refl refl refl

abbrev attempts : List Attempt
attempts = with_score 150 submitted ∷ with_score 40 timed_out ∷ with_score 0 active ∷ []

averages :
    (overall_stats [] attempts 200).avg_score
    ≡ record { numerator = 190; denominator = 2; places = 1 }
unfolding overall_stats overall_of
averages = refl

overall_stats-Consistent_example : Consistent (overall_stats (ann ∷ bob ∷ []) attempts 200)
overall_stats-Consistent_example = overall_stats-Consistent (ann ∷ bob ∷ []) attempts 200

abbrev counted_sections : List SectionStats
counted_sections =
    record {
      section = "Unassigned";
      total = 1;
      started = 1;
      submitted = 1;
      scores = 150 ∷ [];
      passed_count = 1;
    }
    ∷ record { section = "B"; total = 1; started = 0; submitted = 0; scores = []; passed_count = 0 }
    ∷ []

sections_counted :
    section_stats class 200 (with_score 150 submitted ∷ []) (ann ∷ bob ∷ []) ≡ ok counted_sections
unfolding section_stats add_attempts find_by add_to_section is_inherited section_of update_section
    count_attempt add_students has_attempt
sections_counted = refl

section_stats-CountsOf_example :
    CountsOf class "B" 200
      (with_score 150 submitted ∷ [])
      (ann ∷ bob ∷ [])
      (stats_of "B" counted_sections)
unfolding is_inherited
section_stats-CountsOf_example =
    section_stats-CountsOf class "B" 200 (with_score 150 submitted ∷ []) (ann ∷ bob ∷ [])
      counted_sections refl sections_counted

-- A section of this name has no scores.
inherited_section :
    section_stats
      (record class { users = record ann { section = some "constructor" } ∷ [] })
      200
      (with_score 150 submitted ∷ [])
      []
    ≡ err type_error
unfolding section_stats add_attempts find_by add_to_section is_inherited section_of
inherited_section = refl

-- Two submissions of one student, one of them successful.
abbrev twice : List Submission
twice = solution ∷ record solution { id = 31; status = fail } ∷ []

question_report-StudentsOf_example :
    let r = question_report twice 1 (record { problem_id = 5; max_score = 100 }) (problem 5) in
    let own = submissions_to 5 twice in
    StudentsOf (λ s. true) own r.attempt_count
    × StudentsOf is_success own r.solved_count
    × (r.solved_count ≤ r.attempt_count)
question_report-StudentsOf_example =
    question_report-StudentsOf twice 1 (record { problem_id = 5; max_score = 100 }) (problem 5)

one_student :
    (question_report twice 1 (record { problem_id = 5; max_score = 100 }) (problem 5)).attempt_count
    ≡ 1
unfolding question_report submissions_to id_set has_id
one_student = refl

abbrev analytics : Result Analytics
analytics = get_assessment_analytics 10 (caller faculty 4 7) class

student_refused :
    get_assessment_analytics 10 (caller student 1 7) class ≡ err (http 403 "Forbidden")
unfolding get_assessment_analytics report_on
student_refused = refl
