-- ===== src/Reports.antt =====
-- `getAssessmentAttendance` and `getAssessmentAnalytics` of assessment-api/src/services/
-- assessments.service.js. Averages and rates are the exact fractions that `toFixed` rounds, with the
-- number of its digits.
pub mod Overall
pub mod Sections
pub mod Solved
pub mod Analytics
pub mod Attended
pub mod Bounds
pub mod Keys
pub mod Waiting
pub mod Tallied
pub mod Distinct
mod Tests
use assessment_microservice.Base.{
  ℕ, zero, suc, ◌+◌, ◌-◌, ◌*◌, ◌≤◌, ◌<◌, ◌≡◌, ◌≢◌, ◌↔◌, ◌⊎◌, refl, sym, ap, subst, ◌∙◌, inl, inr,
  Bool, true, false, not, ◌&&◌, ◌||◌, Option, none, some, List, [], ◌∷◌, ◌++◌, map, arith, ◌==◌,
  ==_iff, ltb, leb, if◌then◌else◌, String, text_eq, Bool-cases, Option-cases, length,
}
use assessment_microservice.Store.{
  or_default, World, Result, filter, ok, err, user_at, in_scope, http, type_error, assessment_by_id,
}
use assessment_microservice.Models.{
  User, AttemptStatus, Attempt, Assessment, unchallenged, Challenge,
}
use assessment_microservice.Attempts.Expiry.{Caller, is_student, college_scope_for}
use assessment_microservice.Base.Int.{ℤ}

-- User.find({ role: 'student' }), of the college if there is one
unfoldable pub students_of : Option ℕ → World → List User
students_of college w = filter (λ u. is_student u.role && in_scope college u.college_id) w.users

-- attemptsRepo.findAll({ assessmentId })
unfoldable pub attempts_at : ℕ → World → List Attempt
attempts_at k w = filter (λ a. a.assessment_id == k) w.attempts

-- `x || ''`
abbrev pub or_empty : Option String → String
or_empty s = or_default s ""

-- A row of the attendance; without an attempt the status is 'Not Started'.
pub record AttendanceRow : Type 0 where
  pub student_id : ℕ
  pub name : String
  pub email : String
  pub usn : String
  pub section : String
  pub status : Option AttemptStatus
  pub attempt_id : Option ℕ
  pub score : ℕ
  pub started_at : Option ℤ
  pub submitted_at : Option ℤ
  pub tab_switch_count : ℕ
  pub copy_count : ℕ
  pub paste_count : ℕ
  pub fullscreen_exit_count : ℕ
  pub challenge : Challenge

-- `{ status: 'None' }`
abbrev pub no_challenge : Challenge
no_challenge = record {
  status = unchallenged;
  reason = none;
  faculty_comment = none;
  raised_at = none;
  resolved_at = none;
}

unfoldable pub attendance_row : User → Option Attempt → AttendanceRow
attendance_row u none = record {
  student_id = u.id;
  name = u.name;
  email = u.email;
  usn = or_empty u.usn;
  section = or_empty u.section;
  status = none;
  attempt_id = none;
  score = 0;
  started_at = none;
  submitted_at = none;
  tab_switch_count = 0;
  copy_count = 0;
  paste_count = 0;
  fullscreen_exit_count = 0;
  challenge = no_challenge;
}
attendance_row u (some a) = record {
  student_id = u.id;
  name = u.name;
  email = u.email;
  usn = or_empty u.usn;
  section = or_empty u.section;
  status = some a.status;
  attempt_id = some a.id;
  score = a.score;
  started_at = some a.started_at;
  submitted_at = a.submitted_at;
  tab_switch_count = a.tab_switch_count;
  copy_count = a.copy_count;
  paste_count = a.paste_count;
  fullscreen_exit_count = a.fullscreen_exit_count;
  challenge = a.challenge;
}

-- One turn of `attempts.find(…)`: reading the `_id` of a student whose account is gone raises.
abbrev pub own_or_next :
    ℕ → Attempt → Result (Option Attempt) → Option User → Result (Option Attempt)
own_or_next student a next none = err type_error
own_or_next student a next (some u) = if u.id == student then ok (some a) else next

unfoldable pub find_own : World → ℕ → List Attempt → Result (Option Attempt)
find_own w student [] = ok none
find_own w student (a ∷ attempts) =
    own_or_next student a (find_own w student attempts) (user_at a.student_id w)

abbrev pub add_row :
    User → Result (Option Attempt) → Result (List AttendanceRow) → Result (List AttendanceRow)
add_row u (err e) rows = err e
add_row u (ok attempt) (err e) = err e
add_row u (ok attempt) (ok rows) = ok (attendance_row u attempt ∷ rows)

-- `students.map(…)`
unfoldable pub attendance_rows : World → List Attempt → List User → Result (List AttendanceRow)
attendance_rows w attempts [] = ok []
attendance_rows w attempts (u ∷ students) =
    add_row u (find_own w u.id attempts) (attendance_rows w attempts students)

-- The gate that both reports begin with.
unfoldable pub report_on : {A : Type 0} → ℕ → Caller → World → (Assessment → Result A) → Result A
report_on k user w report =
    if is_student user.role
    then err (http 403 "Forbidden")
    else elim (assessment_by_id (some k) (college_scope_for user) w) [
      | none ↦ err (http 404 "Assessment not found")
      | some a ↦ report a
    ]

unfoldable pub get_assessment_attendance : ℕ → Caller → World → Result (List AttendanceRow)
get_assessment_attendance k user w =
    report_on k user w (λ a. attendance_rows w (attempts_at k w) (students_of a.college_id w))
