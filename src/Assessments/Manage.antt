-- ===== src/Assessments/Manage.antt =====
-- `createAssessment`, `updateAssessment`, `deleteAssessment`, `lockAssessment`, `unlockAssessment`,
-- `getAssessmentById`, `getAnnouncements` and `createAnnouncement` of assessments.service.js.
use assessment_microservice.Base.{
  ℕ, Bool, true, false, ◌&&◌, Option, none, some, List, [], ◌∷◌, ◌++◌, map, ◌==◌, if◌then◌else◌,
  String, text_eq, ◌||◌,
}
use assessment_microservice.Store.{
  Failure, Request, ◌>>◌, http, scoped, World, or_default, ◌>>=◌, map_option, gets,
  assessment_by_id, assessment_at, raise_if, ok, assessment_update_by_id, modify, or_raise, pure,
  validation_error, cast_error,
}
use assessment_microservice.Assessments.Payload.{
  Payload, PayloadProblem, validate_assessment_payload, Date, date, invalid_date,
}
use assessment_microservice.Base.Int.{ℤ, pos, negsuc}
use assessment_microservice.Attempts.Expiry.{Caller, college_scope_for, is_student}
use assessment_microservice.Models.{
  superadmin, admin, faculty, student, Assessment, AssessmentStatus, AssessmentProblem,
  Announcement, draft,
}

abbrev pub assessment_not_found : Failure
assessment_not_found = http 404 "Assessment not found"

-- A score that passed the validation is positive; the schema's default is 100.
abbrev pub stored_score : Option ℤ → ℕ
stored_score none = 100
stored_score (some (pos n)) = n
stored_score (some (negsuc n)) = 0

abbrev pub stored_problem : PayloadProblem → AssessmentProblem
stored_problem p = record { problem_id = p.problem_id; max_score = stored_score p.max_score }

-- The moment that Mongoose stores for a date that it can cast.
abbrev pub moment : ℤ → Option Date → ℤ
moment before none = before
moment before (some invalid_date) = before
moment before (some (date t)) = t

abbrev pub is_invalid : Option Date → Bool
is_invalid (some invalid_date) = true
is_invalid _ = false

-- Mongoose cannot cast an invalid date.
abbrev pub raise_if_invalid_date : Failure → Payload → Request (Unit {0})
raise_if_invalid_date e payload =
    raise_if (is_invalid payload.start_time || is_invalid payload.end_time) e

-- The document of `data` with the schema's defaults; a field that the validation asks for is there.
unfoldable pub new_assessment : ℕ → Payload → Caller → Assessment
new_assessment k payload user = record {
  id = k;
  title = or_default payload.title "";
  start_time = moment (pos 0) payload.start_time;
  end_time = moment (pos 0) payload.end_time;
  duration_minutes = or_default payload.duration_minutes (pos 0);
  allowed_languages = or_default payload.allowed_languages [];
  problems = map stored_problem (or_default payload.problems []);
  created_by = user.id;
  college_id = elim user.role [
    | superadmin ↦ payload.college_id
    | admin ↦ user.college_id
    | faculty ↦ user.college_id
    | student ↦ user.college_id
  ];
  status = or_default payload.status draft;
  locked = or_default payload.locked false;
  announcements = or_default payload.announcements [];
}

unfoldable pub create_assessment : ℕ → Payload → Caller → Request Assessment
create_assessment k payload user = do
  validate_assessment_payload payload
  raise_if_invalid_date validation_error payload
  modify (λ w. record w { assessments = new_assessment k payload user ∷ w.assessments })
  pure (new_assessment k payload user)

-- findOneAndUpdate with the payload's fields but for `collegeId`: a missing one is left as it is.
unfoldable pub edited : Payload → Assessment → Assessment
edited payload a = record a {
  title = or_default payload.title a.title;
  start_time = moment a.start_time payload.start_time;
  end_time = moment a.end_time payload.end_time;
  duration_minutes = or_default payload.duration_minutes a.duration_minutes;
  allowed_languages = or_default payload.allowed_languages a.allowed_languages;
  problems = or_default (map_option (map stored_problem) payload.problems) a.problems;
  created_by = or_default payload.created_by a.created_by;
  status = or_default payload.status a.status;
  locked = or_default payload.locked a.locked;
  announcements = or_default payload.announcements a.announcements;
}

unfoldable pub update_assessment_by_payload : ℕ → Payload → Caller → Request Assessment
update_assessment_by_payload k payload user = do
  validate_assessment_payload payload
  raise_if_invalid_date cast_error payload
  found ← assessment_update_by_id k (edited payload) (college_scope_for user)
  or_raise found assessment_not_found

unfoldable pub remove_by_id : ℕ → List Assessment → List Assessment
remove_by_id k [] = []
remove_by_id k (a ∷ rest) = if a.id == k then rest else a ∷ remove_by_id k rest

-- assessmentsRepo.deleteById: attempts and submissions of the assessment stay.
abbrev pub assessment_delete_by_id : ℕ → Option ℕ → Request (Option Assessment)
assessment_delete_by_id k scope w = elim (scoped (λ a. a.college_id) scope (assessment_at k w)) [
  | none ↦ (ok none, w)
  | some a ↦ (ok (some a), record w { assessments = remove_by_id k w.assessments })
]

unfoldable pub delete_assessment : ℕ → Caller → Request Assessment
delete_assessment k user = do
  found ← assessment_delete_by_id k (college_scope_for user)
  or_raise found assessment_not_found

-- `lockAssessment` and `unlockAssessment`
unfoldable pub set_lock : Bool → ℕ → Caller → Request Assessment
set_lock locked k user = do
  raise_if (is_student user.role) (http 403 "Forbidden")
  found ← assessment_update_by_id k (λ a. record a { locked = locked }) (college_scope_for user)
  or_raise found assessment_not_found

abbrev pub is_draft : AssessmentStatus → Bool
is_draft draft = true
is_draft _ = false

unfoldable pub get_assessment_by_id : ℕ → Caller → World → Option Assessment
get_assessment_by_id k user w = elim (assessment_by_id (some k) (college_scope_for user) w) [
  | none ↦ none
  | some a ↦ (if is_student user.role && is_draft a.status then none else some a)
]

unfoldable pub get_announcements : ℕ → Caller → Request (List Announcement)
get_announcements k user = do
  found ← gets (assessment_by_id (some k) (college_scope_for user))
  a ← or_raise found assessment_not_found
  pure a.announcements

-- `trimmed` is message.trim(), which is empty for a message without any text.
unfoldable pub create_announcement : ℕ → String → Caller → ℤ → Request Announcement
create_announcement k trimmed user now = do
  raise_if (text_eq trimmed "") (http 400 "Message must be a non-empty string")
  found ← gets (assessment_by_id (some k) (college_scope_for user))
  or_raise found assessment_not_found
  let announcement : Announcement = record { message = trimmed; sent_at = now }
  assessment_update_by_id k (λ a. record a { announcements = a.announcements ++ announcement ∷ [] })
      (college_scope_for user)
  pure announcement
