-- ===== src/Assessments/Tests.antt =====
-- The theorems about the administration of assessments at the sample exam.
use assessment_microservice.Base.{◌≡◌, refl, true, none, some, [], ◌∷◌}
use assessment_microservice.Assessments.Payload.{
  validate_assessment_payload, Payload, payload_errors, has_duplicates, invalid_date, date,
}
use assessment_microservice.Store.{find_by, assessment_at, err, validation_error}
use assessment_microservice.Samples.{world, caller, exam}
use assessment_microservice.Base.Int.{pos}
use assessment_microservice.Assessments.Manage.{
  set_lock, update_assessment_by_payload, delete_assessment, create_announcement, create_assessment,
}
use assessment_microservice.Models.{faculty}
use assessment_microservice.Assessments.Wellformed.{Valid, validate_assessment_payload-Valid}
use assessment_microservice.Assessments.Ownership.{foreign_assessment_kept}

abbrev body : Payload
body = record {
  title = some "Midterm";
  start_time = some (date (pos 0));
  end_time = some (date (pos 7200000));
  duration_minutes = some (pos 60);
  allowed_languages = none;
  problems = some (
      record { problem_id = 5; max_score = some (pos 40) }
      ∷ record { problem_id = 6; max_score = none }
      ∷ []);
  created_by = none;
  college_id = some 8;
  status = none;
  locked = none;
  announcements = none;
}

validate_assessment_payload-Valid_example : Valid body
unfolding validate_assessment_payload payload_errors has_duplicates
validate_assessment_payload-Valid_example = (validate_assessment_payload-Valid body world).0 refl

-- The validation lets it pass, and Mongoose refuses it.
abbrev undated : Payload
undated = record body { end_time = some invalid_date }

undated_passes : Valid undated
unfolding validate_assessment_payload payload_errors has_duplicates
undated_passes = (validate_assessment_payload-Valid undated world).0 refl

undated_refused :
    create_assessment 11 undated (caller faculty 2 7) world ≡ (err validation_error, world)
unfolding create_assessment validate_assessment_payload payload_errors has_duplicates
undated_refused = refl

foreign_assessment_kept_example :
    (assessment_at 10 (update_assessment_by_payload 10 body (caller faculty 2 8) world).1
      ≡ some exam)
    × (assessment_at 10 (delete_assessment 10 (caller faculty 2 8) world).1 ≡ some exam)
    × (assessment_at 10 (set_lock true 10 (caller faculty 2 8) world).1 ≡ some exam)
    × (assessment_at 10 (create_announcement 10 "hi" (caller faculty 2 8) (pos 1) world).1
        ≡ some exam)
unfolding find_by
foreign_assessment_kept_example =
    foreign_assessment_kept 10 10 8 (caller faculty 2 8) body true "hi" (pos 1) world exam refl refl
      refl
