-- ===== src/Submissions/Tests.antt =====
-- The theorems about submissions at small inputs.
use assessment_microservice.Base.{◌≡◌, ◌↔◌, refl, inl, some, arith}
use assessment_microservice.Base.Int.{pos, ◌+ℤ◌, ◌*ℤ◌}
use assessment_microservice.Store.{find_by, ok}
use assessment_microservice.Submissions.Gate.{validate_assessment_submission}
use assessment_microservice.Attempts.Expiry.{expiration_time}
use assessment_microservice.Submissions.Acceptance.{Accepts, validate_assessment_submission-Accepts}
use assessment_microservice.Samples.{sitting, world, exam}

in_time : Accepts world 5 "python" 1 10 (pos 600000) sitting exam
unfolding find_by expiration_time ◌+ℤ◌ ◌*ℤ◌
in_time = record {
  owned = refl;
  belongs = refl;
  unlocked = refl;
  running = refl;
  in_time = omega arith;
  listed = inl refl;
  present = refl;
  allowed = inl refl;
}

validate_assessment_submission-Accepts_example :
    ((validate_assessment_submission 5 "python" 1 (some 10) (some 20) (pos 600000) world).0 ≡ ok tt)
    ↔ Accepts world 5 "python" 1 10 (pos 600000) sitting exam
unfolding find_by
validate_assessment_submission-Accepts_example =
    validate_assessment_submission-Accepts world 5 "python" 1 10 20 (pos 600000) sitting exam refl
      refl refl
