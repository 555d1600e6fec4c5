-- ===== src/Submissions/Gate.antt =====
-- `validateAssessmentSubmission` of submissions.service.js: whether an attempt takes a solution.
use assessment_microservice.Base.{
  ℕ, String, Bool, false, not, Option, none, some, List, [], ◌∷◌, concat, text_eq,
}
use assessment_microservice.Base.Int.{ℤ, leb_ℤ}
use assessment_microservice.Models.{AssessmentProblem, Attempt, timed_out}
use assessment_microservice.Store.{
  World, Request, http, pure, gets, modify, or_raise, raise_if, raise, ◌>>=◌, ◌>>◌, branch, any,
  is_id, attempt_by_id, assessment_by_id, update_attempt, problem_ref, PopulatedAttempt,
}
use assessment_microservice.Attempts.Expiry.{is_active, attempt_expiration}
use assessment_microservice.Attempts.Submit.{attempt_not_found}
use assessment_microservice.Attempts.Events.{lower_status}

-- assessment.problems.some(…), where a deleted problem matches nothing
abbrev pub includes_problem : World → ℕ → List AssessmentProblem → Bool
includes_problem w problem = any (λ p. is_id (problem_ref w p) problem)

-- assessment.allowedLanguages?.length > 0 && !assessment.allowedLanguages.includes(language)
abbrev pub is_refused_language : List String → String → Bool
is_refused_language [] language = false
is_refused_language (l ∷ ls) language = not (any (λ x. text_eq x language) (l ∷ ls))

-- `expiration` has passed: the attempt is closed, and the solution refused.
abbrev pub expire : ℤ → Attempt → Attempt
expire at a = record a { status = timed_out; submitted_at = some at }

-- The checks on an attempt that was found.
unfoldable pub check_attempt : ℕ → String → ℕ → ℕ → ℕ → ℤ → PopulatedAttempt → Request (Unit {0})
check_attempt problem language user assessment_id attempt_id now attempt = do
  raise_if (not (is_id attempt.student user)) (http 403 "Forbidden: You do not own this attempt")
  raise_if (not (is_id attempt.assessment assessment_id))
      (http 400 "Attempt does not belong to this assessment")
  assessment? ← gets (assessment_by_id (some assessment_id) none)
  assessment ← or_raise assessment? (http 404 "Assessment not found")
  raise_if assessment.locked
      (http 409 "Assessment is locked by the faculty and no longer accepts submissions")
  raise_if (not (is_active attempt.status)) (
      http 409 (
        concat "Attempt is "
          (concat (lower_status attempt.status) " and no longer accepts submissions")))
  branch (leb_ℤ (attempt_expiration attempt.doc assessment) now)
      (do
        modify (update_attempt attempt_id (expire (attempt_expiration attempt.doc assessment)))
        raise (http 409 "Attempt has timed out and no longer accepts submissions"))
      (pure tt)
  included ← gets (λ w. includes_problem w problem assessment.problems)
  raise_if (not included) (http 400 "Problem is not part of this assessment")
  raise_if (is_refused_language assessment.allowed_languages language)
      (http 400 "Language is not allowed for this assessment")

unfoldable pub validate_assessment_submission :
    ℕ → String → ℕ → Option ℕ → Option ℕ → ℤ → Request (Unit {0})
unfolding check_attempt
validate_assessment_submission problem language user none none now = pure tt
validate_assessment_submission problem language user (some s) none now =
    raise (http 400 "Assessment submissions require both assessmentId and attemptId")
validate_assessment_submission problem language user none (some k) now =
    raise (http 400 "Assessment submissions require both assessmentId and attemptId")
validate_assessment_submission problem language user (some s) (some k) now = do
  found ← attempt_by_id k none
  attempt ← or_raise found attempt_not_found
  check_attempt problem language user s k now attempt
