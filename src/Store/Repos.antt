-- ===== src/Store/Repos.antt =====
-- assessment-api/src/repositories: the lookups and updates of the services, with `populate`.
-- A populated reference is null when the document that it names is gone.
use assessment_microservice.Base.{ℕ, Bool, true, Option, none, some, ◌∷◌, ◌==◌, ◌&&◌, if◌then◌else◌}
use assessment_microservice.Models.{
  User, Problem, Assessment, AssessmentProblem, Attempt, Submission,
}
use assessment_microservice.Store.Docs.{find, find_by, update_by, is_some, is_id}
use assessment_microservice.Store.Effects.{World, Request, duplicate_key, modify, ok, err}
use Prim.Native.String.{String}

-- `collegeId ? { _id, collegeId } : { _id }`
abbrev pub in_scope : Option ℕ → Option ℕ → Bool
in_scope none owner = true
in_scope (some c) owner = is_id owner c

abbrev pub scoped {ℓ} : {A : Type ℓ} → (A → Option ℕ) → Option ℕ → Option A → Option A
scoped owner scope none = none
scoped owner scope (some a) = if in_scope scope (owner a) then some a else none

abbrev pub user_at : ℕ → World → Option User
user_at k w = find_by (λ u. u.id) k w.users

abbrev pub problem_at : ℕ → World → Option Problem
problem_at k w = find_by (λ p. p.id) k w.problems

abbrev pub assessment_at : ℕ → World → Option Assessment
assessment_at k w = find_by (λ a. a.id) k w.assessments

abbrev pub attempt_at : ℕ → World → Option Attempt
attempt_at k w = find_by (λ a. a.id) k w.attempts

abbrev pub submission_at : ℕ → World → Option Submission
submission_at k w = find_by (λ s. s.id) k w.submissions

-- `null` once the target is deleted.
abbrev pub populated {ℓ} : {A : Type ℓ} → ℕ → Option A → Option ℕ
populated k found = if is_some found then some k else none

-- An attempt with `studentId` and `assessmentId` populated.
pub record PopulatedAttempt : Type 0 where
  pub doc : Attempt
  pub open doc use *
  pub student : Option ℕ
  pub assessment : Option ℕ

abbrev pub populate_attempt : World → Attempt → PopulatedAttempt
populate_attempt w a = record {
  doc = a;
  student = populated a.student_id (user_at a.student_id w);
  assessment = populated a.assessment_id (assessment_at a.assessment_id w);
}

-- attemptsRepo.findById
abbrev pub attempt_by_id : ℕ → Option ℕ → Request (Option PopulatedAttempt)
attempt_by_id k scope w = elim (scoped (λ a. a.college_id) scope (attempt_at k w)) [
  | none ↦ (ok none, w)
  | some a ↦ (ok (some (populate_attempt w a)), w)
]

-- attemptsRepo.findOne({ assessmentId, studentId })
abbrev pub attempt_of : ℕ → ℕ → World → Option Attempt
attempt_of assessment student w =
    find (λ a. a.assessment_id == assessment && a.student_id == student) w.attempts

abbrev pub update_attempt : ℕ → (Attempt → Attempt) → World → World
update_attempt k f w = record w { attempts = update_by (λ a. a.id) k f w.attempts }

-- attemptsRepo.updateById without a college: the updated document, or null
abbrev pub attempt_update_by_id : ℕ → (Attempt → Attempt) → Request (Option Attempt)
attempt_update_by_id k f w = (ok (attempt_at k (update_attempt k f w)), update_attempt k f w)

-- attemptsRepo.create, under the unique index on assessmentId and studentId
abbrev pub attempt_create : Attempt → Request Attempt
attempt_create a w = elim (attempt_of a.assessment_id a.student_id w) [
  | none ↦ (ok a, record w { attempts = a ∷ w.attempts })
  | some other ↦ (err duplicate_key, w)
]

-- assessmentsRepo.findById
abbrev pub assessment_by_id : Option ℕ → Option ℕ → World → Option Assessment
assessment_by_id none scope w = none
assessment_by_id (some k) scope w = scoped (λ a. a.college_id) scope (assessment_at k w)

abbrev pub update_assessment : ℕ → (Assessment → Assessment) → World → World
update_assessment k f w = record w { assessments = update_by (λ a. a.id) k f w.assessments }

-- assessmentsRepo.updateById
abbrev pub assessment_update_by_id :
    ℕ → (Assessment → Assessment) → Option ℕ → Request (Option Assessment)
assessment_update_by_id k f scope w = elim (scoped (λ a. a.college_id) scope (assessment_at k w)) [
  | none ↦ (ok none, w)
  | some a ↦ (ok (some (f a)), update_assessment k f w)
]

-- The entry's `problemId`, populated.
abbrev pub problem_ref : World → AssessmentProblem → Option ℕ
problem_ref w p = populated p.problem_id (problem_at p.problem_id w)

-- auditService.logEvent, which never raises
abbrev pub log_event : String → Option ℕ → Request (Unit {0})
log_event event user =
    modify λ w. record w { audit_logs = record { event = event; user_id = user } ∷ w.audit_logs }
