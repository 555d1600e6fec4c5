-- ===== src/Submissions/Acceptance.antt =====
-- Which solutions of an assessment pass `validateAssessmentSubmission`, said without its code.
use assessment_microservice.Base.{
  ℕ, ◌≡◌, ◌↔◌, ◌⊎◌, refl, inl, inr, true, false, Option, none, some, List, [], ◌∷◌, arith, String,
  text_eq, text_eq_iff,
}
use assessment_microservice.Store.{
  any, World, is_some, problem_at, ok, attempt_at, assessment_at, user_at,
}
use assessment_microservice.Models.{AssessmentProblem, Attempt, Assessment, active}
use assessment_microservice.Submissions.Gate.{
  is_refused_language, includes_problem, validate_assessment_submission,
}
use assessment_microservice.Base.Int.{ℤ, leb_ℤ, ◌<ℤ◌, eq_of_parts}
use assessment_microservice.Attempts.Expiry.{
  is_attempt_expired, attempt_expiration, expiration_time, attempt_expiration-eq-expiration_time,
}

-- The problem is an entry of the list.
abbrev pub Lists : ℕ → List AssessmentProblem → Type 0
Lists k [] = ⊥
Lists k (p ∷ ps) = (p.problem_id ≡ k) ⊎ Lists k ps

abbrev pub ListsText : String → List String → Type 0
ListsText t [] = ⊥
ListsText t (s ∷ ss) = (s ≡ t) ⊎ ListsText t ss

-- An empty list of languages allows them all.
abbrev pub Allows : List String → String → Type 0
Allows languages language = (languages ≡ []) ⊎ ListsText language languages

includes→Lists :
    (w : World) (k : ℕ) (ps : List AssessmentProblem)
    → includes_problem w k ps ≡ true
    → Lists k ps × (is_some (problem_at k w) ≡ true)
includes→Lists w k [] h = cc
includes→Lists w k (p ∷ ps) h = ground (arith, includes→Lists w k ps)

Lists→includes :
    (w : World) (k : ℕ) (ps : List AssessmentProblem)
    → Lists k ps
    → is_some (problem_at k w) ≡ true
    → includes_problem w k ps ≡ true
Lists→includes w k [] h there = absurd h
Lists→includes w k (p ∷ ps) (inl e) there = ground arith
Lists→includes w k (p ∷ ps) (inr h) there = ground (arith, Lists→includes w k ps h there)

any_text→ : (t : String) (ss : List String) → any (λ x. text_eq x t) ss ≡ true → ListsText t ss
any_text→ t [] h = cc
any_text→ t (s ∷ ss) h = ground (arith, text_eq_iff s t, any_text→ t ss)

any_text← : (t : String) (ss : List String) → ListsText t ss → any (λ x. text_eq x t) ss ≡ true
any_text← t [] h = absurd h
any_text← t (s ∷ ss) (inl e) = ground (arith, text_eq_iff s t)
any_text← t (s ∷ ss) (inr h) = ground (arith, any_text← t ss h)

is_refused_language_iff :
    (ls : List String) (l : String) → (is_refused_language ls l ≡ false) ↔ Allows ls l
is_refused_language_iff [] l = (λ h. inl refl, λ h. refl)
is_refused_language_iff (x ∷ xs) l =
    (λ h. inr (any_text→ l (x ∷ xs) (ground arith)), λ h. ground (arith, any_text← l (x ∷ xs)))

-- What a solution of an assessment has to meet, at the time `now`.
pub record Accepts (w : World) (problem : ℕ) (language : String) (user assessment_id : ℕ) (now : ℤ)
    (a : Attempt) (s : Assessment) : Type 0 where
  pub owned : a.student_id ≡ user
  pub belongs : a.assessment_id ≡ assessment_id
  pub unlocked : s.locked ≡ false
  pub running : a.status ≡ active
  pub in_time : now <ℤ expiration_time a s
  pub listed : Lists problem s.problems
  pub present : is_some (problem_at problem w) ≡ true
  pub allowed : Allows s.allowed_languages language

-- For an attempt, its student and the assessment that are all there, a solution passes exactly when
-- the attempt is the caller's, belongs to the assessment, is active and not over, and the assessment
-- is not locked, lists the problem (which still exists) and allows the language.
pub validate_assessment_submission-Accepts :
    (w : World) (problem : ℕ) (language : String) (user assessment_id k : ℕ) (now : ℤ) (a : Attempt)
    (s : Assessment)
    → attempt_at k w ≡ some a
    → assessment_at assessment_id w ≡ some s
    → is_some (user_at a.student_id w) ≡ true
    → ((validate_assessment_submission problem language user (some assessment_id) (some k) now w).0
        ≡ ok tt)
      ↔ Accepts w problem language user assessment_id now a s
unfolding validate_assessment_submission
validate_assessment_submission-Accepts w problem language user assessment_id k now a s ea es eu = (
  λ h. record {
    owned = ground arith;
    belongs = ground arith;
    unlocked = ground arith;
    running = ground arith;
    in_time = ground (arith, attempt_expiration-eq-expiration_time a s);
    listed = (includes→Lists w problem s.problems (ground arith)).0;
    present = (includes→Lists w problem s.problems (ground arith)).1;
    allowed = (is_refused_language_iff s.allowed_languages language).0 (ground arith);
  },
  λ v. ground (
    arith,
    attempt_expiration-eq-expiration_time a s,
    Lists→includes w problem s.problems v.listed v.present,
    (is_refused_language_iff s.allowed_languages language).1 v.allowed,
  ),
)

-- A solution that passes leaves everything as it was.
pub validate_assessment_submission_pure :
    (w : World) (problem : ℕ) (language : String) (user : ℕ) (assessment_id attempt_id : Option ℕ)
    (now : ℤ)
    → (validate_assessment_submission problem language user assessment_id attempt_id now w).0
      ≡ ok tt
    → (validate_assessment_submission problem language user assessment_id attempt_id now w).1 ≡ w
unfolding validate_assessment_submission
validate_assessment_submission_pure w problem language user none none now h = refl
validate_assessment_submission_pure w problem language user (some s) none now h = cc
validate_assessment_submission_pure w problem language user none (some k) now h = cc
validate_assessment_submission_pure w problem language user (some s) (some k) now h = ground arith

-- The two services judge the last moment differently: exactly at the expiration time, and at no
-- other, a solution is refused as timed out while the attempt can still be handed in.
pub expiry_boundary :
    (a : Attempt) (s : Assessment) (now : ℤ)
    → ((leb_ℤ (attempt_expiration a s) now ≡ true) × (is_attempt_expired a s now ≡ false))
      ↔ (now ≡ expiration_time a s)
unfolding is_attempt_expired
expiry_boundary a s now =
    rw (attempt_expiration-eq-expiration_time a s)
      (λ h. eq_of_parts now (expiration_time a s) (ground arith), λ e. ground arith)
