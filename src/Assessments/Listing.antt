-- ===== src/Assessments/Listing.antt =====
-- `listAssessments`, `listAssessmentAttempts` and `getAttemptSubmissions` of
-- assessments.service.js. A page or a limit is the number that a query's text names, so a 0 counts
-- as given. New submissions are put in front, so a list of them is already sorted by `createdAt`,
-- the last first.
use assessment_microservice.Base.{
  ℕ, ◌-◌, ◌*◌, Bool, false, not, ◌&&◌, ◌||◌, Option, none, some, List, [], ◌∷◌, ◌==◌, if◌then◌else◌,
  take, min, max, drop,
}
use assessment_microservice.Base.Int.{ℤ, leb_ℤ}
use assessment_microservice.Attempts.Expiry.{Caller, is_student, college_scope_for}
use assessment_microservice.Store.{
  Request, World, in_scope, filter, ◌>>◌, ◌>>=◌, raise_if, attempt_by_id, http, gets, or_raise,
  type_error, is_id,
}
use assessment_microservice.Models.{Attempt, Assessment, Submission}
use assessment_microservice.Assessments.Manage.{is_draft}
use assessment_microservice.Attempts.Submit.{attempt_not_found, is_other_student, forbidden}

-- Math.max(1, Number(query.page || 1))
abbrev pub page_number : Option ℕ → ℕ
page_number none = 1
page_number (some n) = max 1 n

-- Math.min(100, Math.max(1, Number(query.limit || 50)))
abbrev pub page_limit : Option ℕ → ℕ
page_limit none = 50
page_limit (some n) = min 100 (max 1 n)

-- .skip((page - 1) * limit).limit(limit)
unfoldable pub page_of {ℓ} : {A : Type ℓ} → ℕ → ℕ → List A → List A
page_of page limit xs = take limit (drop ((page - 1) * limit) xs)

module _ {A : Type 0} (date : A → ℤ) where
  unfoldable pub insert_by_date : A → List A → List A
  insert_by_date x [] = x ∷ []
  insert_by_date x (y ∷ ys) =
      if leb_ℤ (date y) (date x) then x ∷ y ∷ ys else y ∷ insert_by_date x ys

  -- The last date first; documents of one date keep their order.
  unfoldable pub sort_by_date : List A → List A
  sort_by_date [] = []
  sort_by_date (x ∷ xs) = insert_by_date x (sort_by_date xs)

-- A request without a caller is `none`.
abbrev pub sees_drafts : Option Caller → Bool
sees_drafts none = false
sees_drafts (some user) = not (is_student user.role)

abbrev pub scope_of_reader : Option Caller → Option ℕ
scope_of_reader none = none
scope_of_reader (some user) = college_scope_for user

-- The query of `listAssessments`.
unfoldable pub is_listed : Option Caller → Assessment → Bool
is_listed reader a =
    (sees_drafts reader || not (is_draft a.status))
    && in_scope (scope_of_reader reader) a.college_id

unfoldable pub list_assessments : Option ℕ → Option ℕ → Option Caller → World → List Assessment
list_assessments page limit reader w =
    page_of (page_number page) (page_limit limit)
      (sort_by_date (λ a. a.start_time) (filter (is_listed reader) w.assessments))

abbrev pub is_attempt_at : ℕ → Caller → Attempt → Bool
is_attempt_at assessment user a =
    a.assessment_id == assessment && in_scope (college_scope_for user) a.college_id

unfoldable pub list_assessment_attempts : ℕ → Caller → Option ℕ → Option ℕ → Request (List Attempt)
list_assessment_attempts assessment user page limit = do
  raise_if (is_student user.role) (http 403 "Forbidden")
  gets λ w.
      page_of (page_number page) (page_limit limit)
        (sort_by_date (λ a. a.started_at) (filter (is_attempt_at assessment user) w.attempts))

unfoldable pub get_attempt_submissions :
    ℕ → Caller → Option ℕ → Option ℕ → Request (List Submission)
get_attempt_submissions attempt_id user page limit = do
  found ← attempt_by_id attempt_id (college_scope_for user)
  attempt ← or_raise found attempt_not_found
  student ← or_raise attempt.student type_error
  raise_if (is_other_student user student) forbidden
  gets λ w.
      page_of (page_number page) (page_limit limit)
        (filter (λ s. is_id s.attempt_id attempt_id) w.submissions)
