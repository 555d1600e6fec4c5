-- ===== src/Questions.antt =====
-- questions.service.js and questions.repo.js: the question bank. The database's match of a title
-- against a search text and its random sample are arguments. The bank is a list of questions in the
-- database's order; a question that the model leaves out of a payload is one that it cannot change.
pub mod Select
pub mod Manage
pub mod Rights
pub mod Picked
mod Tests
use assessment_microservice.Base.{
  ℕ, zero, suc, ◌+◌, ◌-◌, ◌*◌, ◌≤◌, ◌<◌, ◌≡◌, ◌≢◌, ◌↔◌, ◌⊎◌, refl, sym, ap, subst, ◌∙◌, inl, inr,
  Bool, true, false, not, ◌&&◌, ◌||◌, Option, none, some, List, [], ◌∷◌, ◌++◌, map, arith, ◌==◌,
  ==_iff, ltb, leb, if◌then◌else◌, String, text_eq, Bool-cases, Option-cases, length, max, ◌/◌,
}
use assessment_microservice.Attempts.Expiry.{Caller, is_student}
use assessment_microservice.Models.{student, faculty, admin, superadmin}
use assessment_microservice.Store.{any, find_by, is_id, filter}
use assessment_microservice.Assessments.Listing.{page_limit, page_of, page_number}

-- Question.difficulty
pub data Difficulty : Type 0 where
  easy medium hard : Difficulty

-- Question.visibility
pub data Visibility : Type 0 where
  private_question college_question public_question : Visibility

pub record Question : Type 0 where
  pub id : ℕ
  pub title : String
  pub difficulty : Difficulty
  pub tags : List String
  pub author : Option ℕ
  pub college_id : Option ℕ
  pub visibility : Visibility

abbrev pub Bank : Type 0
Bank = List Question

abbrev pub same_difficulty : Difficulty → Difficulty → Bool
same_difficulty easy easy = true
same_difficulty medium medium = true
same_difficulty hard hard = true
same_difficulty _ _ = false

abbrev pub is_public : Visibility → Bool
is_public public_question = true
is_public _ = false

-- A filter of the database: each part that is given has to hold.
pub record QuestionFilter : Type 0 where
  pub difficulty : Option Difficulty
  -- `{ $in: tags }`
  pub tags : List String
  pub title : Option String
  pub college_id : Option ℕ
  pub only_public : Bool

abbrev pub has_tag : List String → Question → Bool
has_tag [] q = true
has_tag (t ∷ ts) q = any (λ u. any (λ v. text_eq v u) q.tags) (t ∷ ts)

-- `search` is the match of a title against an escaped search text.
unfoldable pub matches : (String → String → Bool) → QuestionFilter → Question → Bool
matches search f q =
    elim f.difficulty [ none ↦ true | some d ↦ same_difficulty q.difficulty d ]
    && has_tag f.tags q
    && elim f.title [ none ↦ true | some s ↦ search s q.title ]
    && elim f.college_id [ none ↦ true | some c ↦ is_id q.college_id c ]
    && (not f.only_public || is_public q.visibility)

-- Faculty, admins and superadmins
abbrev pub manages : Option Caller → Bool
manages none = false
manages (some user) = not (is_student user.role)

pub record QuestionQuery : Type 0 where
  pub difficulty : Option Difficulty
  pub tags : List String
  pub search : Option String
  pub college_id : Option ℕ
  pub page : Option ℕ
  pub limit : Option ℕ

unfoldable pub build_filter : QuestionQuery → Option Caller → QuestionFilter
build_filter query reader = record {
  difficulty = query.difficulty;
  tags = query.tags;
  title = query.search;
  college_id = query.college_id;
  only_public = not (manages reader);
}

pub record QuestionPage : Type 0 where
  pub questions : List Question
  pub total : ℕ
  pub page : ℕ
  pub total_pages : ℕ

-- Math.max(1, Math.ceil(total / limit))
abbrev pub pages_of : ℕ → ℕ → ℕ
pages_of total limit = max 1 ((total + (limit - 1)) / limit)

unfoldable pub list_questions :
    (String → String → Bool) → QuestionQuery → Option Caller → Bank → QuestionPage
list_questions search query reader bank =
    let found = filter (matches search (build_filter query reader)) bank in
    let limit = page_limit query.limit in
    record {
      questions = page_of (page_number query.page) limit found;
      total = length found;
      page = page_number query.page;
      total_pages = pages_of (length found) limit;
    }

-- String(q.collegeId) === String(user.collegeId): a question without a college reads `undefined`, a
-- caller without one `null`.
abbrev pub same_college : Option ℕ → Option ℕ → Bool
same_college (some a) (some b) = a == b
same_college _ _ = false

abbrev pub question_at : ℕ → Bank → Option Question
question_at k bank = find_by (λ (q : Question). q.id) k bank

unfoldable pub may_read : Question → Option Caller → Bool
may_read q none = is_public q.visibility
may_read q (some user) = if is_public q.visibility then true else elim user.role [
  | superadmin ↦ true
  | admin ↦ true
  | faculty ↦ same_college q.college_id user.college_id || is_id q.author user.id
  | student ↦ is_id q.author user.id
]

unfoldable pub get_question_by_id : ℕ → Option Caller → Bank → Option Question
get_question_by_id k reader bank = elim (question_at k bank) [
  | none ↦ none
  | some q ↦ (if may_read q reader then some q else none)
]
