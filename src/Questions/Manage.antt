-- ===== src/Questions/Manage.antt =====
-- `createQuestion`, `updateQuestion` and `deleteQuestion`.
-- What a payload gives: a title that is missing or no text is `none`.
use assessment_microservice.Base.{
  ℕ, Bool, true, false, not, ◌||◌, Option, none, some, List, [], ◌∷◌, ◌++◌, ◌==◌, if◌then◌else◌,
  String, text_eq,
}
use assessment_microservice.Attempts.Expiry.{Caller}
use assessment_microservice.Models.{faculty, admin, superadmin}
use assessment_microservice.Questions.{
  Question, Bank, Difficulty, question_at, Visibility, is_id, easy, college_question, same_college,
}
use assessment_microservice.Store.{update_by, err, or_default, Result, http, validation_error, ok}

pub record QuestionPayload : Type 0 where
  pub title : Option String
  pub difficulty : Option Difficulty
  pub tags : Option (List String)
  pub author : Option ℕ
  pub college_id : Option ℕ
  pub visibility : Option Visibility

abbrev pub BankRequest : Type 0 → Type 0
BankRequest A = Bank → Result A × Bank

-- `if (!data.collegeId && user.collegeId) data.collegeId = user.collegeId`
abbrev own_college : Option ℕ → Option ℕ → Option ℕ
own_college none own = own
own_college (some c) own = some c

-- `k` is the id that the database gives.
unfoldable pub create_question : ℕ → QuestionPayload → Option Caller → BankRequest Question
create_question k p none bank = (err (http 401 "Unauthorized"), bank)
create_question k p (some user) bank = elim p.title [
  | none ↦ (err (http 400 "Title is required"), bank)
  | some title ↦
      (if text_eq title ""
        then (err (http 400 "Title is required"), bank)
        else let q : Question = record {
          id = k;
          title = title;
          difficulty = or_default p.difficulty easy;
          tags = or_default p.tags [];
          author = some user.id;
          college_id = own_college p.college_id user.college_id;
          visibility = or_default p.visibility college_question;
        } in
          (ok q, bank ++ q ∷ []))
]

unfoldable pub may_delete : Question → Caller → Bool
may_delete q user =
    is_id q.author user.id || elim user.role [ superadmin ↦ true | admin ↦ true | _ ↦ false ]

unfoldable pub may_update : Question → Caller → Bool
may_update q user =
    may_delete q user
    || elim user.role [ faculty ↦ same_college q.college_id user.college_id | _ ↦ false ]

-- findByIdAndUpdate with a payload: what it gives replaces what was there.
abbrev pub with_payload : QuestionPayload → Question → Question
with_payload p q = record {
  id = q.id;
  title = or_default p.title q.title;
  difficulty = or_default p.difficulty q.difficulty;
  tags = or_default p.tags q.tags;
  author = elim p.author [ none ↦ q.author | some a ↦ some a ];
  college_id = elim p.college_id [ none ↦ q.college_id | some c ↦ some c ];
  visibility = or_default p.visibility q.visibility;
}

abbrev pub replace_question : ℕ → (Question → Question) → Bank → Bank
replace_question k f bank = update_by (λ (q : Question). q.id) k f bank

-- With `runValidators`, a title that is set has to be there.
abbrev refused_title : Option String → Bool
refused_title none = false
refused_title (some t) = text_eq t ""

unfoldable pub update_question : ℕ → QuestionPayload → Caller → BankRequest Question
update_question k p user bank = elim (question_at k bank) [
  | none ↦ (err (http 404 "Question not found"), bank)
  | some q ↦
      (if not (may_update q user)
        then (err (http 403 "Forbidden"), bank)
        else if refused_title p.title
        then (err validation_error, bank)
        else (ok (with_payload p q), replace_question k (with_payload p) bank))
]

abbrev pub remove_question : ℕ → Bank → Bank
remove_question k [] = []
remove_question k (q ∷ bank) = if q.id == k then bank else q ∷ remove_question k bank

unfoldable pub delete_question : ℕ → Caller → BankRequest Question
delete_question k user bank = elim (question_at k bank) [
  | none ↦ (err (http 404 "Question not found"), bank)
  | some q ↦
      (if may_delete q user
        then (ok q, remove_question k bank)
        else (err (http 403 "Forbidden"), bank))
]
