-- ===== src/Questions/Select.antt =====
-- `selectQuestions`: random questions of each difficulty, none of them twice. `sample` is the
-- database's `$sample`, which may give a document more than once.
use assessment_microservice.Base.{
  ℕ, zero, suc, ◌+◌, ◌≡◌, Bool, true, false, not, Option, none, some, List, [], ◌∷◌, ◌++◌, ◌==◌,
  if◌then◌else◌, String,
}
use assessment_microservice.Models.{faculty}
use assessment_microservice.Questions.{
  Bank, Question, any, Difficulty, QuestionFilter, manages, filter, hard, medium, matches, easy,
}
use assessment_microservice.Attempts.Expiry.{Caller}

pub record Selection : Type 0 where
  pub easy : ℕ
  pub medium : ℕ
  pub hard : ℕ
  pub tags : List String

abbrev pub has_id : ℕ → List Question → Bool
has_id k = any (λ (q : Question). q.id == k)

-- The map keeps the order in which ids come, and the first document of each.
unfoldable pub add_unique : List Question → List Question → List Question
add_unique picked [] = picked
add_unique picked (d ∷ docs) =
    add_unique (if has_id d.id picked then picked else picked ++ d ∷ []) docs

abbrev pub scope_of_selection : Option Caller → Option ℕ
scope_of_selection none = none
scope_of_selection (some user) = elim user.role [ faculty ↦ user.college_id | _ ↦ none ]

-- baseFilter, with the difficulty
abbrev pub selection_filter : List String → Option Caller → Difficulty → QuestionFilter
selection_filter tags reader d = record {
  difficulty = some d;
  tags = tags;
  title = none;
  college_id = scope_of_selection reader;
  only_public = not (manages reader);
}

abbrev pub Sampler : Type 0
Sampler = List Question → ℕ → List Question

-- `if (req > 0) addUnique(await sample(…))`
abbrev pub pick : Sampler → Bank → QuestionFilter → ℕ → List Question → List Question
pick sample bank f zero picked = picked
pick sample bank f (suc n) picked =
    add_unique picked (sample (filter (matches (λ s t. true) f) bank) (suc n))

-- Without a count it raises an Error, here `none`.
unfoldable pub select_questions :
    Sampler → Selection → Option Caller → Bank → Option (List Question)
select_questions sample s reader bank =
    let f = selection_filter s.tags reader in
    let picked =
      pick sample bank (f hard) s.hard
        (pick sample bank (f medium) s.medium (pick sample bank (f easy) s.easy [])) in
    if s.easy + s.medium + s.hard == 0 then none else some picked

-- No id twice.
abbrev pub Unique : List Question → Type 0
Unique [] = Unit {0}
Unique (q ∷ qs) = (has_id q.id qs ≡ false) × Unique qs
