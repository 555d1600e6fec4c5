-- ===== src/Questions/Rights.antt =====
-- Who reads, changes and deletes a question.
use assessment_microservice.Base.{ℕ, ◌≡◌, refl, Bool, true, false, ◌||◌, some, arith, if◌then◌else◌}
use assessment_microservice.Questions.{
  Question, get_question_by_id, Caller, Bank, question_at, may_read, is_public, is_id, same_college,
}
use assessment_microservice.Questions.Manage.{
  delete_question, update_question, QuestionPayload, may_update, may_delete,
}
use assessment_microservice.Models.{student, superadmin, admin, faculty, Role}
use assessment_microservice.Store.{err, http}

may_update-if_delete :
    (q : Question) (user : Caller) → may_delete q user ≡ true → may_update q user ≡ true
unfolding may_update
may_update-if_delete q user h = ground (arith, h)

may_read-if_update :
    (q : Question) (user : Caller) → may_update q user ≡ true → may_read q (some user) ≡ true
unfolding may_read may_update may_delete
may_read-if_update q user h =
    by_role (is_public q.visibility) (is_id q.author user.id)
      (same_college q.college_id user.college_id) user.role h
  where
    by_role :
        (open_to_all owner near : Bool) (r : Role)
        → (owner || elim r [ superadmin ↦ true | admin ↦ true | _ ↦ false ])
            || elim r [ faculty ↦ near | _ ↦ false ]
          ≡ true
        → (if open_to_all then true else elim r [
          | superadmin ↦ true
          | admin ↦ true
          | faculty ↦ near || owner
          | student ↦ owner
        ])
          ≡ true
    by_role true owner near r h = refl
    by_role false owner near superadmin h = refl
    by_role false owner near admin h = refl
    by_role false owner near faculty h = ground arith
    by_role false owner near student h = ground arith

-- The rights on a question of the bank are nested: whoever may delete it may update it, and whoever
-- may update it also gets it when they ask for it.
pub rights_nested :
    (k : ℕ) (user : Caller) (bank : Bank) (q : Question)
    → question_at k bank ≡ some q
    → (may_delete q user ≡ true → may_update q user ≡ true)
      × (may_update q user ≡ true → get_question_by_id k (some user) bank ≡ some q)
unfolding get_question_by_id
rights_nested k user bank q found =
    (may_update-if_delete q user, λ h. ground (arith, found, may_read-if_update q user h))

-- A question that the caller may not update stays as it is, whatever they try; the answer is 403.
pub update_question-forbidden :
    (k : ℕ) (p : QuestionPayload) (user : Caller) (bank : Bank) (q : Question)
    → question_at k bank ≡ some q
    → may_update q user ≡ false
    → (update_question k p user bank ≡ (err (http 403 "Forbidden"), bank))
      × (delete_question k user bank ≡ (err (http 403 "Forbidden"), bank))
unfolding update_question delete_question
update_question-forbidden k p user bank q found h = (
  ground (arith, found),
  ground (
    arith,
    found,
    may_not_delete (may_delete q user) (may_update q user) (may_update-if_delete q user) h,
  ),
)
  where
    may_not_delete : (d u : Bool) → (d ≡ true → u ≡ true) → u ≡ false → d ≡ false
    may_not_delete d u f h = ground arith
