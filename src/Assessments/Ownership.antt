-- ===== src/Assessments/Ownership.antt =====
-- Whose assessments an administrator reaches, and what stays as it was.
use assessment_microservice.Base.{
  ℕ, ◌≡◌, ◌≢◌, refl, inl, inr, Bool, true, false, some, List, [], ◌∷◌, ◌++◌, arith, ◌==◌, ==_iff,
  String, Bool-cases,
}
use assessment_microservice.Assessments.Manage.{
  edited, set_lock, update_assessment_by_payload, remove_by_id, delete_assessment,
  create_announcement, assessment_delete_by_id,
}
use assessment_microservice.Attempts.Expiry.{Caller, Clock, college_scope_for, is_student}
use assessment_microservice.Store.{
  find_by, World, assessment_at, map_option, in_scope, assessment_update_by_id, ok, err, http,
  find_by-update_by,
}
use assessment_microservice.Models.{Assessment, published}
use assessment_microservice.Attempts.Start.{start_assessment}
use assessment_microservice.Assessments.Payload.{validate_assessment_payload, Payload}
use assessment_microservice.Base.Int.{ℤ}

find_by-remove_by_id :
    (j k : ℕ) (xs : List Assessment)
    → j ≢ k
    → find_by (λ (a : Assessment). a.id) j (remove_by_id k xs)
      ≡ find_by (λ (a : Assessment). a.id) j xs
unfolding find_by remove_by_id
find_by-remove_by_id j k [] h = refl
find_by-remove_by_id j k (x ∷ xs) h = ground (arith, find_by-remove_by_id j k xs h)

-- Updates that are scoped to the college of the caller leave a foreign assessment alone.
foreign_update_kept :
    (j k college : ℕ) (f : Assessment → Assessment) (w : World) (a : Assessment)
    → ((x : Assessment) → (f x).id ≡ x.id)
    → assessment_at j w ≡ some a
    → in_scope (some college) a.college_id ≡ false
    → assessment_at j (assessment_update_by_id k f (some college) w).1 ≡ some a
foreign_update_kept j k college f w a same there foreign = elim (Bool-cases (k == j)) [
  | inl e ↦ ground (arith, ==_iff k j)
  | inr e ↦ ground (arith, find_by-update_by (λ (x : Assessment). x.id) j k f w.assessments same)
]

edited_same_college : (p : Payload) (a : Assessment) → (edited p a).college_id ≡ a.college_id
unfolding edited
edited_same_college p a = refl

edited_same_id : (p : Payload) (a : Assessment) → (edited p a).id ≡ a.id
unfolding edited
edited_same_id p a = refl

foreign_delete_kept :
    (j k college : ℕ) (w : World) (a : Assessment)
    → assessment_at j w ≡ some a
    → in_scope (some college) a.college_id ≡ false
    → assessment_at j (assessment_delete_by_id k (some college) w).1 ≡ some a
foreign_delete_kept j k college w a there foreign = elim (Bool-cases (k == j)) [
  | inl e ↦ ground (arith, ==_iff k j)
  | inr e ↦ ground (arith, ==_iff k j, find_by-remove_by_id j k w.assessments)
]

foreign_edit_kept :
    (j k college : ℕ) (user : Caller) (p : Payload) (w : World) (a : Assessment)
    → college_scope_for user ≡ some college
    → assessment_at j w ≡ some a
    → in_scope (some college) a.college_id ≡ false
    → assessment_at j (update_assessment_by_payload k p user w).1 ≡ some a
unfolding update_assessment_by_payload validate_assessment_payload
foreign_edit_kept j k college user p w a scope there foreign =
    ground (arith, foreign_update_kept j k college (edited p) w a (edited_same_id p) there foreign)

foreign_removal_kept :
    (j k college : ℕ) (user : Caller) (w : World) (a : Assessment)
    → college_scope_for user ≡ some college
    → assessment_at j w ≡ some a
    → in_scope (some college) a.college_id ≡ false
    → assessment_at j (delete_assessment k user w).1 ≡ some a
unfolding delete_assessment
foreign_removal_kept j k college user w a scope there foreign =
    ground (arith, foreign_delete_kept j k college w a there foreign)

foreign_lock_kept :
    (j k college : ℕ) (user : Caller) (locked : Bool) (w : World) (a : Assessment)
    → college_scope_for user ≡ some college
    → assessment_at j w ≡ some a
    → in_scope (some college) a.college_id ≡ false
    → assessment_at j (set_lock locked k user w).1 ≡ some a
unfolding set_lock
foreign_lock_kept j k college user locked w a scope there foreign = ground (
  arith,
  foreign_update_kept j k college (λ x. record x { locked = locked }) w a (λ x. refl) there foreign,
)

foreign_announcement_kept :
    (j k college : ℕ) (user : Caller) (message : String) (now : ℤ) (w : World) (a : Assessment)
    → college_scope_for user ≡ some college
    → assessment_at j w ≡ some a
    → in_scope (some college) a.college_id ≡ false
    → assessment_at j (create_announcement k message user now w).1 ≡ some a
unfolding create_announcement
foreign_announcement_kept j k college user message now w a scope there foreign = ground (
  arith,
  foreign_update_kept j k college
      (λ x. record x {
        announcements = x.announcements ++ record { message = message; sent_at = now } ∷ [];
      })
      w a (λ x. refl) there foreign,
)

-- A caller whose requests are scoped to one college changes nothing of another college's
-- assessment: not by an update, not by a deletion, not by locking or unlocking it, not by an
-- announcement.
pub foreign_assessment_kept :
    (j k college : ℕ) (user : Caller) (p : Payload) (locked : Bool) (message : String) (now : ℤ)
    (w : World) (a : Assessment)
    → college_scope_for user ≡ some college
    → assessment_at j w ≡ some a
    → in_scope (some college) a.college_id ≡ false
    → (assessment_at j (update_assessment_by_payload k p user w).1 ≡ some a)
      × (assessment_at j (delete_assessment k user w).1 ≡ some a)
      × (assessment_at j (set_lock locked k user w).1 ≡ some a)
      × (assessment_at j (create_announcement k message user now w).1 ≡ some a)
foreign_assessment_kept j k college user p locked message now w a scope there foreign = (
  foreign_edit_kept j k college user p w a scope there foreign,
  foreign_removal_kept j k college user w a scope there foreign,
  foreign_lock_kept j k college user locked w a scope there foreign,
  foreign_announcement_kept j k college user message now w a scope there foreign,
)

-- An assessment never changes its college: an update, whatever its body says, keeps it.
pub update_assessment_by_payload-college :
    (j k : ℕ) (p : Payload) (user : Caller) (w : World) (a : Assessment)
    → assessment_at j w ≡ some a
    → map_option
        (λ (x : Assessment). x.college_id)
        (assessment_at j (update_assessment_by_payload k p user w).1)
      ≡ some a.college_id
unfolding update_assessment_by_payload validate_assessment_payload
update_assessment_by_payload-college j k p user w a there = ground (
  arith,
  find_by-update_by (λ (x : Assessment). x.id) j k (edited p) w.assessments (edited_same_id p),
  edited_same_college p a,
)

-- A locked assessment cannot be started: once a caller who is not a student has locked a published
-- assessment of their scope, a caller in whose scope it is and who starts it is refused with a 409,
-- and nothing is written.
pub set_lock-start :
    (meanwhile : World → World) (shuffle : List ℕ → List ℕ) (new_id : ℕ) (k : ℕ)
    (user student_ : Caller) (clock : Clock) (w : World) (a : Assessment)
    → is_student user.role ≡ false
    → assessment_at k w ≡ some a
    → in_scope (college_scope_for user) a.college_id ≡ true
    → in_scope (college_scope_for student_) a.college_id ≡ true
    → a.status ≡ published
    → let (r, w') = set_lock true k user w in
      (r ≡ ok (record a { locked = true }))
      × (start_assessment meanwhile shuffle new_id k student_ clock w'
          ≡ (err (http 409 "Assessment is locked by the faculty"), w'))
unfolding set_lock start_assessment
set_lock-start meanwhile shuffle new_id k user student_ clock w a allowed there scope scope'
      status =
    ground (
      arith,
      find_by-update_by (λ (x : Assessment). x.id) k k (λ x. record x { locked = true })
          w.assessments (λ x. refl),
    )
