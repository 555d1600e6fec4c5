-- ===== src/Accounts/Rollback.antt =====
-- What a batch of accounts leaves behind when a creation fails.
use assessment_microservice.Base.{
  ℕ, suc, ◌≡◌, ◌⊎◌, refl, sym, ap, subst, ◌∙◌, inl, inr, Bool, true, false, not, ◌||◌, Option, none,
  some, List, [], ◌∷◌, arith, ◌==◌, ==_iff, if◌then◌else◌, String, length, ◌≢◌, ◌&&◌, Bool-cases,
}
use assessment_microservice.Store.{World, Failure, any, filter, err, ok, Result, duplicate_key}
use assessment_microservice.Accounts.Register.{user_insert, email_taken, usn_indexed}
use assessment_microservice.Accounts.Batch.{
  create_users, Outages, create_or_fail, NewUser, delete_users, student_of, then_rest,
  bulk_register, RowError, Row, batch_with, finish_batch, verify_rows, assert_seats, Deletion,
  broken_off, undo_batch, deleted,
}
use assessment_microservice.Models.{User}
use assessment_microservice.Assessments.Paging.{All}
use assessment_microservice.Billing.Seats.{user_create}

-- The users with those that were made put before them, the last one first.
abbrev pub added : List User → List User → List User
added [] us = us
added (u ∷ made) us = added made (u ∷ us)

abbrev pub with_users : List User → World → World
with_users us w = record w { users = us }

abbrev pub Made : (ℕ → ℕ) → User → Type 0
Made ids u = (j : ℕ) × (u.id ≡ ids j)

-- What `create_users` gives: a world that differs in the users that were made.
abbrev pub Creates : (User → Type 0) → World → List User × (Option Failure × World) → Type 0
Creates P w (made, (end, v)) = (v ≡ with_users (added made w.users) w) × All P made

create_or_fail_ok :
    (o : Option Failure) (u : User) (w : World)
    → ((e : Failure) × (create_or_fail o u w ≡ (err e, w)))
      ⊎ (create_or_fail o u w ≡ (ok u, user_create u w))
unfolding user_insert
create_or_fail_ok (some e) u w = inl (e, refl)
create_or_fail_ok none u w = go (email_taken u.email w || usn_indexed u.usn w)
  where
    go :
        (c : Bool)
        → let r =
            ◌≡◌ {A = Result User × World}
              (if c then (err duplicate_key, w) else (ok u, user_create u w)) in
          ((e : Failure) × r (err e, w)) ⊎ r (ok u, user_create u w)
    go true = inl (duplicate_key, refl)
    go false = inr refl

pub create_users_adds :
    (P : User → Type 0) (outages : Outages) (hash : String → String) (ids : ℕ → ℕ)
    (college : Option ℕ)
    → ((j : ℕ) (u : NewUser) → P (student_of hash college (ids j) u))
    → (i : ℕ) (users : List NewUser) (w : World)
    → Creates P w (create_users outages hash ids college i users w)
unfolding create_users
create_users_adds P outages hash ids college all i [] w = (refl, tt)
create_users_adds P outages hash ids college all i (u ∷ users) w =
    elim (create_or_fail_ok (outages i) (student_of hash college (ids i) u) w) [
      | inl (e, p) ↦
          subst
            (λ r. Creates P w (then_rest r (create_users outages hash ids college (suc i) users)))
            (sym p) (refl, tt)
      | inr p ↦
          let a = student_of hash college (ids i) u in
          let rest =
            create_users_adds P outages hash ids college all (suc i) users (user_create a w) in
          subst
            (λ r. Creates P w (then_rest r (create_users outages hash ids college (suc i) users)))
            (sym p) (rest.0, (all i u, rest.1))
    ]

filter-added :
    (p : User → Bool) (made us : List User)
    → filter p (added made us) ≡ added (filter p made) (filter p us)
filter-added p [] us = refl
filter-added p (u ∷ made) us = elim (Bool-cases (p u)) [
  | inl e ↦ rw (filter-added p made (u ∷ us), e)
  | inr e ↦ rw (filter-added p made (u ∷ us), e)
]

filter-kept : (p : User → Bool) (us : List User) → All (λ u. p u ≡ true) us → filter p us ≡ us
filter-kept p [] h = refl
filter-kept p (u ∷ us) h = rw (h.0, filter-kept p us h.1)

filter-same :
    (p q : User → Bool) (us : List User) → All (λ u. p u ≡ q u) us → filter p us ≡ filter q us
filter-same p q [] h = refl
filter-same p q (u ∷ us) h = rw (h.0, filter-same p q us h.1)

abbrev same_id : User → User → Bool
same_id u v = v.id == u.id

any_self : (u : User) (made : List User) → any (same_id u) (u ∷ made) ≡ true
any_self u made = grind (arith, ==_iff)

All-listed :
    (gone : User → Bool) (made all : List User)
    → ((u : User) → any (same_id u) made ≡ true → any (same_id u) all ≡ true)
    → All (λ u. not (any (same_id u) all && gone u) ≡ not (gone u)) made
All-listed gone [] all h = tt
All-listed gone (u ∷ made) all h = (
  ap (λ c. not (c && gone u)) (h u (any_self u made)),
  All-listed gone made all λ v e. h v (ground arith),
)

unlisted :
    (ids : ℕ → ℕ) (u : User) (made : List User)
    → All (Made ids) made
    → ((j : ℕ) → (ids j == u.id) ≡ false)
    → any (same_id u) made ≡ false
unlisted ids u [] m fresh = refl
unlisted ids u (v ∷ made) m fresh = rw (m.0.1, fresh m.0.0, unlisted ids u made m.1 fresh)

All-unlisted :
    (gone : User → Bool) (ids : ℕ → ℕ) (us made : List User)
    → All (Made ids) made
    → All (λ u. (j : ℕ) → (ids j == u.id) ≡ false) us
    → All (λ u. not (any (same_id u) made && gone u) ≡ true) us
All-unlisted gone ids [] made m fresh = tt
All-unlisted gone ids (u ∷ us) made m fresh = (
  ap (λ c. not (c && gone u)) (unlisted ids u made m fresh.0),
  All-unlisted gone ids us made m fresh.1,
)

-- No account has an id that the database is to give.
abbrev pub FreshIds : (ℕ → ℕ) → World → Type 0
FreshIds ids w = All (λ u. (j : ℕ) → (ids j == u.id) ≡ false) w.users

-- The made accounts that a deletion has not reached.
abbrev pub left_of : (User → Bool) → List User → List User
left_of gone = filter (λ u. not (gone u))

-- The deletion reaches no account but those that the batch made.
pub delete_users-added :
    (gone : User → Bool) (ids : ℕ → ℕ) (made : List User) (w : World)
    → All (Made ids) made
    → FreshIds ids w
    → delete_users gone made (with_users (added made w.users) w)
      ≡ with_users (added (left_of gone made) w.users) w
delete_users-added gone ids made w m fresh =
    ap (λ us. with_users us w)
      (filter-added kept made w.users
        ∙ ap (λ us. added us (filter kept w.users))
            (filter-same kept (λ u. not (gone u)) made (All-listed gone made made λ u h. h))
        ∙ ap (added (left_of gone made))
            (filter-kept kept w.users (All-unlisted gone ids w.users made m fresh)))
  where
    kept : User → Bool
    kept u = not (any (same_id u) made && gone u)

left_of_nothing : (made : List User) → left_of (λ u. true) made ≡ []
left_of_nothing [] = refl
left_of_nothing (u ∷ made) = left_of_nothing made

-- What a batch that raised `e` has done to the world `w`.
abbrev pub Undone : Deletion → (ℕ → ℕ) → World → Failure → World → Type 0
Undone deleted ids w e v = v ≡ w
Undone (broken_off x gone) ids w e v =
    (v ≡ w)
    ⊎ ((e ≡ x)
        × ((made : List User) × (made ≢ [])
            × All (Made ids) made
            × (v ≡ with_users (added (left_of gone made) w.users) w)))

Undone-kept :
    (undo : Deletion) (ids : ℕ → ℕ) (w v : World) (e : Failure) → v ≡ w → Undone undo ids w e v
Undone-kept deleted ids w v e h = h
Undone-kept (broken_off x gone) ids w v e h = inl h

raised : {A : Type 0} {x e : Failure} → ◌≡◌ {A = Result A} (err x) (err e) → e ≡ x
raised h = ground arith

undo_batch-Undone :
    (undo : Deletion) (ids : ℕ → ℕ) (made : List User) (w v : World) (e : Failure)
    → All (Made ids) made
    → FreshIds ids w
    → undo_batch undo made (with_users (added made w.users) w) ≡ (err e, v)
    → Undone undo ids w e v
undo_batch-Undone undo ids [] w v e m fresh h = Undone-kept undo ids w v e (sym (ap (λ x. x.1) h))
undo_batch-Undone deleted ids (u ∷ made) w v e m fresh h =
    sym (ap (λ x. x.1) h)
    ∙ delete_users-added (λ v. true) ids (u ∷ made) w m fresh
    ∙ ap (λ us. with_users (added us w.users) w) (left_of_nothing made)
undo_batch-Undone (broken_off x gone) ids (u ∷ made) w v e m fresh h = inr (
  raised (ap (λ x. x.0) h),
  (
    u ∷ made,
    (λ n. ground arith),
    m,
    sym (ap (λ x. x.1) h) ∙ delete_users-added gone ids (u ∷ made) w m fresh,
  ),
)

finish_batch-Undone :
    (undo : Deletion) (ids : ℕ → ℕ) (errors : List RowError)
    (r : List User × (Option Failure × World)) (w v : World) (e : Failure)
    → Creates (Made ids) w r
    → FreshIds ids w
    → finish_batch undo errors r ≡ (err e, v)
    → Undone undo ids w e v
finish_batch-Undone undo ids errors (made, (none, w')) w v e c fresh h =
    absurd (ground (arith, ap (λ x. x.0) h))
finish_batch-Undone undo ids errors (made, (some x, w')) w v e c fresh h =
    undo_batch-Undone undo ids made w v e c.1 fresh (ap (undo_batch undo made) (sym c.0) ∙ h)

batch_with-Undone :
    (undo : Deletion) (ids : ℕ → ℕ) (seats : Result (Unit {0})) (errors : List RowError)
    (create : World → List User × (Option Failure × World)) (w v : World) (e : Failure)
    → Creates (Made ids) w (create w)
    → FreshIds ids w
    → batch_with undo seats errors create w ≡ (err e, v)
    → Undone undo ids w e v
batch_with-Undone undo ids (err x) errors create w v e c fresh h =
    Undone-kept undo ids w v e (sym (ap (λ x. x.1) h))
batch_with-Undone undo ids (ok done) errors create w v e c fresh h =
    finish_batch-Undone undo ids errors (create w) w v e c fresh h

-- A batch can raise for want of seats, because a creation failed at any of its rows, or because an
-- index refused one. If the database gives ids that no account has, it leaves the world as it was;
-- only where the deletion of the accounts that were made fails itself, the caller is told that
-- failure, and just those of them that the deletion had not reached yet stay behind.
pub bulk_register-rollback :
    (price : Option String) (outages : Outages) (undo : Deletion) (hash : String → String)
    (ids : ℕ → ℕ) (random : ℕ → String) (rows : List Row) (default : Option String)
    (college : Option ℕ) (w v : World) (e : Failure)
    → FreshIds ids w
    → bulk_register price outages undo hash ids random rows default college w ≡ (err e, v)
    → Undone undo ids w e v
unfolding bulk_register
bulk_register-rollback price outages undo hash ids random rows default college w v e fresh =
    let users = (verify_rows w default random 0 (record { emails = []; usns = [] }) rows).1 in
    batch_with-Undone undo ids (assert_seats price college (length users) w)
      (verify_rows w default random 0 (record { emails = []; usns = [] }) rows).0
      (create_users outages hash ids college 0 users) w v e
      (create_users_adds (Made ids) outages hash ids college (λ j u. (j, refl)) 0 users w) fresh
