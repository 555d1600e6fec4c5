-- ===== src/Accounts/Capacity.antt =====
-- A batch of accounts against the seats of a plan: `bulkRegister` with `assertSeatCapacity`.
use assessment_microservice.Base.{
  ℕ, zero, suc, ◌+◌, ◌≤◌, ◌≡◌, ◌⊎◌, refl, sym, ap, ◌∙◌, inl, inr, Bool, true, Option, none, some,
  List, [], ◌∷◌, arith, ◌==◌, ==_iff, String, length,
}
use assessment_microservice.Models.{User, College}
use assessment_microservice.Store.{Result, is_id, filter, World, Failure, ok, err}
use assessment_microservice.Accounts.Batch.{
  RowError, BatchResult, batch_with, create_users, finish_batch, bulk_register, Outages, Row,
  NewUser, then_rest, verify_rows, assert_seats, create_or_fail, student_of, Deletion, undo_batch,
  batch_failed, broken_off, deleted,
}
use assessment_microservice.Assessments.Paging.{All}
use assessment_microservice.Accounts.Rollback.{added, Creates, create_users_adds}
use assessment_microservice.Billing.Service.{seats_used, college_at}
use assessment_microservice.Billing.Plans.{get_plan}
use assessment_microservice.Billing.Seats.{assert_seat_capacity_iff}

abbrev InCollege : ℕ → User → Type 0
InCollege k u = is_id u.college_id k ≡ true

length-filter-added :
    (p : User → Bool) (made us : List User)
    → All (λ u. p u ≡ true) made
    → length (filter p (added made us)) ≡ length made + length (filter p us)
length-filter-added p [] us h = omega arith
length-filter-added p (u ∷ made) us h =
    omega (arith, length-filter-added p made (u ∷ us) h.1, length-filter_cons h.0)
  where
    length-filter_cons : p u ≡ true → length (filter p (u ∷ us)) ≡ suc (length (filter p us))
    length-filter_cons e = rw e

result_parts :
    {A : Type 0} {a b : A} {v w : World}
    → ◌≡◌ {A = Result A × World} (ok a, v) (ok b, w)
    → (a ≡ b) × (v ≡ w)
result_parts {A} {a} {b} p = (injective (ap (λ x. x.0) p), ap (λ x. x.1) p)
  where
    injective : ◌≡◌ {A = Result A} (ok a) (ok b) → a ≡ b
    injective p = ground arith

undo_batch_raises :
    (undo : Deletion) (made : List User) (w : World)
    → (e : Failure) × ((undo_batch undo made w).0 ≡ err e)
undo_batch_raises undo [] w = (batch_failed, refl)
undo_batch_raises deleted (u ∷ made) w = (batch_failed, refl)
undo_batch_raises (broken_off e gone) (u ∷ made) w = (e, refl)

finish_batch-seats :
    (undo : Deletion) (k : ℕ) (errors : List RowError) (made : List User × (Option Failure × World))
    (w v : World) (r : BatchResult)
    → Creates (InCollege k) w made
    → finish_batch undo errors made ≡ (ok r, v)
    → (seats_used k v ≡ length made.0 + seats_used k w) × (length made.0 ≡ length r.created)
finish_batch-seats undo k errors (made, (some e, u)) w v r c h =
    absurd (ground (arith, (undo_batch_raises undo made u).1, ap (λ x. x.0) h))
finish_batch-seats undo k errors (made, (none, u)) w v r c h =
    let (answer, world) = result_parts h in
    (
      ap (seats_used k) (sym world ∙ c.0)
          ∙ length-filter-added (λ u. is_id u.college_id k) made w.users c.1,
      ap (λ (x : BatchResult). length x.created) answer,
    )

batch_with-seats :
    (undo : Deletion) (k : ℕ) (seats : Result (Unit {0})) (errors : List RowError)
    (create : World → List User × (Option Failure × World)) (w v : World) (r : BatchResult)
    → Creates (InCollege k) w (create w)
    → batch_with undo seats errors create w ≡ (ok r, v)
    → (seats ≡ ok tt) × (finish_batch undo errors (create w) ≡ (ok r, v))
batch_with-seats undo k (err e) errors create w v r c h = absurd (ground (arith, ap (λ x. x.0) h))
batch_with-seats undo k (ok done) errors create w v r c h = (refl, h)

-- Never more accounts than rows that passed.
create_users_le :
    (outages : Outages) (hash : String → String) (ids : ℕ → ℕ) (college : Option ℕ) (i : ℕ)
    (users : List NewUser) (w : World)
    → length (create_users outages hash ids college i users w).0 ≤ length users
unfolding create_users
create_users_le outages hash ids college i [] w = omega arith
create_users_le outages hash ids college i (u ∷ users) w =
    then_rest_le (create_or_fail (outages i) (student_of hash college (ids i) u) w)
      (λ v. create_users_le outages hash ids college (suc i) users v)
  where
    then_rest_le :
        (r : Result User × World)
        → ((v : World)
            → length (create_users outages hash ids college (suc i) users v).0 ≤ length users)
        → length (then_rest r (create_users outages hash ids college (suc i) users)).0
          ≤ suc (length users)
    then_rest_le (ok a, v) ih = omega (arith, ih v)
    then_rest_le (err e, v) ih = omega arith

seats_enough :
    (price : Option String) (k n limit : ℕ) (w : World) (c : College)
    → college_at k w ≡ some c
    → (get_plan price c.plan_id).seat_limit ≡ some limit
    → assert_seats price (some k) n w ≡ ok tt
    → (n ≡ 0) ⊎ (seats_used k w + n ≤ limit)
seats_enough price k zero limit w c found l h = inl refl
seats_enough price k (suc n) limit w c found l h =
    inr ((assert_seat_capacity_iff price k (suc n) w c found).0.0 h limit l)

-- A batch that succeeds for a college adds the accounts that it reports to the college's seats, and
-- if it adds any, the college's plan has the seats for all of them.
pub bulk_register-seats :
    (price : Option String) (outages : Outages) (undo : Deletion) (hash : String → String)
    (ids : ℕ → ℕ) (random : ℕ → String) (rows : List Row) (default : Option String) (k limit : ℕ)
    (w v : World) (c : College) (r : BatchResult)
    → college_at k w ≡ some c
    → (get_plan price c.plan_id).seat_limit ≡ some limit
    → bulk_register price outages undo hash ids random rows default (some k) w ≡ (ok r, v)
    → (seats_used k v ≡ seats_used k w + length r.created)
      × ((length r.created ≡ 0) ⊎ (seats_used k v ≤ limit))
unfolding bulk_register
bulk_register-seats price outages undo hash ids random rows default k limit w v c r found l h =
    let sorted = verify_rows w default random 0 (record { emails = []; usns = [] }) rows in
    let create = create_users outages hash ids (some k) 0 sorted.1 in
    let adds =
      create_users_adds (InCollege k) outages hash ids (some k) (λ j u. same_college) 0 sorted.1
        w in
    let (seats, finish) =
      batch_with-seats undo k (assert_seats price (some k) (length sorted.1) w) sorted.0 create w v
        r adds h in
    let (used, made) = finish_batch-seats undo k sorted.0 (create w) w v r adds finish in
    let few = create_users_le outages hash ids (some k) 0 sorted.1 w in
    (
      omega arith,
      elim (seats_enough price k (length sorted.1) limit w c found l seats) [
        | inl e ↦ inl (omega arith)
        | inr e ↦ inr (omega arith)
      ],
    )
  where
    same_college : (k == k) ≡ true
    same_college = grind (arith, ==_iff)
