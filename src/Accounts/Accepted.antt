-- ===== src/Accounts/Accepted.antt =====
-- A batch's checks keep its creations from the unique indexes.
use assessment_microservice.Base.{
  ℕ, suc, ◌+◌, ◌≡◌, refl, sym, ap, subst, ◌∙◌, inl, inr, Bool, true, false, ◌||◌, Option, none,
  some, List, [], ◌∷◌, arith, if◌then◌else◌, String, text_eq, Option-cases, length,
}
use assessment_microservice.Accounts.Register.{user_insert, email_taken, usn_indexed}
use assessment_microservice.Accounts.Batch.{
  NewUser, verify_rows, bulk_register, Seen, create_users, RowError, Outcome, Row, verify_at,
  sort_out, assert_seats, refused, plain_password, seen_in, verified, finish_batch, student_of,
  then_rest, batch_with, Deletion,
}
use assessment_microservice.Store.{World, Failure, ok, Result, err, duplicate_key}
use assessment_microservice.Accounts.Checked.{Covers, Grown, Checked, Passed, verify_row-Checked}
use assessment_microservice.Models.{User}
use assessment_microservice.Billing.Seats.{user_create}
use assessment_microservice.Accounts.Rollback.{Creates, Made, with_users, added, create_users_adds}
use assessment_microservice.Accounts.Words.{trim_text, to_lower_case}

Covers-Grown :
    (w now : World) (seen seen' : Seen) → Covers w now seen → Grown seen seen' → Covers w now seen'
Covers-Grown w now seen seen' c g = (λ e h k. c.0 e h (g.0 e k), λ n h k. c.1 n h (g.1 n k))

either_false : (b c : Bool) → (if b then true else c) ≡ false → (b ≡ false) × (c ≡ false)
either_false b c h = ground arith

neither_true : {b c : Bool} → b ≡ false → c ≡ false → (if b then true else c) ≡ false
neither_true {b} {c} h k = ground arith

-- Once an account that passed is made, its texts are taken, and seen.
Covers-Passed :
    (w now : World) (seen seen' : Seen) (u : NewUser) (a : User)
    → a.email ≡ u.email
    → a.usn ≡ u.usn
    → Covers w now seen
    → Passed w seen u seen'
    → Covers w (user_create a now) seen'
Covers-Passed w now seen seen' u a ae au c (s, t, n, es, us) = (
  λ e h k.
      let parts =
        either_false (text_eq u.email e) (seen_in e seen.emails) (sym (ap (seen_in e) es) ∙ k) in
      neither_true (ap (λ x. text_eq x e) ae ∙ parts.0) (c.0 e h parts.1),
  λ m h k.
      let parts = usn_apart m u.usn seen.usns (sym (ap (seen_in m) us) ∙ k) in
      neither_true (ap (usn_is m) au ∙ parts.0) (c.1 m h parts.1),
)
  where
    usn_is : String → Option String → Bool
    usn_is m usn = elim usn [ none ↦ false | some other ↦ text_eq other m ]

    usn_apart :
        (m : String) (usn : Option String) (usns : List String)
        → seen_in m (elim usn [ none ↦ usns | some n ↦ n ∷ usns ]) ≡ false
        → (usn_is m usn ≡ false) × (seen_in m usns ≡ false)
    usn_apart m none usns h = (refl, h)
    usn_apart m (some n) usns h = either_false (text_eq n m) (seen_in m usns) h

usn_free :
    (w now : World) (seen seen' : Seen) (u : NewUser)
    → Covers w now seen
    → Passed w seen u seen'
    → usn_indexed u.usn now ≡ false
usn_free w now seen seen' u c (s, t, n, es, us) = elim (Option-cases u.usn) [
  | inl e ↦ rw e
  | inr (m, e) ↦ rw e (c.1 m (n m e).1 (n m e).0)
]

inserted :
    (u : User) (w : World)
    → email_taken u.email w ≡ false
    → usn_indexed u.usn w ≡ false
    → user_insert u w ≡ (ok u, user_create u w)
unfolding user_insert
inserted u w e f = ap made_if (neither e f)
  where
    made_if : Bool → Result User × World
    made_if c = if c then (err duplicate_key, w) else (ok u, user_create u w)

    neither : {a b : Bool} → a ≡ false → b ≡ false → a || b ≡ false
    neither h k = ground arith

-- All of them are made.
abbrev Complete : List NewUser → List User × (Option Failure × World) → Type 0
Complete users (made, (end, w)) = (end ≡ none) × (length made ≡ length users)

-- `Outcome` by `Outcome`: what the checks gave for a row, and the rows after it.
create_row :
    (hash : String → String) (ids : ℕ → ℕ) (college : Option ℕ) (j : ℕ) (w now : World)
    (seen : Seen) (o : Outcome × Seen) (later : List RowError × List NewUser)
    → Covers w now seen
    → Checked w seen o
    → ((k : ℕ) (now' : World)
        → Covers w now' o.1
        → Complete later.1 (create_users (λ i. none) hash ids college k later.1 now'))
    → let users = (sort_out o.0 later).1 in
      Complete users (create_users (λ i. none) hash ids college j users now)
unfolding create_users
create_row hash ids college j w now seen (refused e, seen') later c k ih =
    ih j now (Covers-Grown w now seen seen' c k)
create_row hash ids college j w now seen (verified u, seen') later c k ih =
    let a = student_of hash college (ids j) u in
    let rest = ih (suc j) (user_create a now) (Covers-Passed w now seen seen' u a refl refl c k) in
    let done = inserted a now (c.0 u.email k.1 k.0) (usn_free w now seen seen' u c k) in
    subst
      (λ r.
        Complete (u ∷ later.1)
          (then_rest r (create_users (λ i. none) hash ids college (suc j) later.1)))
      (sym done) (rest.0, ap suc rest.1)

create_rows :
    (hash : String → String) (ids : ℕ → ℕ) (college : Option ℕ) (w : World)
    (default : Option String) (random : ℕ → String) (i : ℕ) (rows : List Row) (seen : Seen) (j : ℕ)
    (now : World)
    → Covers w now seen
    → let users = (verify_rows w default random i seen rows).1 in
      Complete users (create_users (λ i. none) hash ids college j users now)
unfolding verify_rows create_users
create_rows hash ids college w default random i [] seen j now c = (refl, refl)
create_rows hash ids college w default random i (r ∷ rows) seen j now c =
    let o = verify_at w default random i r seen in
    create_row hash ids college j w now seen o (verify_rows w default random (suc i) o.1 rows) c
      (verify_row-Checked w (plain_password r.password default (random i)) i (trim_text r.name)
        (to_lower_case (trim_text r.email)) (trim_text r.usn) (trim_text r.section) seen)
      (λ k now' d. create_rows hash ids college w default random (suc i) rows o.1 k now' d)

-- Each row of an upload gives an error or an account.
length-verify_rows :
    (w : World) (default : Option String) (random : ℕ → String) (i : ℕ) (seen : Seen)
    (rows : List Row)
    → let sorted = verify_rows w default random i seen rows in
      length sorted.1 + length sorted.0 ≡ length rows
unfolding verify_rows
length-verify_rows w default random i seen [] = refl
length-verify_rows w default random i seen (r ∷ rows) =
    let o = verify_at w default random i r seen in
    counted o.0 _ (length-verify_rows w default random (suc i) o.1 rows)
  where
    counted :
        (o : Outcome) (later : List RowError × List NewUser) {n : ℕ}
        → length later.1 + length later.0 ≡ n
        → length (sort_out o later).1 + length (sort_out o later).0 ≡ suc n
    counted (refused e) later h = omega arith
    counted (verified u) later h = omega arith

abbrev pub nothing_seen : Seen
nothing_seen = record { emails = []; usns = [] }

-- What a batch says when the database makes every account that it is asked to.
finished :
    (undo : Deletion) (errors : List RowError) (users : List NewUser) (ids : ℕ → ℕ) (w : World)
    (r : List User × (Option Failure × World))
    → Complete users r
    → Creates (Made ids) w r
    → (made : List User) × (finish_batch undo errors r ≡ (
      ok record { created = made; errors = errors; count = length made },
      with_users (added made w.users) w,
    ))
      × (length made ≡ length users)
finished undo errors users ids w (made, (none, v)) done made_so = (
  made,
  ap (λ v. (ok record { created = made; errors = errors; count = length made }, v)) made_so.0,
  done.1,
)
finished undo errors users ids w (made, (some e, v)) done made_so = absurd (ground (arith, done.0))

-- If there are seats for the rows that pass the checks, and the database makes every account that its
-- indexes admit, then no index refuses one of them: the batch succeeds, with an account or an error for each row.
pub bulk_register-accepted :
    (price : Option String) (undo : Deletion) (hash : String → String) (ids : ℕ → ℕ)
    (random : ℕ → String) (rows : List Row) (default : Option String) (college : Option ℕ)
    (w : World)
    → assert_seats price college (length (verify_rows w default random 0 nothing_seen rows).1) w
      ≡ ok tt
    → (made : List User) × let errors = (verify_rows w default random 0 nothing_seen rows).0 in
        (bulk_register price (λ i. none) undo hash ids random rows default college w ≡ (
          ok record { created = made; errors = errors; count = length made },
          with_users (added made w.users) w,
        ))
        × (length made + length errors ≡ length rows)
unfolding bulk_register
bulk_register-accepted price undo hash ids random rows default college w seats =
    let sorted = verify_rows w default random 0 nothing_seen rows in
    let create = create_users (λ i. none) hash ids college 0 sorted.1 in
    let (made, answer, all) =
      finished undo sorted.0 sorted.1 ids w (create w)
        (create_rows hash ids college w default random 0 rows nothing_seen 0 w
          ((λ e h k. h), (λ n h k. h)))
        (create_users_adds (Made ids) (λ i. none) hash ids college (λ j u. (j, refl)) 0 sorted.1
          w) in
    (
      made,
      (
        ap (λ s. batch_with undo s sorted.0 create w) seats ∙ answer,
        omega (arith, length-verify_rows w default random 0 nothing_seen rows),
      ),
    )
