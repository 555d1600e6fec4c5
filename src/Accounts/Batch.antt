-- ===== src/Accounts/Batch.antt =====
-- `bulkRegister` of auth.service.js. A missing field of a row counts as an empty text.
use assessment_microservice.Base.{
  ℕ, zero, suc, ◌+◌, Bool, not, ◌&&◌, Option, none, some, List, [], ◌∷◌, ◌==◌, if◌then◌else◌,
  String, text_eq, length, true,
}
use assessment_microservice.Store.{Result, World, any, Request, Failure, err, http, filter, ok}
use assessment_microservice.Models.{User, student}
use assessment_microservice.Accounts.Words.{is_email, trim_text, to_lower_case}
use assessment_microservice.Accounts.Register.{user_insert, email_taken, usn_taken}
use assessment_microservice.Billing.Seats.{assert_seat_capacity}

pub record Row : Type 0 where
  pub email : String
  pub usn : String
  pub name : String
  pub section : String
  pub password : String

-- An entry of `results.errors`.
pub record RowError : Type 0 where
  pub row : ℕ
  pub email : String
  pub usn : String
  pub error : String

-- An entry of `verifiedUsersToCreate`.
pub record NewUser : Type 0 where
  pub name : String
  pub email : String
  pub password : String
  pub usn : Option String
  pub section : Option String

-- seenEmails and seenUsns
pub record Seen : Type 0 where
  pub emails : List String
  pub usns : List String

abbrev pub seen_in : String → List String → Bool
seen_in s = any (λ t. text_eq t s)

-- What becomes of a row: an error, or an account to create.
pub data Outcome : Type 0 where
  refused : RowError → Outcome
  verified : NewUser → Outcome

-- `x || undefined`
abbrev pub or_undefined : String → Option String
or_undefined s = if text_eq s "" then none else some s

-- `userData.password || defaultPassword`, or a random one
abbrev pub plain_password : String → Option String → String → String
plain_password own default random = elim (or_undefined own) [
  | some p ↦ p
  | none ↦ elim default [ none ↦ random | some d ↦ (if text_eq d "" then random else d) ]
]

abbrev pub see_email : String → Seen → Seen
see_email email seen = record { emails = email ∷ seen.emails; usns = seen.usns }

abbrev pub see_usn : String → Seen → Seen
see_usn usn seen = record {
  emails = seen.emails;
  usns = if text_eq usn "" then seen.usns else usn ∷ seen.usns;
}

-- The checks of a row, its texts trimmed. An email is remembered before its row's USN is looked at.
unfoldable pub verify_row :
    World → String → ℕ → String → String → String → String → Seen → Outcome × Seen
verify_row w password i name email usn section seen =
    let no =
      λ (text : String). refused record { row = i + 1; email = email; usn = usn; error = text } in
    if text_eq name ""
    then (no "Name is required", seen)
    else if text_eq email ""
    then (no "Email is required", seen)
    else if not (is_email email)
    then (no "Invalid email format", seen)
    else if seen_in email seen.emails
    then (no "Duplicate email in upload batch", seen)
    else if not (text_eq usn "") && seen_in usn seen.usns
    then (no "Duplicate USN in upload batch", see_email email seen)
    else if email_taken email w
    then (no "Email already registered in system", see_usn usn (see_email email seen))
    else if not (text_eq usn "") && usn_taken usn w
    then (no "USN already registered in system", see_usn usn (see_email email seen))
    else (
      verified record {
        name = name;
        email = email;
        password = password;
        usn = or_undefined usn;
        section = or_undefined section;
      },
      see_usn usn (see_email email seen),
    )

-- `random` are the passwords that `Math.random` would make.
abbrev pub verify_at : World → Option String → (ℕ → String) → ℕ → Row → Seen → Outcome × Seen
verify_at w default random i r =
    verify_row w (plain_password r.password default (random i)) i (trim_text r.name)
      (to_lower_case (trim_text r.email)) (trim_text r.usn) (trim_text r.section)

abbrev pub sort_out : Outcome → List RowError × List NewUser → List RowError × List NewUser
sort_out (refused e) (errors, users) = (e ∷ errors, users)
sort_out (verified u) (errors, users) = (errors, u ∷ users)

-- for (let i = 0; i < users.length; i++)
unfoldable pub verify_rows :
    World → Option String → (ℕ → String) → ℕ → Seen → List Row → List RowError × List NewUser
verify_rows w default random i seen [] = ([], [])
verify_rows w default random i seen (r ∷ rows) =
    let (outcome, seen') = verify_at w default random i r seen in
    sort_out outcome (verify_rows w default random (suc i) seen' rows)

-- The document of an account of the batch.
abbrev pub student_of : (String → String) → Option ℕ → ℕ → NewUser → User
student_of hash college k u = record {
  id = k;
  name = u.name;
  email = u.email;
  password = hash u.password;
  role = student;
  usn = u.usn;
  section = u.section;
  college_id = college;
}

-- What else User.create raises, at each of its calls, before it stores the document: a document
-- that is refused, a lost connection.
abbrev pub Outages : Type 0
Outages = ℕ → Option Failure

abbrev pub create_or_fail : Option Failure → User → Request User
create_or_fail none u w = user_insert u w
create_or_fail (some e) u w = (err e, w)

-- The accounts made, up to the first that fails; the ids are the database's.
abbrev pub then_rest :
    Result User × World
    → (World → List User × (Option Failure × World))
    → List User × (Option Failure × World)
then_rest (ok u, w) k = let (made, end) = k w in (u ∷ made, end)
then_rest (err e, w) k = ([], (some e, w))

unfoldable pub create_users :
    Outages
    → (String → String)
    → (ℕ → ℕ)
    → Option ℕ
    → ℕ
    → List NewUser
    → World
    → List User × (Option Failure × World)
create_users outages hash ids college i [] w = ([], (none, w))
create_users outages hash ids college i (u ∷ users) w =
    then_rest (create_or_fail (outages i) (student_of hash college (ids i) u) w)
      (create_users outages hash ids college (suc i) users)

-- How `User.deleteMany` ends: all is deleted, or it fails when the accounts of the second argument
-- are gone.
pub data Deletion : Type 0 where
  deleted : Deletion
  broken_off : Failure → (User → Bool) → Deletion

-- User.deleteMany({ _id: { $in: createdIds } }), as far as it gets
abbrev pub delete_users : (User → Bool) → List User → World → World
delete_users gone made w = record w {
  users = filter (λ u. not (any (λ v. v.id == u.id) made && gone u)) w.users;
}

pub record BatchResult : Type 0 where
  pub created : List User
  pub errors : List RowError
  pub count : ℕ

abbrev pub batch_failed : Failure
batch_failed =
    http 500
      "Catastrophic error during bulk import. All modifications in this batch have been rolled back."

-- The `catch`: what the deletion raises goes on to the caller.
abbrev pub undo_batch : Deletion → List User → Request BatchResult
undo_batch undo [] w = (err batch_failed, w)
undo_batch deleted (u ∷ made) w = (err batch_failed, delete_users (λ v. true) (u ∷ made) w)
undo_batch (broken_off e gone) (u ∷ made) w = (err e, delete_users gone (u ∷ made) w)

-- The creations with their `catch`.
abbrev pub finish_batch :
    Deletion → List RowError → List User × (Option Failure × World) → Result BatchResult × World
finish_batch undo errors (made, (none, w)) =
    (ok record { created = made; errors = errors; count = length made }, w)
finish_batch undo errors (made, (some e, w)) = undo_batch undo made w

-- `if (verified.length > 0) await assertSeatCapacity(…)`
abbrev pub assert_seats : Option String → Option ℕ → ℕ → World → Result (Unit {0})
assert_seats price college zero w = ok tt
assert_seats price college (suc n) w = (assert_seat_capacity price college (suc n) w).0

abbrev pub batch_with :
    Deletion
    → Result (Unit {0})
    → List RowError
    → (World → List User × (Option Failure × World))
    → Request BatchResult
batch_with undo (err e) errors create w = (err e, w)
batch_with undo (ok done) errors create w = finish_batch undo errors (create w)

unfoldable pub bulk_register :
    Option String
    → Outages
    → Deletion
    → (String → String)
    → (ℕ → ℕ)
    → (ℕ → String)
    → List Row
    → Option String
    → Option ℕ
    → Request BatchResult
bulk_register price outages undo hash ids random rows default college w =
    let (errors, users) = verify_rows w default random 0 (record { emails = []; usns = [] }) rows in
    batch_with undo (assert_seats price college (length users) w) errors
      (create_users outages hash ids college 0 users) w
