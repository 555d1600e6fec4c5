-- ===== src/Accounts/Tests.antt =====
-- Runs of the account requests.
use assessment_microservice.Base.{
  ℕ, ◌+◌, ◌≤◌, ◌≡◌, ◌⊎◌, refl, ap, ◌∙◌, Bool, true, false, Option, none, some, List, [], ◌∷◌, arith,
  ◌==◌, ==_iff, if◌then◌else◌, String, text_eq, length, concat,
}
use assessment_microservice.Accounts.Words.{is_email, to_lower_case, lower_char, trim_text}
use assessment_microservice.Types.{is_space, is_line_end}
use assessment_microservice.Accounts.Rollback.{
  FreshIds, bulk_register-rollback, with_users, added, Undone,
}
use assessment_microservice.Models.{College, User, unsubscribed, student, faculty}
use assessment_microservice.Accounts.Register.{
  register, Registration, of_role, refuse_registration, user_insert, no_college, account_of,
}
use assessment_microservice.Accounts.Batch.{
  bulk_register, verify_rows, BatchResult, Outages, Row, RowError, create_users, batch_failed,
  verify_row, assert_seats, deleted, Deletion, broken_off,
}
use assessment_microservice.Store.{World, ok, validation_error, log_event, find_by, err, type_error}
use assessment_microservice.Billing.Service.{seats_used, college_at}
use assessment_microservice.Accounts.Login.{login}
use assessment_microservice.Billing.Seats.{user_create, assert_seat_capacity}
use assessment_microservice.Accounts.Accepted.{nothing_seen, bulk_register-accepted}
use assessment_microservice.Accounts.Capacity.{bulk_register-seats}
use assessment_microservice.Accounts.Registered.{login-register}
use assessment_microservice.Billing.Plans.{get_plan, plan_named}
use assessment_microservice.Base.Int.{
  pos, ℤ, leb_ℤ, ℤ, ℤ, ℤ, ℤ, ℤ, ℤ, ℤ, ℤ, ℤ, ℤ, ℤ, ℤ, ℤ, ℤ, ℤ, ℤ, ℤ, ℤ, ℤ, ℤ, ℤ, ℤ, ℤ, ℤ, ℤ, ℤ, ℤ, ℤ,
  ℤ, ℤ, ℤ, ℤ, ℤ, ℤ, ℤ, ℤ, ℤ, ℤ, ℤ, ℤ, ℤ, ℤ, ℤ, ℤ, ℤ, ℤ, ℤ, ℤ, ℤ, ℤ, ℤ, ℤ, ℤ, ℤ, ℤ, ℤ, ℤ, ℤ, ℤ, ℤ, ℤ,
  ℤ, ℤ, ℤ, ℤ, ℤ, ℤ, ℤ, ℤ, ℤ, ℤ, ℤ, ℤ, ℤ, ℤ, ℤ, ℤ, ℤ, ℤ, ℤ, ℤ, ℤ, ℤ, ℤ, ℤ, ℤ, ℤ, ℤ, ℤ, ℤ, ℤ, ℤ, ℤ, ℤ,
  ℤ, ℤ, ℤ, ℤ, ℤ, ℤ, ℤ, ℤ, ℤ, ℤ, ℤ, ℤ, ℤ, ℤ, ℤ, ℤ, ℤ, ℤ, ℤ, ℤ, ℤ, ℤ, ℤ, ℤ, ℤ, ℤ, ℤ, ℤ, ℤ, ℤ, ℤ, ℤ, ℤ,
  ℤ, ℤ, ℤ, ℤ, ℤ, ℤ, ℤ, ℤ, ℤ, ℤ, ℤ, ℤ, ℤ, ℤ, ℤ, ℤ, ℤ, ℤ, ℤ, ℤ, ℤ, ℤ, ℤ, ℤ, ℤ, ℤ, ℤ, ℤ, ℤ, ℤ, ℤ, ℤ,
}

lower_shouting : to_lower_case "Ann@A.edu" ≡ "ann@a.edu"
unfolding to_lower_case lower_char
lower_shouting = refl

email_plain : is_email "ann@a.edu" ≡ true
unfolding is_email is_space is_line_end
email_plain = refl

email_without_dot : is_email "ann@edu." ≡ false
unfolding is_email is_space is_line_end
email_without_dot = refl

-- A hash that a reader can see through, with the comparison that goes with it.
abbrev test_hash : String → String
test_hash p = concat "hashed " p

abbrev test_compare : String → String → Bool
test_compare p h = text_eq (test_hash p) h

-- The moment decides the token too.
abbrev test_sign : ℤ → User → String
test_sign now u =
    if leb_ℤ now (pos 100) then concat "token of " u.email else concat "later token of " u.email

abbrev blank_world : World
blank_world = record {
  users = [];
  colleges = [];
  problems = [];
  assessments = [];
  attempts = [];
  submissions = [];
  usage_events = [];
  audit_logs = [];
  queue = [];
  cache = [];
}

abbrev bob_form : Registration
bob_form = record {
  name = some "Bob";
  email = some "Bob@A.edu";
  password = some "secret";
  role = of_role faculty;
  college = no_college;
  usn = none;
  section = none;
}

abbrev bob : User
bob = record {
  id = 5;
  name = "Bob";
  email = "bob@a.edu";
  password = "hashed secret";
  role = faculty;
  usn = none;
  section = none;
  college_id = none;
}

abbrev with_bob : World
with_bob = user_create bob blank_world

bob_registered :
    register none test_hash test_sign (pos 100) 5 bob_form blank_world
    ≡ (ok ("token of bob@a.edu", bob), with_bob)
unfolding register refuse_registration account_of user_insert assert_seat_capacity to_lower_case
    lower_char
bob_registered = refl

bob_lower : to_lower_case "BOB@a.edu" ≡ to_lower_case "Bob@A.edu"
unfolding to_lower_case lower_char
bob_lower = refl

login-register_example :
    (login test_compare test_sign (pos 900) "BOB@a.edu" "secret" with_bob
      ≡ (ok ("later token of bob@a.edu", bob), (log_event "LOGIN_SUCCESS" (some 5) with_bob).1))
    × ("token of bob@a.edu" ≡ test_sign (pos 100) bob)
login-register_example =
    login-register none test_hash test_compare test_sign (pos 100) (pos 900) 5 bob_form blank_world
      with_bob ("token of bob@a.edu", bob) "BOB@a.edu" "secret" bob_registered refl refl same_email
  where
    same_email :
        (e : String)
        → ◌≡◌ {A = Option String} (some "Bob@A.edu") (some e)
        → to_lower_case "BOB@a.edu" ≡ to_lower_case e
    same_email e p = bob_lower ∙ ap to_lower_case (ground arith)

abbrev cy : Row
cy = record { email = " Cy@a.edu"; usn = "1AB"; name = "Cy"; section = ""; password = "pw" }

-- the USN of cy again
abbrev dee : Row
dee = record { email = "dee@a.edu"; usn = "1AB"; name = "Dee"; section = ""; password = "" }

abbrev eve : Row
eve = record { email = "eve@a.edu"; usn = ""; name = "Eve"; section = "B"; password = "" }

abbrev college : College
college = record {
  id = 7;
  name = "A";
  slug = [];
  plan_id = "free";
  stripe_customer_id = none;
  stripe_subscription_id = none;
  subscription_status = unsubscribed;
  current_period_end = none;
}

abbrev campus : World
campus = record with_bob { colleges = college ∷ [] }

abbrev new_ids : ℕ → ℕ
new_ids i = i + 100

abbrev no_random : ℕ → String
no_random i = "random"

abbrev second_fails : Outages
second_fails i = if i == 1 then some validation_error else none

ids_fresh : FreshIds new_ids campus
ids_fresh = ((λ j. grind (arith, ==_iff)), tt)

abbrev cy_user : User
cy_user = record {
  id = 100;
  name = "Cy";
  email = "cy@a.edu";
  password = "hashed pw";
  role = student;
  usn = some "1AB";
  section = none;
  college_id = some 7;
}

-- The rollback of this batch fails before anything is deleted.
abbrev lost : Deletion
lost = broken_off type_error (λ u. false)

batch_fails :
    bulk_register none second_fails lost test_hash new_ids no_random
      (cy ∷ eve ∷ [])
      none
      (some 7)
      campus
    ≡ (err type_error, user_create cy_user campus)
unfolding bulk_register create_users user_insert verify_rows verify_row trim_text to_lower_case
    lower_char is_email is_space is_line_end assert_seat_capacity find_by get_plan plan_named
batch_fails = refl

batch_undone :
    bulk_register none second_fails deleted test_hash new_ids no_random
      (cy ∷ eve ∷ [])
      none
      (some 7)
      campus
    ≡ (err batch_failed, campus)
unfolding bulk_register create_users user_insert verify_rows verify_row trim_text to_lower_case
    lower_char is_email is_space is_line_end assert_seat_capacity find_by get_plan plan_named
batch_undone = refl

bulk_register-rollback_example : Undone lost new_ids campus type_error (user_create cy_user campus)
bulk_register-rollback_example =
    bulk_register-rollback none second_fails lost test_hash new_ids no_random (cy ∷ eve ∷ []) none
      (some 7) campus (user_create cy_user campus) type_error ids_fresh batch_fails

abbrev dee_refused : RowError
dee_refused = record {
  row = 2;
  email = "dee@a.edu";
  usn = "1AB";
  error = "Duplicate USN in upload batch";
}

abbrev batch_result : BatchResult
batch_result = record { created = cy_user ∷ []; errors = dee_refused ∷ []; count = 1 }

batch_works :
    bulk_register none
      (λ i. none)
      deleted
      test_hash
      new_ids
      no_random
      (cy ∷ dee ∷ [])
      none
      (some 7)
      campus
    ≡ (ok batch_result, user_create cy_user campus)
unfolding bulk_register create_users user_insert verify_rows verify_row trim_text to_lower_case
    lower_char is_email is_space is_line_end assert_seat_capacity find_by get_plan plan_named
batch_works = refl

college_found : college_at 7 campus ≡ some college
unfolding find_by
college_found = refl

college_limit : (get_plan none college.plan_id).seat_limit ≡ some 15
unfolding get_plan plan_named
college_limit = refl

bulk_register-seats_example :
    (seats_used 7 (user_create cy_user campus) ≡ seats_used 7 campus + length (cy_user ∷ []))
    × ((length (cy_user ∷ []) ≡ 0) ⊎ (seats_used 7 (user_create cy_user campus) ≤ 15))
bulk_register-seats_example =
    bulk_register-seats none (λ i. none) deleted test_hash new_ids no_random (cy ∷ dee ∷ []) none 7
      15 campus (user_create cy_user campus) college batch_result college_found college_limit
      batch_works

seats_there :
    assert_seats none
      (some 7)
      (length (verify_rows campus none no_random 0 nothing_seen (cy ∷ dee ∷ [])).1)
      campus
    ≡ ok tt
unfolding verify_rows verify_row trim_text to_lower_case lower_char is_email is_space is_line_end
    assert_seat_capacity find_by get_plan plan_named
seats_there = refl

bulk_register-accepted_example :
    (made : List User) × let errors =
        (verify_rows campus none no_random 0 nothing_seen (cy ∷ dee ∷ [])).0 in
      (bulk_register none
          (λ i. none)
          deleted
          test_hash
          new_ids
          no_random
          (cy ∷ dee ∷ [])
          none
          (some 7)
          campus
        ≡ (
          ok record { created = made; errors = errors; count = length made },
          with_users (added made campus.users) campus,
        ))
      × (length made + length errors ≡ 2)
bulk_register-accepted_example =
    bulk_register-accepted none deleted test_hash new_ids no_random (cy ∷ dee ∷ []) none (some 7)
      campus seats_there
