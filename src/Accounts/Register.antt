-- ===== src/Accounts/Register.antt =====
-- `register` of auth.service.js.
use assessment_microservice.Base.{
  ℕ, Bool, false, ◌||◌, Option, none, some, if◌then◌else◌, String, text_eq,
}
use assessment_microservice.Accounts.Words.{trim_text, to_lower_case}
use assessment_microservice.Store.{
  World, Request, any, err, ok, http, duplicate_key, type_error, validation_error, Failure, Result,
}
use assessment_microservice.Models.{User, Role, student}
use assessment_microservice.Billing.Seats.{user_create, assert_seat_capacity}
use assessment_microservice.Base.Int.{ℤ}

-- An account is looked for by its email or its USN.
abbrev pub email_taken : String → World → Bool
email_taken email w = any (λ u. text_eq u.email email) w.users

abbrev pub has_usn : String → User → Bool
has_usn usn u = elim u.usn [ none ↦ false | some other ↦ text_eq other usn ]

abbrev pub usn_taken : String → World → Bool
usn_taken usn w = any (has_usn usn) w.users

-- The unique index on `usn` is sparse: an account without one is not in it.
abbrev pub usn_indexed : Option String → World → Bool
usn_indexed none w = false
usn_indexed (some usn) w = usn_taken usn w

-- User.create, under the unique indexes on email and on USN
unfoldable pub user_insert : User → Request User
user_insert u w =
    if email_taken u.email w || usn_indexed u.usn w
    then (err duplicate_key, w)
    else (ok u, user_create u w)

-- A missing value, a text that is no ObjectId, or one that is.
pub data CollegeArg : Type 0 where
  no_college malformed_college : CollegeArg
  of_college : ℕ → CollegeArg

-- A missing role, a text outside the enum, or a role.
pub data RoleArg : Type 0 where
  no_role unknown_role : RoleArg
  of_role : Role → RoleArg

pub record Registration : Type 0 where
  pub name : Option String
  pub email : Option String
  pub password : Option String
  pub role : RoleArg
  pub college : CollegeArg
  pub usn : Option String
  pub section : Option String

abbrev pub college_of : CollegeArg → Result (Option ℕ)
college_of no_college = ok none
college_of malformed_college = err (http 400 "Invalid collegeId")
college_of (of_college k) = ok (some k)

-- The schema's default and its enum.
abbrev pub role_of : RoleArg → Result Role
role_of no_role = ok student
role_of unknown_role = err validation_error
role_of (of_role r) = ok r

-- `x ? x.trim() : undefined`
abbrev pub trimmed : Option String → Option String
trimmed none = none
trimmed (some s) = if text_eq s "" then none else some (trim_text s)

-- `required`: an empty text is missing.
abbrev pub required : Option String → Option String
required none = none
required (some s) = if text_eq s "" then none else some s

-- What the two look-ups and the seats say, before anything is written.
unfoldable pub refuse_registration :
    Option String → Option ℕ → String → Option String → World → Option Failure
refuse_registration price college email usn w =
    if email_taken email w
    then some (http 409 "Email already registered")
    else if usn_indexed usn w
    then some (http 409 "USN already registered")
    else elim (assert_seat_capacity price college 1 w).0 [ ok done ↦ none | err e ↦ some e ]

-- The document for User.create, or what its validation raises.
unfoldable pub account_of : (String → String) → ℕ → Registration → Option ℕ → String → Result User
account_of hash k r college email = elim r.password [
  | none ↦ err type_error
  | some password ↦ elim (role_of r.role) [
    | err e ↦ err e
    | ok role ↦ elim (required r.name) [
      | none ↦ err validation_error
      | some name ↦
          (if text_eq email ""
            then err validation_error
            else ok record {
              id = k;
              name = name;
              email = email;
              password = hash password;
              role = role;
              usn = trimmed r.usn;
              section = trimmed r.section;
              college_id = college;
            })
    ]
  ]
]

-- The answer: a token and the account. `sign` is `jwt.sign` with the moment of the call, which goes
-- into the token as the time of its issue and, seven days later, of its end.
abbrev pub with_token :
    (ℤ → User → String) → ℤ → Result User × World → Result (String × User) × World
with_token sign now (ok a, w) = (ok (sign now a, a), w)
with_token sign now (err e, w) = (err e, w)

unfoldable pub register :
    Option String
    → (String → String)
    → (ℤ → User → String)
    → ℤ
    → ℕ
    → Registration
    → Request (String × User)
register price hash sign now k r w = elim (college_of r.college) [
  | err e ↦ (err e, w)
  | ok college ↦ elim r.email [
    | none ↦ (err type_error, w)
    | some email ↦
        elim (refuse_registration price college (to_lower_case email) (trimmed r.usn) w) [
          | some e ↦ (err e, w)
          | none ↦ elim (account_of hash k r college (to_lower_case email)) [
            | err e ↦ (err e, w)
            | ok u ↦ with_token sign now (user_insert u w)
          ]
        ]
  ]
]
