-- ===== src/Accounts/Registered.antt =====
-- What `register` leaves behind, and that the new account can sign in.
use assessment_microservice.Base.{
  ℕ, ◌≡◌, refl, sym, ap, subst, ◌∙◌, inl, inr, Bool, true, false, ◌||◌, Option, some, arith,
  if◌then◌else◌, String, text_eq, Bool-cases, Option-cases, text_eq_iff,
}
use assessment_microservice.Accounts.Register.{
  user_insert, email_taken, usn_indexed, register, Registration, account_of, with_token, role_of,
  college_of, refuse_registration, required, trimmed,
}
use assessment_microservice.Store.{World, ok, Result, err, duplicate_key, Result-cases, log_event}
use assessment_microservice.Models.{User}
use assessment_microservice.Billing.Seats.{user_create}
use assessment_microservice.Accounts.Words.{to_lower_case}
use assessment_microservice.Accounts.Login.{login, user_by_email, admit, stored_hash}
use assessment_microservice.Base.Int.{ℤ}

-- What an account that was made has of the request.
abbrev pub MadeFrom : (String → String) → Registration → Option ℕ → String → User → Type 0
MadeFrom hash r college email u =
    (u.email ≡ email)
    × ((p : String) × (r.password ≡ some p) × (u.password ≡ hash p))
    × (role_of r.role ≡ ok u.role)
    × (u.college_id ≡ college)

account_of_ok :
    (hash : String → String) (k : ℕ) (r : Registration) (college : Option ℕ) (email : String)
    (u : User)
    → account_of hash k r college email ≡ ok u
    → MadeFrom hash r college email u
unfolding account_of
account_of_ok hash k r college email u h = elim (Option-cases r.password) [
  | inl e ↦ absurd (ground arith)
  | inr (password, e) ↦ elim (Result-cases (role_of r.role)) [
    | inr (x, f) ↦ absurd (ground arith)
    | inl (role, f) ↦ elim (Option-cases (required r.name)) [
      | inl g ↦ absurd (ground arith)
      | inr (name, g) ↦ elim (Bool-cases (text_eq email "")) [
        | inl c ↦ absurd (ground arith)
        | inr c ↦ (ground arith, (password, e, ground arith), ground arith, ground arith)
      ]
    ]
  ]
]

with_token_ok :
    (sign : ℤ → User → String) (now : ℤ) (u : User) (w v : World) (found : String × User)
    → with_token sign now (user_insert u w) ≡ (ok found, v)
    → ((sign now u, u) ≡ found) × (user_create u w ≡ v)
unfolding user_insert
with_token_ok sign now u w v found = go (email_taken u.email w || usn_indexed u.usn w)
  where
    ok_injective : {A : Type 0} {a b : A} → ◌≡◌ {A = Result A} (ok a) (ok b) → a ≡ b
    ok_injective p = ground arith

    go :
        (c : Bool)
        → with_token sign now (if c then (err duplicate_key, w) else (ok u, user_create u w))
          ≡ (ok found, v)
        → ((sign now u, u) ≡ found) × (user_create u w ≡ v)
    go true h = absurd (ground arith)
    go false h = (ok_injective (ap (λ x. x.0) h), ap (λ x. x.1) h)

-- The answer is about the account, which the new world has.
abbrev pub AccountOf :
    (String → String)
    → (ℤ → User → String)
    → ℤ
    → Registration
    → World
    → World
    → String × User
    → Type 0
AccountOf hash sign now r w v found =
    ((email : String) × (college : Option ℕ) × (r.email ≡ some email)
      × (college_of r.college ≡ ok college)
      × MadeFrom hash r college (to_lower_case email) found.1)
    × (found.0 ≡ sign now found.1)
    × (v ≡ user_create found.1 w)

pub register_ok :
    (price : Option String) (hash : String → String) (sign : ℤ → User → String) (now : ℤ) (k : ℕ)
    (r : Registration) (w v : World) (found : String × User)
    → register price hash sign now k r w ≡ (ok found, v)
    → AccountOf hash sign now r w v found
unfolding register
register_ok price hash sign now k r w v found h = elim (Result-cases (college_of r.college)) [
  | inr (x, e) ↦ absurd (ground arith)
  | inl (college, e) ↦ elim (Option-cases r.email) [
    | inl f ↦ absurd (ground arith)
    | inr (email, f) ↦
        elim (Option-cases
          (refuse_registration price college (to_lower_case email) (trimmed r.usn) w)) [
            | inr (x, g) ↦ absurd (ground arith)
            | inl g ↦ elim (Result-cases (account_of hash k r college (to_lower_case email))) [
              | inr (x, c) ↦ absurd (ground arith)
              | inl (u, c) ↦
                  let made = with_token_ok sign now u w v found (ground arith) in
                  subst (AccountOf hash sign now r w v) made.0 (
                    (
                      email,
                      college,
                      f,
                      e,
                      account_of_ok hash k r college (to_lower_case email) u c,
                    ),
                    refl,
                    sym made.1,
                  )
            ]
          ]
  ]
]

text_eq_refl : (s : String) → text_eq s s ≡ true
text_eq_refl s = (text_eq_iff s s).1 refl

-- An account that was registered can sign in at any moment `now` with the email, in any case of letters, and the password it was given, if bcrypt's comparison accepts that password against its
-- hash: it gets the account and a token that is signed for it at `now`, as the token of the
-- registration was at the moment `before`, and nothing but the audit log changes.
pub login-register :
    (price : Option String) (hash : String → String) (compare : String → String → Bool)
    (sign : ℤ → User → String) (before now : ℤ) (k : ℕ) (r : Registration) (w v : World)
    (found : String × User) (email password : String)
    → register price hash sign before k r w ≡ (ok found, v)
    → r.password ≡ some password
    → compare password (hash password) ≡ true
    → ((e : String) → r.email ≡ some e → to_lower_case email ≡ to_lower_case e)
    → (login compare sign now email password v
        ≡ (ok (sign now found.1, found.1), (log_event "LOGIN_SUCCESS" (some found.1.id) v).1))
      × (found.0 ≡ sign before found.1)
unfolding login
login-register price hash compare sign before now k r w v found email password h p law same =
    let ((e, college, re, rc, (ue, (q, rq, up), role, owner)), token, world) =
      register_ok price hash sign before k r w v found h in
    let looked = find_new found.1 w (to_lower_case email) (ue ∙ sym (same e re)) in
    let seen = ap (user_by_email (to_lower_case email)) world ∙ looked in
    let matches = ap (compare password) (up ∙ ap hash (given rq p)) ∙ law in
    (
      ap (λ o. admit (compare password (stored_hash o)) sign now o v) seen
          ∙ ap (λ c. admit c sign now (some found.1) v) matches,
      token,
    )
  where
    find_new :
        (u : User) (w : World) (email : String)
        → u.email ≡ email
        → user_by_email email (user_create u w) ≡ some u
    find_new u w email e = ground (arith, text_eq_refl email)

    given : {o : Option String} {a b : String} → o ≡ some a → o ≡ some b → a ≡ b
    given p q = ground arith
