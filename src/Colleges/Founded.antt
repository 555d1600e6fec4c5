-- ===== src/Colleges/Founded.antt =====
-- What a sign-up leaves behind: a college with its administrator, or nothing.
use assessment_microservice.Base.{
  ℕ, ◌≡◌, refl, sym, ap, ◌∙◌, inl, inr, Bool, true, false, ◌||◌, Option, none, some, ◌∷◌, arith,
  ==_iff, if◌then◌else◌, String, Option-cases,
}
use assessment_microservice.Accounts.Register.{
  user_insert, register, Registration, with_token, college_of, refuse_registration, email_taken,
  usn_indexed, trimmed, account_of,
}
use assessment_microservice.Models.{User}
use assessment_microservice.Store.{
  World, Failure, err, Result, duplicate_key, Result-cases, ok, type_error,
}
use assessment_microservice.Billing.Seats.{user_create}
use assessment_microservice.Accounts.Words.{to_lower_case, trim_text}
use assessment_microservice.Colleges.{
  SignupBody, signup, Text, college_create, slug_taken, new_college, add_college, or_default,
  admin_registration, admin, or_remove, Request, found_with, College, unless_refused, refuse_signup,
  college_delete, found_college, unique_slug, without_college, slugify, codes, ℤ,
}
use assessment_microservice.Accounts.Registered.{register_ok}

with_token_err :
    (sign : ℤ → User → String) (now : ℤ) (u : User) (w v : World) (x : Failure)
    → with_token sign now (user_insert u w) ≡ (err x, v)
    → w ≡ v
unfolding user_insert
with_token_err sign now u w v x = go (email_taken u.email w || usn_indexed u.usn w)
  where
    go :
        (c : Bool)
        → with_token sign now (if c then (err duplicate_key, w) else (ok u, user_create u w))
          ≡ (err x, v)
        → w ≡ v
    go true h = ap (λ r. r.1) h
    go false h = absurd (ground arith)

-- A registration that raises has written nothing.
register_err :
    (price : Option String) (hash : String → String) (sign : ℤ → User → String) (now : ℤ) (k : ℕ)
    (r : Registration) (w v : World) (x : Failure)
    → register price hash sign now k r w ≡ (err x, v)
    → w ≡ v
unfolding register
register_err price hash sign now k r w v x h = elim (Result-cases (college_of r.college)) [
  | inr (y, e) ↦ same {y = y} (ground arith)
  | inl (college, e) ↦ elim (Option-cases r.email) [
    | inl f ↦ same {y = type_error} (ground arith)
    | inr (email, f) ↦
        elim (Option-cases
          (refuse_registration price college (to_lower_case email) (trimmed r.usn) w)) [
            | inr (y, g) ↦ same {y = y} (ground arith)
            | inl g ↦ elim (Result-cases (account_of hash k r college (to_lower_case email))) [
              | inr (y, c) ↦ same {y = y} (ground arith)
              | inl (u, c) ↦ with_token_err sign now u w v x (ground arith)
            ]
          ]
  ]
]
  where
    same : {y : Failure} → ◌≡◌ {A = Result (String × User) × World} (err y, w) (err x, v) → w ≡ v
    same h = ap (λ r. r.1) h

-- What a sign-up that returned has made.
abbrev pub Founds :
    (ℤ → User → String) → ℤ → ℕ → SignupBody → World → World → String × User → Type 0
Founds sign now j body w v found =
    (slug : Text) × (slug_taken slug w ≡ false)
    × (v
        ≡ user_create found.1
            (add_college (new_college j (trim_text (or_default body.college_name "")) slug) w))
    × (found.1.role ≡ admin)
    × (found.1.college_id ≡ some j)
    × (found.0 ≡ sign now found.1)

abbrev pub Outcome :
    (ℤ → User → String) → ℤ → ℕ → SignupBody → World → Result (String × User) × World → Type 0
Outcome sign now j body w (ok found, v) = Founds sign now j body w v found
Outcome sign now j body w (err e, v) = w ≡ v

registered :
    (price : Option String) (hash : String → String) (sign : ℤ → User → String) (now : ℤ) (k j : ℕ)
    (body : SignupBody) (w : World) (slug : Text)
    → slug_taken slug w ≡ false
    → let c = new_college j (trim_text (or_default body.college_name "")) slug in
      (r : Result (String × User) × World)
      → register price hash sign now k (admin_registration body j) (add_college c w) ≡ r
      → Outcome sign now j body w (or_remove j r)
registered price hash sign now k j body w slug free (ok found, v) h =
    let ((email, college, re, rc, (ue, q, role, owner)), token, world) =
      register_ok price hash sign now k (admin_registration body j)
        (add_college (new_college j (trim_text (or_default body.college_name "")) slug) w) v found
        h in
    (slug, free, world, ground arith, ground arith, token)
registered price hash sign now k j body w slug free (err x, v) h =
    sym (deleted (new_college j (trim_text (or_default body.college_name "")) slug))
    ∙ ap (college_delete j) (
        register_err price hash sign now k (admin_registration body j)
          (add_college (new_college j (trim_text (or_default body.college_name "")) slug) w) v x h)
  where
    deleted : (c : College) → college_delete c.id (add_college c w) ≡ w
    deleted c =
        ap
          (λ b. record w {
            colleges = if b then w.colleges else c ∷ without_college c.id w.colleges;
          })
          ((==_iff c.id c.id).1 refl)

found_with_Outcome :
    (price : Option String) (hash : String → String) (sign : ℤ → User → String) (now : ℤ) (k j : ℕ)
    (body : SignupBody) (w : World) (slug : Option Text)
    → Outcome sign now j body w (found_with price hash sign now k j body slug w)
unfolding college_create
found_with_Outcome price hash sign now k j body w none = refl
found_with_Outcome price hash sign now k j body w (some slug) = go (slug_taken slug w) refl
  where
    c : College
    c = new_college j (trim_text (or_default body.college_name "")) slug

    go :
        (b : Bool)
        → slug_taken slug w ≡ b
        → Outcome sign now j body w (
            found_college price hash sign now k body
              (if b then (err duplicate_key, w) else (ok c, add_college c w)))
    go true e = refl
    go false e =
        registered price hash sign now k j body w slug e
          (register price hash sign now k (admin_registration body j) (add_college c w)) refl

-- A sign-up that raises has written nothing: the college that it made is gone again. One that returns
-- has added one college, with a slug that no other college has, and one account, an administrator of
-- that college, and gives the account with its token.
pub signup-Outcome :
    (price : Option String) (hash : String → String) (sign : ℤ → User → String) (now : ℤ) (k j : ℕ)
    (body : SignupBody) (w : World)
    → Outcome sign now j body w (signup price hash sign now k j body w)
unfolding signup
signup-Outcome price hash sign now k j body w =
    unless (refuse_signup body) (found_with price hash sign now k j body slug)
      (found_with_Outcome price hash sign now k j body w slug)
  where
    slug : Option Text
    slug = unique_slug (slugify (codes (or_default body.college_name ""))) w

    unless :
        (o : Option Failure) (m : Request (String × User))
        → Outcome sign now j body w (m w)
        → Outcome sign now j body w (unless_refused o m w)
    unless (some e) m h = refl
    unless none m h = h
