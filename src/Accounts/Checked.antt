-- ===== src/Accounts/Checked.antt =====
-- What the checks of a row of `bulkRegister` show.
use assessment_microservice.Base.{
  ℕ, ◌≡◌, refl, subst, inl, inr, Bool, true, false, not, ◌&&◌, none, some, ◌∷◌, arith,
  if◌then◌else◌, String, text_eq, Bool-cases,
}
use assessment_microservice.Accounts.Batch.{
  verify_row, Seen, see_email, Outcome, seen_in, NewUser, see_usn, refused, verified, or_undefined,
}
use assessment_microservice.Store.{World}
use assessment_microservice.Accounts.Register.{email_taken, usn_taken}
use assessment_microservice.Accounts.Words.{is_email}

-- The world differs from the one that the checks read by accounts with texts that were seen.
abbrev pub Covers : World → World → Seen → Type 0
Covers w now seen =
    ((e : String)
      → email_taken e w ≡ false
      → seen_in e seen.emails ≡ false
      → email_taken e now ≡ false)
    × ((n : String) → usn_taken n w ≡ false → seen_in n seen.usns ≡ false → usn_taken n now ≡ false)

-- One text seen more, if it counts.
see_usn_seen :
    (n usn : String) (seen : Seen)
    → seen_in n (see_usn usn seen).usns ≡ false
    → seen_in n seen.usns ≡ false
see_usn_seen n usn seen h = elim (Bool-cases (text_eq usn "")) [
  | inl e ↦ ground arith
  | inr e ↦ ground arith
]

-- What the checks of a row show of an account that passed.
abbrev pub Passed : World → Seen → NewUser → Seen → Type 0
Passed w seen u seen' =
    (seen_in u.email seen.emails ≡ false)
    × (email_taken u.email w ≡ false)
    × ((n : String) → u.usn ≡ some n → (seen_in n seen.usns ≡ false) × (usn_taken n w ≡ false))
    × (seen'.emails ≡ u.email ∷ seen.emails)
    × (seen'.usns ≡ elim u.usn [ none ↦ seen.usns | some n ↦ n ∷ seen.usns ])

-- A refusal may still have seen the row's texts.
abbrev pub Grown : Seen → Seen → Type 0
Grown seen seen' =
    ((e : String) → seen_in e seen'.emails ≡ false → seen_in e seen.emails ≡ false)
    × ((n : String) → seen_in n seen'.usns ≡ false → seen_in n seen.usns ≡ false)

abbrev pub Checked : World → Seen → Outcome × Seen → Type 0
Checked w seen (refused e, seen') = Grown seen seen'
Checked w seen (verified u, seen') = Passed w seen u seen'

Grown-refl : (seen : Seen) → Grown seen seen
Grown-refl seen = (λ e h. h, λ n h. h)

Grown-see_email : (email : String) (seen : Seen) → Grown seen (see_email email seen)
Grown-see_email email seen = (λ e h. ground arith, λ n h. h)

Grown-see_both :
    (email usn : String) (seen : Seen) → Grown seen (see_usn usn (see_email email seen))
Grown-see_both email usn seen =
    (λ e h. ground arith, λ n h. see_usn_seen n usn (see_email email seen) h)

-- A test on either side.
either_way :
    {A : Type 0} (P : A → Type 0) (c : Bool) (x y : A)
    → P x
    → (c ≡ false → P y)
    → P (if c then x else y)
either_way P true x y t f = t
either_way P false x y t f = f refl

Passed-row :
    (w : World) (password name email usn section : String) (seen : Seen)
    → seen_in email seen.emails ≡ false
    → not (text_eq usn "") && seen_in usn seen.usns ≡ false
    → email_taken email w ≡ false
    → not (text_eq usn "") && usn_taken usn w ≡ false
    → Passed w seen
        record {
          name = name;
          email = email;
          password = password;
          usn = or_undefined usn;
          section = or_undefined section;
        }
        (see_usn usn (see_email email seen))
Passed-row w password name email usn section seen a b c d = elim (Bool-cases (text_eq usn "")) [
  | inl e ↦ (a, c, λ n f. absurd (ground arith), refl, ground arith)
  | inr e ↦ (
    a,
    c,
    λ n f.
        subst (λ m. (seen_in m seen.usns ≡ false) × (usn_taken m w ≡ false)) (named n e f)
          (ground arith, ground arith),
    refl,
    ground arith,
  )
]
  where
    named : (n : String) → text_eq usn "" ≡ false → or_undefined usn ≡ some n → usn ≡ n
    named n e f = ground arith

pub verify_row-Checked :
    (w : World) (password : String) (i : ℕ) (name email usn section : String) (seen : Seen)
    → Checked w seen (verify_row w password i name email usn section seen)
unfolding verify_row
verify_row-Checked w password i name email usn section seen =
    either_way (Checked w seen) (text_eq name "") _ _ (Grown-refl seen) λ _.
      either_way (Checked w seen) (text_eq email "") _ _ (Grown-refl seen) λ _.
        either_way (Checked w seen) (not (is_email email)) _ _ (Grown-refl seen) λ _.
          either_way (Checked w seen) (seen_in email seen.emails) _ _ (Grown-refl seen) λ a.
            either_way (Checked w seen) (not (text_eq usn "") && seen_in usn seen.usns) _ _
              (Grown-see_email email seen)
              λ b.
                either_way (Checked w seen) (email_taken email w) _ _
                  (Grown-see_both email usn seen)
                  λ c.
                    either_way (Checked w seen) (not (text_eq usn "") && usn_taken usn w) _ _
                      (Grown-see_both email usn seen)
                      λ d. Passed-row w password name email usn section seen a b c d
