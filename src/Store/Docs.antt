-- ===== src/Store/Docs.antt =====
-- Documents by `_id`. The `_id` index is unique, so `findOne({ _id })` and `findOneAndUpdate({ _id })`
-- mean the first document with that id.
use assessment_microservice.Base.{
  ℕ, ◌≡◌, refl, Bool, true, false, Option, none, some, List, [], ◌∷◌, arith, ◌==◌, if◌then◌else◌,
}

abbrev pub filter {ℓ} : {A : Type ℓ} → (A → Bool) → List A → List A
filter p [] = []
filter p (x ∷ xs) = if p x then x ∷ filter p xs else filter p xs

abbrev pub any {ℓ} : {A : Type ℓ} → (A → Bool) → List A → Bool
any p [] = false
any p (x ∷ xs) = if p x then true else any p xs

abbrev pub find {ℓ} : {A : Type ℓ} → (A → Bool) → List A → Option A
find p [] = none
find p (x ∷ xs) = if p x then some x else find p xs

abbrev pub map_option {ℓ κ} : {A : Type ℓ} {B : Type κ} → (A → B) → Option A → Option B
map_option f none = none
map_option f (some a) = some (f a)

-- a ?? b, and a || b where a is never falsy
abbrev pub or_default {ℓ} : {A : Type ℓ} → Option A → A → A
or_default none d = d
or_default (some a) d = a

abbrev pub is_some {ℓ} : {A : Type ℓ} → Option A → Bool
is_some none = false
is_some (some a) = true

-- `String(a) === String(b)` where `a` may be missing.
abbrev pub is_id : Option ℕ → ℕ → Bool
is_id none k = false
is_id (some j) k = j == k

module _ {ℓ} {A : Type ℓ} (key : A → ℕ) where
  unfoldable pub find_by : ℕ → List A → Option A
  find_by k [] = none
  find_by k (x ∷ xs) = if key x == k then some x else find_by k xs

  unfoldable pub update_by : ℕ → (A → A) → List A → List A
  update_by k f [] = []
  update_by k f (x ∷ xs) = if key x == k then f x ∷ xs else x ∷ update_by k f xs

  pub find_by-cons :
      (k : ℕ) (x : A) (xs : List A)
      → find_by k (x ∷ xs) ≡ (if key x == k then some x else find_by k xs)
  unfolding find_by
  find_by-cons k x xs = refl

  -- An update that keeps the id is seen by a lookup of that id and by no other.
  pub find_by-update_by :
      (j k : ℕ) (f : A → A) (xs : List A)
      → ((a : A) → key (f a) ≡ key a)
      → find_by j (update_by k f xs)
        ≡ (if k == j then map_option f (find_by j xs) else find_by j xs)
  unfolding find_by update_by
  find_by-update_by j k f [] h = ground arith
  find_by-update_by j k f (x ∷ xs) h = ground (arith, h x, find_by-update_by j k f xs h)

  -- A document that is found has the id that was asked for.
  pub key-find_by : (k : ℕ) (xs : List A) {a : A} → find_by k xs ≡ some a → key a ≡ k
  unfolding find_by
  key-find_by k [] h = ground arith
  key-find_by k (x ∷ xs) {a} h = ground (arith, key-find_by k xs {a = a})

  pub update_by-update_by :
      (k : ℕ) (f g : A → A) (xs : List A)
      → ((a : A) → key (g a) ≡ key a)
      → update_by k f (update_by k g xs) ≡ update_by k (λ a. f (g a)) xs
  unfolding update_by
  update_by-update_by k f g [] h = ground arith
  update_by-update_by k f g (x ∷ xs) h = ground (arith, h x, update_by-update_by k f g xs h)
