-- ===== src/Assessments/Paging.antt =====
-- What the pages of a list show, and to whom.
use assessment_microservice.Base.{
  ℕ, zero, suc, ◌+◌, ◌-◌, ◌*◌, ◌≤◌, ◌≡◌, refl, sym, ap, ◌∙◌, Bool, true, false, Option, none, some,
  List, [], ◌∷◌, ◌++◌, arith, if◌then◌else◌, length, drop, take, length-take, min, max,
}
use assessment_microservice.Assessments.Listing.{
  list_assessments, sort_by_date, page_of, insert_by_date, scope_of_reader, sees_drafts, is_listed,
  page_limit, page_number,
}
use assessment_microservice.Store.{filter, World, in_scope}
use assessment_microservice.Base.Int.{ℤ, leb_ℤ}
use assessment_microservice.Attempts.Expiry.{Caller}
use assessment_microservice.Assessments.Manage.{is_draft}
use assessment_microservice.Models.{Assessment}

-- The first pages, one after the other.
unfoldable pub first_pages {ℓ} : {A : Type ℓ} → ℕ → ℕ → List A → List A
first_pages zero limit xs = []
first_pages (suc n) limit xs = first_pages n limit xs ++ page_of (suc n) limit xs

take_nil : {A : Type 0} (n : ℕ) → take {A = A} n [] ≡ []
take_nil zero = refl
take_nil (suc n) = refl

take-append-take-drop :
    {A : Type 0} (m n : ℕ) (xs : List A) → take m xs ++ take n (drop m xs) ≡ take (m + n) xs
take-append-take-drop zero n xs = ap (λ k. take k xs) (omega arith)
take-append-take-drop (suc m) n [] = take_nil n ∙ sym (take_nil (suc m + n))
take-append-take-drop (suc m) n (x ∷ xs) =
    ap (λ ys. x ∷ ys) (take-append-take-drop m n xs) ∙ ap (λ k. take k (x ∷ xs)) (grow m n)
  where
    grow : (m n : ℕ) → suc (m + n) ≡ suc m + n
    grow m n = omega arith

-- Paging loses nothing and shows nothing twice: the first `n` pages, one after the other, are the
-- first `n * limit` documents in their order.
pub first_pages-take :
    {A : Type 0} (n limit : ℕ) (xs : List A) → first_pages n limit xs ≡ take (n * limit) xs
unfolding first_pages page_of
first_pages-take zero limit xs = ap (λ k. take k xs) (none_yet limit)
  where
    none_yet : (limit : ℕ) → 0 ≡ 0 * limit
    none_yet limit = ground arith
first_pages-take (suc n) limit xs =
    ap (λ ys. ys ++ page_of (suc n) limit xs) (first_pages-take n limit xs)
    ∙ ap (λ k. take (n * limit) xs ++ take limit (drop (k * limit) xs)) (before n)
    ∙ take-append-take-drop (n * limit) limit xs
    ∙ ap (λ k. take k xs) (upto n limit)
  where
    before : (n : ℕ) → suc n - 1 ≡ n
    before n = omega arith

    upto : (n limit : ℕ) → n * limit + limit ≡ suc n * limit
    upto n limit = ground arith

abbrev pub All : {A : Type 0} → (A → Type 0) → List A → Type 0
All P [] = Unit {0}
All P (x ∷ xs) = P x × All P xs

All-if :
    {A : Type 0} (P : A → Type 0) (b : Bool) (xs ys : List A)
    → (b ≡ true → All P xs)
    → (b ≡ false → All P ys)
    → All P (if b then xs else ys)
All-if P true xs ys h k = h refl
All-if P false xs ys h k = k refl

pub All-filter : {A : Type 0} (p : A → Bool) (xs : List A) → All (λ x. p x ≡ true) (filter p xs)
All-filter p [] = tt
All-filter p (x ∷ xs) =
    All-if (λ y. p y ≡ true) (p x) _ _ (λ e. (e, All-filter p xs)) (λ e. All-filter p xs)

pub All-map :
    {A : Type 0} (P Q : A → Type 0) → ((x : A) → P x → Q x) → (xs : List A) → All P xs → All Q xs
All-map P Q f [] h = tt
All-map P Q f (x ∷ xs) h = (f x h.0, All-map P Q f xs h.1)

pub All-take : {A : Type 0} (P : A → Type 0) (n : ℕ) (xs : List A) → All P xs → All P (take n xs)
All-take P zero xs h = tt
All-take P (suc n) [] h = tt
All-take P (suc n) (x ∷ xs) h = (h.0, All-take P n xs h.1)

All-drop : {A : Type 0} (P : A → Type 0) (n : ℕ) (xs : List A) → All P xs → All P (drop n xs)
All-drop P zero xs h = h
All-drop P (suc n) [] h = tt
All-drop P (suc n) (x ∷ xs) h = All-drop P n xs h.1

All-insert :
    {A : Type 0} (P : A → Type 0) (date : A → ℤ) (x : A) (xs : List A)
    → P x
    → All P xs
    → All P (insert_by_date date x xs)
unfolding insert_by_date
All-insert P date x [] p h = (p, tt)
All-insert P date x (y ∷ ys) p h =
    All-if P (leb_ℤ (date y) (date x)) _ _ (λ e. (p, h)) (λ e. (h.0, All-insert P date x ys p h.1))

All-sort :
    {A : Type 0} (P : A → Type 0) (date : A → ℤ) (xs : List A)
    → All P xs
    → All P (sort_by_date date xs)
unfolding sort_by_date
All-sort P date [] h = tt
All-sort P date (x ∷ xs) h = All-insert P date x _ h.0 (All-sort P date xs h.1)

-- Whatever page of the assessments is asked for, with whatever limit, it has at most 100 entries,
-- all of them in the reader's scope (for a superadmin and a guest, any college), and no draft is
-- shown to a student or to a guest.
pub list_assessments-visible :
    (page limit : Option ℕ) (reader : Option Caller) (w : World)
    → (length (list_assessments page limit reader w) ≤ 100)
      × All
          (λ a.
            (in_scope (scope_of_reader reader) a.college_id ≡ true)
            × (sees_drafts reader ≡ false → is_draft a.status ≡ false))
          (list_assessments page limit reader w)
unfolding list_assessments page_of is_listed
list_assessments-visible page limit reader w = (
  within limit _,
  All-take _ (page_limit limit) _ (
      All-drop _ ((page_number page - 1) * page_limit limit) _ (
        All-sort _ (λ a. a.start_time) _
          (All-map _ _ (λ a h. listed reader a h) (filter (is_listed reader) w.assessments)
            (All-filter (is_listed reader) w.assessments)))),
)
  where
    within : (limit : Option ℕ) (xs : List Assessment) → length (take (page_limit limit) xs) ≤ 100
    within none xs = omega (arith, length-take 50 xs)
    within (some n) xs = omega (arith, length-take (min 100 (max 1 n)) xs)

    listed :
        (reader : Option Caller) (a : Assessment)
        → is_listed reader a ≡ true
        → (in_scope (scope_of_reader reader) a.college_id ≡ true)
          × (sees_drafts reader ≡ false → is_draft a.status ≡ false)
    listed reader a h = ground arith
