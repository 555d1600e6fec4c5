-- ===== src/Colleges/Free.antt =====
-- The search for a free slug ends: among one more candidates than there are colleges one is free.
use assessment_microservice.Base.{
  ℕ, zero, suc, ◌+◌, ◌-◌, ◌*◌, ◌≤◌, ◌<◌, ◌≡◌, ◌≢◌, refl, sym, ap, subst, ◌∙◌, inl, inr, Bool, true,
  false, ◌||◌, some, List, [], ◌∷◌, ◌++◌, map, arith, ◌==◌, ==_iff, ltb, if◌then◌else◌, Bool-cases,
  length, length-append, ◌/◌, ◌%◌, length-map,
}
use assessment_microservice.Colleges.{
  digits, candidate, text_is, search_slug, College, unique_slug, slug_taken, any, World,
}
use assessment_microservice.Types.{Text}
use assessment_microservice.Types.Scan.{text_is_eq}

-- The number that digits stand for, after those that make `acc`.
value : ℕ → Text → ℕ
value acc [] = acc
value acc (c ∷ s) = value (10 * acc + (c - 48)) s

value-append :
    (acc : ℕ) (s : Text) (c : ℕ) → value acc (s ++ (c ∷ [])) ≡ 10 * value acc s + (c - 48)
unfolding value
value-append acc [] c = refl
value-append acc (d ∷ s) c = value-append (10 * acc + (d - 48)) s c

value-digits : (fuel n : ℕ) → n < fuel → value 0 (digits fuel n) ≡ n
unfolding value digits
value-digits zero n h = absurd (omega arith)
value-digits (suc fuel) n h = go (ltb n 10) refl (value-digits fuel (n / 10))
  where
    go :
        (b : Bool)
        → ltb n 10 ≡ b
        → (n / 10 < fuel → value 0 (digits fuel (n / 10)) ≡ n / 10)
        → value 0 (if b then (48 + n) ∷ [] else digits fuel (n / 10) ++ ((48 + n % 10) ∷ [])) ≡ n
    go true e ih = omega arith
    go false e ih =
        let large : 10 ≤ n = ground arith in
        let small : n / 10 < fuel = omega arith in
        let front = ih small in
        omega (arith, value-append 0 (digits fuel (n / 10)) (48 + n % 10), front, large)

digits_injective : (n m : ℕ) → digits (n + 3) (n + 2) ≡ digits (m + 3) (m + 2) → n ≡ m
digits_injective n m h =
    let same =
      sym (value-digits (n + 3) (n + 2) (omega arith))
      ∙ ap (value 0) h
      ∙ value-digits (m + 3) (m + 2) (omega arith) in
    omega (arith, same)

append_cancel : {s t : Text} (base : Text) → base ++ s ≡ base ++ t → s ≡ t
append_cancel [] h = h
append_cancel (c ∷ base) h = append_cancel base (ground arith)

candidate_injective :
    (base : Text) (n m : ℕ) → 0 < n → 0 < m → candidate base n ≡ candidate base m → n ≡ m
unfolding candidate
candidate_injective base zero m p q h = absurd (omega arith)
candidate_injective base (suc n) zero p q h = absurd (omega arith)
candidate_injective base (suc zero) (suc zero) p q h = refl
candidate_injective base (suc zero) (suc (suc m)) p q h = absurd (longer (ap length h))
  where
    longer : length base ≡ length (base ++ (45 ∷ digits (m + 3) (m + 2))) → ⊥
    longer e = omega (arith, length-append base (45 ∷ digits (m + 3) (m + 2)))
candidate_injective base (suc (suc n)) (suc zero) p q h = absurd (longer (ap length h))
  where
    longer : length (base ++ (45 ∷ digits (n + 3) (n + 2))) ≡ length base → ⊥
    longer e = omega (arith, length-append base (45 ∷ digits (n + 3) (n + 2)))
candidate_injective base (suc (suc n)) (suc (suc m)) p q h =
    ap (λ k. suc (suc k)) (digits_injective n m (tail_same (append_cancel base h)))
  where
    tail_same : {s t : Text} → ◌≡◌ {A = Text} (45 ∷ s) (45 ∷ t) → s ≡ t
    tail_same e = ground arith

-- A text among others, and the others without one occurrence of it.
listed : Text → List Text → Bool
listed s [] = false
listed s (t ∷ ts) = text_is t s || listed s ts

without : Text → List Text → List Text
without s [] = []
without s (t ∷ ts) = if text_is t s then ts else t ∷ without s ts

length-without :
    (s : Text) (ts : List Text) → listed s ts ≡ true → suc (length (without s ts)) ≡ length ts
unfolding listed without
length-without s [] h = absurd (ground arith)
length-without s (t ∷ ts) h = ground (arith, length-without s ts)

listed-without :
    (s u : Text) (ts : List Text) → s ≢ u → listed u ts ≡ true → listed u (without s ts) ≡ true
unfolding listed without
listed-without s u [] n h = absurd (ground arith)
listed-without s u (t ∷ ts) n h =
    ground (arith, text_is_eq t s, text_is_eq t u, listed-without s u ts n)

-- The first candidate from a suffix on that is free.
abbrev pub FirstFree : (Text → Bool) → Text → ℕ → ℕ → Type 0
FirstFree taken base suffix k =
    (taken (candidate base k) ≡ false)
    × (suffix ≤ k)
    × ((j : ℕ) → suffix ≤ j → j < k → taken (candidate base j) ≡ true)

search_slug_finds :
    (taken : Text → Bool) (base : Text) (fuel suffix : ℕ) (ys : List Text)
    → length ys < fuel
    → 0 < suffix
    → ((k : ℕ) → suffix ≤ k → taken (candidate base k) ≡ true → listed (candidate base k) ys ≡ true)
    → (k : ℕ) × (search_slug taken fuel base suffix ≡ some (candidate base k))
      × FirstFree taken base suffix k
unfolding search_slug
search_slug_finds taken base zero suffix ys l p cover = absurd (omega arith)
search_slug_finds taken base (suc fuel) suffix ys l p cover =
    go (taken (candidate base suffix)) refl
      (search_slug_finds taken base fuel (suffix + 1) (without (candidate base suffix) ys))
  where
    here : Text
    here = candidate base suffix

    go :
        (b : Bool)
        → taken here ≡ b
        → (length (without here ys) < fuel
            → 0 < suffix + 1
            → ((k : ℕ)
                → suffix + 1 ≤ k
                → taken (candidate base k) ≡ true
                → listed (candidate base k) (without here ys) ≡ true)
            → (k : ℕ) × (search_slug taken fuel base (suffix + 1) ≡ some (candidate base k))
              × FirstFree taken base (suffix + 1) k)
        → (k : ℕ) × ((if b then search_slug taken fuel base (suffix + 1) else some here)
            ≡ some (candidate base k))
          × FirstFree taken base suffix k
    go false e rest = (suffix, refl, (e, omega arith, λ j a b. absurd (omega arith)))
    go true e rest =
        let (k, found, (free, le, before)) =
          rest (omega (arith, length-without here ys (cover suffix (omega arith) e))) (omega arith)
            (λ k a t.
              listed-without here (candidate base k) ys
                (λ q. absurd (apart k a (candidate_injective base suffix k p (omega arith) q)))
                (cover k (omega arith) t)) in
        (k, found, (free, omega arith, earlier e k before))
      where
        next : (j : ℕ) → suffix ≤ j → (suffix == j) ≡ false → suffix + 1 ≤ j
        next j a q = ground arith

        earlier :
            taken here ≡ true
            → (k : ℕ) → ((j : ℕ) → suffix + 1 ≤ j → j < k → taken (candidate base j) ≡ true)
            → (j : ℕ) → suffix ≤ j
            → j < k
            → taken (candidate base j) ≡ true
        earlier e k before j a b = elim (Bool-cases (suffix == j)) [
          | inl q ↦ subst (λ x. taken (candidate base x) ≡ true) ((==_iff suffix j).0 q) e
          | inr q ↦ before j (next j a q) b
        ]

        apart : (k : ℕ) → suffix + 1 ≤ k → suffix ≡ k → ⊥
        apart k a q = omega arith

listed-slugs :
    (slug : Text) (cs : List College)
    → any (λ c. text_is c.slug slug) cs ≡ true
    → listed slug (map (λ c. c.slug) cs) ≡ true
unfolding listed
listed-slugs slug [] h = absurd (ground arith)
listed-slugs slug (c ∷ cs) h = ground (arith, listed-slugs slug cs)

-- With one round more than there are colleges the search ends with a slug that no college has: the
-- first in the row `base`, `base-2`, `base-3`, … that is free.
pub unique_slug-FirstFree :
    (base : Text) (w : World)
    → (k : ℕ) × (unique_slug base w ≡ some (candidate base k))
      × FirstFree (λ slug. slug_taken slug w) base 1 k
unfolding unique_slug slug_taken
unique_slug-FirstFree base w =
    search_slug_finds (λ slug. slug_taken slug w) base (suc (length w.colleges)) 1
      (map (λ c. c.slug) w.colleges) (omega (arith, length-map w.colleges (λ c. c.slug)))
      (omega arith) (λ k a t. listed-slugs (candidate base k) w.colleges t)
