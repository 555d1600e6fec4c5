-- ===== src/Types/Scan.antt =====
-- What the regex of typeValidator.mjs finds in a text, and what `trim` leaves.
use assessment_microservice.Base.{
  ◌≤◌, ◌≡◌, refl, sym, ap, subst, ◌∙◌, inl, inr, true, false, Option, none, some, [], ◌∷◌, ◌++◌,
  arith, ==_iff, Option-cases, length,
}
use assessment_microservice.Types.{
  Text, trim, inner_of, before_gt, one_line, text_is, span_lower, trim_start, trim_end, suffix_of,
  match_type, is_empty, match_split,
}

pub length-trim_le : (s : Text) → length (trim s) ≤ length s
length-trim_le s = omega (arith, length-trim_end_le (trim_start s), length-trim_start_le s)
  where
    length-trim_start_le : (s : Text) → length (trim_start s) ≤ length s
    length-trim_start_le [] = omega arith
    length-trim_start_le (c ∷ s) = ground (arith, length-trim_start_le s)

    length-trim_end_le : (s : Text) → length (trim_end s) ≤ length s
    length-trim_end_le [] = omega arith
    length-trim_end_le (c ∷ s) = ground (arith, length-trim_end_le s)

pub text_is_eq : (s t : Text) → text_is s t ≡ true → s ≡ t
text_is_eq [] [] h = refl
text_is_eq [] (d ∷ t) h = absurd (ground arith)
text_is_eq (c ∷ s) [] h = absurd (ground arith)
text_is_eq (c ∷ s) (d ∷ t) h = grind (arith, text_is_eq s t, ==_iff)

-- The kind and what follows it make up the text.
pub span_lower-append : (s : Text) → (span_lower s).0 ++ (span_lower s).1 ≡ s
span_lower-append [] = refl
span_lower-append (c ∷ s) = ground (arith, span_lower-append s)

pub before_gt-append : (t : Text) → before_gt (t ++ 62 ∷ []) ≡ some t
before_gt-append [] = refl
before_gt-append (c ∷ []) = refl
before_gt-append (c ∷ d ∷ t) = rw (before_gt-append (d ∷ t))

pub before_gt_eq : (s : Text) {t : Text} → before_gt s ≡ some t → s ≡ t ++ 62 ∷ []
before_gt_eq [] h = absurd (ground arith)
before_gt_eq (c ∷ []) {t} h = grind (arith, ==_iff)
before_gt_eq (c ∷ d ∷ s) {t} h = elim (Option-cases (before_gt (d ∷ s))) [
  | inl e ↦ absurd (ground arith)
  | inr (u, e) ↦ ground (arith, before_gt_eq (d ∷ s) e)
]

pub inner_of-append :
    (t : Text) → is_empty t ≡ false → one_line t ≡ true → inner_of (t ++ 62 ∷ []) ≡ some t
inner_of-append t h k = ground (arith, before_gt-append t)

pub inner_of_eq :
    (s : Text) {t : Text} → inner_of s ≡ some t → (s ≡ t ++ 62 ∷ []) × (one_line t ≡ true)
inner_of_eq s {t} h = elim (Option-cases (before_gt s)) [
  | inl e ↦ absurd (ground arith)
  | inr (u, e) ↦ ground (arith, before_gt_eq s e)
]

-- A match splits the text into a kind and an inner type in brackets, if there is one.
abbrev pub suffix : Option Text → Text
suffix none = []
suffix (some inner) = 60 ∷ (inner ++ 62 ∷ [])

abbrev pub OneLine : Option Text → Type 0
OneLine none = Unit {0}
OneLine (some inner) = one_line inner ≡ true

suffix_of_eq :
    (s : Text) (found : Option Text) → suffix_of s ≡ some found → (s ≡ suffix found) × OneLine found
suffix_of_eq [] none h = (refl, tt)
suffix_of_eq [] (some t) h = absurd (ground arith)
suffix_of_eq (c ∷ s) none h = elim (Option-cases (inner_of s)) [
  | inl e ↦ absurd (ground arith)
  | inr (t, e) ↦ absurd (ground arith)
]
suffix_of_eq (c ∷ s) (some u) h = elim (Option-cases (inner_of s)) [
  | inl e ↦ absurd (ground arith)
  | inr (t, e) ↦ grind (arith, inner_of_eq s e, ==_iff)
]

pub match_type_eq :
    (s : Text) (found : Text × Option Text)
    → match_type s ≡ some found
    → (s ≡ found.0 ++ suffix found.1) × OneLine found.1
match_type_eq s found h = elim (Option-cases (suffix_of (span_lower s).1)) [
  | inl e ↦ absurd (ground arith)
  | inr (t, e) ↦
      let facts = suffix_of_eq (span_lower s).1 t e in
      let split = match_split_eq (span_lower s).0 (span_lower s).1 t found h e in
      subst (λ (f : Text × Option Text). (s ≡ f.0 ++ suffix f.1) × OneLine f.1) (sym split)
        (sym (span_lower-append s) ∙ ap (λ r. (span_lower s).0 ++ r) facts.0, facts.1)
]
  where
    match_split_eq :
        (kind rest : Text) (inner : Option Text) (found : Text × Option Text)
        → match_split (kind, rest) ≡ some found
        → suffix_of rest ≡ some inner
        → found ≡ (kind, inner)
    match_split_eq kind rest inner found h e = ground arith

pub match_split-found :
    (kind rest : Text) (inner : Option Text)
    → is_empty kind ≡ false
    → suffix_of rest ≡ some inner
    → match_split (kind, rest) ≡ some (kind, inner)
match_split-found kind rest inner h k = ground arith
