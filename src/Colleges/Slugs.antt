-- ===== src/Colleges/Slugs.antt =====
-- What a slug looks like, and that `slugify` makes one of any name.
use assessment_microservice.Base.{
  ℕ, ◌≡◌, ◌⊎◌, refl, sym, ap, subst, inl, inr, Bool, true, false, not, [], ◌∷◌, map, arith, ◌==◌,
  if◌then◌else◌,
}
use assessment_microservice.Types.{Text, is_space, is_line_end, trim_end}
use assessment_microservice.Colleges.{
  cut_dashes, drop_dashes, dashed, is_slug_char, is_empty, or_college, lower_code, slugify, trim,
}

-- `[a-z0-9]+(-[a-z0-9]+)*`, or what may follow a letter of it when the flag is set.
abbrev pub Slug : Bool → Text → Type 0
Slug true [] = Unit {0}
Slug false [] = ⊥
Slug inside (c ∷ s) =
    ((is_slug_char c ≡ true) × Slug true s) ⊎ ((inside ≡ true) × (c ≡ 45) × Slug false s)

-- No two dashes in a row, and none in front unless the flag is set.
abbrev Loose : Bool → Text → Type 0
Loose inside [] = Unit {0}
Loose inside (c ∷ s) =
    ((is_slug_char c ≡ true) × Loose true s) ⊎ ((inside ≡ true) × (c ≡ 45) × Loose false s)

dashed-Loose : (in_run : Bool) (s : Text) → Loose (not in_run) (dashed in_run s)
unfolding dashed
dashed-Loose in_run [] = tt
dashed-Loose in_run (c ∷ s) =
    go (is_slug_char c) refl in_run (dashed-Loose false s) (dashed-Loose true s)
  where
    go :
        (b : Bool)
        → is_slug_char c ≡ b
        → (in_run : Bool) → Loose true (dashed false s)
        → Loose false (dashed true s)
        → Loose
            (not in_run)
            (if b then c ∷ dashed false s else if in_run then dashed true s else 45 ∷ dashed true s)
    go true e in_run p q = inl (e, p)
    go false e true p q = q
    go false e false p q = inr (refl, refl, q)

slug_char_no_dash : (c : ℕ) → is_slug_char c ≡ true → (c == 45) ≡ false
slug_char_no_dash c h = ground arith

drop_dashes-Loose : (inside : Bool) (s : Text) → Loose inside s → Loose false (drop_dashes s)
unfolding drop_dashes
drop_dashes-Loose inside [] h = tt
drop_dashes-Loose inside (c ∷ s) (inl (e, h)) = rw (slug_char_no_dash c e) (inl (e, h))
drop_dashes-Loose inside (c ∷ s) (inr (i, e, h)) = rw e (drop_dashes-Loose false s h)

cut_dashes-Slug :
    (inside : Bool) (s : Text) → Loose inside s → (cut_dashes s ≡ []) ⊎ Slug inside (cut_dashes s)
unfolding cut_dashes
cut_dashes-Slug inside [] h = inl refl
cut_dashes-Slug inside (c ∷ s) (inl (e, h)) =
    rw (slug_char_no_dash c e) (inr (inl (e, end (cut_dashes s) (cut_dashes-Slug true s h))))
  where
    end : (t : Text) → (t ≡ []) ⊎ Slug true t → Slug true t
    end t (inl p) = subst (Slug true) (sym p) tt
    end t (inr h) = h
cut_dashes-Slug inside (c ∷ s) (inr (i, e, h)) =
    rw e (end (cut_dashes s) i (cut_dashes-Slug false s h))
  where
    end :
        (t : Text)
        → inside ≡ true
        → (t ≡ []) ⊎ Slug false t
        → ((if is_empty t then [] else 45 ∷ t) ≡ [])
          ⊎ Slug inside (if is_empty t then [] else 45 ∷ t)
    end [] i h = inl refl
    end (d ∷ t) i (inl p) = absurd (ground arith)
    end (d ∷ t) i (inr h) = inr (inr (i, refl, h))

or_college-Slug : (s : Text) → (s ≡ []) ⊎ Slug false s → Slug false (or_college s)
or_college-Slug [] h =
    inl (refl, inl (refl, inl (refl, inl (refl, inl (refl, inl (refl, inl (refl, tt)))))))
or_college-Slug (c ∷ s) (inl p) = absurd (ground arith)
or_college-Slug (c ∷ s) (inr h) = h

-- A slug is unchanged by each step.
dashed-Slug : (inside : Bool) (s : Text) → Slug inside s → dashed (not inside) s ≡ s
unfolding dashed
dashed-Slug true [] h = refl
dashed-Slug false [] h = absurd h
dashed-Slug inside (c ∷ s) (inl (e, h)) = rw e (ap (c ∷◌) (dashed-Slug true s h))
dashed-Slug true (c ∷ s) (inr (i, e, h)) = rw e (ap (45 ∷◌) (dashed-Slug false s h))
dashed-Slug false (c ∷ s) (inr (i, e, h)) = absurd (ground arith)

drop_dashes-Slug : (s : Text) → Slug false s → drop_dashes s ≡ s
unfolding drop_dashes
drop_dashes-Slug [] h = absurd h
drop_dashes-Slug (c ∷ s) (inl (e, h)) = rw (slug_char_no_dash c e) refl
drop_dashes-Slug (c ∷ s) (inr (i, e, h)) = absurd (ground arith)

cut_dashes_same : (inside : Bool) (s : Text) → Slug inside s → cut_dashes s ≡ s
unfolding cut_dashes
cut_dashes_same true [] h = refl
cut_dashes_same false [] h = absurd h
cut_dashes_same inside (c ∷ s) (inl (e, h)) =
    rw (slug_char_no_dash c e) (ap (c ∷◌) (cut_dashes_same true s h))
cut_dashes_same inside (c ∷ s) (inr (i, e, h)) =
    rw (e, cut_dashes_same false s h, not_empty s h) refl
  where
    not_empty : (s : Text) → Slug false s → is_empty s ≡ false
    not_empty [] h = absurd h
    not_empty (c ∷ s) h = refl

slug_char_visible : (c : ℕ) → is_slug_char c ≡ true → is_space c ≡ false
unfolding is_space is_line_end
slug_char_visible c h = ground arith

slug_char_lower : (c : ℕ) → is_slug_char c ≡ true → lower_code c ≡ c
unfolding lower_code
slug_char_lower c h = ground arith

trim_end-Slug : (inside : Bool) (s : Text) → Slug inside s → trim_end s ≡ s
unfolding is_space is_line_end
trim_end-Slug true [] h = refl
trim_end-Slug false [] h = absurd h
trim_end-Slug inside (c ∷ s) (inl (e, h)) = rw (slug_char_visible c e, trim_end-Slug true s h) refl
trim_end-Slug inside (c ∷ s) (inr (i, e, h)) = rw (e, trim_end-Slug false s h) refl

trim-Slug : (s : Text) → Slug false s → trim s ≡ s
trim-Slug [] h = absurd h
trim-Slug (c ∷ s) (inl (e, h)) =
    rw (slug_char_visible c e) (trim_end-Slug false (c ∷ s) (inl (e, h)))
trim-Slug (c ∷ s) (inr (i, e, h)) = absurd (ground arith)

lowered-Slug : (inside : Bool) (s : Text) → Slug inside s → map lower_code s ≡ s
unfolding lower_code
lowered-Slug true [] h = refl
lowered-Slug false [] h = absurd h
lowered-Slug inside (c ∷ s) (inl (e, h)) = rw (slug_char_lower c e, lowered-Slug true s h) refl
lowered-Slug inside (c ∷ s) (inr (i, e, h)) = rw (e, lowered-Slug false s h) refl

or_college-same : (s : Text) → Slug false s → or_college s ≡ s
or_college-same [] h = absurd h
or_college-same (c ∷ s) h = refl

spread : (s : Text) → Slug false s → dashed false s ≡ s
unfolding dashed
spread [] h = absurd h
spread (c ∷ s) (inl (e, h)) = rw e (ap (c ∷◌) (dashed-Slug true s h))
spread (c ∷ s) (inr (i, e, h)) = absurd (ground arith)

-- `slugify` makes of any name words of small letters and digits with one dash between two words, and
-- at least one word; it changes nothing where the name is like that already.
pub slugify-Slug :
    (name : Text) → Slug false (slugify name) × (Slug false name → slugify name ≡ name)
unfolding slugify
slugify-Slug name = (
  or_college-Slug (cut_dashes (drop_dashes raw)) (
      cut_dashes-Slug false (drop_dashes raw)
        (drop_dashes-Loose true raw (dashed-Loose false (trim (map lower_code name))))),
  λ h.
      rw
        (
          lowered-Slug false name h,
          trim-Slug name h,
          spread name h,
          drop_dashes-Slug name h,
          cut_dashes_same false name h,
        )
        (or_college-same name h),
)
  where
    raw : Text
    raw = dashed false (trim (map lower_code name))

-- `slugify` makes of any name words of small letters and digits with one dash between two words, and
-- at least one word; made into a slug again, it stays as it is.
pub slugify-slugify :
    (name : Text) → Slug false (slugify name) × (slugify (slugify name) ≡ slugify name)
slugify-slugify name =
    ((slugify-Slug name).0, (slugify-Slug (slugify name)).1 (slugify-Slug name).0)
