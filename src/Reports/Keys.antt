-- ===== src/Reports/Keys.antt =====
-- What `sectionStats` has under a key after each step that fills it.
use assessment_microservice.Base.{
  ℕ, ◌+◌, ◌≡◌, refl, sym, ap, ◌∙◌, inl, inr, Bool, true, false, Option, none, some, List, [], ◌∷◌,
  arith, if◌then◌else◌, String, text_eq, Bool-cases, text_eq_iff,
}
use assessment_microservice.Reports.Sections.{
  update_section, SectionStats, new_section, section_of, add_to_section, count_completed,
  count_attempt, is_inherited, add_attempt, add_attempts,
}
use assessment_microservice.Store.{
  World, user_at, ok, Result, err, type_error, Failure, Result-cases,
}
use assessment_microservice.Models.{Attempt, User}
use assessment_microservice.Reports.Overall.{is_completed}

abbrev pub is_in : World → String → Attempt → Bool
is_in w section a = elim (user_at a.student_id w) [
  | none ↦ false
  | some u ↦ text_eq (section_of u) section
]

-- The statistics of a section, as they are set or as they would begin.
unfoldable pub stats_of : String → List SectionStats → SectionStats
stats_of section [] = new_section section
stats_of section (s ∷ stats) =
    let rest = stats_of section stats in if text_eq s.section section then s else rest

pub stats_of-update :
    (section other : String) (f : SectionStats → SectionStats) (stats : List SectionStats)
    → ((s : SectionStats) → (f s).section ≡ s.section)
    → stats_of section (update_section other f stats)
      ≡ (if text_eq other section then f (stats_of section stats) else stats_of section stats)
unfolding stats_of update_section
stats_of-update section other f [] keeps =
    ground (arith, keeps (new_section other), text_eq_iff other section)
stats_of-update section other f (s ∷ stats) keeps = ground (
  arith,
  keeps s,
  text_eq_iff other section,
  text_eq_iff s.section other,
  text_eq_iff s.section section,
  stats_of-update section other f stats keeps,
)

count_completed_section :
    (b : Bool) (max_score : ℕ) (a : Attempt) (s : SectionStats)
    → (count_completed b max_score a s).section ≡ s.section
count_completed_section false max_score a s = refl
count_completed_section true max_score a s = refl

-- The attempts of a section, counted into its statistics.
unfoldable pub tally : World → String → ℕ → List Attempt → SectionStats → SectionStats
tally w section max_score [] s = s
tally w section max_score (a ∷ attempts) s =
    tally w section max_score attempts
      (if is_in w section a then count_attempt max_score a s else s)

pub ok_injective : {A : Type 0} {a b : A} → ◌≡◌ {A = Result A} (ok a) (ok b) → a ≡ b
ok_injective h = ground arith

add_to_section-stats :
    (section other : String) (max_score : ℕ) (a : Attempt) (stats after_a : List SectionStats)
    → is_inherited section ≡ false
    → add_to_section other max_score a stats ≡ ok after_a
    → stats_of section after_a ≡ (
        if text_eq other section
        then count_attempt max_score a (stats_of section stats)
        else stats_of section stats)
unfolding add_to_section count_attempt
add_to_section-stats section other max_score a stats after_a i h =
    elim (Bool-cases (is_inherited other)) [
      | inr e ↦
          ap (stats_of section) (sym (ok_injective (added e)))
          ∙ stats_of-update section other (count_attempt max_score a) stats (λ s.
            count_completed_section (is_completed a) max_score a
              (record s { total = s.total + 1; started = s.started + 1 }))
      | inl e ↦ elim (Bool-cases (text_eq other section)) [
        | inl q ↦ absurd (ground (arith, ap is_inherited ((text_eq_iff other section).0 q)))
        | inr q ↦ rw q (ap (stats_of section) (sym (skipped (is_completed a) (passed_over e))))
      ]
    ]
  where
    added :
        is_inherited other ≡ false
        → ◌≡◌ {A = Result (List SectionStats)}
            (ok (update_section other (count_attempt max_score a) stats))
            (ok after_a)
    added e =
        sym (
          ap
            (λ b.
              if b
              then if is_completed a then err type_error else ok stats
              else ok (update_section other (count_attempt max_score a) stats))
            e)
        ∙ h

    passed_over :
        is_inherited other ≡ true
        → (if is_completed a then err type_error else ok stats) ≡ ok after_a
    passed_over e =
        sym (
          ap
            (λ b.
              if b
              then if is_completed a then err type_error else ok stats
              else ok (update_section other (count_attempt max_score a) stats))
            e)
        ∙ h

    skipped : (b : Bool) → (if b then err type_error else ok stats) ≡ ok after_a → stats ≡ after_a
    skipped true h = absurd (ground arith)
    skipped false h = ok_injective h

add_attempt-stats :
    (w : World) (section : String) (max_score : ℕ) (a : Attempt) (stats after_a : List SectionStats)
    → is_inherited section ≡ false
    → add_attempt w max_score a stats ≡ ok after_a
    → stats_of section after_a ≡ (
        if is_in w section a
        then count_attempt max_score a (stats_of section stats)
        else stats_of section stats)
add_attempt-stats w section max_score a stats after_a i h = go (user_at a.student_id w) h
  where
    go :
        (o : Option User)
        → elim o [ none ↦ ok stats | some u ↦ add_to_section (section_of u) max_score a stats ]
          ≡ ok after_a
        → stats_of section after_a ≡ (
            if elim o [ none ↦ false | some u ↦ text_eq (section_of u) section ]
            then count_attempt max_score a (stats_of section stats)
            else stats_of section stats)
    go none h = ap (stats_of section) (sym (ok_injective h))
    go (some u) h = add_to_section-stats section (section_of u) max_score a stats after_a i h

pub add_attempts-tally :
    (w : World) (section : String) (max_score : ℕ) (attempts : List Attempt)
    (stats result : List SectionStats)
    → is_inherited section ≡ false
    → add_attempts w max_score attempts stats ≡ ok result
    → stats_of section result ≡ tally w section max_score attempts (stats_of section stats)
unfolding add_attempts tally
add_attempts-tally w section max_score [] stats result i h =
    ap (stats_of section) (sym (ok_injective h))
add_attempts-tally w section max_score (a ∷ attempts) stats result i h =
    elim (Result-cases (add_attempt w max_score a stats)) [
      | inr (x, e) ↦ absurd (raised (sym (ap rest e) ∙ h))
      | inl (next, e) ↦
          add_attempts-tally w section max_score attempts next result i (sym (ap rest e) ∙ h)
          ∙ ap (tally w section max_score attempts)
              (add_attempt-stats w section max_score a stats next i e)
    ]
  where
    rest : Result (List SectionStats) → Result (List SectionStats)
    rest r = elim r [ err e ↦ err e | ok next ↦ add_attempts w max_score attempts next ]

    raised : {x : Failure} → err x ≡ ok result → ⊥
    raised h = ground arith
