-- ===== src/Reports/Waiting.antt =====
-- What the students without an attempt add to `sectionStats`.
use assessment_microservice.Base.{
  ℕ, suc, ◌+◌, ◌≡◌, refl, ap, ◌∙◌, inl, inr, Bool, true, false, not, ◌&&◌, ◌||◌, List, [], ◌∷◌,
  arith, if◌then◌else◌, String, text_eq, Bool-cases, length, text_eq_iff,
}
use assessment_microservice.Reports.Keys.{stats_of, stats_of-update}
use assessment_microservice.Reports.Sections.{
  add_students, SectionStats, is_inherited, has_attempt, section_of, update_section, count_student,
}
use assessment_microservice.Models.{Attempt, User}
use assessment_microservice.Store.{World, filter}

-- The students of a section who have not started.
abbrev pub has_not_started : World → List Attempt → String → User → Bool
has_not_started w attempts section u =
    not (has_attempt w attempts u) && text_eq (section_of u) section

abbrev pub grown : ℕ → SectionStats → SectionStats
grown n s = record s { total = s.total + n }

add_student-stats :
    (w : World) (attempts : List Attempt) (section : String) (u : User) (stats : List SectionStats)
    → is_inherited section ≡ false
    → stats_of section (
        if has_attempt w attempts u || is_inherited (section_of u)
        then stats
        else update_section (section_of u) count_student stats)
      ≡ (if has_not_started w attempts section u
          then count_student (stats_of section stats)
          else stats_of section stats)
add_student-stats w attempts section u stats i =
    go (has_attempt w attempts u) (is_inherited (section_of u)) refl
  where
    go :
        (b c : Bool)
        → is_inherited (section_of u) ≡ c
        → stats_of section
            (if b || c then stats else update_section (section_of u) count_student stats)
          ≡ (if not b && text_eq (section_of u) section
              then count_student (stats_of section stats)
              else stats_of section stats)
    go true c e = refl
    go false false e = stats_of-update section (section_of u) count_student stats (λ s. refl)
    go false true e = elim (Bool-cases (text_eq (section_of u) section)) [
      | inl q ↦ absurd (ground (arith, ap is_inherited ((text_eq_iff (section_of u) section).0 q)))
      | inr q ↦ rw q refl
    ]

pub add_students-total :
    (w : World) (attempts : List Attempt) (section : String) (students : List User)
    (stats : List SectionStats)
    → is_inherited section ≡ false
    → stats_of section (add_students w attempts students stats)
      ≡ grown
          (length (filter (has_not_started w attempts section) students))
          (stats_of section stats)
unfolding add_students
add_students-total w attempts section [] stats i =
    ap (λ k. record (stats_of section stats) { total = k })
      (plus_none (stats_of section stats).total)
  where
    plus_none : (n : ℕ) → n ≡ n + 0
    plus_none n = omega arith
add_students-total w attempts section (u ∷ students) stats i =
    add_students-total w attempts section students _ i
    ∙ ap (grown (length (filter (has_not_started w attempts section) students)))
        (add_student-stats w attempts section u stats i)
    ∙ go (has_not_started w attempts section u)
        (filter (has_not_started w attempts section) students) (stats_of section stats)
  where
    go :
        (b : Bool) (us : List User) (s : SectionStats)
        → grown (length us) (if b then count_student s else s)
          ≡ grown (length (if b then u ∷ us else us)) s
    go true us s = ap (λ k. record s { total = k }) (plus_one s.total (length us))
      where
        plus_one : (n k : ℕ) → n + 1 + k ≡ n + suc k
        plus_one n k = omega arith
    go false us s = refl
