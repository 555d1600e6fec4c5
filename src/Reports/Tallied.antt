-- ===== src/Reports/Tallied.antt =====
-- The reports by section against counts over the attempts and the students.
use assessment_microservice.Base.{
  ℕ, suc, ◌+◌, ◌≡◌, sym, ap, subst, ◌∙◌, inl, inr, Bool, true, false, List, [], ◌∷◌, ◌++◌, arith,
  if◌then◌else◌, String, length, length-append,
}
use assessment_microservice.Reports.Keys.{tally, is_in, stats_of, ok_injective, add_attempts-tally}
use assessment_microservice.Reports.Overall.{sum, is_passed, is_completed, scores}
use assessment_microservice.Reports.Sections.{
  count_attempt, add_students, SectionStats, is_inherited, count_completed, section_stats,
  add_attempts, new_section,
}
use assessment_microservice.Models.{Attempt, User}
use assessment_microservice.Store.{World, filter, ok, Result, err, Failure, Result-cases}
use assessment_microservice.Reports.Waiting.{grown, add_students-total, has_not_started}

-- How the statistics of a section have grown by its attempts.
abbrev pub Counts : ℕ → List Attempt → SectionStats → SectionStats → Type 0
Counts max_score own s t =
    (t.total ≡ s.total + length own)
    × (t.started ≡ s.started + length own)
    × (t.submitted ≡ s.submitted + length (filter is_completed own))
    × (t.passed_count
        ≡ s.passed_count + length (filter (is_passed max_score) (filter is_completed own)))
    × (sum t.scores ≡ sum s.scores + sum (scores (filter is_completed own)))
    × (length t.scores ≡ length s.scores + length (filter is_completed own))

sum-append : (ns : List ℕ) (n : ℕ) → sum (ns ++ (n ∷ [])) ≡ sum ns + n
sum-append [] n = omega arith
sum-append (m ∷ ns) n = omega (arith, sum-append ns n)

Counts-grow :
    (max_score : ℕ) (a : Attempt) (own : List Attempt) (s t : SectionStats)
    → Counts max_score own (count_attempt max_score a s) t
    → Counts max_score (a ∷ own) s t
unfolding count_attempt
Counts-grow max_score a own s t h = go (is_completed a) h
  where
    begun : SectionStats
    begun = record s { total = s.total + 1; started = s.started + 1 }

    passing :
        (b : Bool) (x y : ℕ)
        → x
          ≡ y
            + (if b then 1 else 0)
            + length (filter (is_passed max_score) (filter is_completed own))
        → x
          ≡ y
            + length (
                if b
                then a ∷ filter (is_passed max_score) (filter is_completed own)
                else filter (is_passed max_score) (filter is_completed own))
    passing true x y h = omega (arith, h)
    passing false x y h = omega (arith, h)

    go :
        (b : Bool)
        → Counts max_score own (count_completed b max_score a begun) t
        → (t.total ≡ s.total + suc (length own))
          × (t.started ≡ s.started + suc (length own))
          × (t.submitted
              ≡ s.submitted
                + length (if b then a ∷ filter is_completed own else filter is_completed own))
          × (t.passed_count
              ≡ s.passed_count
                + length (
                    filter
                      (is_passed max_score)
                      (if b then a ∷ filter is_completed own else filter is_completed own)))
          × (sum t.scores
              ≡ sum s.scores
                + sum (scores (if b then a ∷ filter is_completed own else filter is_completed own)))
          × (length t.scores
              ≡ length s.scores
                + length (if b then a ∷ filter is_completed own else filter is_completed own))
    go false (p, q, r, u, v, x) = (omega (arith, p), omega (arith, q), r, u, v, x)
    go true (p, q, r, u, v, x) = (
      omega (arith, p),
      omega (arith, q),
      omega (arith, r),
      passing (is_passed max_score a) t.passed_count s.passed_count u,
      omega (arith, v, sum-append s.scores a.score),
      omega (arith, x, length-append s.scores (a.score ∷ [])),
    )

-- The attempts of the students of a section.
unfoldable pub attempts_in : World → String → List Attempt → List Attempt
attempts_in w section attempts = filter (is_in w section) attempts

tally-Counts :
    (w : World) (section : String) (max_score : ℕ) (attempts : List Attempt) (s : SectionStats)
    → Counts max_score (filter (is_in w section) attempts) s (tally w section max_score attempts s)
unfolding tally
tally-Counts w section max_score [] s =
    (omega arith, omega arith, omega arith, omega arith, omega arith, omega arith)
tally-Counts w section max_score (a ∷ attempts) s =
    go (is_in w section a) (tally-Counts w section max_score attempts (count_attempt max_score a s))
      (tally-Counts w section max_score attempts s)
  where
    go :
        (b : Bool)
        → Counts max_score
            (filter (is_in w section) attempts)
            (count_attempt max_score a s)
            (tally w section max_score attempts (count_attempt max_score a s))
        → Counts max_score
            (filter (is_in w section) attempts)
            s
            (tally w section max_score attempts s)
        → Counts max_score
            (if b then a ∷ filter (is_in w section) attempts else filter (is_in w section) attempts)
            s
            (tally w section max_score attempts (if b then count_attempt max_score a s else s))
    go true h k =
        Counts-grow max_score a (filter (is_in w section) attempts) s
          (tally w section max_score attempts (count_attempt max_score a s)) h
    go false h k = k

-- The statistics of a section are the counts that they are named for.
abbrev pub CountsOf : World → String → ℕ → List Attempt → List User → SectionStats → Type 0
CountsOf w section max_score attempts students s =
    let own = attempts_in w section attempts in
    let done = filter is_completed own in
    (s.total ≡ length own + length (filter (has_not_started w attempts section) students))
    × (s.started ≡ length own)
    × (s.submitted ≡ length done)
    × (s.passed_count ≡ length (filter (is_passed max_score) done))
    × (sum s.scores ≡ sum (scores done))
    × (length s.scores ≡ length done)

grown-CountsOf :
    (w : World) (section : String) (max_score : ℕ) (attempts : List Attempt) (students : List User)
    → CountsOf w section max_score attempts students (
        grown
          (length (filter (has_not_started w attempts section) students))
          (tally w section max_score attempts (new_section section)))
unfolding attempts_in
grown-CountsOf w section max_score attempts students =
    let (p, q, r, u, v, x) = tally-Counts w section max_score attempts (new_section section) in
    (
      omega (arith, p),
      omega (arith, q),
      omega (arith, r),
      omega (arith, u),
      omega (arith, v),
      omega (arith, x),
    )

-- Where the reports by section can be made, the statistics of each section count the attempts of its
-- students, those that are completed and those that are passed, and add up the scores of the completed
-- ones; its total counts the students of the college, too, who have not started. This leaves out a
-- section that is named like a property of every object.
pub section_stats-CountsOf :
    (w : World) (section : String) (max_score : ℕ) (attempts : List Attempt) (students : List User)
    (stats : List SectionStats)
    → is_inherited section ≡ false
    → section_stats w max_score attempts students ≡ ok stats
    → CountsOf w section max_score attempts students (stats_of section stats)
unfolding section_stats stats_of
section_stats-CountsOf w section max_score attempts students stats i h =
    elim (Result-cases (add_attempts w max_score attempts [])) [
      | inr (x, e) ↦ absurd (raised {x = x} (sym (ap rest e) ∙ h))
      | inl (started, e) ↦
          subst (CountsOf w section max_score attempts students)
            (sym (
              ap (stats_of section) (sym (ok_injective (sym (ap rest e) ∙ h)))
              ∙ add_students-total w attempts section students started i
              ∙ ap (grown (length (filter (has_not_started w attempts section) students)))
                  (add_attempts-tally w section max_score attempts [] started i e)))
            (grown-CountsOf w section max_score attempts students)
    ]
  where
    rest : Result (List SectionStats) → Result (List SectionStats)
    rest r = elim r [ err e ↦ err e | ok next ↦ ok (add_students w attempts students next) ]

    raised : {x : Failure} → ◌≡◌ {A = Result (List SectionStats)} (err x) (ok stats) → ⊥
    raised h = ground arith
