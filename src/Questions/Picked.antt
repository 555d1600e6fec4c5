-- ===== src/Questions/Picked.antt =====
-- What `selectQuestions` picks.
use assessment_microservice.Base.{
  ℕ, zero, suc, ◌+◌, ◌≤◌, ◌≡◌, refl, subst, ◌∙◌, inl, inr, Bool, true, false, not, ◌&&◌, ◌||◌,
  Option, none, some, List, [], ◌∷◌, ◌++◌, arith, ==_iff, if◌then◌else◌, String, Bool-cases, length,
  length-append,
}
use assessment_microservice.Questions.Select.{
  add_unique, Unique, has_id, select_questions, Sampler, Selection, scope_of_selection,
  selection_filter, pick,
}
use assessment_microservice.Questions.{
  Question, Caller, matches, has_tag, Difficulty, Bank, is_id, easy, medium, filter, manages,
  is_public, hard, same_difficulty,
}
use assessment_microservice.Assessments.Paging.{All-filter, All-map, All}

any-append : (k : ℕ) (qs rs : List Question) → has_id k (qs ++ rs) ≡ has_id k qs || has_id k rs
any-append k [] rs = refl
any-append k (q ∷ qs) rs = ground (arith, any-append k qs rs)

Unique-snoc :
    (qs : List Question) (q : Question) → Unique qs → has_id q.id qs ≡ false → Unique (qs ++ q ∷ [])
Unique-snoc [] q u h = (refl, tt)
Unique-snoc (p ∷ qs) q u h = (
  any-append p.id qs (q ∷ []) ∙ rw u.0 (grind (arith, ==_iff, h)),
  Unique-snoc qs q u.1 (ground arith),
)

All-snoc :
    (P : Question → Type 0) (qs : List Question) (q : Question)
    → All P qs
    → P q
    → All P (qs ++ q ∷ [])
All-snoc P [] q h k = (k, tt)
All-snoc P (p ∷ qs) q h k = (h.0, All-snoc P qs q h.1 k)

-- A step of add_unique keeps what holds of the picked questions, and adds no id twice.
add_unique_keeps :
    (P : Question → Type 0) (picked docs : List Question)
    → Unique picked
    → All P picked
    → All P docs
    → Unique (add_unique picked docs) × All P (add_unique picked docs)
unfolding add_unique
add_unique_keeps P picked [] u h k = (u, h)
add_unique_keeps P picked (d ∷ docs) u h k = elim (Bool-cases (has_id d.id picked)) [
  | inl e ↦ rw e (add_unique_keeps P picked docs u h k.1)
  | inr e ↦ rw e (
      add_unique_keeps P (picked ++ d ∷ []) docs (Unique-snoc picked d u e)
        (All-snoc P picked d h k.0) k.1)
]

length-add_unique_le :
    (picked docs : List Question) → length (add_unique picked docs) ≤ length picked + length docs
unfolding add_unique
length-add_unique_le picked [] = omega arith
length-add_unique_le picked (d ∷ docs) = elim (Bool-cases (has_id d.id picked)) [
  | inl e ↦ rw e (omega (arith, length-add_unique_le picked docs))
  | inr e ↦
      rw e
        (omega (arith, length-add_unique_le (picked ++ d ∷ []) docs, length-append picked (d ∷ [])))
]

-- What the database documents of its `$sample`: it draws from the documents that it is given, and no
-- more than it is asked for.
pub record Draws (sample : Sampler) : Type 0 where
  pub drawn :
      (p : Question → Bool) (qs : List Question) (n : ℕ)
      → All (λ q. p q ≡ true) qs
      → All (λ q. p q ≡ true) (sample qs n)
  pub at_most : (qs : List Question) (n : ℕ) → length (sample qs n) ≤ n

-- A question that the caller's scope and the tags admit.
abbrev pub admits : List String → Option Caller → Question → Bool
admits tags reader q =
    has_tag tags q
    && elim (scope_of_selection reader) [ none ↦ true | some c ↦ is_id q.college_id c ]
    && (manages reader || is_public q.visibility)

matches-admits :
    (tags : List String) (reader : Option Caller) (d : Difficulty) (q : Question)
    → matches (λ s t. true) (selection_filter tags reader d) q ≡ true
    → admits tags reader q ≡ true
unfolding matches
matches-admits tags reader d q h =
    admitted (same_difficulty q.difficulty d) (has_tag tags q)
      (elim (scope_of_selection reader) [ none ↦ true | some c ↦ is_id q.college_id c ])
      (manages reader) (is_public q.visibility) h
  where
    admitted :
        (a b c m p : Bool)
        → a && b && true && c && (not (not m) || p) ≡ true
        → b && c && (m || p) ≡ true
    admitted a b c m p h = ground arith

pick_keeps :
    (sample : Sampler) (tags : List String) (reader : Option Caller) (d : Difficulty) (bank : Bank)
    (n : ℕ) (picked : List Question)
    → Draws sample
    → Unique picked
    → All (λ q. admits tags reader q ≡ true) picked
    → let qs = pick sample bank (selection_filter tags reader d) n picked in
      Unique qs × All (λ q. admits tags reader q ≡ true) qs × (length qs ≤ length picked + n)
pick_keeps sample tags reader d bank zero picked s u h = (u, h, omega arith)
pick_keeps sample tags reader d bank (suc n) picked s u h =
    let found = filter (matches (λ s t. true) (selection_filter tags reader d)) bank in
    let docs =
      All-map _ _ (λ q e. matches-admits tags reader d q e) _
        (s.drawn (matches (λ s t. true) (selection_filter tags reader d)) found (suc n)
          (All-filter (matches (λ s t. true) (selection_filter tags reader d)) bank)) in
    let kept =
      add_unique_keeps (λ q. admits tags reader q ≡ true) picked (sample found (suc n)) u h docs in
    (
      kept.0,
      kept.1,
      omega (arith, length-add_unique_le picked (sample found (suc n)), s.at_most found (suc n)),
    )

-- The questions that are picked have no id twice, whatever the sample repeats; the caller's scope and
-- the tags admit each of them, and there are no more than were asked for.
pub select_questions_sound :
    (sample : Sampler) (s : Selection) (reader : Option Caller) (bank : Bank) (qs : List Question)
    → Draws sample
    → select_questions sample s reader bank ≡ some qs
    → Unique qs
      × All (λ q. admits s.tags reader q ≡ true) qs
      × (length qs ≤ s.easy + s.medium + s.hard)
unfolding select_questions
select_questions_sound sample s reader bank qs d h =
    let one = pick_keeps sample s.tags reader easy bank s.easy [] d tt tt in
    let two = pick_keeps sample s.tags reader medium bank s.medium _ d one.0 one.1 in
    let three = pick_keeps sample s.tags reader hard bank s.hard _ d two.0 two.1 in
    subst
      (λ qs.
        Unique qs
        × All (λ q. admits s.tags reader q ≡ true) qs
        × (length qs ≤ s.easy + s.medium + s.hard))
      (given _ _ _ h) (three.0, three.1, omega (arith, one.2, two.2, three.2))
  where
    given : (c : Bool) (rs qs : List Question) → (if c then none else some rs) ≡ some qs → rs ≡ qs
    given c rs qs h = ground arith
