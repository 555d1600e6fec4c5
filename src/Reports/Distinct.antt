-- ===== src/Reports/Distinct.antt =====
-- The sets of students behind the reports by problem.
use assessment_microservice.Base.{
  ℕ, suc, ◌≤◌, ◌≡◌, ◌≢◌, refl, sym, ap, ◌∙◌, Bool, true, false, ◌&&◌, List, [], ◌∷◌, map, arith,
  ◌==◌, ==_iff, if◌then◌else◌, length,
}
use assessment_microservice.Reports.Solved.{
  id_set, has_id, question_report, submissions_to, is_success,
}
use assessment_microservice.Store.{any, filter}
use assessment_microservice.Models.{Submission, AssessmentProblem, Problem}

has_id_set : (k : ℕ) (ks : List ℕ) → has_id k (id_set ks) ≡ has_id k ks
unfolding has_id id_set
has_id_set k [] = refl
has_id_set k (j ∷ ks) = go (has_id j ks) refl (has_id_set k ks)
  where
    go :
        (b : Bool)
        → has_id j ks ≡ b
        → has_id k (id_set ks) ≡ has_id k ks
        → has_id k (if b then id_set ks else j ∷ id_set ks) ≡ (if j == k then true else has_id k ks)
    go true e h = ground (arith, h)
    go false e h = ap (λ b. if j == k then true else b) h

-- Each id once.
abbrev pub Single : List ℕ → Type 0
Single [] = Unit {0}
Single (k ∷ ks) = (has_id k ks ≡ false) × Single ks

id_set-Single : (ks : List ℕ) → Single (id_set ks)
unfolding id_set
id_set-Single [] = tt
id_set-Single (k ∷ ks) = go (has_id k ks) refl (id_set-Single ks)
  where
    go :
        (b : Bool)
        → has_id k ks ≡ b
        → Single (id_set ks)
        → Single (if b then id_set ks else k ∷ id_set ks)
    go true e rest = rest
    go false e rest = (has_id_set k ks ∙ e, rest)

remove_id : ℕ → List ℕ → List ℕ
remove_id k [] = []
remove_id k (j ∷ ks) = let rest = remove_id k ks in if j == k then ks else j ∷ rest

length-remove_id :
    (k : ℕ) (ks : List ℕ) → has_id k ks ≡ true → suc (length (remove_id k ks)) ≡ length ks
unfolding has_id remove_id
length-remove_id k [] h = absurd (ground arith)
length-remove_id k (j ∷ ks) h = ground (arith, length-remove_id k ks)

has_id-remove_id :
    (k j : ℕ) (ks : List ℕ) → k ≢ j → has_id j ks ≡ true → has_id j (remove_id k ks) ≡ true
unfolding has_id remove_id
has_id-remove_id k j [] n h = absurd (ground arith)
has_id-remove_id k j (i ∷ ks) n h = ground (arith, has_id-remove_id k j ks n)

-- A list without repetition is no longer than one that has all its members.
length-Single :
    (ks js : List ℕ)
    → Single ks
    → ((k : ℕ) → has_id k ks ≡ true → has_id k js ≡ true)
    → length ks ≤ length js
unfolding has_id
length-Single [] js s h = omega arith
length-Single (k ∷ ks) js s h = omega (
  arith,
  length-remove_id k js here,
  length-Single ks (remove_id k js) s.1
      (λ j e. has_id-remove_id k j js (other j e) (h j (within j e))),
)
  where
    here : has_id k js ≡ true
    here = h k (ground (arith, (==_iff k k).1 refl))

    other : (j : ℕ) → has_id j ks ≡ true → k ≢ j
    other j e p = absurd (ground (arith, s.0, e, ap (λ i. has_id i ks) p))

    within : (j : ℕ) → has_id j ks ≡ true → (if k == j then true else has_id j ks) ≡ true
    within j e = ground (arith, e)

has_id-map :
    (k : ℕ) (own : List Submission)
    → has_id k (map (λ s. s.user_id) own) ≡ any (λ s. s.user_id == k) own
unfolding has_id
has_id-map k [] = refl
has_id-map k (s ∷ own) = ap (λ b. if s.user_id == k then true else b) (has_id-map k own)

any-filter :
    {A : Type 0} (p q : A → Bool) (xs : List A) → any q (filter p xs) ≡ any (λ x. p x && q x) xs
any-filter p q [] = refl
any-filter p q (x ∷ xs) = go (p x) (any-filter p q xs)
  where
    go :
        (b : Bool)
        → any q (filter p xs) ≡ any (λ x. p x && q x) xs
        → any q (if b then x ∷ filter p xs else filter p xs)
          ≡ (if b && q x then true else any (λ x. p x && q x) xs)
    go true h = ap (λ b. if q x then true else b) h
    go false h = h

any_weaken :
    {A : Type 0} (p q : A → Bool) (xs : List A) → any (λ x. p x && q x) xs ≡ true → any q xs ≡ true
any_weaken p q [] h = h
any_weaken p q (x ∷ xs) h = go (p x) (q x) h (any_weaken p q xs)
  where
    go :
        (b c : Bool)
        → (if b && c then true else any (λ x. p x && q x) xs) ≡ true
        → (any (λ x. p x && q x) xs ≡ true → any q xs ≡ true)
        → (if c then true else any q xs) ≡ true
    go b true h k = refl
    go true false h k = k h
    go false false h k = k h

-- The students that a test of submissions picks, each once.
abbrev pub StudentsOf : (Submission → Bool) → List Submission → ℕ → Type 0
StudentsOf p own n =
    (ids : List ℕ) × Single ids
    × ((k : ℕ) → has_id k ids ≡ any (λ s. p s && s.user_id == k) own)
    × (n ≡ length ids)

-- The report of a problem counts students, not submissions: how many have a submission to it, and how
-- many a successful one, which are no more.
pub question_report-StudentsOf :
    (submissions : List Submission) (completed : ℕ) (p : AssessmentProblem) (problem : Problem)
    → let r = question_report submissions completed p problem in
      let own = submissions_to problem.id submissions in
      StudentsOf (λ s. true) own r.attempt_count
      × StudentsOf is_success own r.solved_count
      × (r.solved_count ≤ r.attempt_count)
unfolding question_report
question_report-StudentsOf submissions completed p problem = (
  (id_set tried, id_set-Single tried, λ k. has_id_set k tried ∙ has_id-map k own, refl),
  (
    id_set solved,
    id_set-Single solved,
    λ k.
        has_id_set k solved
        ∙ has_id-map k (filter is_success own)
        ∙ any-filter is_success (λ s. s.user_id == k) own,
    refl,
  ),
  length-Single (id_set solved) (id_set tried) (id_set-Single solved) (λ k h.
      has_id_set k tried
      ∙ has_id-map k own
      ∙ any_weaken is_success (λ s. s.user_id == k) own
          (sym (
              has_id_set k solved
              ∙ has_id-map k (filter is_success own)
              ∙ any-filter is_success (λ s. s.user_id == k) own)
            ∙ h)),
)
  where
    own : List Submission
    own = submissions_to problem.id submissions

    tried : List ℕ
    tried = map (λ s. s.user_id) own

    solved : List ℕ
    solved = map (λ s. s.user_id) (filter is_success own)
