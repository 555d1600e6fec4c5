-- ===== src/Arventiq/Synced.antt =====
-- What a synchronised problem is, and that solutions find it.
use assessment_microservice.Base.{
  ℕ, ◌≡◌, refl, ap, subst, ◌∙◌, Bool, true, false, not, Option, none, some, List, [], ◌∷◌, ◌++◌,
  map, arith, if◌then◌else◌, String, text_eq, text_eq_iff,
}
use assessment_microservice.Models.{Problem, TestCase, stdin}
use assessment_microservice.Arventiq.Sync.{
  arventiq_case, ArventiqTest, is_visible, is_arventiq_test_hidden, has_external_id,
  ArventiqPayload, assign_document, tests_errors, save_by_external_id, find_by_external_id,
  external_id_of, upsert, blank_problem, sync_problem, validate_arventiq_problem_payload,
  missing_error, language_error,
}
use assessment_microservice.Assessments.Paging.{All}
use assessment_microservice.Store.{or_default, any, World, find, Result, err, ok, invalid}
use assessment_microservice.Arventiq.Saved.{find-save, valid_tests, save-save, append_nil_right}

-- A test case is either shown as a sample or hidden.
abbrev pub SampleOrHidden : TestCase → Type 0
SampleOrHidden tc =
    (hidden : Bool) × (tc.is_hidden ≡ some hidden) × (tc.is_sample ≡ some (not hidden))

abbrev pub is_sample_case : TestCase → Bool
is_sample_case tc = or_default tc.is_sample false

cases_shown :
    (to_json : List String → String) (tcs : List ArventiqTest)
    → All SampleOrHidden (map (arventiq_case to_json) tcs)
      × (any is_sample_case (map (arventiq_case to_json) tcs) ≡ any is_visible tcs)
unfolding arventiq_case
cases_shown to_json [] = (tt, refl)
cases_shown to_json (tc ∷ tcs) =
    let (h, e) = cases_shown to_json tcs in
    (((is_arventiq_test_hidden tc, refl, refl), h), ap (λ b. if is_visible tc then true else b) e)

-- The problem that a payload was synchronised to.
abbrev pub Synced : ArventiqPayload → Problem → World → Type 0
Synced p q w =
    (find_by_external_id (external_id_of p) w.problems ≡ some q)
    × (q.problem_type ≡ stdin)
    × All SampleOrHidden q.test_cases
    × (any is_sample_case q.test_cases ≡ true)

upsert-Synced :
    (to_json : List String → String) (k : ℕ) (p : ArventiqPayload) (w : World)
    → any is_visible (or_default p.test_cases []) ≡ true
    → (o : Option Problem) → find_by_external_id (external_id_of p) w.problems ≡ o
    → let r = upsert to_json k p w o in
      Synced p r.0 r.1
      × ((j : ℕ) → upsert to_json j p r.1 (find_by_external_id (external_id_of p) r.1.problems) ≡ r)
unfolding assign_document find_by_external_id save_by_external_id
upsert-Synced to_json k p w shown (some q) e = (
  (find-save key f keyed w.problems q e, refl, cases.0, cases.1 ∙ shown),
  λ j.
      ap (upsert to_json j p (upsert to_json k p w (some q)).1)
        (find-save key f keyed w.problems q e)
      ∙ ap (λ ps. (f q, record w { problems = ps })) (save-save key f keyed (λ x. refl) w.problems),
)
  where
    key : String
    key = external_id_of p

    f : Problem → Problem
    f = assign_document to_json p

    keyed : (x : Problem) → has_external_id key (f x) ≡ true
    keyed x = (text_eq_iff key key).1 refl

    cases :
        All SampleOrHidden (map (arventiq_case to_json) (or_default p.test_cases []))
        × (any is_sample_case (map (arventiq_case to_json) (or_default p.test_cases []))
            ≡ any is_visible (or_default p.test_cases []))
    cases = cases_shown to_json (or_default p.test_cases [])
upsert-Synced to_json k p w shown none e = (
  (found, refl, cases.0, cases.1 ∙ shown),
  λ j.
      ap (upsert to_json j p (upsert to_json k p w none).1) found
      ∙ ap
          (λ b. (
            new,
            record w {
              problems =
                  if b
                  then new ∷ w.problems
                  else new ∷ save_by_external_id key (assign_document to_json p) w.problems;
            },
          ))
          self,
)
  where
    key : String
    key = external_id_of p

    new : Problem
    new = assign_document to_json p (blank_problem k)

    self : text_eq key key ≡ true
    self = (text_eq_iff key key).1 refl

    found : find (has_external_id key) (new ∷ w.problems) ≡ some new
    found = ap (λ b. if b then some new else find (has_external_id key) w.problems) self

    cases :
        All SampleOrHidden (map (arventiq_case to_json) (or_default p.test_cases []))
        × (any is_sample_case (map (arventiq_case to_json) (or_default p.test_cases []))
            ≡ any is_visible (or_default p.test_cases []))
    cases = cases_shown to_json (or_default p.test_cases [])

synced_as :
    (to_json : List String → String) (k : ℕ) (p : ArventiqPayload) (w : World)
    (errors : List String)
    → Result Problem × World
synced_as to_json k p w errors = elim errors [
  | e ∷ es ↦ (err (invalid (e ∷ es)), w)
  | [] ↦
      let (synced, w') = upsert to_json k p w (find_by_external_id (external_id_of p) w.problems) in
      (ok synced, w')
]

-- A payload that is accepted is the problem that its id finds from then on: a program that reads text,
-- with a test case that is shown, and each test case either shown or hidden. Sending the payload again
-- changes nothing.
pub sync_problem-Synced :
    (to_json : List String → String) (k : ℕ) (p : ArventiqPayload) (w v : World) (q : Problem)
    → sync_problem to_json k p w ≡ (ok q, v)
    → Synced p q v × ((j : ℕ) → sync_problem to_json j p v ≡ (ok q, v))
unfolding sync_problem synced_as validate_arventiq_problem_payload
sync_problem-Synced to_json k p w v q h = go (validate_arventiq_problem_payload p) refl h
  where
    step : World → Problem × World
    step u = upsert to_json k p u (find_by_external_id (external_id_of p) u.problems)

    go :
        (errors : List String)
        → validate_arventiq_problem_payload p ≡ errors
        → synced_as to_json k p w errors ≡ (ok q, v)
        → Synced p q v × ((j : ℕ) → sync_problem to_json j p v ≡ (ok q, v))
    go (e ∷ es) c h = absurd (ground arith)
    go [] c h =
        let shown = valid_tests p.test_cases (
          append_nil_right
            (missing_error p.id "id is required"
              ++ language_error p.code_language
              ++ missing_error p.question_text "question_text is required")
            (tests_errors p.test_cases) c) in
        let done =
          upsert-Synced to_json k p w shown (find_by_external_id (external_id_of p) w.problems)
            refl in
        let at_q : (step w).0 ≡ q = ground (arith, ap (λ r. r.0) h) in
        let at_v : (step w).1 ≡ v = ap (λ r. r.1) h in
        (
          subst (λ u. Synced p q u) at_v (subst (λ x. Synced p x (step w).1) at_q done.0),
          λ j. ap (synced_as to_json j p v) c ∙ again j (λ i. (at_q i, at_v i)) (done.1 j),
        )
      where
        again :
            (j : ℕ) {r : Problem × World}
            → r ≡ (q, v)
            → upsert to_json j p r.1 (find_by_external_id (external_id_of p) r.1.problems) ≡ r
            → ◌≡◌ {A = Result Problem × World}
                (
                  ok (upsert to_json j p v (find_by_external_id (external_id_of p) v.problems)).0,
                  (upsert to_json j p v (find_by_external_id (external_id_of p) v.problems)).1,
                )
                (ok q, v)
        again j {r} e h =
            ap (λ x. (ok x.0, x.1))
              (subst
                (λ x.
                  upsert to_json j p x.1 (find_by_external_id (external_id_of p) x.1.problems) ≡ x)
                e h)
