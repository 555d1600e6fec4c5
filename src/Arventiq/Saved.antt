-- ===== src/Arventiq/Saved.antt =====
-- What a valid payload has, and how a saved document is found again.
use assessment_microservice.Base.{
  ◌≡◌, refl, ap, Bool, true, false, Option, none, some, List, [], ◌∷◌, ◌++◌, arith, if◌then◌else◌,
  String,
}
use assessment_microservice.Models.{Problem}
use assessment_microservice.Arventiq.Sync.{
  ArventiqTest, is_visible, has_external_id, tests_errors, save_by_external_id, find_by_external_id,
  test_errors,
}
use assessment_microservice.Store.{or_default, any, find, map_option}

pub append_nil_right : {A : Type 0} (xs ys : List A) → xs ++ ys ≡ [] → ys ≡ []
append_nil_right [] ys h = h
append_nil_right (x ∷ xs) ys h = absurd (ground arith)

pub valid_tests :
    (tcs : Option (List ArventiqTest))
    → tests_errors tcs ≡ []
    → any is_visible (or_default tcs []) ≡ true
valid_tests none h = absurd (ground arith)
valid_tests (some []) h = absurd (ground arith)
valid_tests (some (tc ∷ tcs)) h =
    go (any is_visible (tc ∷ tcs)) (append_nil_right (test_errors (tc ∷ tcs)) _ h)
  where
    go :
        (b : Bool)
        → ◌≡◌ {A = List String} (if b then [] else "at least one test case must be visible" ∷ []) []
        → b ≡ true
    go true h = refl
    go false h = absurd (ground arith)

module _ (key : String) (f : Problem → Problem)
    (keyed : (p : Problem) → has_external_id key (f p) ≡ true) where
  pub find-save :
      (ps : List Problem) (q : Problem)
      → find_by_external_id key ps ≡ some q
      → find_by_external_id key (save_by_external_id key f ps) ≡ some (f q)
  unfolding find_by_external_id save_by_external_id
  find-save [] q h = absurd (ground arith)
  find-save (p ∷ ps) q h = go (has_external_id key p) refl h (find-save ps q)
    where
      go :
          (b : Bool)
          → has_external_id key p ≡ b
          → (if b then some p else find (has_external_id key) ps) ≡ some q
          → (find (has_external_id key) ps ≡ some q
              → find (has_external_id key) (save_by_external_id key f ps) ≡ some (f q))
          → find (has_external_id key) (if b then f p ∷ ps else p ∷ save_by_external_id key f ps)
            ≡ some (f q)
      go true e h k = rw (keyed p) (ap (map_option f) h)
      go false e h k = rw e (k h)

  pub save-save :
      ((p : Problem) → f (f p) ≡ f p)
      → (ps : List Problem)
      → save_by_external_id key f (save_by_external_id key f ps) ≡ save_by_external_id key f ps
  unfolding save_by_external_id
  save-save same [] = refl
  save-save same (p ∷ ps) = go (has_external_id key p) refl (save-save same ps)
    where
      go :
          (b : Bool)
          → has_external_id key p ≡ b
          → save_by_external_id key f (save_by_external_id key f ps) ≡ save_by_external_id key f ps
          → save_by_external_id key f (if b then f p ∷ ps else p ∷ save_by_external_id key f ps)
            ≡ (if b then f p ∷ ps else p ∷ save_by_external_id key f ps)
      go true e h = rw (keyed p) (ap (λ x. x ∷ ps) (same p))
      go false e h = rw e (ap (λ xs. p ∷ xs) h)
