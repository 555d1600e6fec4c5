-- ===== src/Submissions/Secrecy.antt =====
-- What `sanitizeResultDetails` keeps secret of a hidden test, and where it does not.
use assessment_microservice.Base.{
  ℕ, zero, suc, ◌≤◌, ◌≡◌, ◌⊎◌, refl, inl, inr, Bool, true, false, none, some, List, [], ◌∷◌, arith,
  length, get_elem?,
}
use assessment_microservice.Submissions.Sanitize.{
  redacted, sanitize_detail, sanitize_result_details, sanitize_from, verdict, is_hidden_detail,
  coalesce, test_number, shown, test_case_at, pred_ℤ,
}
use assessment_microservice.Models.{TestCase, ResultDetail, whole}
use assessment_microservice.Base.Int.{ℤ, pos, ◌<ℤ◌, negsuc}

-- Two details that may differ only in what a hidden test must not show: in an assessment they have
-- the same number, verdict and time, in practice also the same console output.
pub record SamePublic (is_assessment : Bool) (d e : ResultDetail) : Type 0 where
  pub same_test : d.test ≡ e.test
  pub same_test_cap : d.test_cap ≡ e.test_cap
  pub same_verdict : verdict d ≡ verdict e
  pub same_time : coalesce d.time_ms d.time_ms_cap ≡ coalesce e.time_ms e.time_ms_cap
  pub same_stdout :
      is_assessment ≡ false → coalesce d.stdout d.stdout_cap ≡ coalesce e.stdout e.stdout_cap
  pub same_stderr :
      is_assessment ≡ false → coalesce d.stderr d.stderr_cap ≡ coalesce e.stderr e.stderr_cap
  pub same_traceback :
      is_assessment ≡ false
      → coalesce d.traceback d.traceback_cap ≡ coalesce e.traceback e.traceback_cap

-- Two lists of details, from position `idx` on, that differ only in the secrets of hidden tests.
abbrev pub Agree : Bool → List TestCase → ℕ → List ResultDetail → List ResultDetail → Type 0
Agree b tcs idx [] [] = Unit {0}
Agree b tcs idx (d ∷ ds) (e ∷ es) =
    ((d ≡ e) ⊎ (SamePublic b d e × (is_hidden_detail d idx tcs ≡ true)))
    × Agree b tcs (suc idx) ds es
Agree b tcs idx _ _ = ⊥

redacted_same : (b : Bool) (d e : ResultDetail) → SamePublic b d e → redacted b d ≡ redacted b e
unfolding redacted
redacted_same true d e p = ground arith
redacted_same false d e p = ground arith

sanitize_detail_same :
    (b : Bool) (tcs : List TestCase) (idx : ℕ) (d e : ResultDetail)
    → SamePublic b d e
    → is_hidden_detail d idx tcs ≡ true
    → sanitize_detail b tcs idx d ≡ sanitize_detail b tcs idx e
unfolding sanitize_detail
sanitize_detail_same b tcs idx d e p h = ground (arith, redacted_same b d e p)

sanitize_from_same :
    (b : Bool) (tcs : List TestCase) (idx : ℕ) (ds es : List ResultDetail)
    → Agree b tcs idx ds es
    → sanitize_from b tcs idx ds ≡ sanitize_from b tcs idx es
unfolding sanitize_from
sanitize_from_same b tcs idx [] [] h = refl
sanitize_from_same b tcs idx [] (e ∷ es) h = absurd h
sanitize_from_same b tcs idx (d ∷ ds) [] h = absurd h
sanitize_from_same b tcs idx (d ∷ ds) (e ∷ es) (inl same, rest) =
    cc (sanitize_from_same b tcs (suc idx) ds es rest)
sanitize_from_same b tcs idx (d ∷ ds) (e ∷ es) (inr (p, hidden), rest) =
    cc (sanitize_detail_same b tcs idx d e p hidden, sanitize_from_same b tcs (suc idx) ds es rest)

-- The secrets of hidden tests do not reach the student: results that differ only in the inputs, the
-- expected and the actual outputs of hidden tests (and, in an assessment, in their console output),
-- or in any other key of theirs that the judge adds, are shown alike.
pub sanitize_result_details_same :
    (b : Bool) (tcs : List TestCase) (ds es : List ResultDetail)
    → Agree b tcs 0 ds es
    → sanitize_result_details ds tcs b ≡ sanitize_result_details es tcs b
unfolding sanitize_result_details
sanitize_result_details_same b tcs ds es h = sanitize_from_same b tcs 0 ds es h

get_elem?-beyond : (tcs : List TestCase) (i : ℕ) → length tcs ≤ i → get_elem? tcs i ≡ none
get_elem?-beyond [] i h = refl
get_elem?-beyond (tc ∷ tcs) zero h = elim h [ ]
get_elem?-beyond (tc ∷ tcs) (suc i) h = get_elem?-beyond tcs i (omega arith)

test_case_at-beyond :
    (tcs : List TestCase) (n : ℤ)
    → (n ≡ pos 0) ⊎ (pos (length tcs) <ℤ n)
    → test_case_at tcs (pred_ℤ n) ≡ none
test_case_at-beyond tcs (pos zero) h = refl
test_case_at-beyond tcs (pos (suc n)) (inl e) = cc
test_case_at-beyond tcs (pos (suc n)) (inr h) = get_elem?-beyond tcs n (omega arith)
test_case_at-beyond tcs (negsuc n) h = refl

-- A detail whose whole number names no test case (0, or more than there are) is taken for a sample:
-- it is shown with all its data, in an assessment too.
pub sanitize_detail-out_of_range :
    (b : Bool) (tcs : List TestCase) (idx : ℕ) (d : ResultDetail) (n : ℤ)
    → test_number d ≡ some (whole n)
    → (n ≡ pos 0) ⊎ (pos (length tcs) <ℤ n)
    → sanitize_detail b tcs idx d ≡ shown d
unfolding sanitize_detail
sanitize_detail-out_of_range b tcs idx d n e h = ground (arith, test_case_at-beyond tcs n h)
