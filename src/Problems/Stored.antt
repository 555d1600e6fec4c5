-- ===== src/Problems/Stored.antt =====
-- What a problem that was stored has.
use assessment_microservice.Base.{
  ℕ, ◌≡◌, refl, sym, ap, subst, ◌∙◌, inl, inr, Bool, true, false, not, Option, none, some, List, [],
  ◌∷◌, ◌++◌, map, arith, if◌then◌else◌, String,
}
use assessment_microservice.Models.{Problem, TestCase}
use assessment_microservice.Submissions.Sanitize.{is_sample_test_case}
use assessment_microservice.Problems.Payload.{
  CasePayload, validate_problem_payload, ProblemPayload, sample_errors, field_errors, has_sample,
  ProblemError, cases_errors, normalize_problem_payload, refused_if, refused, signature_errors,
  heading_errors,
}
use assessment_microservice.Store.{
  any, map_option, or_default, ok, World, Result, Result-cases, err, http, Failure,
}
use assessment_microservice.Assessments.Paging.{All}
use assessment_microservice.Problems.Create.{
  stored_case, problem_document, create_problem, check_payload, checked_payload, create_if,
}

-- Some test case is shown to students, and each says of itself that it is either a sample or hidden.
abbrev pub Presentable : Problem → Type 0
Presentable p =
    (any is_sample_test_case p.test_cases ≡ true)
    × All (λ (tc : TestCase). tc.is_hidden ≡ map_option not tc.is_sample) p.test_cases

append_empty : {A : Type 0} (xs ys : List A) → xs ++ ys ≡ [] → ys ≡ []
append_empty [] ys h = h
append_empty (x ∷ xs) ys h = absurd (ground arith)

valid-has_sample :
    (p : ProblemPayload) → validate_problem_payload p ≡ [] → sample_errors p.test_cases ≡ []
unfolding validate_problem_payload
valid-has_sample p h = append_empty (field_errors p) (sample_errors p.test_cases) h

any-stored :
    (to_json : List String → String) (tcs : List CasePayload)
    → any is_sample_test_case (map (stored_case to_json) tcs) ≡ has_sample tcs
unfolding is_sample_test_case
any-stored to_json [] = refl
any-stored to_json (tc ∷ tcs) = rw (any-stored to_json tcs)

All-stored :
    (to_json : List String → String) (tcs : List CasePayload)
    → All
        (λ (tc : TestCase). tc.is_hidden ≡ map_option not tc.is_sample)
        (map (stored_case to_json) tcs)
All-stored to_json [] = tt
All-stored to_json (tc ∷ tcs) = (refl, All-stored to_json tcs)

append_empty_left : {A : Type 0} (xs ys : List A) → xs ++ ys ≡ [] → xs ≡ []
append_empty_left [] ys h = refl
append_empty_left (x ∷ xs) ys h = absurd (ground arith)

valid-cases : (p : ProblemPayload) → field_errors p ≡ [] → cases_errors p.test_cases ≡ []
valid-cases p h =
    append_empty_left (cases_errors p.test_cases) (signature_errors p)
      (append_empty (heading_errors p) (cases_errors p.test_cases ++ signature_errors p) h)

sampled :
    (o : Option (List CasePayload))
    → cases_errors o ≡ []
    → sample_errors o ≡ []
    → has_sample (or_default o []) ≡ true
sampled none h k = absurd (ground arith)
sampled (some tcs) h k = no_refusal (has_sample tcs) k
  where
    no_refusal :
        (b : Bool)
        → refused_if (not b) (refused "At least one test case must be marked as sample") ≡ []
        → b ≡ true
    no_refusal true h = refl
    no_refusal false h = absurd (ground arith)

checked_payload_ok :
    (deep : ProblemPayload → Bool) (p n : ProblemPayload) (es : List ProblemError)
    → checked_payload deep p es ≡ ok n
    → (p ≡ n) × (es ≡ [])
checked_payload_ok deep p n (e ∷ es) h = absurd (ground arith)
checked_payload_ok deep p n [] h = (accepted (deep p) h, refl)
  where
    accepted :
        (b : Bool)
        → ◌≡◌ {A = Result ProblemPayload}
            (if b then ok p else err (http 400 "Deep validation failed"))
            (ok n)
        → p ≡ n
    accepted true h = ground arith
    accepted false h = absurd (ground arith)

Presentable-document :
    (to_json : List String → String) (k : ℕ) (n : ProblemPayload)
    → validate_problem_payload n ≡ []
    → Presentable (problem_document to_json k n)
unfolding problem_document validate_problem_payload
Presentable-document to_json k n h =
    let tcs = or_default n.test_cases [] in
    (
      any-stored to_json tcs
          ∙ sampled n.test_cases
              (valid-cases n (append_empty_left (field_errors n) (sample_errors n.test_cases) h))
              (valid-has_sample n h),
      All-stored to_json tcs,
    )

check_payload-Presentable :
    (to_json : List String → String) (deep : ProblemPayload → Bool) (k : ℕ) (p n : ProblemPayload)
    → check_payload deep p ≡ ok n
    → Presentable (problem_document to_json k n)
unfolding check_payload
check_payload-Presentable to_json deep k p n h =
    let m = normalize_problem_payload p in
    let (same, none_wrong) = checked_payload_ok deep m n (validate_problem_payload m) h in
    subst (λ (n : ProblemPayload). Presentable (problem_document to_json k n)) same
      (Presentable-document to_json k m none_wrong)

-- A problem that is created can be shown: a student sees at least one of its test cases, each case is
-- either a sample or hidden, and nothing but the new problem is added to the world.
pub create_problem-Presentable :
    (to_json : List String → String) (deep : ProblemPayload → Bool) (k : ℕ) (p : ProblemPayload)
    (w v : World) (doc : Problem)
    → create_problem to_json deep k p w ≡ (ok doc, v)
    → Presentable doc × (v ≡ record w { problems = doc ∷ w.problems })
unfolding create_problem
create_problem-Presentable to_json deep k p w v doc h = elim (Result-cases (check_payload deep p)) [
  | inr (e, f) ↦ absurd (not_stored (ap (λ x. x.0) (sym (ap (create_if to_json k w) f) ∙ h)))
  | inl (n, f) ↦
      let (same, world) = stored_parts (sym (ap (create_if to_json k w) f) ∙ h) in
      (
        subst Presentable same (check_payload-Presentable to_json deep k p n f),
        sym world ∙ ap (λ d. record w { problems = d ∷ w.problems }) same,
      )
]
  where
    not_stored : {e : Failure} → ◌≡◌ {A = Result Problem} (err e) (ok doc) → ⊥
    not_stored q = ground arith

    stored_parts :
        {d : Problem} {u : World}
        → ◌≡◌ {A = Result Problem × World} (ok d, u) (ok doc, v)
        → (d ≡ doc) × (u ≡ v)
    stored_parts {d} q = (injective (ap (λ x. x.0) q), ap (λ x. x.1) q)
      where
        injective : ◌≡◌ {A = Result Problem} (ok d) (ok doc) → d ≡ doc
        injective q = ground arith
