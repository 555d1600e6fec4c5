-- ===== src/Problems/Create.antt =====
-- `createProblem` and `updateProblem` of problems.service.js. What is left of the deep validation
-- (schema, types, wrappers, reference solution) is an argument, and so is the JSON text of inputs.
-- What a missing value becomes does not matter: the validation has refused it. A payload has no
-- `externalId`: contracts/problem.schema.json, which the deep validation holds it against, lists no
-- such property and admits no other.
use assessment_microservice.Base.{
  ℕ, Bool, not, Option, some, List, [], ◌∷◌, map, if◌then◌else◌, String, text_eq, none,
}
use assessment_microservice.Models.{CompareMode, Problem, TestCase, structural, exact}
use assessment_microservice.Problems.Payload.{
  ProblemPayload, CasePayload, ProblemError, normalize_problem_payload, validate_problem_payload,
}
use assessment_microservice.Store.{
  Result, or_default, Request, err, ok, http, map_option, problem_at, update_by, World,
}

abbrev pub stored_case : (List String → String) → CasePayload → TestCase
stored_case to_json tc = record {
  inputs = to_json (or_default tc.inputs []);
  expected = or_default tc.expected "";
  is_sample = some tc.is_sample;
  is_hidden = some (not tc.is_sample);
}

abbrev mode_of : Option String → CompareMode
mode_of m = if text_eq (or_default m "EXACT") "STRUCTURAL" then structural else exact

-- The document that the repository is given.
unfoldable pub problem_document : (List String → String) → ℕ → ProblemPayload → Problem
problem_document to_json k p = record {
  id = k;
  external_id = none;
  title = or_default p.title "";
  problem_type = p.problem_type;
  function_name = p.function_name;
  compare_mode = mode_of p.mode;
  test_cases = map (stored_case to_json) (or_default p.test_cases []);
  is_premium = p.is_premium;
}

-- The checks that come before a write.
abbrev pub checked_payload :
    (ProblemPayload → Bool) → ProblemPayload → List ProblemError → Result ProblemPayload
checked_payload deep p [] = if deep p then ok p else err (http 400 "Deep validation failed")
checked_payload deep p (e ∷ es) = err (http 400 "Validation failed")

unfoldable pub check_payload : (ProblemPayload → Bool) → ProblemPayload → Result ProblemPayload
check_payload deep p =
    let n = normalize_problem_payload p in checked_payload deep n (validate_problem_payload n)

-- What is written when the checks pass.
abbrev pub create_if :
    (List String → String) → ℕ → World → Result ProblemPayload → Result Problem × World
create_if to_json k w (err e) = (err e, w)
create_if to_json k w (ok n) =
    let doc = problem_document to_json k n in (ok doc, record w { problems = doc ∷ w.problems })

unfoldable pub create_problem :
    (List String → String) → (ProblemPayload → Bool) → ℕ → ProblemPayload → Request Problem
create_problem to_json deep k p w = create_if to_json k w (check_payload deep p)

-- The payload has no `externalId`, so the update leaves it.
abbrev keep_external_id : Problem → Problem → Problem
keep_external_id doc old = record doc { external_id = old.external_id }

-- The updated document, or null
unfoldable pub update_problem :
    (List String → String) → (ProblemPayload → Bool) → ℕ → ProblemPayload → Request (Option Problem)
update_problem to_json deep k p w = elim (check_payload deep p) [
  | err e ↦ (err e, w)
  | ok n ↦
      let doc = problem_document to_json k n in
      (
        ok (map_option (keep_external_id doc) (problem_at k w)),
        record w {
          problems = update_by (λ (q : Problem). q.id) k (keep_external_id doc) w.problems;
        },
      )
]
