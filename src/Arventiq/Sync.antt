-- ===== src/Arventiq/Sync.antt =====
-- `resolveArventiqLanguage` of src/config/arventiqLanguages.js, and `syncProblem` of
-- arventiq.service.js. The JSON text of a test case's inputs is an argument. The statement, the limits
-- and the formats of a problem are left out with their fields.
use assessment_microservice.Base.{
  ℕ, Bool, false, not, ◌||◌, Option, none, some, List, [], ◌∷◌, ◌++◌, map, if◌then◌else◌, String,
  text_eq, concat,
}
use assessment_microservice.Store.{is_some, any, or_default, World, find, Result, err, invalid, ok}
use assessment_microservice.Models.{Problem, TestCase, function, exact, stdin}
use assessment_microservice.Accounts.Register.{required}
use assessment_microservice.Accounts.Words.{to_lower_case, trim_text}
use assessment_microservice.Billing.Plans.{inherited}

-- The keys of ARVENTIQ_LANGUAGE_MAP and the languages that they name.
abbrev language_map : List (String × String)
language_map =
    ("python", "python")
    ∷ ("python3", "python")
    ∷ ("javascript", "javascript")
    ∷ ("js", "javascript")
    ∷ ("node", "javascript")
    ∷ ("typescript", "typescript")
    ∷ ("ts", "typescript")
    ∷ ("java", "java")
    ∷ ("cpp", "cpp")
    ∷ ("c++", "cpp")
    ∷ ("c", "c")
    ∷ ("csharp", "csharp")
    ∷ ("c#", "csharp")
    ∷ ("go", "go")
    ∷ ("golang", "go")
    ∷ []

abbrev looked_up : String → List (String × String) → Option String
looked_up key [] = none
looked_up key ((name, language) ∷ rest) =
    if text_eq name key then some language else looked_up key rest

-- A name that every object inherits is found there too, and is no text.
pub data ArventiqLanguage : Type 0 where
  judged : String → ArventiqLanguage
  inherited_name : ArventiqLanguage

-- What is no text counts as missing.
unfoldable pub resolve_arventiq_language : Option String → Option ArventiqLanguage
resolve_arventiq_language code_language = elim (required code_language) [
  | none ↦ none
  | some s ↦
      let key = to_lower_case (trim_text s) in
      elim (looked_up key language_map) [
        | some language ↦ some (judged language)
        | none ↦ if any (λ x. text_eq x key) inherited then some inherited_name else none
      ]
]

pub record ArventiqTest : Type 0 where
  pub input : Option String
  pub expected_output : Option String
  pub is_hidden : Bool
  pub visibility : Option String

-- `id` is its text; a field of another type counts as missing.
pub record ArventiqPayload : Type 0 where
  pub id : Option String
  pub title : Option String
  pub code_language : Option String
  pub question_text : Option String
  pub test_cases : Option (List ArventiqTest)

unfoldable pub is_arventiq_test_hidden : ArventiqTest → Bool
is_arventiq_test_hidden tc = tc.is_hidden || text_eq (or_default tc.visibility "") "hidden"

abbrev pub is_visible : ArventiqTest → Bool
is_visible tc = not (is_arventiq_test_hidden tc)

-- Of the messages it matters whether there is one; those of a test case leave out its number.
abbrev pub test_errors : List ArventiqTest → List String
test_errors [] = []
test_errors (tc ∷ tcs) =
    (if is_some tc.input then [] else "input is required" ∷ [])
    ++ (if is_some tc.expected_output then [] else "expected_output is required" ∷ [])
    ++ test_errors tcs

abbrev pub tests_errors : Option (List ArventiqTest) → List String
tests_errors none = "test_cases must be a non-empty array" ∷ []
tests_errors (some []) = "test_cases must be a non-empty array" ∷ []
tests_errors (some (tc ∷ tcs)) =
    test_errors (tc ∷ tcs)
    ++ (if any is_visible (tc ∷ tcs) then [] else "at least one test case must be visible" ∷ [])

abbrev pub missing_error : Option String → String → List String
missing_error field message = if is_some (required field) then [] else message ∷ []

abbrev pub language_error : Option String → List String
language_error code_language =
    if is_some (required code_language)
    then if is_some (resolve_arventiq_language code_language)
      then []
      else "code_language is not a supported language" ∷ []
    else "code_language is required" ∷ []

unfoldable pub validate_arventiq_problem_payload : ArventiqPayload → List String
validate_arventiq_problem_payload p =
    missing_error p.id "id is required"
    ++ language_error p.code_language
    ++ missing_error p.question_text "question_text is required"
    ++ tests_errors p.test_cases

unfoldable pub arventiq_case : (List String → String) → ArventiqTest → TestCase
arventiq_case to_json tc = record {
  inputs = to_json (or_default tc.input "" ∷ []);
  expected = or_default tc.expected_output "";
  is_sample = some (not (is_arventiq_test_hidden tc));
  is_hidden = some (is_arventiq_test_hidden tc);
}

abbrev pub has_external_id : String → Problem → Bool
has_external_id key p = elim p.external_id [ none ↦ false | some id ↦ text_eq id key ]

-- problemsRepo.findByExternalId
unfoldable pub find_by_external_id : String → List Problem → Option Problem
find_by_external_id key ps = find (has_external_id key) ps

abbrev pub external_id_of : ArventiqPayload → String
external_id_of p = or_default p.id ""

-- `Object.assign(existing, doc)`
unfoldable pub assign_document : (List String → String) → ArventiqPayload → Problem → Problem
assign_document to_json p existing = record existing {
  external_id = some (external_id_of p);
  title = or_default (required p.title) (concat "Arventiq Question " (external_id_of p));
  problem_type = stdin;
  compare_mode = exact;
  test_cases = map (arventiq_case to_json) (or_default p.test_cases []);
}

-- The schema's defaults, for a new document.
abbrev pub blank_problem : ℕ → Problem
blank_problem k = record {
  id = k;
  external_id = none;
  title = "";
  problem_type = function;
  function_name = none;
  compare_mode = exact;
  test_cases = [];
  is_premium = false;
}

-- `existing.save()` writes the document that was found.
unfoldable pub save_by_external_id : String → (Problem → Problem) → List Problem → List Problem
save_by_external_id key f [] = []
save_by_external_id key f (p ∷ ps) =
    let rest = save_by_external_id key f ps in if has_external_id key p then f p ∷ ps else p ∷ rest

abbrev pub upsert :
    (List String → String) → ℕ → ArventiqPayload → World → Option Problem → Problem × World
upsert to_json k p w (some existing) = (
  assign_document to_json p existing,
  record w {
    problems = save_by_external_id (external_id_of p) (assign_document to_json p) w.problems;
  },
)
upsert to_json k p w none =
    let created = assign_document to_json p (blank_problem k) in
    (created, record w { problems = created ∷ w.problems })

-- `k` is the id of a new document.
unfoldable pub sync_problem :
    (List String → String) → ℕ → ArventiqPayload → World → Result Problem × World
sync_problem to_json k p w = elim (validate_arventiq_problem_payload p) [
  | e ∷ es ↦ (err (invalid (e ∷ es)), w)
  | [] ↦
      let (synced, w') = upsert to_json k p w (find_by_external_id (external_id_of p) w.problems) in
      (ok synced, w')
]
