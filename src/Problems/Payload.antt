-- ===== src/Problems/Payload.antt =====
-- `normalizeProblemPayload` and `validateProblemPayload` of problems.service.js. A text field that is
-- missing or holds no text is `none`, and so is a list that is missing or is none. A tolerance is a
-- whole number here; one that is no finite number is `none`.
use assessment_microservice.Base.{
  ℕ, suc, Bool, true, false, not, ◌&&◌, ◌||◌, Option, none, some, List, [], ◌∷◌, ◌++◌, map, ◌==◌,
  leb, if◌then◌else◌, String, text_eq, length,
}
use assessment_microservice.Types.{Text, codes, is_lower}
use assessment_microservice.Store.{is_some, map_option, any, or_default}
use assessment_microservice.Accounts.Words.{trim_text}
use assessment_microservice.Base.Int.{ℤ, leb_ℤ, pos}
use assessment_microservice.Models.{ProblemType}

pub record ParameterPayload : Type 0 where
  pub name : Option String
  pub type : Option String

pub record CasePayload : Type 0 where
  pub inputs : Option (List String)
  pub expected : Option String
  -- `=== true`
  pub is_sample : Bool

pub record ProblemPayload : Type 0 where
  pub title : Option String
  pub description : Option String
  pub difficulty : Option String
  pub function_name : Option String
  pub return_type : Option String
  pub parameters : Option (List ParameterPayload)
  pub test_cases : Option (List CasePayload)
  pub mode : Option String
  pub float_tolerance : Option ℤ
  pub problem_type : ProblemType
  pub is_premium : Bool

abbrev pub trim_field : Option String → Option String
trim_field = map_option trim_text

abbrev trim_parameter : ParameterPayload → ParameterPayload
trim_parameter p = record { name = trim_field p.name; type = trim_field p.type }

-- `mode || "EXACT"`
abbrev mode_or_exact : Option String → String
mode_or_exact none = "EXACT"
mode_or_exact (some m) = if text_eq m "" then "EXACT" else m

-- The flag `isHidden` of a case becomes the opposite of `isSample`: the database's TestCase has both.
unfoldable pub normalize_problem_payload : ProblemPayload → ProblemPayload
normalize_problem_payload p = record p {
  title = trim_field p.title;
  description = trim_field p.description;
  function_name = trim_field p.function_name;
  return_type = trim_field p.return_type;
  parameters = map_option (map trim_parameter) p.parameters;
  mode = some (mode_or_exact p.mode);
  float_tolerance = some (or_default p.float_tolerance (pos 0));
}

-- The messages, those about an entry of a list with its place.
pub data ProblemError : Type 0 where
  refused : String → ProblemError
  refused_at : ℕ → String → ProblemError
  arity_at : ℕ → ℕ → ℕ → ProblemError

abbrev pub refused_if : Bool → ProblemError → List ProblemError
refused_if true e = e ∷ []
refused_if false e = []

-- `!x || !x.trim()`
abbrev is_blank_field : Option String → Bool
is_blank_field none = true
is_blank_field (some t) = text_eq (trim_text t) ""

-- `!x`
abbrev is_empty_field : Option String → Bool
is_empty_field none = true
is_empty_field (some t) = text_eq t ""

abbrev starts_name : ℕ → Bool
starts_name c = leb 65 c && leb c 90 || is_lower c || c == 95

abbrev in_name : Text → Bool
in_name [] = true
in_name (c ∷ s) = (starts_name c || leb 48 c && leb c 57) && in_name s

-- IDENTIFIER_PATTERN
abbrev is_identifier : Text → Bool
is_identifier [] = false
is_identifier (c ∷ s) = starts_name c && in_name s

abbrev is_name : Option String → Bool
is_name none = false
is_name (some t) = is_identifier (codes (trim_text t))

abbrev difficulty_errors : Option String → List ProblemError
difficulty_errors d =
    if is_empty_field d
    then refused "difficulty is required" ∷ []
    else refused_if (not (any (λ t. text_eq t (or_default d "")) ("Easy" ∷ "Medium" ∷ "Hard" ∷ [])))
        (refused "difficulty must be Easy, Medium, or Hard")

abbrev name_errors : Option String → List ProblemError
name_errors n =
    if is_empty_field n
    then refused "functionName is required" ∷ []
    else refused_if (not (is_name n)) (refused "functionName must be a valid identifier")

abbrev case_errors : ℕ → List CasePayload → List ProblemError
case_errors i [] = []
case_errors i (tc ∷ tcs) =
    refused_if (not (is_some tc.inputs)) (refused_at i "testCases inputs must be an array")
    ++ (refused_if (not (is_some tc.expected)) (refused_at i "testCases expected is required")
        ++ case_errors (suc i) tcs)

abbrev pub cases_errors : Option (List CasePayload) → List ProblemError
cases_errors none = refused "testCases must be an array" ∷ []
cases_errors (some []) = refused "testCases must contain at least one test case" ∷ []
cases_errors (some (tc ∷ tcs)) = case_errors 0 (tc ∷ tcs)

abbrev parameter_errors : ℕ → List ParameterPayload → List ProblemError
parameter_errors i [] = []
parameter_errors i (p ∷ ps) =
    (if is_blank_field p.name
      then refused_at i "parameters name is required" ∷ []
      else refused_if (not (is_name p.name)) (refused_at i "parameters name: invalid format"))
    ++ (refused_if (is_blank_field p.type) (refused_at i "parameters type is required")
        ++ parameter_errors (suc i) ps)

abbrev parameters_errors : Option (List ParameterPayload) → List ProblemError
parameters_errors none = refused "parameters must be an array" ∷ []
parameters_errors (some []) = refused "parameters must contain at least one parameter" ∷ []
parameters_errors (some (p ∷ ps)) = parameter_errors 0 (p ∷ ps)

abbrev compare_errors : Option String → Option ℤ → List ProblemError
compare_errors mode tolerance =
    refused_if
      (not (is_empty_field mode)
        && not (any (λ t. text_eq t (or_default mode "")) ("EXACT" ∷ "STRUCTURAL" ∷ [])))
      (refused "compareConfig.mode must be EXACT or STRUCTURAL")
    ++ refused_if (not (leb_ℤ (pos 0) (or_default tolerance (pos 0))))
        (refused "compareConfig.floatTolerance must be a non-negative number")

abbrev arity_errors : ℕ → ℕ → List CasePayload → List ProblemError
arity_errors arity i [] = []
arity_errors arity i (tc ∷ tcs) =
    elim tc.inputs [
      | none ↦ []
      | some xs ↦ refused_if (not (length xs == arity)) (arity_at i (length xs) arity)
    ]
    ++ arity_errors arity (suc i) tcs

abbrev arities_errors :
    Option (List ParameterPayload) → Option (List CasePayload) → List ProblemError
arities_errors (some ps) (some tcs) = arity_errors (length ps) 0 tcs
arities_errors _ _ = []

abbrev pub has_sample : List CasePayload → Bool
has_sample = any (λ (tc : CasePayload). tc.is_sample)

abbrev pub sample_errors : Option (List CasePayload) → List ProblemError
sample_errors none = []
sample_errors (some tcs) =
    refused_if (not (has_sample tcs)) (refused "At least one test case must be marked as sample")

unfoldable pub heading_errors : ProblemPayload → List ProblemError
heading_errors p =
    refused_if (is_blank_field p.title) (refused "title is required")
    ++ (refused_if (is_blank_field p.description) (refused "description is required")
        ++ difficulty_errors p.difficulty)

unfoldable pub signature_errors : ProblemPayload → List ProblemError
signature_errors p =
    name_errors p.function_name
    ++ (refused_if (is_empty_field p.return_type) (refused "returnType is required")
        ++ (parameters_errors p.parameters
            ++ (compare_errors p.mode p.float_tolerance
                ++ arities_errors p.parameters p.test_cases)))

abbrev pub field_errors : ProblemPayload → List ProblemError
field_errors p = heading_errors p ++ (cases_errors p.test_cases ++ signature_errors p)

unfoldable pub validate_problem_payload : ProblemPayload → List ProblemError
validate_problem_payload p = field_errors p ++ sample_errors p.test_cases
