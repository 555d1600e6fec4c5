-- ===== src/Types/Data.antt =====
-- `validateData` of typeValidator.mjs: a parsed JSON value against a type. What it looks into a value
-- for is its kind and its items; of a number, a truth value and an object only `typeof` is read.
use assessment_microservice.Base.{
  ℕ, zero, suc, Option, none, some, [], if◌then◌else◌, String, length,
}
use assessment_microservice.Types.{Text, text_is, match_type, codes, trim}

mutual
  pub data Value : Type 0 where
    undefined_value null_value number_value boolean_value object_value : Value
    string_value : Text → Value
    array_value : Items → Value

  pub data Items : Type 0 where
    no_items : Items
    item : Value → Items → Items

-- The error texts, each with what it shows.
pub data TypeError : Type 0 where
  -- `Invalid type string: ${typeStr}`
  invalid_type : Option Text → TypeError
  -- `Expected ${what}, got ${typeof data}`
  expected_got : String → String → TypeError
  -- `${what} at [${i}]: ${error}` and `${what} at [${i}][${j}]: ${error}`
  error_at : String → ℕ → TypeError → TypeError
  error_in : String → ℕ → ℕ → TypeError → TypeError
  -- `${what} at [${i}] is not an array`
  not_an_array : String → ℕ → TypeError
  -- `Unsupported validation for kind: ${kind}`
  unsupported : Text → TypeError

abbrev pub type_of : Value → String
type_of undefined_value = "undefined"
type_of null_value = "object"
type_of number_value = "number"
type_of boolean_value = "boolean"
type_of object_value = "object"
type_of (string_value s) = "string"
type_of (array_value xs) = "object"

-- `{ valid: true }`, or the error.
abbrev pub Verdict : Type 0
Verdict = Option TypeError

abbrev pub wrap : (TypeError → TypeError) → Verdict → Verdict → Verdict
wrap f none rest = rest
wrap f (some e) rest = some (f e)

-- `for (let i = 0; …)` with its early return: the first item that is wrong.
abbrev pub check_items : String → (Value → Verdict) → ℕ → Items → Verdict
check_items what recur i no_items = none
check_items what recur i (item v vs) =
    let rest = check_items what recur (suc i) vs in wrap (error_at what i) (recur v) rest

-- a null node is skipped
abbrev pub check_node : (Value → Verdict) → Value → Verdict
check_node recur null_value = none
check_node recur v = recur v

abbrev pub check_row : String → (Value → Verdict) → ℕ → ℕ → Items → Verdict
check_row what recur i j no_items = none
check_row what recur i j (item v vs) =
    let rest = check_row what recur i (suc j) vs in wrap (error_in what i j) (recur v) rest

abbrev pub check_line : String → String → (Value → Verdict) → ℕ → Value → Verdict
check_line row cell recur i (array_value vs) = check_row cell recur i 0 vs
check_line row cell recur i v = some (not_an_array row i)

abbrev pub check_rows : String → String → (Value → Verdict) → ℕ → Items → Verdict
check_rows row cell recur i no_items = none
check_rows row cell recur i (item v vs) =
    let rest = check_rows row cell recur (suc i) vs in
    wrap (λ e. e) (check_line row cell recur i v) rest

-- `if (!Array.isArray(data)) return …`
abbrev pub as_array : String → (Items → Verdict) → Value → Verdict
as_array what k (array_value vs) = k vs
as_array what k v = some (expected_got what (type_of v))

abbrev pub check_number : Value → Verdict
check_number number_value = none
check_number v = some (expected_got "number" (type_of v))

abbrev pub check_string : Value → Verdict
check_string (string_value s) = none
check_string v = some (expected_got "string" (type_of v))

abbrev pub check_boolean : Value → Verdict
check_boolean boolean_value = none
check_boolean v = some (expected_got "boolean" (type_of v))

abbrev pub check_void : Value → Verdict
check_void undefined_value = none
check_void null_value = none
check_void (string_value []) = none
check_void v = some (expected_got "void (null/empty)" (type_of v))

-- switch (kind); `recur` is the call on the inner type
abbrev pub check_kind : (Value → Verdict) → Text → Value → Verdict
check_kind recur kind v =
    if text_is kind (codes "number")
    then check_number v
    else if text_is kind (codes "string")
    then check_string v
    else if text_is kind (codes "boolean")
    then check_boolean v
    else if text_is kind (codes "void")
    then check_void v
    else if text_is kind (codes "array")
    then as_array "array" (check_items "Array item" recur 0) v
    else if text_is kind (codes "matrix")
    then as_array "matrix (array)" (check_rows "Matrix row" "Matrix item" recur 0) v
    else if text_is kind (codes "tree")
    then as_array "tree representation as array" (check_items "Tree node" (check_node recur) 0) v
    else if text_is kind (codes "linkedlist")
    then as_array "linked list representation as array" (check_items "Linked list node" recur 0) v
    else if text_is kind (codes "graph")
    then as_array "graph representation as adjacency list (array)"
        (check_rows "Graph adjacency list" "Graph neighbor value" recur 0) v
    else some (unsupported kind)

abbrev pub check_match :
    (Option Text → Value → Verdict) → Option Text → Option (Text × Option Text) → Value → Verdict
check_match recur type_str none v = some (invalid_type type_str)
check_match recur type_str (some (kind, inner)) v = check_kind (recur inner) kind v

-- `typeStr || ''`
abbrev pub text_or_empty : Option Text → Text
text_or_empty none = []
text_or_empty (some s) = s

-- Each call is on a shorter type, so that fuel above its length does not run out.
unfoldable pub validate_data_in : ℕ → Option Text → Value → Verdict
validate_data_in zero type_str v = some (invalid_type type_str)
validate_data_in (suc fuel) type_str v =
    check_match (validate_data_in fuel) type_str (match_type (trim (text_or_empty type_str))) v

unfoldable pub validate_data : Value → Option Text → Verdict
validate_data v type_str = validate_data_in (suc (length (text_or_empty type_str))) type_str v
