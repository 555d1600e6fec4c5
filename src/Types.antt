-- ===== src/Types.antt =====
-- utils/typeValidator.mjs of the API (the frontend's copy has the same lines): `isValidType`. A text
-- is the list of its character codes.
pub mod Grammar
pub mod Scan
pub mod Kinds
pub mod Spelling
pub mod Printing
pub mod Data
pub mod Inhabits
pub mod Tables
pub mod Mapping
mod Tests
use assessment_microservice.Base.{
  ℕ, zero, suc, ◌+◌, ◌-◌, ◌*◌, ◌≤◌, ◌<◌, ◌≡◌, ◌≢◌, ◌↔◌, ◌⊎◌, refl, sym, ap, subst, ◌∙◌, inl, inr,
  Bool, true, false, not, ◌&&◌, ◌||◌, Option, none, some, List, [], ◌∷◌, ◌++◌, map, arith, ◌==◌,
  ==_iff, ltb, leb, if◌then◌else◌, String, text_eq, Bool-cases, Option-cases, length,
}
use Prim.Native.String
use Prim.Native.Char.{code}

abbrev pub Text : Type 0
Text = List ℕ

abbrev pub codes : String → Text
codes String.[] = []
codes (String.◌∷◌ c s) = code c ∷ codes s

abbrev pub text_is : Text → Text → Bool
text_is [] [] = true
text_is [] (d ∷ t) = false
text_is (c ∷ s) [] = false
text_is (c ∷ s) (d ∷ t) = c == d && text_is s t

abbrev pub text_in : Text → List Text → Bool
text_in s [] = false
text_in s (t ∷ ts) = text_is s t || text_in s ts

-- The regex's `.` takes no line terminator.
unfoldable pub is_line_end : ℕ → Bool
is_line_end c = c == 10 || c == 13 || c == 8232 || c == 8233

-- What `String.prototype.trim` removes: white space and line terminators.
unfoldable pub is_space : ℕ → Bool
is_space c =
    c == 9
    || c == 11
    || c == 12
    || c == 32
    || c == 160
    || c == 5760
    || leb 8192 c && leb c 8202
    || c == 8239
    || c == 8287
    || c == 12288
    || c == 65279
    || is_line_end c

abbrev pub is_empty : Text → Bool
is_empty [] = true
is_empty (c ∷ s) = false

abbrev pub trim_start : Text → Text
trim_start [] = []
trim_start (c ∷ s) = if is_space c then trim_start s else c ∷ s

abbrev pub trim_end : Text → Text
trim_end [] = []
trim_end (c ∷ s) = let rest = trim_end s in if is_space c && is_empty rest then [] else c ∷ rest

abbrev pub trim : Text → Text
trim s = trim_end (trim_start s)

-- `[a-z]`
abbrev pub is_lower : ℕ → Bool
is_lower c = leb 97 c && leb c 122

-- `[a-z]+` takes as many letters as there are: what can follow it is never a letter.
abbrev pub span_lower : Text → Text × Text
span_lower [] = ([], [])
span_lower (c ∷ s) =
    let (taken, rest) = span_lower s in if is_lower c then (c ∷ taken, rest) else ([], c ∷ s)

-- All of a text that ends in `>` but that `>`.
abbrev pub before_gt : Text → Option Text
before_gt [] = none
before_gt (c ∷ []) = if c == 62 then some [] else none
before_gt (c ∷ d ∷ s) = elim (before_gt (d ∷ s)) [ none ↦ none | some t ↦ some (c ∷ t) ]

abbrev pub one_line : Text → Bool
one_line [] = true
one_line (c ∷ s) = not (is_line_end c) && one_line s

-- `(.+)` with the `>` and the end after it
abbrev pub inner_of : Text → Option Text
inner_of s = elim (before_gt s) [
  | none ↦ none
  | some t ↦ (if is_empty t then none else if one_line t then some t else none)
]

-- What follows the kind: nothing, or an inner text in angle brackets.
abbrev pub suffix_of : Text → Option (Option Text)
suffix_of [] = some none
suffix_of (c ∷ s) =
    if c == 60 then elim (inner_of s) [ none ↦ none | some t ↦ some (some t) ] else none

-- A split of the text gives a match when there is a kind and its suffix is one.
abbrev pub match_split : Text × Text → Option (Text × Option Text)
match_split (kind, rest) =
    if is_empty kind
    then none
    else elim (suffix_of rest) [ none ↦ none | some inner ↦ some (kind, inner) ]

-- s.match(TYPE_REGEX): match[1] and match[2]
abbrev pub match_type : Text → Option (Text × Option Text)
match_type s = match_split (span_lower s)

abbrev pub valid_kinds : List Text
valid_kinds =
    codes "number"
    ∷ codes "string"
    ∷ codes "boolean"
    ∷ codes "array"
    ∷ codes "matrix"
    ∷ codes "tree"
    ∷ codes "linkedlist"
    ∷ codes "graph"
    ∷ codes "void"
    ∷ []

abbrev pub generic_kinds : List Text
generic_kinds =
    codes "array" ∷ codes "matrix" ∷ codes "tree" ∷ codes "linkedlist" ∷ codes "graph" ∷ []

-- The guards on a match; `recur` is the call on the inner type.
abbrev pub kind_is_valid : (Text → Bool) → Text × Option Text → Bool
kind_is_valid recur (kind, none) = text_in kind valid_kinds && not (text_in kind generic_kinds)
kind_is_valid recur (kind, some inner) =
    text_in kind valid_kinds && text_in kind generic_kinds && recur inner

abbrev pub match_is_valid : (Text → Bool) → Option (Text × Option Text) → Bool
match_is_valid recur none = false
match_is_valid recur (some found) = kind_is_valid recur found

-- Each call is on a shorter text.
unfoldable pub is_valid_type_in : ℕ → Text → Bool
is_valid_type_in zero s = false
is_valid_type_in (suc fuel) s = match_is_valid (is_valid_type_in fuel) (match_type (trim s))

unfoldable pub is_valid_type : Text → Bool
is_valid_type s = is_valid_type_in (suc (length s)) s
