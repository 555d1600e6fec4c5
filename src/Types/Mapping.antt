-- ===== src/Types/Mapping.antt =====
-- `mapType` of the frontend's utils/typeValidator.js: a type in the words of a language. A kind is
-- looked up among the nine that each table has.
use assessment_microservice.Base.{
  ℕ, zero, suc, Option, none, some, [], ◌∷◌, if◌then◌else◌, String, text_eq, length,
}
use assessment_microservice.Types.{Text, text_is, match_type, codes, trim}
use assessment_microservice.Types.Data.{text_or_empty}
use assessment_microservice.Types.Tables.{TypeMap, Language, map_of, cpp}

-- currentMap[kind]: nothing, a text, or what a function gives.
pub data Entry : Type 0 where
  missing : Entry
  literal : String → Entry
  computed : String → Entry

-- `mapped` is what mapType gives for the inner type.
abbrev pub entry_of : TypeMap → Text → String → Entry
entry_of m kind mapped =
    if text_is kind (codes "number")
    then literal m.number
    else if text_is kind (codes "string")
    then literal m.string
    else if text_is kind (codes "boolean")
    then literal m.boolean
    else if text_is kind (codes "void")
    then literal m.void
    else if text_is kind (codes "array")
    then computed (m.array mapped)
    else if text_is kind (codes "matrix")
    then computed (m.matrix mapped)
    else if text_is kind (codes "tree")
    then computed m.tree
    else if text_is kind (codes "linkedlist")
    then computed m.linkedlist
    else if text_is kind (codes "graph")
    then computed m.graph
    else missing

-- language === 'cpp' ? 'auto' : 'Object'
abbrev pub fallback : Option Language → String
fallback (some cpp) = "auto"
fallback _ = "Object"

-- `if (typeof mapped === 'function') …; return mapped || …`: the empty text is falsy.
abbrev pub from_entry : Option Language → Entry → String
from_entry l missing = fallback l
from_entry l (literal s) = if text_eq s "" then fallback l else s
from_entry l (computed s) = s

abbrev pub map_match :
    (Option Text → String) → Option Language → Option (Text × Option Text) → String
map_match recur l none = fallback l
map_match recur none (some found) = "auto"
map_match recur (some l) (some (kind, inner)) =
    from_entry (some l) (entry_of (map_of l) kind (recur inner))

-- A language that has no table is `none`. Each call is on a shorter type.
unfoldable pub map_type_in : ℕ → Option Language → Option Text → String
map_type_in zero l type_str = "void"
map_type_in (suc fuel) l none = "void"
map_type_in (suc fuel) l (some []) = "void"
map_type_in (suc fuel) l (some (d ∷ s)) =
    map_match (map_type_in fuel l) l (match_type (trim (d ∷ s)))

unfoldable pub map_type : Option Language → Option Text → String
map_type l type_str = map_type_in (suc (length (text_or_empty type_str))) l type_str
