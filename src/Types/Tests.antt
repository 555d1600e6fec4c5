-- ===== src/Types/Tests.antt =====
-- Runs of the type validator.
use assessment_microservice.Base.{◌≡◌, ◌↔◌, refl, true, false, none, some, []}
use assessment_microservice.Types.{is_valid_type, is_valid_type_in, codes, is_space, is_line_end}
use assessment_microservice.Types.Data.{
  Value, validate_data, array_value, item, number_value, no_items,
}
use assessment_microservice.Types.Spelling.{is_valid_type_iff}
use assessment_microservice.Types.Grammar.{
  print, Ty, Spells, of, linkedlist, array, atom, matrix, number,
}
use assessment_microservice.Types.Mapping.{map_type, map_type_in}
use assessment_microservice.Types.Tables.{go}
use assessment_microservice.Types.Inhabits.{Inhabits, validate_data_iff}
use assessment_microservice.Types.Printing.{Spells-print}

valid_nested : is_valid_type (codes " array< matrix<number>> ") ≡ true
unfolding is_valid_type is_valid_type_in is_space is_line_end
valid_nested = refl

invalid_generic : is_valid_type (codes "array") ≡ false
unfolding is_valid_type is_valid_type_in is_space is_line_end
invalid_generic = refl

invalid_atom : is_valid_type (codes "number<string>") ≡ false
unfolding is_valid_type is_valid_type_in is_space is_line_end
invalid_atom = refl

-- "array<matrix<number>>"
abbrev nested : Ty
nested = of array (of matrix (atom number))

is_valid_type_iff_example :
    is_valid_type (codes " array< matrix<number>> ") ≡ true
    ↔ ((t : Ty) × Spells (codes " array< matrix<number>> ") t)
is_valid_type_iff_example = is_valid_type_iff (codes " array< matrix<number>> ")

-- [1]
abbrev one : Value
one = array_value (item number_value no_items)

numbers_spelt : Spells (codes "linkedlist<number>") (of linkedlist (atom number))
unfolding print is_space is_line_end
numbers_spelt = Spells-print [] [] (of linkedlist (atom number)) tt tt

validate_data_iff_example :
    (validate_data one (some (codes "linkedlist<number>")) ≡ none)
    ↔ Inhabits (of linkedlist (atom number)) one
validate_data_iff_example =
    validate_data_iff (codes "linkedlist<number>") (of linkedlist (atom number)) one numbers_spelt

-- The empty text of Go's table counts as missing.
go_void : map_type (some go) (some (codes "void")) ≡ "Object"
unfolding map_type map_type_in is_space is_line_end
go_void = refl
