-- ===== src/Types/Grammar.antt =====
-- The type grammar that typeValidator.mjs accepts, written down without its regex: a type is an
-- atom, or a container of a type.
use assessment_microservice.Base.{◌≡◌, true, [], ◌∷◌, ◌++◌}
use assessment_microservice.Types.{Text, codes, trim, one_line}

pub data Atom : Type 0 where
  number string boolean void : Atom

pub data Container : Type 0 where
  array matrix tree linkedlist graph : Container

pub data Ty : Type 0 where
  atom : Atom → Ty
  of : Container → Ty → Ty

abbrev pub atom_name : Atom → Text
atom_name number = codes "number"
atom_name string = codes "string"
atom_name boolean = codes "boolean"
atom_name void = codes "void"

abbrev pub container_name : Container → Text
container_name array = codes "array"
container_name matrix = codes "matrix"
container_name tree = codes "tree"
container_name linkedlist = codes "linkedlist"
container_name graph = codes "graph"

-- `<inner>`
abbrev pub bracketed : Text → Text
bracketed inner = 60 ∷ (inner ++ 62 ∷ [])

unfoldable pub print : Ty → Text
print (atom a) = atom_name a
print (of c t) = container_name c ++ bracketed (print t)

-- The text spells the type. Blanks may surround a type, also an inner one; but what stands in
-- brackets is on one line.
pub data Spells : Text → Ty → Type 0 where
  spells_atom : {s : Text} (a : Atom) → trim s ≡ atom_name a → Spells s (atom a)
  spells_of :
      {s : Text} {t : Ty} (c : Container) (inner : Text)
      → trim s ≡ container_name c ++ bracketed inner
      → one_line inner ≡ true
      → Spells inner t
      → Spells s (of c t)
