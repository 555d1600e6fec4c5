-- ===== src/Types/Kinds.antt =====
-- The sets of kinds that `isValidType` looks into, against the names of the grammar.
use assessment_microservice.Base.{
  ◌≡◌, ◌⊎◌, refl, ap, inl, inr, true, not, List, [], ◌∷◌, arith, Bool-cases,
}
use assessment_microservice.Types.{Text, text_in, text_is, generic_kinds, valid_kinds}
use assessment_microservice.Types.Grammar.{
  Container, container_name, Atom, array, atom_name, matrix, number, tree, linkedlist, string,
  boolean, graph, void,
}
use assessment_microservice.Types.Scan.{text_is_eq}

-- The text is one of the list.
abbrev OneOf : Text → List Text → Type 0
OneOf k [] = ⊥
OneOf k (t ∷ ts) = (k ≡ t) ⊎ OneOf k ts

text_in-OneOf : (k : Text) (ts : List Text) → text_in k ts ≡ true → OneOf k ts
text_in-OneOf k [] h = absurd (ground arith)
text_in-OneOf k (t ∷ ts) h = elim (Bool-cases (text_is k t)) [
  | inl e ↦ inl (text_is_eq k t e)
  | inr e ↦ inr (text_in-OneOf k ts (ground arith))
]

pub generic_kinds_eq :
    (k : Text) → text_in k generic_kinds ≡ true → (c : Container) × (k ≡ container_name c)
generic_kinds_eq k h = container_of (text_in-OneOf k generic_kinds h)
  where
    container_of : OneOf k generic_kinds → (c : Container) × (k ≡ container_name c)
    container_of (inl e) = (array, e)
    container_of (inr (inl e)) = (matrix, e)
    container_of (inr (inr (inl e))) = (tree, e)
    container_of (inr (inr (inr (inl e)))) = (linkedlist, e)
    container_of (inr (inr (inr (inr (inl e))))) = (graph, e)
    container_of (inr (inr (inr (inr (inr h))))) = absurd h

container-generic : (c : Container) → text_in (container_name c) generic_kinds ≡ true
container-generic array = refl
container-generic matrix = refl
container-generic tree = refl
container-generic linkedlist = refl
container-generic graph = refl

pub valid_kinds_eq :
    (k : Text)
    → text_in k valid_kinds ≡ true
    → not (text_in k generic_kinds) ≡ true
    → (a : Atom) × (k ≡ atom_name a)
valid_kinds_eq k h plain = atom_of (text_in-OneOf k valid_kinds h)
  where
    refuse : (c : Container) → k ≡ container_name c → (a : Atom) × (k ≡ atom_name a)
    refuse c e = absurd (ground (arith, container-generic c, ap (λ u. text_in u generic_kinds) e))

    atom_of : OneOf k valid_kinds → (a : Atom) × (k ≡ atom_name a)
    atom_of (inl e) = (number, e)
    atom_of (inr (inl e)) = (string, e)
    atom_of (inr (inr (inl e))) = (boolean, e)
    atom_of (inr (inr (inr (inl e)))) = refuse array e
    atom_of (inr (inr (inr (inr (inl e))))) = refuse matrix e
    atom_of (inr (inr (inr (inr (inr (inl e)))))) = refuse tree e
    atom_of (inr (inr (inr (inr (inr (inr (inl e))))))) = refuse linkedlist e
    atom_of (inr (inr (inr (inr (inr (inr (inr (inl e)))))))) = refuse graph e
    atom_of (inr (inr (inr (inr (inr (inr (inr (inr (inl e))))))))) = (void, e)
    atom_of (inr (inr (inr (inr (inr (inr (inr (inr (inr h))))))))) = absurd h
