-- ===== src/Types/Spelling.antt =====
-- `isValidType` against the grammar.
use assessment_microservice.Base.{
  ℕ, zero, suc, ◌<◌, ◌≡◌, ◌↔◌, refl, sym, ap, ◌∙◌, inl, inr, Bool, true, false, ◌&&◌, Option, none,
  some, [], ◌∷◌, ◌++◌, arith, Option-cases, length, length-append, append-nil,
}
use assessment_microservice.Types.{
  Text, is_valid_type_in, kind_is_valid, span_lower, one_line, match_type, match_is_valid,
  match_split, is_empty, trim, is_valid_type,
}
use assessment_microservice.Types.Grammar.{
  Container, Atom, Ty, container_name, atom_name, Spells, spells_atom, array, number, bracketed,
  spells_of, string, matrix, tree, boolean, void, linkedlist, graph, atom, of,
}
use assessment_microservice.Types.Scan.{
  length-trim_le, match_split-found, inner_of-append, match_type_eq, suffix, OneLine,
}
use assessment_microservice.Types.Kinds.{valid_kinds_eq, generic_kinds_eq}

match_type-atom : (a : Atom) → match_type (atom_name a) ≡ some (atom_name a, none)
match_type-atom number = refl
match_type-atom string = refl
match_type-atom boolean = refl
match_type-atom void = refl

span_lower-container :
    (c : Container) (s : Text)
    → span_lower (container_name c ++ 60 ∷ s) ≡ (container_name c, 60 ∷ s)
span_lower-container array s = refl
span_lower-container matrix s = refl
span_lower-container tree s = refl
span_lower-container linkedlist s = refl
span_lower-container graph s = refl

container_name-is_empty : (c : Container) → is_empty (container_name c) ≡ false
container_name-is_empty array = refl
container_name-is_empty matrix = refl
container_name-is_empty tree = refl
container_name-is_empty linkedlist = refl
container_name-is_empty graph = refl

pub match_type-container :
    (c : Container) (inner : Text)
    → is_empty inner ≡ false
    → one_line inner ≡ true
    → match_type (container_name c ++ bracketed inner) ≡ some (container_name c, some inner)
match_type-container c inner h k =
    ap (λ r. match_split r) (span_lower-container c (inner ++ 62 ∷ []))
    ∙ match_split-found (container_name c) (bracketed inner) (some inner)
        (container_name-is_empty c) (rw (inner_of-append inner h k))

kind_is_valid-atom :
    (recur : Text → Bool) (a : Atom) → kind_is_valid recur (atom_name a, none) ≡ true
kind_is_valid-atom recur number = refl
kind_is_valid-atom recur string = refl
kind_is_valid-atom recur boolean = refl
kind_is_valid-atom recur void = refl

kind_is_valid-container :
    (recur : Text → Bool) (c : Container) (inner : Text)
    → kind_is_valid recur (container_name c, some inner) ≡ recur inner
kind_is_valid-container recur array inner = refl
kind_is_valid-container recur matrix inner = refl
kind_is_valid-container recur tree inner = refl
kind_is_valid-container recur linkedlist inner = refl
kind_is_valid-container recur graph inner = refl

-- A text that spells a type is not empty.
pub Spells-nonempty : {s : Text} {t : Ty} → Spells s t → is_empty s ≡ false
Spells-nonempty {s = c ∷ rest} h = refl
Spells-nonempty {s = []} (spells_atom a p) = ap is_empty p ∙ atom_name-is_empty a
  where
    atom_name-is_empty : (a : Atom) → is_empty (atom_name a) ≡ false
    atom_name-is_empty number = refl
    atom_name-is_empty string = refl
    atom_name-is_empty boolean = refl
    atom_name-is_empty void = refl
Spells-nonempty {s = []} (spells_of c inner p o k) =
    ap is_empty p ∙ is_empty-append (container_name c) (bracketed inner) (container_name-is_empty c)
  where
    is_empty-append : (s u : Text) → is_empty s ≡ false → is_empty (s ++ u) ≡ false
    is_empty-append [] u h = absurd (ground arith)
    is_empty-append (c ∷ s) u h = refl

-- What the regex finds in a text that spells a type.
pub found_atom :
    (s : Text) (a : Atom) → trim s ≡ atom_name a → match_type (trim s) ≡ some (atom_name a, none)
found_atom s a p = ap match_type p ∙ match_type-atom a

pub found_container :
    (s : Text) {t : Ty} (c : Container) (inner : Text)
    → trim s ≡ container_name c ++ bracketed inner
    → one_line inner ≡ true
    → Spells inner t
    → match_type (trim s) ≡ some (container_name c, some inner)
found_container s c inner p o k =
    ap match_type p ∙ match_type-container c inner (Spells-nonempty k) o

pub length-bracketed_lt :
    (c : Container) (inner : Text) → length inner < length (container_name c ++ bracketed inner)
length-bracketed_lt c inner =
    omega (arith, length-append (container_name c) (bracketed inner), length-append inner (62 ∷ []))

is_valid_type_in_complete :
    {s : Text} {t : Ty} (fuel : ℕ) → Spells s t → length s < fuel → is_valid_type_in fuel s ≡ true
unfolding is_valid_type_in
is_valid_type_in_complete zero h lt = absurd (omega arith)
is_valid_type_in_complete (suc fuel) (spells_atom a p) lt =
    ap (λ u. match_is_valid (is_valid_type_in fuel) (match_type u)) p
    ∙ ap (match_is_valid (is_valid_type_in fuel)) (match_type-atom a)
    ∙ kind_is_valid-atom (is_valid_type_in fuel) a
is_valid_type_in_complete {s} (suc fuel) (spells_of c inner p o k) lt =
    ap (λ u. match_is_valid (is_valid_type_in fuel) (match_type u)) p
    ∙ ap (match_is_valid (is_valid_type_in fuel))
        (match_type-container c inner (Spells-nonempty k) o)
    ∙ kind_is_valid-container (is_valid_type_in fuel) c inner
    ∙ is_valid_type_in_complete fuel k
        (omega (arith, length-bracketed_lt c inner, length-trim_le s, ap length p))

and_true : (a b : Bool) → a && b ≡ true → (a ≡ true) × (b ≡ true)
and_true a b h = ground arith

spell_atom :
    {s kind : Text}
    → trim s ≡ kind ++ []
    → (a : Atom) × (kind ≡ atom_name a)
    → (t : Ty) × Spells s t
spell_atom {s} {kind} p (a, e) = (atom a, spells_atom {s = s} a (p ∙ append-nil kind ∙ e))

spell_of :
    {s kind inner : Text}
    → trim s ≡ kind ++ bracketed inner
    → one_line inner ≡ true
    → (c : Container) × (kind ≡ container_name c)
    → (t : Ty) × Spells inner t
    → (t : Ty) × Spells s t
spell_of {s} {inner = inner} p o (c, e) (t, k) =
    (of c t, spells_of {s = s} c inner (p ∙ ap (λ k. k ++ bracketed inner) e) o k)

-- A match that passes the guards spells a type, if a valid inner text spells one.
Spells-kind_is_valid :
    (recur : Text → Bool) (s kind : Text) (inner : Option Text)
    → ((u : Text) → recur u ≡ true → (t : Ty) × Spells u t)
    → trim s ≡ kind ++ suffix inner
    → OneLine inner
    → kind_is_valid recur (kind, inner) ≡ true
    → (t : Ty) × Spells s t
Spells-kind_is_valid recur s kind none ih m o v =
    let v' = and_true _ _ v in spell_atom {s = s} m (valid_kinds_eq kind v'.0 v'.1)
Spells-kind_is_valid recur s kind (some inner) ih m o v =
    let v' = and_true _ _ v in
    spell_of {s = s} m o (generic_kinds_eq kind (and_true _ _ v'.0).1) (ih inner v'.1)

is_valid_type_in_sound :
    (fuel : ℕ) (s : Text) → is_valid_type_in fuel s ≡ true → (t : Ty) × Spells s t
unfolding is_valid_type_in
is_valid_type_in_sound zero s h = absurd (ground arith)
is_valid_type_in_sound (suc fuel) s h = elim (Option-cases (match_type (trim s))) [
  | inl e ↦ absurd (ground (arith, ap (match_is_valid (is_valid_type_in fuel)) e))
  | inr (found, e) ↦
      let parts = match_type_eq (trim s) found e in
      Spells-kind_is_valid (is_valid_type_in fuel) s found.0 found.1 (is_valid_type_in_sound fuel)
        parts.0 parts.1 (sym (ap (match_is_valid (is_valid_type_in fuel)) e) ∙ h)
]

-- A text is a valid type exactly when it spells a type of the grammar; no amount of nesting exhausts
-- the recursion.
pub is_valid_type_iff : (s : Text) → (is_valid_type s ≡ true) ↔ ((t : Ty) × Spells s t)
unfolding is_valid_type
is_valid_type_iff s = (
  is_valid_type_in_sound (suc (length s)) s,
  λ (t, spelt). is_valid_type_in_complete (suc (length s)) spelt (omega arith),
)

Bool-ext : (a b : Bool) → (a ≡ true → b ≡ true) → (b ≡ true → a ≡ true) → a ≡ b
Bool-ext a b h k = ground arith
