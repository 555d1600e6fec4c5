-- ===== src/Types/Inhabits.antt =====
-- `validateData` against what the types mean.
use assessment_microservice.Base.{
  ℕ, zero, suc, ◌<◌, ◌≡◌, ◌↔◌, refl, sym, ap, subst, Option, none, some, [], arith, String, length,
}
use assessment_microservice.Types.Grammar.{
  Ty, Container, Atom, atom, array, of, matrix, tree, linkedlist, string, graph, void,
  container_name, Spells, atom_name, spells_atom, number, boolean, spells_of,
}
use assessment_microservice.Types.Data.{
  Value, TypeError, Items, Verdict, string_value, array_value, null_value, item, number_value,
  no_items, check_items, wrap, error_at, boolean_value, undefined_value, check_line, as_array,
  check_row, check_node, validate_data, check_rows, check_kind, validate_data_in, check_match,
  error_in, object_value,
}
use assessment_microservice.Types.{Text}
use assessment_microservice.Types.Spelling.{found_atom, found_container, length-bracketed_lt}
use assessment_microservice.Types.Scan.{length-trim_le}

abbrev pub AllItems : (Value → Type 0) → Items → Type 0
AllItems P no_items = Unit {0}
AllItems P (item v vs) = P v × AllItems P vs

abbrev pub IsArray : (Items → Type 0) → Value → Type 0
IsArray P (array_value vs) = P vs
IsArray P v = ⊥

-- A node of a tree may be missing.
abbrev pub IsNode : (Value → Type 0) → Value → Type 0
IsNode P null_value = Unit {0}
IsNode P v = P v

abbrev pub IsAtom : Atom → Value → Type 0
IsAtom Atom.number number_value = Unit {0}
IsAtom Atom.string (string_value s) = Unit {0}
IsAtom Atom.boolean boolean_value = Unit {0}
IsAtom Atom.void undefined_value = Unit {0}
IsAtom Atom.void null_value = Unit {0}
IsAtom Atom.void (string_value []) = Unit {0}
IsAtom a v = ⊥

abbrev pub HasShape : Container → (Value → Type 0) → Value → Type 0
HasShape array P = IsArray (AllItems P)
HasShape matrix P = IsArray (AllItems (IsArray (AllItems P)))
HasShape tree P = IsArray (AllItems (IsNode P))
HasShape linkedlist P = IsArray (AllItems P)
HasShape graph P = IsArray (AllItems (IsArray (AllItems P)))

-- The values of a type.
abbrev pub Inhabits : Ty → Value → Type 0
Inhabits (atom a) v = IsAtom a v
Inhabits (of c t) v = HasShape c (Inhabits t) v

-- `recur` accepts what `P` holds of.
abbrev Decides : (Value → Verdict) → (Value → Type 0) → Type 0
Decides recur P = (v : Value) → (recur v ≡ none) ↔ P v

accepted_iff : (◌≡◌ {A = Verdict} none none) ↔ Unit {0}
accepted_iff = (λ h. tt, λ h. refl)

refused_iff : {e : TypeError} → (some e ≡ none) ↔ ⊥
refused_iff = (λ h. ground arith, λ h. absurd h)

wrap_iff :
    {P Q : Type 0} (f : TypeError → TypeError) (r rest : Verdict)
    → (r ≡ none) ↔ P
    → (rest ≡ none) ↔ Q
    → (wrap f r rest ≡ none) ↔ (P × Q)
wrap_iff f none rest p q = (λ h. (p.0 refl, q.0 h), λ k. q.1 k.1)
wrap_iff f (some e) rest p q = (λ h. absurd (ground arith), λ k. absurd (ground (arith, p.1 k.0)))

check_items_iff :
    {P : Value → Type 0} (what : String) (recur : Value → Verdict) (i : ℕ) (vs : Items)
    → Decides recur P
    → (check_items what recur i vs ≡ none) ↔ AllItems P vs
check_items_iff what recur i no_items d = accepted_iff
check_items_iff what recur i (item v vs) d =
    wrap_iff (error_at what i) (recur v) _ (d v) (check_items_iff what recur (suc i) vs d)

check_node_iff :
    {P : Value → Type 0} {recur : Value → Verdict}
    → Decides recur P
    → Decides (check_node recur) (IsNode P)
check_node_iff d null_value = accepted_iff
check_node_iff d undefined_value = d undefined_value
check_node_iff d number_value = d number_value
check_node_iff d boolean_value = d boolean_value
check_node_iff d object_value = d object_value
check_node_iff d (string_value s) = d (string_value s)
check_node_iff d (array_value vs) = d (array_value vs)

check_row_iff :
    {P : Value → Type 0} (what : String) (recur : Value → Verdict) (i j : ℕ) (vs : Items)
    → Decides recur P
    → (check_row what recur i j vs ≡ none) ↔ AllItems P vs
check_row_iff what recur i j no_items d = accepted_iff
check_row_iff what recur i j (item v vs) d =
    wrap_iff (error_in what i j) (recur v) _ (d v) (check_row_iff what recur i (suc j) vs d)

check_line_iff :
    {P : Value → Type 0} (row cell : String) (recur : Value → Verdict) (i : ℕ)
    → Decides recur P
    → Decides (check_line row cell recur i) (IsArray (AllItems P))
check_line_iff row cell recur i d (array_value vs) = check_row_iff cell recur i 0 vs d
check_line_iff row cell recur i d _ = refused_iff

check_rows_iff :
    {P : Value → Type 0} (row cell : String) (recur : Value → Verdict) (i : ℕ) (vs : Items)
    → Decides recur P
    → (check_rows row cell recur i vs ≡ none) ↔ AllItems (IsArray (AllItems P)) vs
check_rows_iff row cell recur i no_items d = accepted_iff
check_rows_iff row cell recur i (item v vs) d =
    wrap_iff (λ e. e) (check_line row cell recur i v) _ (check_line_iff row cell recur i d v)
      (check_rows_iff row cell recur (suc i) vs d)

as_array_iff :
    {P : Items → Type 0} (what : String) (k : Items → Verdict)
    → ((vs : Items) → (k vs ≡ none) ↔ P vs)
    → Decides (as_array what k) (IsArray P)
as_array_iff what k d (array_value vs) = d vs
as_array_iff what k d _ = refused_iff

check_kind-atom :
    (recur : Value → Verdict) (a : Atom) → Decides (check_kind recur (atom_name a)) (IsAtom a)
check_kind-atom recur Atom.number number_value = accepted_iff
check_kind-atom recur Atom.string (string_value s) = accepted_iff
check_kind-atom recur Atom.boolean boolean_value = accepted_iff
check_kind-atom recur void undefined_value = accepted_iff
check_kind-atom recur void null_value = accepted_iff
check_kind-atom recur void (string_value []) = accepted_iff
check_kind-atom recur number _ = refused_iff
check_kind-atom recur string _ = refused_iff
check_kind-atom recur boolean _ = refused_iff
check_kind-atom recur void _ = refused_iff

check_kind-container :
    {P : Value → Type 0} (recur : Value → Verdict) (c : Container)
    → Decides recur P
    → Decides (check_kind recur (container_name c)) (HasShape c P)
check_kind-container recur array d = as_array_iff _ _ λ vs. check_items_iff _ recur 0 vs d
check_kind-container recur matrix d = as_array_iff _ _ λ vs. check_rows_iff _ _ recur 0 vs d
check_kind-container recur tree d =
    as_array_iff _ _ λ vs. check_items_iff _ (check_node recur) 0 vs (check_node_iff d)
check_kind-container recur linkedlist d = as_array_iff _ _ λ vs. check_items_iff _ recur 0 vs d
check_kind-container recur graph d = as_array_iff _ _ λ vs. check_rows_iff _ _ recur 0 vs d

check_match-at :
    {P : Value → Type 0} (recur : Option Text → Value → Verdict) (s : Option Text)
    {found : Option (Text × Option Text)} (kind : Text) (inner : Option Text)
    → found ≡ some (kind, inner)
    → Decides (check_kind (recur inner) kind) P
    → Decides (check_match recur s found) P
check_match-at {P} recur s kind inner e d v =
    subst (λ f. (check_match recur s f v ≡ none) ↔ P v) (sym e) (d v)

validate_data_in_iff :
    (s : Text) (t : Ty) (fuel : ℕ)
    → Spells s t
    → length s < fuel
    → Decides (validate_data_in fuel (some s)) (Inhabits t)
unfolding validate_data_in
validate_data_in_iff s _ zero k lt = absurd (omega arith)
validate_data_in_iff s _ (suc fuel) (spells_atom a p) lt =
    check_match-at (validate_data_in fuel) (some s) (atom_name a) none (found_atom s a p)
      (check_kind-atom (validate_data_in fuel none) a)
validate_data_in_iff s _ (suc fuel) (spells_of {t = u} c inner p o k) lt =
    check_match-at (validate_data_in fuel) (some s) (container_name c) (some inner)
      (found_container s c inner p o k)
      (check_kind-container (validate_data_in fuel (some inner)) c (
        validate_data_in_iff inner u fuel k
          (omega (arith, length-bracketed_lt c inner, length-trim_le s, ap length p))))

-- Against a text that spells a type, the validator accepts exactly the values of that type.
pub validate_data_iff :
    (s : Text) (t : Ty) (v : Value) → Spells s t → (validate_data v (some s) ≡ none) ↔ Inhabits t v
unfolding validate_data
validate_data_iff s t v k = validate_data_in_iff s t (suc (length s)) k (omega arith) v
