-- ===== src/Types/Printing.antt =====
-- Types printed, and the grammar's unambiguity.
use assessment_microservice.Base.{
  ℕ, ◌≡◌, refl, sym, ap, subst, ◌∙◌, Bool, true, false, not, ◌&&◌, ◌||◌, Option, none, some, [],
  ◌∷◌, ◌++◌, arith, ◌==◌, if◌then◌else◌, append-nil,
}
use assessment_microservice.Types.Grammar.{
  print, Container, Atom, graph, container_name, atom_name, void, Ty, array, atom, Spells, number,
  spells_atom, matrix, string, of, tree, bracketed, spells_of, boolean, linkedlist,
}
use assessment_microservice.Types.{
  Text, trim_end, one_line, trim, is_space, trim_start, is_line_end,
}
use assessment_microservice.Types.Spelling.{found_atom, found_container}

-- No blank and no line end in it.
abbrev Visible : Text → Type 0
Visible [] = Unit {0}
Visible (c ∷ s) = (is_space c ≡ false) × Visible s

abbrev pub Blank : Text → Type 0
Blank [] = Unit {0}
Blank (c ∷ s) = (is_space c ≡ true) × Blank s

Visible-append : (s u : Text) → Visible s → Visible u → Visible (s ++ u)
Visible-append [] u h k = k
Visible-append (c ∷ s) u h k = (h.0, Visible-append s u h.1 k)

is_line_end-visible : (c : ℕ) → is_space c ≡ false → is_line_end c ≡ false
unfolding is_space
is_line_end-visible c h = or_false _ _ h
  where
    or_false : (a b : Bool) → a || b ≡ false → b ≡ false
    or_false a b h = ground arith

one_line-Visible : (s : Text) → Visible s → one_line s ≡ true
one_line-Visible [] h = refl
one_line-Visible (c ∷ s) h = rw (is_line_end-visible c h.0, one_line-Visible s h.1)

trim_end-Blank : (pad : Text) → Blank pad → trim_end pad ≡ []
trim_end-Blank [] h = refl
trim_end-Blank (c ∷ pad) h = rw (trim_end-Blank pad h.1, h.0)

trim_end-Visible : (s pad : Text) → Visible s → Blank pad → trim_end (s ++ pad) ≡ s
trim_end-Visible [] pad h k = trim_end-Blank pad k
trim_end-Visible (c ∷ s) pad h k = rw (trim_end-Visible s pad h.1 k, h.0)

trim_start-Blank : (pad : Text) → Blank pad → trim_start pad ≡ []
trim_start-Blank [] h = refl
trim_start-Blank (c ∷ pad) h = rw (h.0, trim_start-Blank pad h.1)

trim-padded :
    (before s after : Text)
    → Blank before
    → Visible s
    → Blank after
    → trim (before ++ (s ++ after)) ≡ s
trim-padded [] [] after h v k = ap trim_end (trim_start-Blank after k)
trim-padded [] (c ∷ s) after h v k = rw v.0 (trim_end-Visible (c ∷ s) after v k)
trim-padded (c ∷ before) s after h v k = rw (h.0, trim-padded before s after h.1 v k)

abbrev visible : Text → Bool
visible [] = true
visible (c ∷ s) = not (is_space c) && visible s

Visible-if : (s : Text) → visible s ≡ true → Visible s
Visible-if [] h = tt
Visible-if (c ∷ s) h = (ground arith, Visible-if s (ground arith))

print-Visible : (t : Ty) → Visible (print t)
unfolding print is_space is_line_end
print-Visible (atom a) = Visible-if (atom_name a) (visible-atom_name a)
  where
    visible-atom_name : (a : Atom) → visible (atom_name a) ≡ true
    visible-atom_name number = refl
    visible-atom_name string = refl
    visible-atom_name boolean = refl
    visible-atom_name void = refl
print-Visible (of c t) =
    Visible-append (container_name c) (bracketed (print t))
      (Visible-if (container_name c) (visible-container_name c))
      (refl, Visible-append (print t) (62 ∷ []) (print-Visible t) (refl, tt))
  where
    visible-container_name : (c : Container) → visible (container_name c) ≡ true
    visible-container_name array = refl
    visible-container_name matrix = refl
    visible-container_name tree = refl
    visible-container_name linkedlist = refl
    visible-container_name graph = refl

trim-Visible : (s : Text) → Visible s → trim s ≡ s
trim-Visible s v = ap trim (sym (append-nil s)) ∙ trim-padded [] s [] tt v tt

Spells-trim : (s : Text) (t : Ty) → trim s ≡ print t → Spells s t
unfolding print
Spells-trim s (atom a) p = spells_atom {s = s} a p
Spells-trim s (of c t) p =
    spells_of {s = s} c (print t) p (one_line-Visible (print t) (print-Visible t))
      (Spells-trim (print t) t (trim-Visible (print t) (print-Visible t)))

-- A printed type, with blanks before and after it, spells that type.
pub Spells-print :
    (before after : Text) (t : Ty)
    → Blank before
    → Blank after
    → Spells (before ++ (print t ++ after)) t
Spells-print before after t h k =
    Spells-trim (before ++ (print t ++ after)) t
      (trim-padded before (print t) after h (print-Visible t) k)

-- The letter a name starts with tells it from the others.
atom_starting : Text → Atom
atom_starting [] = void
atom_starting (c ∷ s) =
    if c == 110 then number else if c == 115 then string else if c == 98 then boolean else void

container_starting : Text → Container
container_starting [] = graph
container_starting (c ∷ s) =
    if c == 97
    then array
    else if c == 109
    then matrix
    else if c == 116
    then tree
    else if c == 108
    then linkedlist
    else graph

atom_name-injective : (a b : Atom) → atom_name a ≡ atom_name b → a ≡ b
unfolding atom_starting
atom_name-injective a b p = sym (back a) ∙ ap atom_starting p ∙ back b
  where
    back : (a : Atom) → atom_starting (atom_name a) ≡ a
    back number = refl
    back string = refl
    back boolean = refl
    back void = refl

container_name-injective : (c d : Container) → container_name c ≡ container_name d → c ≡ d
unfolding container_starting
container_name-injective c d p = sym (back c) ∙ ap container_starting p ∙ back d
  where
    back : (c : Container) → container_starting (container_name c) ≡ c
    back array = refl
    back matrix = refl
    back tree = refl
    back linkedlist = refl
    back graph = refl

plain_not_generic :
    {x : Option (Text × Option Text)} {k l i : Text} → x ≡ some (k, none) → x ≡ some (l, some i) → ⊥
plain_not_generic p q = ground arith

generic_parts :
    {x : Option (Text × Option Text)} {k l i j : Text}
    → x ≡ some (k, some i)
    → x ≡ some (l, some j)
    → (k ≡ l) × (i ≡ j)
generic_parts p q = ground arith

-- A text spells one type at most.
pub Spells-unique : (s : Text) (t u : Ty) → Spells s t → Spells s u → t ≡ u
Spells-unique s _ _ (spells_atom a p) (spells_atom b q) =
    ap atom (atom_name-injective a b (sym p ∙ q))
Spells-unique s _ _ (spells_atom a p) (spells_of c inner q o k) =
    absurd (plain_not_generic (found_atom s a p) (found_container s c inner q o k))
Spells-unique s _ _ (spells_of c inner q o k) (spells_atom a p) =
    absurd (plain_not_generic (found_atom s a p) (found_container s c inner q o k))
Spells-unique s _ _ (spells_of c inner p o k) (spells_of {t = u} d inner' q o' k') =
    let parts =
      generic_parts (found_container s c inner p o k) (found_container s d inner' q o' k') in
    let same = Spells-unique inner _ u k (subst (λ r. Spells r u) (sym parts.1) k') in
    cc (container_name-injective c d parts.0, same)
