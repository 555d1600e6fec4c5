-- ===== src/Accounts/Words.antt =====
-- The string methods of auth.service.js: `toLowerCase`, `trim`, and the pattern of an email.
use assessment_microservice.Base.{
  ℕ, zero, suc, ◌-◌, Bool, true, false, not, ◌&&◌, ◌||◌, [], ◌∷◌, ◌==◌, leb, if◌then◌else◌, String,
}
use Prim.Native.Char.{Char, code}
use assessment_microservice.Types.{is_space, codes, Text, is_empty}

letter_at : String → ℕ → Char → Char
letter_at String.[] i c = c
letter_at (String.◌∷◌ d s) zero c = d
letter_at (String.◌∷◌ d s) (suc i) c = letter_at s i c

-- A capital becomes the letter at its place of the alphabet.
unfoldable pub lower_char : Char → Char
unfolding letter_at
lower_char c =
    if leb 65 (code c) && leb (code c) 90
    then letter_at "abcdefghijklmnopqrstuvwxyz" (code c - 65) c
    else c

unfoldable pub to_lower_case : String → String
to_lower_case String.[] = String.[]
to_lower_case (String.◌∷◌ c s) = String.◌∷◌ (lower_char c) (to_lower_case s)

is_blank : String → Bool
is_blank String.[] = true
is_blank (String.◌∷◌ c s) = false

trim_left : String → String
trim_left String.[] = String.[]
trim_left (String.◌∷◌ c s) =
    let rest = trim_left s in if is_space (code c) then rest else String.◌∷◌ c s

trim_right : String → String
unfolding is_blank
trim_right String.[] = String.[]
trim_right (String.◌∷◌ c s) =
    let rest = trim_right s in
    if is_space (code c) && is_blank rest then String.[] else String.◌∷◌ c rest

unfoldable pub trim_text : String → String
unfolding trim_left trim_right
trim_text s = trim_right (trim_left s)

-- `[^\s@]`
abbrev plain_char : ℕ → Bool
plain_char c = not (is_space c) && not (c == 64)

abbrev all_plain : Text → Bool
all_plain [] = true
all_plain (c ∷ s) = plain_char c && all_plain s

-- `\.[^\s@]+` somewhere in a plain text
abbrev dot_within : Text → Bool
dot_within [] = false
dot_within (c ∷ s) = (c == 46 && not (is_empty s)) || dot_within s

-- `[^\s@]+\.[^\s@]+$`
abbrev is_domain : Text → Bool
is_domain [] = false
is_domain (c ∷ s) = all_plain (c ∷ s) && dot_within s

-- `[^\s@]*@` and the domain
abbrev at_domain : Text → Bool
at_domain [] = false
at_domain (c ∷ s) = let rest = at_domain s in if c == 64 then is_domain s else plain_char c && rest

-- /^[^\s@]+@[^\s@]+\.[^\s@]+$/
unfoldable pub is_email : String → Bool
is_email String.[] = false
is_email (String.◌∷◌ c s) = plain_char (code c) && at_domain (codes s)
