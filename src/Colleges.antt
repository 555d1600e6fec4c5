-- ===== src/Colleges.antt =====
-- assessment-api/src/services/college.service.js: the sign-up of a college with its first user.
-- Slugs are lists of character codes. Capitals are those of ASCII, as in the accounts' emails.
pub mod Slugs
pub mod Free
pub mod Founded
mod Tests
use assessment_microservice.Base.{
  ℕ, zero, suc, ◌+◌, ◌-◌, ◌*◌, ◌≤◌, ◌<◌, ◌≡◌, ◌≢◌, ◌↔◌, ◌⊎◌, refl, sym, ap, subst, ◌∙◌, inl, inr,
  Bool, true, false, not, ◌&&◌, ◌||◌, Option, none, some, List, [], ◌∷◌, ◌++◌, map, arith, ◌==◌,
  ==_iff, ltb, leb, if◌then◌else◌, String, text_eq, Bool-cases, Option-cases, length, ◌/◌, ◌%◌,
}
use assessment_microservice.Store.{
  Result, World, Failure, Request, any, err, ok, duplicate_key, http, or_default, is_some,
  type_error,
}
use assessment_microservice.Types.{Text, is_empty, trim, codes, text_is}
use assessment_microservice.Accounts.Register.{
  Registration, required, of_role, register, of_college,
}
use assessment_microservice.Models.{College, User, unsubscribed, admin}
use assessment_microservice.Accounts.Words.{trim_text}
use assessment_microservice.Base.Int.{ℤ}

-- `[a-z0-9]`
abbrev pub is_slug_char : ℕ → Bool
is_slug_char c = (leb 97 c && leb c 122) || (leb 48 c && leb c 57)

unfoldable pub lower_code : ℕ → ℕ
lower_code c = if leb 65 c && leb c 90 then c + 32 else c

-- `.replace(/[^a-z0-9]+/g, "-")`; the flag says whether a run has begun.
unfoldable pub dashed : Bool → Text → Text
dashed in_run [] = []
dashed in_run (c ∷ s) =
    let within = dashed true s in
    let beyond = dashed false s in
    if is_slug_char c then c ∷ beyond else if in_run then within else 45 ∷ within

-- `.replace(/^-+/, "")`
unfoldable pub drop_dashes : Text → Text
drop_dashes [] = []
drop_dashes (c ∷ s) = let rest = drop_dashes s in if c == 45 then rest else c ∷ s

-- `.replace(/-+$/, "")`
unfoldable pub cut_dashes : Text → Text
cut_dashes [] = []
cut_dashes (c ∷ s) = let rest = cut_dashes s in if c == 45 && is_empty rest then [] else c ∷ rest

-- `base || "college"`
abbrev or_college : Text → Text
or_college [] = codes "college"
or_college (c ∷ s) = c ∷ s

unfoldable pub slugify : Text → Text
slugify name = or_college (cut_dashes (drop_dashes (dashed false (trim (map lower_code name)))))

-- The decimal digits of a number, for enough fuel.
unfoldable pub digits : ℕ → ℕ → Text
digits zero n = []
digits (suc fuel) n =
    let front = digits fuel (n / 10) in
    if ltb n 10 then (48 + n) ∷ [] else front ++ ((48 + n % 10) ∷ [])

-- `${base}-${suffix}`, from 2 on; the first is the base.
unfoldable pub candidate : Text → ℕ → Text
unfolding digits
candidate base zero = base
candidate base (suc zero) = base
candidate base (suc (suc n)) = base ++ (45 ∷ digits (n + 3) (n + 2))

unfoldable pub slug_taken : Text → World → Bool
slug_taken slug w = any (λ c. text_is c.slug slug) w.colleges

-- `while (await College.findOne({ slug }))`, for a number of rounds; `none` where these are not enough.
unfoldable pub search_slug : (Text → Bool) → ℕ → Text → ℕ → Option Text
search_slug taken zero base suffix = none
search_slug taken (suc fuel) base suffix =
    let next = search_slug taken fuel base (suffix + 1) in
    if taken (candidate base suffix) then next else some (candidate base suffix)

-- One round more than there are colleges.
unfoldable pub unique_slug : Text → World → Option Text
unique_slug base w = search_slug (λ slug. slug_taken slug w) (suc (length w.colleges)) base 1

-- College.create, with the schema's defaults, under the unique index on the slug.
abbrev pub new_college : ℕ → String → Text → College
new_college k name slug = record {
  id = k;
  name = name;
  slug = slug;
  plan_id = "free";
  stripe_customer_id = none;
  stripe_subscription_id = none;
  subscription_status = unsubscribed;
  current_period_end = none;
}

abbrev pub add_college : College → World → World
add_college c w = record w { colleges = c ∷ w.colleges }

unfoldable pub college_create : College → Request College
college_create c w = if slug_taken c.slug w then (err duplicate_key, w) else (ok c, add_college c w)

abbrev pub without_college : ℕ → List College → List College
without_college k [] = []
without_college k (c ∷ cs) = if c.id == k then cs else c ∷ without_college k cs

-- College.findByIdAndDelete
abbrev pub college_delete : ℕ → World → World
college_delete k w = record w { colleges = without_college k w.colleges }

pub record SignupBody : Type 0 where
  -- none where it is missing or no text
  pub college_name : Option String
  pub name : Option String
  pub email : Option String
  pub password : Option String

-- What is handed to `register`.
abbrev pub admin_registration : SignupBody → ℕ → Registration
admin_registration body k = record {
  name = body.name;
  email = body.email;
  password = body.password;
  role = of_role admin;
  college = of_college k;
  usn = none;
  section = none;
}

-- `catch (err) { …; throw err }`
abbrev pub or_remove : ℕ → Result (String × User) × World → Result (String × User) × World
or_remove k (ok found, w) = (ok found, w)
or_remove k (err e, w) = (err e, college_delete k w)

-- `!collegeName.trim()`, a missing name too
abbrev pub is_blank_name : Option String → Bool
is_blank_name none = true
is_blank_name (some s) = text_eq (trim_text s) ""

-- What the body lacks.
unfoldable pub refuse_signup : SignupBody → Option Failure
refuse_signup body =
    if is_blank_name (required body.college_name)
    then some (http 400 "College name is required")
    else if is_some (required body.name)
        && is_some (required body.email)
        && is_some (required body.password)
    then none
    else some (http 400 "Name, email, and password are required")

abbrev pub found_college :
    Option String
    → (String → String)
    → (ℤ → User → String)
    → ℤ
    → ℕ
    → SignupBody
    → Result College × World
    → Result (String × User) × World
found_college price hash sign now k body (err e, w) = (err e, w)
found_college price hash sign now k body (ok college, w) =
    or_remove college.id (register price hash sign now k (admin_registration body college.id) w)

-- With the slug, if the search has ended.
abbrev pub found_with :
    Option String
    → (String → String)
    → (ℤ → User → String)
    → ℤ
    → ℕ
    → ℕ
    → SignupBody
    → Option Text
    → Request (String × User)
found_with price hash sign now k j body none w = (err type_error, w)
found_with price hash sign now k j body (some slug) w =
    let name = trim_text (or_default body.college_name "") in
    found_college price hash sign now k body (college_create (new_college j name slug) w)

abbrev pub unless_refused : {A : Type 0} → Option Failure → Request A → Request A
unless_refused (some e) m w = (err e, w)
unless_refused none m w = m w

-- `k` and `j` are the ids that the database gives the user and the college.
unfoldable pub signup :
    Option String
    → (String → String)
    → (ℤ → User → String)
    → ℤ
    → ℕ
    → ℕ
    → SignupBody
    → Request (String × User)
signup price hash sign now k j body w =
    let base = slugify (codes (or_default body.college_name "")) in
    unless_refused (refuse_signup body)
      (found_with price hash sign now k j body (unique_slug base w)) w
