-- ===== src/Http.antt =====
-- The HTTP layer of assessment-api: src/middleware/*.mjs, src/utils/safeCompare.js, the guard against
-- cross-site requests of src/app.js, and the guards that src/routes/*.js put before each handler.
-- A middleware answers or passes the request on. `jwt.verify` is an argument: the claims of a token,
-- or nothing where it throws.
pub mod Routes
pub mod Guards
pub mod Guarded
pub mod Service
pub mod Single
mod Tests
use assessment_microservice.Base.{
  ℕ, zero, suc, ◌+◌, ◌-◌, ◌*◌, ◌≤◌, ◌<◌, ◌≡◌, ◌≢◌, ◌↔◌, ◌⊎◌, refl, sym, ap, subst, ◌∙◌, inl, inr,
  Bool, true, false, not, ◌&&◌, ◌||◌, Option, none, some, List, [], ◌∷◌, ◌++◌, map, arith, ◌==◌,
  ==_iff, ltb, leb, if◌then◌else◌, String, text_eq, Bool-cases, Option-cases, length,
}
use assessment_microservice.Store.{is_some, or_default, map_option, any}
use Prim.Native.Char.{code}
use assessment_microservice.Models.{Role, student, faculty, admin, superadmin}

pub data Method : Type 0 where
  get post put patch delete : Method

-- The payload of a token; a role outside the four is missing.
pub record Claims : Type 0 where
  -- `_id`
  pub object_id : Option ℕ
  pub id : Option ℕ
  pub role : Option Role
  pub college_id : Option ℕ
  pub is_service : Bool

-- `authorization` is "" where the header is missing.
pub record HttpRequest : Type 0 where
  pub method : Method
  pub cookie_token : Option String
  pub authorization : String
  pub requested_with : Option String
  pub service_key : Option String
  pub rapidapi_key : Option String
  pub user : Option Claims

-- The secrets of the environment, and `jwt.verify`.
pub record Environment : Type 0 where
  pub verify : String → Option Claims
  pub testing_platform_key : Option String
  pub codeassess_shim_key : Option String
  pub arventiq_secret : Option String

pub data Answer : Type 0 where
  refused : ℕ → String → Answer
  passed : HttpRequest → Answer

-- What follows `prefix`, if the text starts with it.
unfoldable pub after : String → String → Option String
after String.[] s = some s
after (String.◌∷◌ c t) String.[] = none
after (String.◌∷◌ c t) (String.◌∷◌ d s) =
    let rest = after t s in if code c == code d then rest else none

-- The text up to the next space.
unfoldable pub first_word : String → String
first_word String.[] = String.[]
first_word (String.◌∷◌ c s) =
    let rest = first_word s in if code c == 32 then String.[] else String.◌∷◌ c rest

-- A text, unless it is missing or empty.
abbrev pub truthy : Option String → Option String
truthy none = none
truthy (some s) = if text_eq s "" then none else some s

unfoldable pub bearer_token : String → Option String
unfolding after first_word
bearer_token header = map_option first_word (after "Bearer " header)

unfoldable pub extract_token : HttpRequest → Option String
extract_token req = elim (truthy req.cookie_token) [
  | some t ↦ some t
  | none ↦ bearer_token req.authorization
]

-- `if (user.id && !user._id) user._id = user.id`
unfoldable pub normalize_user : Claims → Claims
normalize_user user = elim user.object_id [
  | some k ↦ user
  | none ↦ record user { object_id = user.id }
]

abbrev pub signed_in : HttpRequest → Option Claims → Answer
signed_in req none = refused 401 "Invalid token"
signed_in req (some decoded) = passed (record req { user = some (normalize_user decoded) })

unfoldable pub verify_token : Environment → HttpRequest → Answer
verify_token e req = elim (truthy (extract_token req)) [
  | none ↦ refused 401 "No token"
  | some token ↦ signed_in req (e.verify token)
]

abbrev pub signed_in_or_anonymous : HttpRequest → Option Claims → HttpRequest
signed_in_or_anonymous req none = req
signed_in_or_anonymous req (some decoded) = record req { user = some (normalize_user decoded) }

unfoldable pub optional_verify_token : Environment → HttpRequest → Answer
optional_verify_token e req = elim (truthy (extract_token req)) [
  | none ↦ passed req
  | some token ↦ passed (signed_in_or_anonymous req (e.verify token))
]

abbrev pub same_role : Role → Role → Bool
same_role student student = true
same_role faculty faculty = true
same_role admin admin = true
same_role superadmin superadmin = true
same_role _ _ = false

-- `roles.includes(req.user.role)`
unfoldable pub has_role : List Role → Option Claims → Bool
has_role roles none = false
has_role roles (some user) = elim user.role [
  | none ↦ false
  | some role ↦ any (same_role role) roles
]

unfoldable pub authorize_roles : List Role → HttpRequest → Answer
authorize_roles roles req = if has_role roles req.user then passed req else refused 403 "Forbidden"

-- Of two buffers `timingSafeEqual` says whether they are equal.
unfoldable pub safe_compare : Option String → Option String → Bool
safe_compare (some a) (some b) = not (text_eq a "") && not (text_eq b "") && text_eq a b
safe_compare _ _ = false

-- The user of a call between services.
abbrev pub service_user : Claims
service_user = record {
  object_id = none;
  id = none;
  role = some admin;
  college_id = none;
  is_service = true;
}

unfoldable pub verify_service : Environment → HttpRequest → Answer
verify_service e req =
    if safe_compare req.service_key e.testing_platform_key
    then passed (record req { user = some (or_default req.user service_user) })
    else refused 401 "Unauthorized service"

unfoldable pub verify_code_assess_key : Environment → HttpRequest → Answer
verify_code_assess_key e req =
    if safe_compare req.rapidapi_key e.codeassess_shim_key
    then passed req
    else refused 401 "Unauthorized"

abbrev pub is_changing : Method → Bool
is_changing get = false
is_changing _ = true

abbrev pub is_xml_http : Option String → Bool
is_xml_http none = false
is_xml_http (some s) = text_eq s "XMLHttpRequest"

-- The second layer against cross-site requests.
unfoldable pub cross_site_guard : HttpRequest → Answer
cross_site_guard req =
    if is_changing req.method
      && is_some (truthy req.cookie_token)
      && not (is_xml_http req.requested_with)
    then refused 403 "Missing required request header"
    else passed req
