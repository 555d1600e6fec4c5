-- ===== src/Http/Guards.antt =====
-- What each middleware, and a list of guards, has established when it lets a request through.
use assessment_microservice.Base.{
  ◌≡◌, refl, sym, ap, ◌∙◌, inl, inr, Bool, true, false, ◌&&◌, Option, none, some, List, [], ◌∷◌,
  arith, if◌then◌else◌, String, Option-cases,
}
use assessment_microservice.Http.{
  HttpRequest, Answer, authorize_roles, verify_token, Environment, Role, Claims, truthy, passed,
  extract_token, refused, has_role, signed_in, normalize_user,
}
use assessment_microservice.Http.Routes.{
  Guard, run_guards, roles, run_guard, and_then, required_token, optional_token, service,
  code_assess, required_token,
}

-- The request carries a token that `jwt.verify` takes, and the user is what the token says.
abbrev pub SignedIn : Environment → HttpRequest → Claims → Type 0
SignedIn e req user =
    (token : String) × (decoded : Claims) × (truthy (extract_token req) ≡ some token)
    × (e.verify token ≡ some decoded)
    × (user ≡ normalize_user decoded)

pub passed_injective : {a b : HttpRequest} → passed a ≡ passed b → a ≡ b
passed_injective h = ground arith

signed_in_passed :
    (e : Environment) (req got : HttpRequest) (token : String)
    → truthy (extract_token req) ≡ some token
    → (found : Option Claims) → e.verify token ≡ found
    → signed_in req found ≡ passed got
    → (user : Claims) × SignedIn e req user × (record req { user = some user } ≡ got)
signed_in_passed e req got token t none v h = absurd (ground arith)
signed_in_passed e req got token t (some decoded) v h =
    (normalize_user decoded, (token, decoded, t, v, refl), passed_injective h)

verify_token_passed :
    (e : Environment) (req got : HttpRequest)
    → verify_token e req ≡ passed got
    → (user : Claims) × SignedIn e req user × (record req { user = some user } ≡ got)
unfolding verify_token
verify_token_passed e req got h = elim (Option-cases (truthy (extract_token req))) [
  | inl t ↦ absurd (ground arith)
  | inr (token, t) ↦ signed_in_passed e req got token t (e.verify token) refl (ground arith)
]

authorize_roles_passed :
    (rs : List Role) (req got : HttpRequest)
    → authorize_roles rs req ≡ passed got
    → (req ≡ got) × (has_role rs req.user ≡ true)
unfolding authorize_roles
authorize_roles_passed rs req got h = go (has_role rs req.user) h
  where
    go :
        (b : Bool)
        → (if b then passed req else refused 403 "Forbidden") ≡ passed got
        → (req ≡ got) × (b ≡ true)
    go true h = (passed_injective h, refl)
    go false h = absurd (ground arith)

abbrev pub is_roles : Guard → Bool
is_roles (roles rs) = true
is_roles _ = false

-- The guards of a route are `verifyToken` and then only `authorizeRoles`.
abbrev pub only_roles : List Guard → Bool
only_roles [] = true
only_roles (g ∷ gs) = is_roles g && only_roles gs

abbrev pub needs_token : List Guard → Bool
needs_token (required_token ∷ gs) = only_roles gs
needs_token _ = false

-- The user has one of the roles of each `authorizeRoles`.
abbrev pub Holds : List Guard → Claims → Type 0
Holds [] user = Unit {0}
Holds (roles rs ∷ gs) user = (has_role rs (some user) ≡ true) × Holds gs user
Holds (optional_token ∷ gs) user = Holds gs user
Holds (required_token ∷ gs) user = Holds gs user
Holds (service ∷ gs) user = Holds gs user
Holds (code_assess ∷ gs) user = Holds gs user

pub and_then_passed :
    (a : Answer) (k : HttpRequest → Answer) (got : HttpRequest)
    → and_then a k ≡ passed got
    → (mid : HttpRequest) × (a ≡ passed mid) × (k mid ≡ passed got)
and_then_passed (refused status message) k got h = absurd (ground arith)
and_then_passed (passed mid) k got h = (mid, refl, h)

role_guards_passed :
    (e : Environment) (gs : List Guard) (user : Claims) (req got : HttpRequest)
    → only_roles gs ≡ true
    → req.user ≡ some user
    → run_guards e gs req ≡ passed got
    → (req ≡ got) × Holds gs user
unfolding run_guards run_guard
role_guards_passed e [] user req got o u h = (passed_injective h, tt)
role_guards_passed e (roles rs ∷ gs) user req got o u h =
    let (mid, a, rest) = and_then_passed (authorize_roles rs req) (run_guards e gs) got h in
    let (same, role) = authorize_roles_passed rs req mid a in
    let (end, holds) =
      role_guards_passed e gs user mid got o (sym (ap (λ r. r.user) same) ∙ u) rest in
    (same ∙ end, (sym (ap (has_role rs) u) ∙ role, holds))
role_guards_passed e (optional_token ∷ gs) user req got o u h = absurd (ground arith)
role_guards_passed e (required_token ∷ gs) user req got o u h = absurd (ground arith)
role_guards_passed e (service ∷ gs) user req got o u h = absurd (ground arith)
role_guards_passed e (code_assess ∷ gs) user req got o u h = absurd (ground arith)

pub token_guards_passed :
    (e : Environment) (gs : List Guard) (req got : HttpRequest)
    → needs_token gs ≡ true
    → run_guards e gs req ≡ passed got
    → (user : Claims) × SignedIn e req user
      × (record req { user = some user } ≡ got)
      × Holds gs user
unfolding run_guards run_guard
token_guards_passed e [] req got n h = absurd (ground arith)
token_guards_passed e (required_token ∷ gs) req got n h =
    let (mid, a, rest) = and_then_passed (verify_token e req) (run_guards e gs) got h in
    let (user, signed, made) = verify_token_passed e req mid a in
    let (end, holds) = role_guards_passed e gs user mid got n (sym (ap (λ r. r.user) made)) rest in
    (user, signed, made ∙ end, holds)
token_guards_passed e (roles rs ∷ gs) req got n h = absurd (ground arith)
token_guards_passed e (optional_token ∷ gs) req got n h = absurd (ground arith)
token_guards_passed e (service ∷ gs) req got n h = absurd (ground arith)
token_guards_passed e (code_assess ∷ gs) req got n h = absurd (ground arith)
