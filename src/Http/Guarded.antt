-- ===== src/Http/Guarded.antt =====
-- Who reaches a handler: what the guards of a route have established when they let a request through.
use assessment_microservice.Base.{
  ℕ, zero, suc, ◌≡◌, refl, ap, ◌∙◌, Bool, true, false, not, ◌&&◌, ◌||◌, some, List, [], ◌∷◌, ◌++◌,
  arith, if◌then◌else◌, get_elem?,
}
use assessment_microservice.Http.{
  HttpRequest, cross_site_guard, Environment, is_changing, Claims, truthy, passed, is_some, refused,
  is_xml_http,
}
use assessment_microservice.Http.Routes.{
  Route, dispatch, problem_routes, run_guards, assessment_routes, submission_routes, preview_routes,
  admin_routes, question_routes,
}
use assessment_microservice.Http.Guards.{
  needs_token, SignedIn, passed_injective, Holds, and_then_passed, token_guards_passed,
}

-- A request that a browser can be made to send from another site: it changes state, and a cookie
-- alone signs it in.
abbrev pub is_forgeable : HttpRequest → Bool
is_forgeable req =
    is_changing req.method
    && is_some (truthy req.cookie_token)
    && not (is_xml_http req.requested_with)

cross_site_guard_passed :
    (req got : HttpRequest)
    → cross_site_guard req ≡ passed got
    → (req ≡ got) × (is_forgeable req ≡ false)
unfolding cross_site_guard
cross_site_guard_passed req got h = go (is_forgeable req) h
  where
    go :
        (b : Bool)
        → (if b then refused 403 "Missing required request header" else passed req) ≡ passed got
        → (req ≡ got) × (b ≡ false)
    go true h = absurd (ground arith)
    go false h = (passed_injective h, refl)

-- The routers that serve users.
unfoldable pub user_routes : List Route
unfolding problem_routes assessment_routes submission_routes preview_routes admin_routes
    question_routes
user_routes =
    problem_routes ++ assessment_routes ++ submission_routes ++ preview_routes ++ admin_routes
    ++ question_routes

all : {A : Type 0} → (A → Bool) → List A → Bool
all p [] = true
all p (x ∷ xs) = p x && all p xs

all-get_elem? :
    {A : Type 0} (p : A → Bool) (xs : List A) (i : ℕ) (x : A)
    → all p xs ≡ true
    → get_elem? xs i ≡ some x
    → p x ≡ true
unfolding all
all-get_elem? p [] i x h e = absurd (ground arith)
all-get_elem? p (y ∷ xs) zero x h e = ground arith
all-get_elem? p (y ∷ xs) (suc i) x h e = all-get_elem? p xs i x (ground arith) e

checked : Route → Bool
checked route = not (is_changing route.method) || needs_token route.guards

all-checked : all checked user_routes ≡ true
unfolding all checked user_routes
all-checked = refl

changing_needs_token :
    (i : ℕ) (route : Route)
    → get_elem? user_routes i ≡ some route
    → is_changing route.method ≡ true
    → needs_token route.guards ≡ true
unfolding checked
changing_needs_token i route e c =
    implied (is_changing route.method) (needs_token route.guards)
      (all-get_elem? checked user_routes i route all-checked e) c
  where
    implied : (a b : Bool) → (not a || b) ≡ true → a ≡ true → b ≡ true
    implied a b h k = ground arith

-- A request reaches the handler of a route of the problems, assessments, submissions, preview, admin or
-- questions that changes state only with a token that `jwt.verify` takes: the handler's user is what
-- the token says and has one of the roles that the route asks for, nothing else of the request has
-- changed, and if the token came in a cookie, the request has the header that another site cannot set.
pub dispatch-SignedIn :
    (e : Environment) (i : ℕ) (route : Route) (req got : HttpRequest)
    → get_elem? user_routes i ≡ some route
    → is_changing route.method ≡ true
    → dispatch e route req ≡ passed got
    → (user : Claims) × SignedIn e req user
      × (record req { user = some user } ≡ got)
      × Holds route.guards user
      × (is_forgeable req ≡ false)
unfolding dispatch
dispatch-SignedIn e i route req got r c h =
    let (mid, a, rest) = and_then_passed (cross_site_guard req) (run_guards e route.guards) got h in
    let (same, safe) = cross_site_guard_passed req mid a in
    let (user, signed, made, holds) =
      token_guards_passed e route.guards req got (changing_needs_token i route r c)
        (ap (run_guards e route.guards) same ∙ rest) in
    (user, signed, made, holds, safe)
