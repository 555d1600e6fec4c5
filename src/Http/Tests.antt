-- ===== src/Http/Tests.antt =====
-- Requests that the middleware lets through or refuses.
use assessment_microservice.Base.{
  ◌≡◌, refl, inl, false, none, some, [], ◌∷◌, if◌then◌else◌, text_eq, get_elem?,
}
use assessment_microservice.Http.Routes.{
  dispatch, run_guards, Route, run_guard, problem_routes, required_token, assessment_routes,
  submission_routes, roles, staff, preview_routes, admin_routes, question_routes,
}
use assessment_microservice.Types.{is_space, is_line_end}
use assessment_microservice.Store.{ok}
use assessment_microservice.Http.{
  HttpRequest, Environment, Claims, cross_site_guard, safe_compare, post, faculty, verify_token,
  refused, after, extract_token, normalize_user, authorize_roles, has_role, bearer_token,
  superadmin, passed, first_word,
}
use assessment_microservice.Http.Service.{
  verify_arventiq, ServiceState, get_or_create_service_user_id, Troubles,
}
use assessment_microservice.Http.Guarded.{user_routes, is_forgeable, dispatch-SignedIn}
use assessment_microservice.Http.Guards.{SignedIn, Holds}
use assessment_microservice.Samples.{world}
use assessment_microservice.Accounts.Words.{trim_text}
use assessment_microservice.Http.Single.{Ending, get_or_create_service_user_id-Ending}

abbrev faculty_claims : Claims
faculty_claims = record {
  object_id = none;
  id = some 4;
  role = some faculty;
  college_id = some 7;
  is_service = false;
}

-- One token is known.
abbrev environment : Environment
environment = record {
  verify = λ t. if text_eq t "abc" then some faculty_claims else none;
  testing_platform_key = some "key";
  codeassess_shim_key = none;
  arventiq_secret = some "secret";
}

abbrev from_browser : HttpRequest
from_browser = record {
  method = post;
  cookie_token = some "abc";
  authorization = "";
  requested_with = some "XMLHttpRequest";
  service_key = none;
  rapidapi_key = none;
  user = none;
}

abbrev from_client : HttpRequest
from_client = record from_browser {
  cookie_token = none;
  authorization = "Bearer abc";
  requested_with = none;
}

abbrev lock_route : Route
lock_route = record {
  method = post;
  path = "/:_id/lock";
  guards = required_token ∷ roles staff ∷ [];
}

abbrev reached : HttpRequest → HttpRequest
reached req = record req { user = some (record faculty_claims { object_id = some 4 }) }

browser_reaches : dispatch environment lock_route from_browser ≡ passed (reached from_browser)
unfolding dispatch cross_site_guard run_guards run_guard verify_token extract_token normalize_user
    authorize_roles has_role
browser_reaches = refl

client_reaches : dispatch environment lock_route from_client ≡ passed (reached from_client)
unfolding dispatch cross_site_guard run_guards run_guard verify_token extract_token normalize_user
    authorize_roles has_role bearer_token after first_word
client_reaches = refl

-- A form on another site cannot set the header.
form_refused :
    dispatch environment lock_route (record from_browser { requested_with = none })
    ≡ refused 403 "Missing required request header"
unfolding dispatch cross_site_guard
form_refused = refl

-- Faculty do not restore the database.
restore_refused :
    run_guards environment (required_token ∷ roles (superadmin ∷ []) ∷ []) from_browser
    ≡ refused 403 "Forbidden"
unfolding run_guards run_guard verify_token extract_token normalize_user authorize_roles has_role
restore_refused = refl

-- The assessments follow the seven routes of the problems.
lock_listed : get_elem? user_routes 24 ≡ some lock_route
unfolding user_routes problem_routes assessment_routes submission_routes preview_routes admin_routes
    question_routes
lock_listed = refl

dispatch-SignedIn_example :
    (user : Claims) × SignedIn environment from_browser user
    × (record from_browser { user = some user } ≡ reached from_browser)
    × Holds lock_route.guards user
    × (is_forgeable from_browser ≡ false)
dispatch-SignedIn_example =
    dispatch-SignedIn environment 24 lock_route from_browser (reached from_browser) lock_listed refl
      browser_reaches

abbrev started : ServiceState
started = record { user_id = none; world = world }

abbrev no_troubles : Troubles
no_troubles = record { lookup = none; hashing = none; creation = none }

get_or_create_service_user_id-Ending_example :
    Ending no_troubles started (get_or_create_service_user_id no_troubles "$2b$" 99 started)
get_or_create_service_user_id-Ending_example =
    get_or_create_service_user_id-Ending no_troubles "$2b$" 99 started (inl refl)

-- The secret is not the platform's.
arventiq_refused :
    verify_arventiq environment no_troubles "$2b$" 99 from_client started
    ≡ (ok (refused 401 "Unauthorized: invalid Arventiq credentials"), started)
unfolding verify_arventiq safe_compare after trim_text is_space is_line_end
arventiq_refused = refl
