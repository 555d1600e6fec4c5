-- ===== src/Http/Routes.antt =====
-- The routers of assessment-api/src/routes: the guards before each handler, in their order.
-- The validators of bodies, `validate(…)`, are left out.
use assessment_microservice.Base.{List, [], ◌∷◌, String}
use assessment_microservice.Http.{
  get, Answer, Method, post, Environment, HttpRequest, put, admin, passed, refused, delete,
  optional_verify_token, patch, cross_site_guard, verify_token, verify_service,
  verify_code_assess_key, authorize_roles,
}
use assessment_microservice.Models.{Role, superadmin, faculty, student}

pub data Guard : Type 0 where
  optional_token required_token service code_assess : Guard
  roles : List Role → Guard

pub record Route : Type 0 where
  pub method : Method
  pub path : String
  pub guards : List Guard

unfoldable pub run_guard : Environment → Guard → HttpRequest → Answer
run_guard e optional_token req = optional_verify_token e req
run_guard e required_token req = verify_token e req
run_guard e service req = verify_service e req
run_guard e code_assess req = verify_code_assess_key e req
run_guard e (roles rs) req = authorize_roles rs req

-- `next()` calls the next middleware.
abbrev pub and_then : Answer → (HttpRequest → Answer) → Answer
and_then (refused status message) k = refused status message
and_then (passed req) k = k req

unfoldable pub run_guards : Environment → List Guard → HttpRequest → Answer
run_guards e [] req = passed req
run_guards e (g ∷ gs) req = and_then (run_guard e g req) (run_guards e gs)

-- What the handler of a route receives, if it is called.
unfoldable pub dispatch : Environment → Route → HttpRequest → Answer
dispatch e route req = and_then (cross_site_guard req) (run_guards e route.guards)

abbrev pub staff : List Role
staff = admin ∷ faculty ∷ superadmin ∷ []

abbrev pub administrators : List Role
administrators = admin ∷ superadmin ∷ []

abbrev route : Method → String → List Guard → Route
route method path guards = record { method = method; path = path; guards = guards }

-- problems.routes.js
unfoldable pub problem_routes : List Route
problem_routes =
    route get "/" (optional_token ∷ [])
    ∷ route get "/:_id" (optional_token ∷ [])
    ∷ route get "/:_id/stats" (optional_token ∷ [])
    ∷ route post "/:_id/run" (required_token ∷ [])
    ∷ route post "/" (required_token ∷ roles staff ∷ [])
    ∷ route put "/:_id" (required_token ∷ roles staff ∷ [])
    ∷ route delete "/:_id" (required_token ∷ roles administrators ∷ [])
    ∷ []

-- assessments.routes.js
unfoldable pub assessment_routes : List Route
assessment_routes =
    route get "/" (optional_token ∷ [])
    ∷ route post "/" (required_token ∷ roles staff ∷ [])
    ∷ route get "/:_id" (required_token ∷ [])
    ∷ route get "/:_id/my-attempt" (required_token ∷ [])
    ∷ route put "/:_id" (required_token ∷ roles staff ∷ [])
    ∷ route delete "/:_id" (required_token ∷ roles administrators ∷ [])
    ∷ route post "/:_id/start" (required_token ∷ roles (student ∷ []) ∷ [])
    ∷ route post "/attempts/:attemptId/submit"
        (required_token ∷ roles (student ∷ admin ∷ faculty ∷ superadmin ∷ []) ∷ [])
    ∷ route post "/attempts/:attemptId/log-event" (required_token ∷ roles (student ∷ []) ∷ [])
    ∷ route get "/:_id/attempts" (required_token ∷ roles staff ∷ [])
    ∷ route get "/:_id/attendance" (required_token ∷ roles staff ∷ [])
    ∷ route get "/:_id/analytics" (required_token ∷ roles staff ∷ [])
    ∷ route get "/attempts/:attemptId" (required_token ∷ [])
    ∷ route get "/attempts/:attemptId/submissions" (required_token ∷ [])
    ∷ route get "/:_id/announcements" (required_token ∷ [])
    ∷ route post "/:_id/announcements" (required_token ∷ roles staff ∷ [])
    ∷ route post "/attempts/:attemptId/draft"
        (required_token ∷ roles (student ∷ admin ∷ faculty ∷ superadmin ∷ []) ∷ [])
    ∷ route post "/:_id/lock" (required_token ∷ roles staff ∷ [])
    ∷ route post "/:_id/unlock" (required_token ∷ roles staff ∷ [])
    ∷ route post "/attempts/:attemptId/grace" (required_token ∷ roles staff ∷ [])
    ∷ route post "/attempts/:attemptId/challenge" (required_token ∷ roles (student ∷ []) ∷ [])
    ∷ route post "/attempts/:attemptId/challenge/resolve" (required_token ∷ roles staff ∷ [])
    ∷ []

-- submissions.routes.js
unfoldable pub submission_routes : List Route
submission_routes =
    route post "/" (required_token ∷ [])
    ∷ route get "/my" (required_token ∷ [])
    ∷ route get "/analytics/my" (required_token ∷ [])
    ∷ route get "/:_id" (required_token ∷ [])
    ∷ []

-- preview.routes.js
unfoldable pub preview_routes : List Route
preview_routes =
    route post "/" (required_token ∷ roles staff ∷ [])
    ∷ route post "/validate" (required_token ∷ roles staff ∷ [])
    ∷ []

-- auth.routes.js
unfoldable pub auth_routes : List Route
auth_routes =
    route post "/register" (required_token ∷ roles (superadmin ∷ []) ∷ [])
    ∷ route post "/signup" []
    ∷ route post "/login" []
    ∷ route post "/logout" []
    ∷ []

-- admin.routes.js
abbrev pub audit_logs_route : Route
audit_logs_route = route get "/audit-logs" (required_token ∷ roles staff ∷ [])

abbrev pub users_route : Route
users_route = route get "/users" (required_token ∷ roles staff ∷ [])

abbrev pub reset_password_route : Route
reset_password_route =
    route post "/users/:userId/reset-password" (required_token ∷ roles staff ∷ [])

abbrev pub bulk_import_route : Route
bulk_import_route = route post "/bulk-import-students" (required_token ∷ roles staff ∷ [])

abbrev pub system_stats_route : Route
system_stats_route = route get "/system-stats" (required_token ∷ roles administrators ∷ [])

abbrev pub rejudge_submission_route : Route
rejudge_submission_route =
    route post "/rejudge/submission/:submissionId" (required_token ∷ roles staff ∷ [])

abbrev pub rejudge_problem_route : Route
rejudge_problem_route = route post "/rejudge/problem/:problemId" (required_token ∷ roles staff ∷ [])

abbrev pub rejudge_assessment_route : Route
rejudge_assessment_route =
    route post "/rejudge/assessment/:assessmentId" (required_token ∷ roles staff ∷ [])

abbrev pub banner_route : Route
banner_route = route post "/banner" (required_token ∷ roles staff ∷ [])

abbrev pub backup_route : Route
backup_route = route get "/backup" (required_token ∷ roles (superadmin ∷ []) ∷ [])

abbrev pub restore_route : Route
restore_route = route post "/restore" (required_token ∷ roles (superadmin ∷ []) ∷ [])

unfoldable pub admin_routes : List Route
admin_routes =
    audit_logs_route ∷ users_route ∷ reset_password_route ∷ bulk_import_route ∷ system_stats_route
    ∷ rejudge_submission_route ∷ rejudge_problem_route ∷ rejudge_assessment_route ∷ banner_route
    ∷ backup_route ∷ restore_route ∷ []

-- integration.routes.js
unfoldable pub integration_routes : List Route
integration_routes =
    route post "/assessments" (service ∷ [])
    ∷ route get "/assessments/:_id" (service ∷ required_token ∷ [])
    ∷ route post "/assessments/:_id/start" (service ∷ required_token ∷ [])
    ∷ route post "/submissions" (service ∷ required_token ∷ [])
    ∷ route get "/submissions/:_id" (service ∷ required_token ∷ [])
    ∷ route get "/results/:_id" (service ∷ [])
    ∷ []

-- questions.routes.js
unfoldable pub question_routes : List Route
question_routes =
    route get "/" (required_token ∷ roles staff ∷ [])
    ∷ route get "/tags" (required_token ∷ roles staff ∷ [])
    ∷ route post "/select" (required_token ∷ roles staff ∷ [])
    ∷ route get "/:_id" (required_token ∷ roles staff ∷ [])
    ∷ route post "/" (required_token ∷ roles staff ∷ [])
    ∷ route put "/:_id" (required_token ∷ roles staff ∷ [])
    ∷ route delete "/:_id" (required_token ∷ roles staff ∷ [])
    ∷ []

-- codeAssessShim.routes.js
unfoldable pub code_assess_routes : List Route
code_assess_routes =
    route post "/submissions" (code_assess ∷ [])
    ∷ route get "/submissions/:token" (code_assess ∷ [])
    ∷ []

-- billing.routes.js
abbrev pub billing_status_route : Route
billing_status_route = route get "/status" (required_token ∷ [])

abbrev pub checkout_route : Route
checkout_route = route post "/checkout" (required_token ∷ roles administrators ∷ [])

abbrev pub portal_route : Route
portal_route = route post "/portal" (required_token ∷ roles administrators ∷ [])

abbrev pub colleges_route : Route
colleges_route = route get "/colleges" (required_token ∷ roles (superadmin ∷ []) ∷ [])

abbrev pub college_plan_route : Route
college_plan_route =
    route patch "/colleges/:collegeId/plan" (required_token ∷ roles (superadmin ∷ []) ∷ [])

abbrev pub webhook_route : Route
webhook_route = route post "/webhook" []

unfoldable pub billing_routes : List Route
billing_routes =
    billing_status_route ∷ checkout_route ∷ portal_route ∷ colleges_route ∷ college_plan_route
    ∷ webhook_route ∷ []
