-- ===== src/Accounts/Login.antt =====
-- `login` of auth.service.js, for a body whose email and password are texts.
use assessment_microservice.Base.{Bool, true, false, Option, none, some, String, text_eq}
use assessment_microservice.Store.{◌>>◌, World, Request, find, log_event, raise, http, pure}
use assessment_microservice.Models.{User}
use assessment_microservice.Accounts.Words.{to_lower_case}
use assessment_microservice.Base.Int.{ℤ}

abbrev pub dummy_password_hash : String
dummy_password_hash = "$2b$10$SHhjQgShaXsISHR6GrxOo.wWzSWSHx.SZEgIfGUxxS1BupxLT17ci"

abbrev pub user_by_email : String → World → Option User
user_by_email email w = find (λ u. text_eq u.email email) w.users

-- The password is compared whether there is such an account or not.
abbrev pub stored_hash : Option User → String
stored_hash none = dummy_password_hash
stored_hash (some u) = u.password

abbrev pub admit : Bool → (ℤ → User → String) → ℤ → Option User → Request (String × User)
admit matches sign now none =
    log_event "LOGIN_FAILED" none >> raise (http 401 "Invalid credentials")
admit false sign now (some u) =
    log_event "LOGIN_FAILED" none >> raise (http 401 "Invalid credentials")
admit true sign now (some u) = log_event "LOGIN_SUCCESS" (some u.id) >> pure (sign now u, u)

unfoldable pub login :
    (String → String → Bool) → (ℤ → User → String) → ℤ → String → String → Request (String × User)
login compare sign now email password w =
    let user = user_by_email (to_lower_case email) w in
    admit (compare password (stored_hash user)) sign now user w
