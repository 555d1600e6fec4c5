-- ===== src/Http/Service.antt =====
-- src/middleware/arventiq.mjs: `verifyArventiq`. The account that all its requests share is looked for
-- once; the module keeps the promise of its id, and drops it if it is rejected.
use assessment_microservice.Base.{ℕ, true, Option, none, some, if◌then◌else◌, String}
use assessment_microservice.Http.{
  Environment, Claims, HttpRequest, admin, Answer, safe_compare, after, passed, refused,
}
use assessment_microservice.Models.{User}
use assessment_microservice.Store.{Failure, Result, map_option, World, ok, err}
use assessment_microservice.Accounts.Words.{trim_text}
use assessment_microservice.Accounts.Login.{user_by_email}
use assessment_microservice.Accounts.Batch.{create_or_fail}

abbrev pub service_account_email : String
service_account_email = "arventiq-service@system.internal"

-- The module's `serviceUserIdPromise`, once it has settled, and the world.
pub record ServiceState : Type 0 where
  pub user_id : Option ℕ
  pub world : World

-- The password is the hash of a random text.
abbrev pub service_account : String → ℕ → User
service_account placeholder k = record {
  id = k;
  name = "Arventiq Service Account";
  email = service_account_email;
  password = placeholder;
  role = admin;
  usn = none;
  section = none;
  college_id = none;
}

-- What the look-up, the hashing and the creation of the account raise, if anything.
pub record Troubles : Type 0 where
  pub lookup : Option Failure
  pub hashing : Option Failure
  pub creation : Option Failure

-- The promise is dropped, for the next request to try again.
abbrev pub rejected : Failure → World → Result ℕ × ServiceState
rejected e w = (err e, record { user_id = none; world = w })

abbrev pub settle : Result User × World → Result ℕ × ServiceState
settle (ok created, w) = (ok created.id, record { user_id = some created.id; world = w })
settle (err e, w) = rejected e w

abbrev pub make_account : Troubles → String → ℕ → World → Result ℕ × ServiceState
make_account o placeholder k w = elim o.hashing [
  | some e ↦ rejected e w
  | none ↦ settle (create_or_fail o.creation (service_account placeholder k) w)
]

abbrev pub find_or_create : Troubles → String → ℕ → World → Option User → Result ℕ × ServiceState
find_or_create o placeholder k w (some existing) =
    (ok existing.id, record { user_id = some existing.id; world = w })
find_or_create o placeholder k w none = make_account o placeholder k w

-- `placeholder` and `k` are the hash and the id of an account that has to be made.
unfoldable pub get_or_create_service_user_id :
    Troubles → String → ℕ → ServiceState → Result ℕ × ServiceState
get_or_create_service_user_id o placeholder k s = elim s.user_id [
  | some id ↦ (ok id, s)
  | none ↦ elim o.lookup [
    | some e ↦ rejected e s.world
    | none ↦ find_or_create o placeholder k s.world (user_by_email service_account_email s.world)
  ]
]

-- `authHeader.startsWith("Bearer ") ? authHeader.slice(7).trim() : null`
abbrev pub arventiq_token : String → Option String
arventiq_token header = map_option trim_text (after "Bearer " header)

abbrev pub arventiq_user : ℕ → Claims
arventiq_user k = record {
  object_id = some k;
  id = some k;
  role = some admin;
  college_id = none;
  is_service = true;
}

abbrev continue_as : HttpRequest → Result ℕ × ServiceState → Result Answer × ServiceState
continue_as req (ok k, s) = (ok (passed (record req { user = some (arventiq_user k) })), s)
continue_as req (err e, s) = (err e, s)

-- An error goes to the error handler.
unfoldable pub verify_arventiq :
    Environment → Troubles → String → ℕ → HttpRequest → ServiceState → Result Answer × ServiceState
verify_arventiq e o placeholder k req s =
    if safe_compare (arventiq_token req.authorization) e.arventiq_secret
    then continue_as req (get_or_create_service_user_id o placeholder k s)
    else (ok (refused 401 "Unauthorized: invalid Arventiq credentials"), s)
