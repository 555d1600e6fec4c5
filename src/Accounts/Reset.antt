-- ===== src/Accounts/Reset.antt =====
-- `resetUserPassword` of auth.service.js.
use assessment_microservice.Base.{
  ℕ, ◌≡◌, refl, ap, ◌∙◌, Option, none, some, ◌==◌, if◌then◌else◌, String,
}
use assessment_microservice.Models.{User}
use assessment_microservice.Store.{
  Request, World, update_by, user_at, err, map_option, Result, http, log_event, find_by-update_by,
}

abbrev pub with_password : String → User → User
with_password hashed u = record u { password = hashed }

-- `User.updateOne({ _id: userId }, { password: hashed })`
abbrev pub set_password : ℕ → String → World → World
set_password k hashed w = record w {
  users = update_by (λ (u : User). u.id) k (with_password hashed) w.users;
}

-- `admin` is the caller's id, which the route has checked.
unfoldable pub reset_user_password : (String → String) → ℕ → String → ℕ → Request (Unit {0})
reset_user_password hash k password admin w = elim (user_at k w) [
  | none ↦ (err (http 404 "User not found"), w)
  | some u ↦ log_event "USER_PASSWORD_RESET" (some admin) (set_password k (hash password) w)
]

-- A reset gives the account the hash of the new password, and changes no other account.
user_at-reset_user_password :
    (hash : String → String) (k j admin : ℕ) (password : String) (w : World) (u : User)
    → user_at k w ≡ some u
    → user_at j (reset_user_password hash k password admin w).1
      ≡ (if k == j then map_option (with_password (hash password)) (user_at j w) else user_at j w)
unfolding reset_user_password
user_at-reset_user_password hash k j admin password w u found =
    ap (λ o. user_at j (answer o).1) found
    ∙ find_by-update_by (λ (u : User). u.id) j k (with_password (hash password)) w.users (λ a. refl)
  where
    answer : Option User → Result (Unit {0}) × World
    answer o = elim o [
      | none ↦ (err (http 404 "User not found"), w)
      | some u ↦ log_event "USER_PASSWORD_RESET" (some admin) (set_password k (hash password) w)
    ]
