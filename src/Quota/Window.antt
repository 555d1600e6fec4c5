-- ===== src/Quota/Window.antt =====
-- `checkFixedWindowQuota` over Redis, which is not part of the repository: its counters are a
-- parameter, with what the Redis documentation says of INCR and EXPIRE.
use assessment_microservice.Base.{
  ℕ, ◌+◌, ◌≡◌, ◌≢◌, Bool, true, Option, none, some, ◌==◌, leb, if◌then◌else◌, String, ◌/◌,
}

-- `${keyPrefix}:${scopeId}:${windowStart}`
pub record Key : Type 0 where
  pub prefix : String
  pub scope : ℕ
  pub window : ℕ

-- A command that fails is `none`. `count` is the number that a key stores, 0 for an absent key.
pub record Redis : Type 1 where
  pub State : Type 0
  pub count : State → Key → ℕ
  pub incr : State → Key → Option (ℕ × State)
  pub expire : State → Key → ℕ → Option State
  -- INCR returns the stored number plus one and stores it, at its key only.
  pub incr_returns :
      (s : State) (k : Key) (n : ℕ) (t : State) → incr s k ≡ some (n, t) → n ≡ count s k + 1
  pub incr_stores :
      (s : State) (k : Key) (n : ℕ) (t : State) → incr s k ≡ some (n, t) → count t k ≡ n
  pub incr_others :
      (s : State) (k : Key) (n : ℕ) (t : State) (j : Key)
      → incr s k ≡ some (n, t)
      → j ≢ k
      → count t j ≡ count s j
  -- EXPIRE sets a time to live and changes no number.
  pub expire_keeps :
      (s : State) (k : Key) (seconds : ℕ) (t : State) (j : Key)
      → expire s k seconds ≡ some t
      → count t j ≡ count s j

-- `count` is there unless the check failed open.
pub record QuotaResult : Type 0 where
  pub allowed : Bool
  pub count : Option ℕ

abbrev pub fail_open : QuotaResult
fail_open = record { allowed = true; count = none }

abbrev pub counted : ℕ → ℕ → QuotaResult
counted limit n = record { allowed = leb n limit; count = some n }

-- Math.floor(Date.now() / 1000 / windowSeconds), at the time `now` in milliseconds
abbrev pub window_start : ℕ → ℕ → ℕ
window_start now window_seconds = now / 1000 / window_seconds

abbrev pub key_at : String → ℕ → ℕ → ℕ → Key
key_at prefix scope now window_seconds = record {
  prefix = prefix;
  scope = scope;
  window = window_start now window_seconds;
}

module _ (r : Redis) (prefix : String) (limit window_seconds : ℕ) where
  -- The commands of one check, once there are a connection and a scope.
  unfoldable pub count_request : r.State → Key → QuotaResult × r.State
  count_request s k = elim (r.incr s k) [
    | none ↦ (fail_open, s)
    | some (n, t) ↦
        if n == 1
        then elim (r.expire t k window_seconds) [
          | none ↦ (fail_open, t)
          | some u ↦ (counted limit n, u)
        ]
        else (counted limit n, t)
  ]

  -- A connection that is down is `none`, a missing scope too.
  unfoldable pub check_fixed_window_quota :
      Option r.State → Option ℕ → ℕ → QuotaResult × Option r.State
  check_fixed_window_quota none scope now = (fail_open, none)
  check_fixed_window_quota (some s) none now = (fail_open, some s)
  check_fixed_window_quota (some s) (some scope) now =
      let (result, t) = count_request s (key_at prefix scope now window_seconds) in (result, some t)

-- The limits and windows of config/env.js.
pub record Limits : Type 0 where
  pub college_quota : ℕ
  pub college_window : ℕ
  pub student_quota : ℕ
  pub student_window : ℕ

module _ (r : Redis) (env : Limits) where
  unfoldable pub check_college_submission_quota :
      Option r.State → Option ℕ → ℕ → QuotaResult × Option r.State
  check_college_submission_quota =
      check_fixed_window_quota r "submission_quota" env.college_quota env.college_window

  unfoldable pub check_student_submission_quota :
      Option r.State → Option ℕ → ℕ → QuotaResult × Option r.State
  check_student_submission_quota =
      check_fixed_window_quota r "student_submission_quota" env.student_quota env.student_window
