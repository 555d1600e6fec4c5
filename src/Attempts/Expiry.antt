-- ===== src/Attempts/Expiry.antt =====
-- When an attempt is over: `getExpirationTime` and `isAttemptExpired` of assessments.service.js,
-- and the second version of it, `getAttemptExpiration` of submissions.service.js. Who may see what:
-- `collegeScopeFor`.
use assessment_microservice.Base.{ℕ, ◌≡◌, Bool, true, false, Option, none, arith, if◌then◌else◌}
use assessment_microservice.Base.Int.{
  ℤ, pos, ◌+ℤ◌, ◌*ℤ◌, ltb_ℤ, leb_ℤ, +ℤ_parts, *ℤ_parts, eq_of_parts, int_laws,
}
use assessment_microservice.Models.{
  Role, student, superadmin, Assessment, Attempt, AttemptStatus, active,
}

-- `req.user`
pub record Caller : Type 0 where
  pub id : ℕ
  pub role : Role
  pub college_id : Option ℕ

-- The n-th reading of the clock by a request.
abbrev pub Clock : Type 0
Clock = ℕ → ℤ

-- superadmin operates across colleges
abbrev pub scope_of_role : Role → Option ℕ → Option ℕ
scope_of_role superadmin c = none
scope_of_role _ c = c

abbrev pub college_scope_for : Caller → Option ℕ
college_scope_for u = scope_of_role u.role u.college_id

abbrev pub is_student : Role → Bool
is_student student = true
is_student _ = false

abbrev pub is_active : AttemptStatus → Bool
is_active active = true
is_active _ = false

unfoldable pub expiration_time : Attempt → Assessment → ℤ
expiration_time attempt assessment =
    let grace_ms = attempt.grace_minutes *ℤ pos 60000 in
    let duration_ms = assessment.duration_minutes *ℤ pos 60000 +ℤ grace_ms in
    let relative_expiry = attempt.started_at +ℤ duration_ms in
    let absolute_expiry = assessment.end_time +ℤ grace_ms in
    if ltb_ℤ relative_expiry absolute_expiry then relative_expiry else absolute_expiry

unfoldable pub is_attempt_expired : Attempt → Assessment → ℤ → Bool
is_attempt_expired attempt assessment now = ltb_ℤ (expiration_time attempt assessment) now

-- Math.min
abbrev pub min_ℤ : ℤ → ℤ → ℤ
min_ℤ a b = if leb_ℤ a b then a else b

unfoldable pub attempt_expiration : Attempt → Assessment → ℤ
attempt_expiration attempt assessment =
    let grace_ms = attempt.grace_minutes *ℤ pos 60 *ℤ pos 1000 in
    let duration_expiry =
      attempt.started_at +ℤ assessment.duration_minutes *ℤ pos 60 *ℤ pos 1000 +ℤ grace_ms in
    min_ℤ duration_expiry (assessment.end_time +ℤ grace_ms)

minutes_ms : (m : ℤ) → m *ℤ pos 60 *ℤ pos 1000 ≡ m *ℤ pos 60000
minutes_ms m =
    omega (arith, *ℤ_parts m 60, *ℤ_parts (m *ℤ pos 60) 1000, *ℤ_parts m 60000, eq_of_parts)

min-if_lt : (a b : ℤ) → min_ℤ a b ≡ (if ltb_ℤ a b then a else b)
min-if_lt a b = ground (arith, eq_of_parts a b)

+ℤ_assoc : (a b c : ℤ) → a +ℤ b +ℤ c ≡ a +ℤ (b +ℤ c)
+ℤ_assoc a b c = omega int_laws

-- The two services compute the same moment, though one adds the grace time to the duration and
-- compares, and the other multiplies twice and takes a minimum.
pub attempt_expiration-eq-expiration_time :
    (attempt : Attempt) (assessment : Assessment)
    → attempt_expiration attempt assessment ≡ expiration_time attempt assessment
unfolding attempt_expiration expiration_time
attempt_expiration-eq-expiration_time attempt assessment =
    rw (minutes_ms attempt.grace_minutes, minutes_ms assessment.duration_minutes, +ℤ_assoc)
      (min-if_lt relative (assessment.end_time +ℤ grace))
  where
    grace : ℤ
    grace = attempt.grace_minutes *ℤ pos 60000

    relative : ℤ
    relative = attempt.started_at +ℤ (assessment.duration_minutes *ℤ pos 60000 +ℤ grace)

if_lt-shift :
    (a b k : ℤ)
    → (if ltb_ℤ (a +ℤ k) (b +ℤ k) then a +ℤ k else b +ℤ k) ≡ (if ltb_ℤ a b then a else b) +ℤ k
if_lt-shift a b k = ground (arith, +ℤ_parts a k, +ℤ_parts b k)

*ℤ_distrib : (a b : ℤ) → (a +ℤ b) *ℤ pos 60000 ≡ a *ℤ pos 60000 +ℤ b *ℤ pos 60000
*ℤ_distrib a b = omega (int_laws, *ℤ_parts (a +ℤ b) 60000, *ℤ_parts a 60000, *ℤ_parts b 60000)

regroup : (s d g m : ℤ) → s +ℤ (d +ℤ (g +ℤ m)) ≡ s +ℤ (d +ℤ g) +ℤ m
regroup s d g m = omega int_laws

-- Grace time moves the moment at which an attempt expires: m more minutes move it by exactly 60000
-- m milliseconds, whether its duration or the end of the assessment comes first.
pub expiration_time-grace :
    (attempt : Attempt) (assessment : Assessment) (m : ℤ)
    → expiration_time (record attempt { grace_minutes = attempt.grace_minutes +ℤ m }) assessment
      ≡ expiration_time attempt assessment +ℤ m *ℤ pos 60000
unfolding expiration_time
expiration_time-grace attempt assessment m =
    rw
      (
        *ℤ_distrib attempt.grace_minutes m,
        regroup _ _ _ _,
        ← +ℤ_assoc assessment.end_time (attempt.grace_minutes *ℤ pos 60000) (m *ℤ pos 60000),
      )
      (if_lt-shift _ _ _)
