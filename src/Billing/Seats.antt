-- ===== src/Billing/Seats.antt =====
-- `assertSeatCapacity` of auth.service.js: how many accounts a college's plan allows.
use assessment_microservice.Base.{
  ℕ, ◌+◌, ◌≤◌, ◌≡◌, ◌↔◌, inl, inr, Option, none, some, ◌∷◌, arith, ltb, if◌then◌else◌, String,
  Option-cases,
}
use assessment_microservice.Store.{Request, World, ok, err, http}
use assessment_microservice.Models.{User, College}
use assessment_microservice.Billing.Service.{college_at, seats_used}
use assessment_microservice.Billing.Plans.{get_plan}

unfoldable pub assert_seat_capacity : Option String → Option ℕ → ℕ → Request (Unit {0})
assert_seat_capacity price none incoming w = (ok tt, w)
assert_seat_capacity price (some k) incoming w = elim (college_at k w) [
  | none ↦ (ok tt, w)
  | some college ↦ elim (get_plan price college.plan_id).seat_limit [
    | none ↦ (ok tt, w)
    | some limit ↦ (
      if ltb limit (seats_used k w + incoming)
          then err (http 402 "Seat limit reached for your plan")
          else ok tt,
      w,
    )
  ]
]

-- User.create, for a user whose email and USN nobody has
abbrev pub user_create : User → World → World
user_create u w = record w { users = u ∷ w.users }

-- For a college that exists, seats are granted exactly when the accounts of the college, with those
-- that come, do not exceed its plan's seats; a plan without a limit grants every seat; the check
-- writes nothing.
pub assert_seat_capacity_iff :
    (price : Option String) (k incoming : ℕ) (w : World) (c : College)
    → college_at k w ≡ some c
    → (((assert_seat_capacity price (some k) incoming w).0 ≡ ok tt) ↔ (
        (limit : ℕ)
        → (get_plan price c.plan_id).seat_limit ≡ some limit
        → seats_used k w + incoming ≤ limit))
      × ((assert_seat_capacity price (some k) incoming w).1 ≡ w)
unfolding assert_seat_capacity
assert_seat_capacity_iff price k incoming w c found =
    elim (Option-cases (get_plan price c.plan_id).seat_limit) [
      | inl e ↦ ((λ h limit f. cc, λ h. ground arith), ground arith)
      | inr (n, e) ↦ ((λ h limit f. ground arith, λ h. ground (arith, h n e)), ground arith)
    ]
