-- ===== src/Billing/Allowance.antt =====
-- What a plan allows a college, and what setting a plan does.
use assessment_microservice.Base.{
  ℕ, ◌<◌, ◌≡◌, ◌↔◌, refl, ap, ◌∙◌, inl, inr, true, Option, none, some, arith, String, Option-cases,
}
use assessment_microservice.Billing.Service.{
  set_college_plan, check_plan_usage_limit, get_billing_status, college_at, submissions_since,
  chosen_status, seats_used, update_college,
}
use assessment_microservice.Base.Int.{ℤ}
use assessment_microservice.Store.{World, find_by-update_by, ok}
use assessment_microservice.Models.{College, SubscriptionStatus, subscribed}
use assessment_microservice.Billing.Plans.{get_plan, plan_named, Plan}
use assessment_microservice.Billing.Lifecycle.{get_plan-constructor, updated_college_at}

-- The monthly allowance is a hard cap at an exact number: for a college that exists, with a plan of
-- `quota` submissions a month, a submission is allowed exactly when fewer than `quota` were made
-- since its first day; with an unbounded plan always.
pub check_plan_usage_limit_iff :
    (price : Option String) (k : ℕ) (month : ℤ) (w : World) (c : College)
    → college_at k w ≡ some c
    → ((check_plan_usage_limit price (some k) month true w).0 ≡ true) ↔ (
        (quota : ℕ)
        → (get_plan price c.plan_id).submission_quota_per_month ≡ some quota
        → submissions_since month k w < quota)
unfolding check_plan_usage_limit
check_plan_usage_limit_iff price k month w c found =
    elim (Option-cases (get_plan price c.plan_id).submission_quota_per_month) [
      | inl e ↦ (λ h q f. cc, λ h. ground arith)
      | inr (q, e) ↦ (λ h p f. ground arith, λ h. ground (arith, h q e))
    ]

-- After a superadmin set a known plan, with a status of the schema or none, for a college that
-- exists, the college has them, and the billing status that is returned names that plan, with its
-- limits and the college's seats and submissions.
pub set_college_plan-status :
    (price : Option String) (k : ℕ) (plan : String) (status : Option String) (month : ℤ) (w : World)
    (c : College) (p : Plan) (s : SubscriptionStatus)
    → college_at k w ≡ some c
    → plan_named price plan ≡ some p
    → chosen_status status plan ≡ some s
    → let (r, w') = set_college_plan price k plan status month w in
      (college_at k w' ≡ some (record c { plan_id = plan; subscription_status = s }))
      × (r
          ≡ ok (record {
            plan_id = plan;
            label = p.label;
            subscription_status = s;
            current_period_end = c.current_period_end;
            seats_used = seats_used k w;
            seat_limit = p.seat_limit;
            submissions_this_month = submissions_since month k w;
            submission_quota_per_month = p.submission_quota_per_month;
            allows_premium_problems = p.allows_premium_problems;
          }))
unfolding set_college_plan get_billing_status get_plan
set_college_plan-status price k plan status month w c p s found named chosen = ground (
  arith,
  find_by-update_by (λ (x : College). x.id) k k
      (λ x. record x { plan_id = plan; subscription_status = s }) w.colleges (λ x. refl),
)

set_college_plan_on_inherited :
    (price : Option String) (k : ℕ) (month : ℤ) (w : World) (c : College)
    → college_at k w ≡ some c
    → (set_college_plan price k "constructor" none month w).1
      ≡ update_college k
          (λ x. record x { plan_id = "constructor"; subscription_status = subscribed })
          w
unfolding set_college_plan get_billing_status plan_named
set_college_plan_on_inherited price k month w c found = ground (
  arith,
  updated_college_at k (λ x. record x { plan_id = "constructor"; subscription_status = subscribed })
      w c (λ x. refl) found,
)

check_plan_usage_limit_on_inherited :
    (price : Option String) (k : ℕ) (month : ℤ) (w : World) (c : College)
    → college_at k w ≡ some c
    → c.plan_id ≡ "constructor"
    → check_plan_usage_limit price (some k) month true w ≡ (true, none)
unfolding check_plan_usage_limit
check_plan_usage_limit_on_inherited price k month w c found plan =
    ground (arith, ap (λ t. get_plan price t) plan, get_plan-constructor price)

-- `planId` is checked by a lookup that also finds what every object inherits: "constructor" is
-- accepted as a plan, and a college on it has neither a seat limit nor a monthly allowance.
pub set_college_plan-inherited :
    (price : Option String) (k : ℕ) (month : ℤ) (w : World) (c : College)
    → college_at k w ≡ some c
    → let (r, w') = set_college_plan price k "constructor" none month w in
      (check_plan_usage_limit price (some k) month true w' ≡ (true, none))
      × ((get_plan price "constructor").seat_limit ≡ none)
set_college_plan-inherited price k month w c found = (
  ap (λ v. check_plan_usage_limit price (some k) month true v)
        (set_college_plan_on_inherited price k month w c found)
      ∙ check_plan_usage_limit_on_inherited price k month _ _
          (updated_college_at k
            (λ x. record x { plan_id = "constructor"; subscription_status = subscribed }) w c
            (λ x. refl) found)
          refl,
  ap (λ p. p.seat_limit) (get_plan-constructor price),
)
