-- ===== src/Billing/Lifecycle.antt =====
-- The life of a subscription: what each event of Stripe does to its college.
use assessment_microservice.Base.{ℕ, ◌≡◌, refl, Option, some, arith, ◌==◌, if◌then◌else◌, String}
use assessment_microservice.Billing.Service.{
  handle_stripe_event, college_at, checkout_completed, check_out, update_college,
}
use assessment_microservice.Store.{World, find_by-update_by, ok}
use assessment_microservice.Models.{College}
use assessment_microservice.Billing.Plans.{get_plan, plan_named, no_plan}

-- A completed checkout gives its college, if it exists, the plan that was bought and makes it
-- active, and every other college stays as it is.
pub handle_stripe_event-checkout :
    (k j : ℕ) (subscription plan : Option String) (w : World) (c : College)
    → college_at k w ≡ some c
    → let (r, w') = handle_stripe_event (checkout_completed (some k) subscription plan) w in
      (r ≡ ok tt)
      × (college_at j w'
          ≡ (if k == j then some (check_out subscription plan c) else college_at j w))
unfolding handle_stripe_event
handle_stripe_event-checkout k j subscription plan w c found = ground (
  arith,
  find_by-update_by (λ (x : College). x.id) j k (check_out subscription plan) w.colleges
      (λ x. refl),
)

pub get_plan-constructor : (price : Option String) → get_plan price "constructor" ≡ no_plan
unfolding get_plan plan_named
get_plan-constructor price = refl

pub updated_college_at :
    (k : ℕ) (f : College → College) (w : World) (c : College)
    → ((x : College) → (f x).id ≡ x.id)
    → college_at k w ≡ some c
    → college_at k (update_college k f w) ≡ some (f c)
updated_college_at k f w c same found =
    ground (arith, find_by-update_by (λ (x : College). x.id) k k f w.colleges same)
