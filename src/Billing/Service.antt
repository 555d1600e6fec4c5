-- ===== src/Billing/Service.antt =====
-- billing.service.js. The price of the paid plan, the start of the month and Stripe's answers are
-- arguments. The database answers, unless an argument says otherwise.
use assessment_microservice.Base.{
  ℕ, ◌*◌, Bool, true, false, ◌&&◌, Option, none, some, ◌==◌, ltb, if◌then◌else◌, String, text_eq,
  length,
}
use assessment_microservice.Base.Int.{ℤ, pos, leb_ℤ}
use assessment_microservice.Store.{
  World, Request, Failure, http, filter, find_by, find, update_by, pure, modify, is_id, or_default,
  ◌>>=◌, ◌>>◌, or_raise, gets, validation_error,
}
use assessment_microservice.Models.{
  SubscriptionStatus, College, unsubscribed, canceled, subscribed, trialing, past_due,
}
use assessment_microservice.Submissions.Sanitize.{coalesce}
use assessment_microservice.Billing.Plans.{get_plan, plan_named}

pub record BillingStatus : Type 0 where
  pub plan_id : String
  pub label : Option String
  pub subscription_status : SubscriptionStatus
  pub current_period_end : Option ℤ
  pub seats_used : ℕ
  pub seat_limit : Option ℕ
  pub submissions_this_month : ℕ
  pub submission_quota_per_month : Option ℕ
  pub allows_premium_problems : Bool

abbrev pub college_not_found : Failure
college_not_found = http 404 "College not found"

abbrev pub college_at : ℕ → World → Option College
college_at k w = find_by (λ c. c.id) k w.colleges

abbrev pub update_college : ℕ → (College → College) → World → World
update_college k f w = record w { colleges = update_by (λ c. c.id) k f w.colleges }

-- User.countDocuments({ collegeId })
abbrev pub seats_used : ℕ → World → ℕ
seats_used k w = length (filter (λ u. is_id u.college_id k) w.users)

-- UsageEvent.countDocuments({ collegeId, createdAt: { $gte: startOfMonth() } })
abbrev pub submissions_since : ℤ → ℕ → World → ℕ
submissions_since month k w =
    length (filter (λ e. e.college_id == k && leb_ℤ month e.created_at) w.usage_events)

module _ (price : Option String) where
  unfoldable pub get_billing_status : Option ℕ → ℤ → Request BillingStatus
  get_billing_status none month = pure (record {
    plan_id = "free";
    label = (get_plan price "free").label;
    subscription_status = unsubscribed;
    current_period_end = none;
    seats_used = 0;
    seat_limit = (get_plan price "free").seat_limit;
    submissions_this_month = 0;
    submission_quota_per_month = (get_plan price "free").submission_quota_per_month;
    allows_premium_problems = (get_plan price "free").allows_premium_problems;
  })
  get_billing_status (some k) month = do
    found ← gets (college_at k)
    college ← or_raise found college_not_found
    gets λ w.
        let plan = get_plan price college.plan_id in
        record {
          plan_id = college.plan_id;
          label = plan.label;
          subscription_status = college.subscription_status;
          current_period_end = college.current_period_end;
          seats_used = seats_used k w;
          seat_limit = plan.seat_limit;
          submissions_this_month = submissions_since month k w;
          submission_quota_per_month = plan.submission_quota_per_month;
          allows_premium_problems = plan.allows_premium_problems;
        }

  -- `limit` and `count` are there as in the source's object.
  unfoldable pub check_plan_usage_limit : Option ℕ → ℤ → Bool → World → Bool × Option ℕ
  check_plan_usage_limit none month answers w = (true, none)
  check_plan_usage_limit (some k) month false w = (true, none)
  check_plan_usage_limit (some k) month true w = elim (college_at k w) [
    | none ↦ (true, none)
    | some college ↦ elim (get_plan price college.plan_id).submission_quota_per_month [
      | none ↦ (true, none)
      | some quota ↦ (ltb (submissions_since month k w) quota, some quota)
    ]
  ]

  unfoldable pub college_allows_premium : Option ℕ → World → Bool
  college_allows_premium none w = false
  college_allows_premium (some k) w = elim (college_at k w) [
    | none ↦ false
    | some college ↦ (get_plan price college.plan_id).allows_premium_problems
  ]

-- College.subscriptionStatus as a text; `save` refuses any other.
unfoldable pub parse_status : String → Option SubscriptionStatus
parse_status t =
    if text_eq t "none"
    then some unsubscribed
    else if text_eq t "trialing"
    then some trialing
    else if text_eq t "active"
    then some subscribed
    else if text_eq t "past_due"
    then some past_due
    else if text_eq t "canceled"
    then some canceled
    else none

-- A verified event of Stripe, with the fields that the code reads.
pub data StripeEvent : Type 0 where
  checkout_completed : Option ℕ → Option String → Option String → StripeEvent
  subscription_updated : String → String → Option ℕ → StripeEvent
  subscription_deleted : String → StripeEvent
  other_event : String → StripeEvent

abbrev pub is_text : Option String → String → Bool
is_text none t = false
is_text (some s) t = text_eq s t

-- College.findOne({ stripeCustomerId })
abbrev pub college_of_customer : String → World → Option College
college_of_customer customer w = find (λ c. is_text c.stripe_customer_id customer) w.colleges

-- The update of a completed checkout; a value that is undefined is not written.
abbrev pub check_out : Option String → Option String → College → College
check_out subscription plan c = record c {
  stripe_subscription_id = coalesce subscription c.stripe_subscription_id;
  plan_id = or_default plan c.plan_id;
  subscription_status = subscribed;
}

abbrev pub renew : SubscriptionStatus → Option ℕ → College → College
renew status none c = record c { subscription_status = status }
renew status (some period_end) c = record c {
  subscription_status = status;
  current_period_end = some (pos (period_end * 1000));
}

abbrev pub cancel : College → College
cancel c = record c {
  plan_id = "free";
  subscription_status = canceled;
  stripe_subscription_id = none;
}

unfoldable pub handle_stripe_event : StripeEvent → Request (Unit {0})
handle_stripe_event (checkout_completed none subscription plan) = pure tt
handle_stripe_event (checkout_completed (some k) subscription plan) =
    modify (update_college k (check_out subscription plan))
handle_stripe_event (subscription_updated customer status period_end) = do
  found ← gets (college_of_customer customer)
  elim found [
    | none ↦ pure tt
    | some college ↦ do
      valid ← or_raise (parse_status status) validation_error
      modify (update_college college.id (renew valid period_end))
  ]
handle_stripe_event (subscription_deleted customer) = do
  found ← gets (college_of_customer customer)
  elim found [ none ↦ pure tt | some college ↦ modify (update_college college.id cancel) ]
handle_stripe_event (other_event type) = pure tt

-- subscriptionStatus || (planId === "free" ? "none" : "active")
abbrev pub chosen_status : Option String → String → Option SubscriptionStatus
chosen_status none plan = if text_eq plan "free" then some unsubscribed else some subscribed
chosen_status (some t) plan = parse_status t

unfoldable pub set_college_plan :
    Option String → ℕ → String → Option String → ℤ → Request BillingStatus
set_college_plan price k plan status month = do
  or_raise (plan_named price plan) (http 400 "Unknown planId")
  found ← gets (college_at k)
  or_raise found college_not_found
  chosen ← or_raise (chosen_status status plan) validation_error
  modify (update_college k (λ c. record c { plan_id = plan; subscription_status = chosen }))
  get_billing_status price (some k) month
