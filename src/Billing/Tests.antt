-- ===== src/Billing/Tests.antt =====
-- The theorems about subscriptions, for a college whose trial has just become a paid plan.
use assessment_microservice.Base.{none, some, [], ◌∷◌}
use assessment_microservice.Models.{College, trialing}
use assessment_microservice.Store.{World}
use assessment_microservice.Samples.{world}
use assessment_microservice.Base.Int.{pos}

abbrev customer : College
customer = record {
  id = 7;
  name = "Aachen";
  slug = [];
  plan_id = "pro";
  stripe_customer_id = some "cus_7";
  stripe_subscription_id = some "sub_1";
  subscription_status = trialing;
  current_period_end = none;
}

abbrev paying : World
paying = record world {
  colleges = customer ∷ [];
  usage_events = record { college_id = 7; created_at = pos 50 } ∷ [];
}
