-- ===== src/Billing/Plans.antt =====
-- src/config/plans.js. `PLANS[planId]` also finds what every JavaScript object inherits: a planId
-- such as "constructor" names a function, which has none of a plan's fields.
use assessment_microservice.Base.{
  ℕ, Bool, true, false, Option, none, some, List, [], ◌∷◌, if◌then◌else◌, String, text_eq,
}
use assessment_microservice.Store.{any, or_default}

-- `Infinity`, and a missing field, are `none`: `Number.isFinite` is false of both.
pub record Plan : Type 0 where
  pub label : Option String
  pub stripe_price_id : Option String
  pub seat_limit : Option ℕ
  pub submission_quota_per_month : Option ℕ
  pub allows_premium_problems : Bool

abbrev pub free : Plan
free = record {
  label = some "Free";
  stripe_price_id = none;
  seat_limit = some 15;
  submission_quota_per_month = some 500;
  allows_premium_problems = false;
}

-- `price` is env.STRIPE_PRICE_ID_PRO.
abbrev pub pro : Option String → Plan
pro price = record {
  label = some "Pro";
  stripe_price_id = price;
  seat_limit = none;
  submission_quota_per_month = none;
  allows_premium_problems = true;
}

-- The property names of Object.prototype.
abbrev pub inherited : List String
inherited =
    "constructor" ∷ "__defineGetter__" ∷ "__defineSetter__" ∷ "hasOwnProperty" ∷ "__lookupGetter__"
    ∷ "__lookupSetter__" ∷ "isPrototypeOf" ∷ "propertyIsEnumerable" ∷ "toString" ∷ "valueOf"
    ∷ "__proto__" ∷ "toLocaleString" ∷ []

-- What an inherited property looks like as a plan.
abbrev pub no_plan : Plan
no_plan = record {
  label = none;
  stripe_price_id = none;
  seat_limit = none;
  submission_quota_per_month = none;
  allows_premium_problems = false;
}

-- PLANS[planId]
unfoldable pub plan_named : Option String → String → Option Plan
plan_named price id =
    if text_eq id "free"
    then some free
    else if text_eq id "pro"
    then some (pro price)
    else if any (λ x. text_eq x id) inherited
    then some no_plan
    else none

unfoldable pub get_plan : Option String → String → Plan
get_plan price id = or_default (plan_named price id) free
