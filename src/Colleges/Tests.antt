-- ===== src/Colleges/Tests.antt =====
-- Runs of `slugify` and of a sign-up.
use assessment_microservice.Base.{ℕ, ◌≡◌, refl, none, some, [], ◌∷◌, String, concat, false}
use assessment_microservice.Colleges.Founded.{Outcome, signup-Outcome}
use assessment_microservice.Billing.Plans.{get_plan, plan_named}
use assessment_microservice.Accounts.Register.{
  register, refuse_registration, account_of, user_insert,
}
use assessment_microservice.Types.{codes, is_space, is_line_end}
use assessment_microservice.Models.{User, College}
use assessment_microservice.Colleges.{
  SignupBody, digits, slugify, signup, unique_slug, search_slug, refuse_signup, candidate,
  new_college, lower_code, admin, dashed, slug_taken, drop_dashes, cut_dashes, college_create, ok,
}
use assessment_microservice.Store.{Result, World, find_by}
use assessment_microservice.Colleges.Founded.{signup-Outcome}
use assessment_microservice.Samples.{world}
use assessment_microservice.Colleges.Free.{FirstFree, unique_slug-FirstFree}
use assessment_microservice.Accounts.Words.{to_lower_case, lower_char, trim_text}
use assessment_microservice.Billing.Seats.{assert_seat_capacity}
use assessment_microservice.Base.Int.{pos}
use assessment_microservice.Colleges.Slugs.{Slug, slugify-slugify}

abbrev college : ℕ → String → College
college k slug = new_college k "Tech" (codes slug)

abbrev busy : World
busy = record world { colleges = college 7 "st-mary-s" ∷ college 8 "st-mary-s-2" ∷ [] }

slug_of_name : slugify (codes " St. Mary's ") ≡ codes "st-mary-s"
unfolding slugify lower_code dashed drop_dashes cut_dashes is_space is_line_end
slug_of_name = refl

slug_of_nothing : slugify (codes "!?") ≡ codes "college"
unfolding slugify lower_code dashed drop_dashes cut_dashes is_space is_line_end
slug_of_nothing = refl

third_slug : unique_slug (codes "st-mary-s") busy ≡ some (codes "st-mary-s-3")
unfolding unique_slug search_slug slug_taken candidate digits
third_slug = refl

twelve : digits 13 12 ≡ codes "12"
unfolding digits
twelve = refl

unique_slug-FirstFree_example :
    (k : ℕ) × (unique_slug (codes "st-mary-s") busy ≡ some (candidate (codes "st-mary-s") k))
    × FirstFree (λ slug. slug_taken slug busy) (codes "st-mary-s") 1 k
unique_slug-FirstFree_example = unique_slug-FirstFree (codes "st-mary-s") busy

abbrev body : SignupBody
body = record {
  college_name = some "St. Mary's";
  name = some "Eve";
  email = some "eve@x.org";
  password = some "pw";
}

abbrev eve : User
eve = record {
  id = 5;
  name = "Eve";
  email = "eve@x.org";
  password = "#pw";
  role = admin;
  usn = none;
  section = none;
  college_id = some 9;
}

abbrev signed_up : Result (String × User) × World
signed_up = signup none (concat "#") (λ t u. u.name) (pos 0) 5 9 body busy

eve_signs_up : signed_up.0 ≡ ok ("Eve", eve)
unfolding signup refuse_signup slugify lower_code dashed drop_dashes cut_dashes is_space is_line_end
    unique_slug search_slug slug_taken candidate digits college_create register refuse_registration
    account_of user_insert to_lower_case lower_char trim_text assert_seat_capacity find_by get_plan
    plan_named
eve_signs_up = refl

signup-Outcome_example : Outcome (λ t u. u.name) (pos 0) 9 body busy signed_up
signup-Outcome_example = signup-Outcome none (concat "#") (λ t u. u.name) (pos 0) 5 9 body busy

slugify-slugify_example :
    Slug false (slugify (codes " St. Mary's "))
    × (slugify (slugify (codes " St. Mary's ")) ≡ slugify (codes " St. Mary's "))
slugify-slugify_example = slugify-slugify (codes " St. Mary's ")
