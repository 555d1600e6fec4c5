-- ===== src/Accounts.antt =====
-- auth.service.js: accounts. What the requests read and write, and the texts that they compare.
-- bcrypt's `hash` and `compare`, the signing of a token and the ids that the database gives are
-- arguments. Of the letters with a small form, the model has the ASCII ones.
pub mod Words
pub mod Register
pub mod Login
pub mod Reset
pub mod Registered
pub mod Batch
pub mod Rollback
pub mod Checked
pub mod Accepted
pub mod Capacity
mod Tests
use assessment_microservice.Base.{
  ℕ, zero, suc, ◌+◌, ◌-◌, ◌*◌, ◌≤◌, ◌<◌, ◌≡◌, ◌≢◌, ◌↔◌, ◌⊎◌, refl, sym, ap, subst, ◌∙◌, inl, inr,
  Bool, true, false, not, ◌&&◌, ◌||◌, Option, none, some, List, [], ◌∷◌, ◌++◌, map, arith, ◌==◌,
  ==_iff, ltb, leb, if◌then◌else◌, String, text_eq, Bool-cases, Option-cases, length,
}
