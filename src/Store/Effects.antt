-- ===== src/Store/Effects.antt =====
-- A request: it runs on the world and returns or raises. What it wrote before it raised stays
-- written, as in the source, which uses no transaction.
use assessment_microservice.Base.{
  ◌≡◌, refl, arith, ◌⊎◌, inl, inr, ℕ, String, Bool, Option, none, some, List, if◌then◌else◌,
}
use assessment_microservice.Models.{
  User, College, Problem, Assessment, Attempt, Submission, UsageEvent, AuditLog, ProblemType,
  CompareMode,
}

-- `buildJudgeMessageBody`'s envelope for the judge's queue.
pub record JudgeTest : Type 0 where
  pub inputs : String
  pub expected : String
  pub is_hidden : Bool
  pub is_sample : Bool

pub record JudgeMessage : Type 0 where
  pub submission_id : ℕ
  pub problem_id : ℕ
  pub language : String
  pub code : String
  pub tests : List JudgeTest
  pub problem_type : ProblemType
  pub compare_mode : CompareMode
  pub function_name : Option String
  pub college_id : Option ℕ

-- The collections, the judge's queue, and the cached submissions of Redis.
pub record World : Type 0 where
  pub users : List User
  pub colleges : List College
  pub problems : List Problem
  pub assessments : List Assessment
  pub attempts : List Attempt
  pub submissions : List Submission
  pub usage_events : List UsageEvent
  pub audit_logs : List AuditLog
  pub queue : List JudgeMessage
  pub cache : List Submission

-- What a request can raise: an HttpError with its status and message (and, for a refused payload,
-- its `errors`), a TypeError from reading a field of null, a CastError or ValidationError of the
-- database layer, or the duplicate-key error 11000.
pub data Failure : Type 0 where
  http : ℕ → String → Failure
  invalid : List String → Failure
  type_error cast_error validation_error duplicate_key : Failure

pub data Result {ℓ} (A : Type ℓ) : Type ℓ where
  ok : A → Result A
  err : Failure → Result A

abbrev pub Request : Type 0 → Type 0
Request A = World → Result A × World

module _ {A : Type 0} where
  abbrev pub pure : A → Request A
  pure a w = (ok a, w)

  abbrev pub raise : Failure → Request A
  raise e w = (err e, w)

  abbrev pub gets : (World → A) → Request A
  gets f w = (ok (f w), w)

  -- `if (!x) throw …`
  abbrev pub or_raise : Option A → Failure → Request A
  or_raise none e = raise e
  or_raise (some a) e = pure a

infixl 5 ◌>>=◌ ◌>>◌
abbrev pub ◌>>=◌ : {A B : Type 0} → Request A → (A → Request B) → Request B
◌>>=◌ m f w = let (r, w') = m w in elim r [ ok a ↦ f a w' | err e ↦ raise e w' ]

abbrev pub ◌>>◌ : {A B : Type 0} → Request A → Request B → Request B
m >> k = m >>= λ _. k

-- `if (c) throw …`
abbrev pub raise_if : Bool → Failure → Request (Unit {0})
raise_if c e w = (if c then err e else ok tt, w)

abbrev pub modify : (World → World) → Request (Unit {0})
modify f w = (ok tt, f w)

-- `if (c) m else k`
abbrev pub branch : {A : Type 0} → Bool → Request A → Request A → Request A
branch c m k w = if c then m w else k w

abbrev handle_duplicate : {A : Type 0} → Result A × World → Request A → Result A × World
handle_duplicate (ok a, w) k = (ok a, w)
handle_duplicate (err duplicate_key, w) k = k w
handle_duplicate (err e, w) k = (err e, w)

-- `try { m } catch (error) { if (error?.code === 11000) return k; throw error; }`
abbrev pub catch_duplicate : {A : Type 0} → Request A → Request A → Request A
catch_duplicate m k w = handle_duplicate (m w) k

pub Result-cases {ℓ} :
    {A : Type ℓ} (r : Result A) → ((a : A) × (r ≡ ok a)) ⊎ ((e : Failure) × (r ≡ err e))
Result-cases (ok a) = inl (a, refl)
Result-cases (err e) = inr (e, refl)

-- What a chain of requests returned, its first request returned too.
pub bind_ok :
    {A B : Type 0} (m : Request A) (f : A → Request B) (w w' : World) (b : B)
    → (m >>= f) w ≡ (ok b, w')
    → (a : A) × (v : World) × (m w ≡ (ok a, v)) × (f a v ≡ (ok b, w'))
bind_ok {A} {B} m f w w' b h = go (m w) refl h
  where
    go :
        (r : Result A × World)
        → m w ≡ r
        → ◌≡◌ {A = Result B × World} (elim r.0 [ ok a ↦ f a r.1 | err e ↦ raise e r.1 ]) (ok b, w')
        → (a : A) × (v : World) × (m w ≡ (ok a, v)) × (f a v ≡ (ok b, w'))
    go (ok a, v) e h = (a, v, e, h)
    go (err x, v) e h = absurd (ground arith)
