-- ===== src/Quota/Tests.antt =====
-- The quota over a Redis that is a function from keys to numbers.
use assessment_microservice.Base.{
  ℕ, ◌+◌, ◌-◌, ◌≤◌, ◌≡◌, ◌≢◌, refl, sym, ap, ◌∙◌, inl, inr, Option, none, some, [], ◌∷◌, arith,
  if◌then◌else◌, Bool-cases,
}
use assessment_microservice.Quota.Window.{Redis, Key, key_at}
use assessment_microservice.Quota.Bound.{admitted, key_eq_refl, admitted-le, key_eq, key_eq→≡}
use assessment_microservice.Quota.Boundary.{passed-boundary, passed_at}

abbrev assign : (Key → ℕ) → Key → ℕ → Key → ℕ
assign f k n j = if key_eq j k then n else f j

stored : (f : Key → ℕ) (k : Key) (n : ℕ) → assign f k n k ≡ n
stored f k n = ground (arith, key_eq_refl k)

kept : (f : Key → ℕ) (k j : Key) (n : ℕ) → j ≢ k → assign f k n j ≡ f j
kept f k j n ne = elim (Bool-cases (key_eq j k)) [
  | inl e ↦ absurd (ne (key_eq→≡ j k e))
  | inr e ↦ rw e
]

abbrev incr : (Key → ℕ) → Key → Option (ℕ × (Key → ℕ))
incr f k = some (f k + 1, assign f k (f k + 1))

returns : (f : Key → ℕ) (k : Key) (n : ℕ) (t : Key → ℕ) → incr f k ≡ some (n, t) → n ≡ f k + 1
returns f k n t e = ap (λ o. elim o [ none ↦ n | some x ↦ x.0 ]) (sym e)

stores : (f : Key → ℕ) (k : Key) (n : ℕ) (t : Key → ℕ) → incr f k ≡ some (n, t) → t k ≡ n
stores f k n t e =
    ap (λ o. elim o [ none ↦ n | some x ↦ x.1 k ]) (sym e)
    ∙ stored f k (f k + 1)
    ∙ sym (returns f k n t e)

others :
    (f : Key → ℕ) (k : Key) (n : ℕ) (t : Key → ℕ) (j : Key)
    → incr f k ≡ some (n, t)
    → j ≢ k
    → t j ≡ f j
others f k n t j e ne =
    ap (λ o. elim o [ none ↦ n | some x ↦ x.1 j ]) (sym e) ∙ kept f k j (f k + 1) ne

abbrev memory : Redis
memory = record {
  State = Key → ℕ;
  count = λ f k. f k;
  incr = incr;
  expire = λ f k t. some f;
  incr_returns = returns;
  incr_stores = stores;
  incr_others = others;
  expire_keeps = λ f k t g j e. ap (λ o. elim o [ none ↦ g j | some x ↦ x j ]) (sym e);
}

abbrev now_key : Key
now_key = key_at "student_submission_quota" 1 90000 60

admitted-le_example :
    admitted memory "" 2 60 now_key (now_key ∷ now_key ∷ now_key ∷ []) (λ k. 0) ≤ 2 - 0
admitted-le_example = admitted-le memory "" 2 60 now_key (now_key ∷ now_key ∷ now_key ∷ []) (λ k. 0)

passed-boundary_example :
    passed_at memory "student_submission_quota" 2 60 1 (59999 ∷ 59999 ∷ 60000 ∷ 60000 ∷ []) (λ k. 0)
    ≡ 4
passed-boundary_example =
    passed-boundary memory "student_submission_quota" 2 60 1
      ((λ f k. (f k + 1, assign f k (f k + 1), refl)), (λ f k. (f, refl))) (omega arith) 0 (λ k. 0)
      refl refl
