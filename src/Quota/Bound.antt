-- ===== src/Quota/Bound.antt =====
-- How many requests a window lets through.
use assessment_microservice.Base.{
  ℕ, ◌+◌, ◌-◌, ◌≤◌, ◌≡◌, ◌≢◌, sym, inl, inr, Bool, true, ◌&&◌, List, [], ◌∷◌, arith, ◌==◌,
  if◌then◌else◌, String, text_eq, Bool-cases, Option-cases, text_eq_iff,
}
use assessment_microservice.Quota.Window.{QuotaResult, Redis, Key, count_request}
use assessment_microservice.Store.{is_some}

-- A request that was counted and let through.
abbrev pub is_admitted : QuotaResult → Bool
is_admitted q = q.allowed && is_some q.count

abbrev pub key_eq : Key → Key → Bool
key_eq j k = text_eq j.prefix k.prefix && (j.scope == k.scope && j.window == k.window)

pub key_eq→≡ : (j k : Key) → key_eq j k ≡ true → j ≡ k
key_eq→≡ j k h = ground (arith, text_eq_iff j.prefix k.prefix)

pub key_eq_refl : (k : Key) → key_eq k k ≡ true
key_eq_refl k = ground (arith, text_eq_iff k.prefix k.prefix)

module _ (r : Redis) (prefix : String) (limit window_seconds : ℕ) (mine : Key) where
  -- Of the requests at these keys, those at the key `mine` that are counted and let through.
  unfoldable pub admitted : List Key → r.State → ℕ
  admitted [] s = 0
  admitted (k ∷ ks) s =
      let (result, t) = count_request r prefix limit window_seconds s k in
      (if key_eq k mine && is_admitted result then 1 else 0) + admitted ks t

  -- A request at the key raises its count, and is let through below the limit only.
  same_key :
      (s : r.State) (k : Key)
      → k ≡ mine
      → let (result, t) = count_request r prefix limit window_seconds s k in
        (r.count s mine ≤ r.count t mine)
        × (is_admitted result ≡ true
            → (r.count t mine ≡ r.count s mine + 1) × (r.count s mine + 1 ≤ limit))
  unfolding count_request
  same_key s k same = elim (Option-cases (r.incr s k)) [
    | inl e ↦ ground arith
    | inr ((n, t), e) ↦ elim (Option-cases (r.expire t k window_seconds)) [
      | inl f ↦ ground (arith, r.incr_returns s k n t e, r.incr_stores s k n t e)
      | inr (u, f) ↦ ground (
        arith,
        r.incr_returns s k n t e,
        r.incr_stores s k n t e,
        r.expire_keeps t k window_seconds u k f,
      )
    ]
  ]

  other_key :
      (s : r.State) (k : Key)
      → k ≢ mine
      → r.count (count_request r prefix limit window_seconds s k).1 mine ≡ r.count s mine
  unfolding count_request
  other_key s k ne = elim (Option-cases (r.incr s k)) [
    | inl e ↦ ground arith
    | inr ((n, t), e) ↦ elim (Option-cases (r.expire t k window_seconds)) [
      | inl f ↦ ground (arith, r.incr_others s k n t mine e (λ x. ne (sym x)))
      | inr (u, f) ↦ ground (
        arith,
        r.incr_others s k n t mine e (λ x. ne (sym x)),
        r.expire_keeps t k window_seconds u mine f,
      )
    ]
  ]

  -- Whatever requests at whatever keys are made, those that count against one key and are let
  -- through are no more than the limit leaves.
  pub admitted-le : (ks : List Key) (s : r.State) → admitted ks s ≤ limit - r.count s mine
  unfolding admitted
  admitted-le [] s = omega arith
  admitted-le (k ∷ ks) s = elim (Bool-cases (key_eq k mine)) [
    | inl hit ↦ ground (
      arith,
      same_key s k (key_eq→≡ k mine hit),
      admitted-le ks (count_request r prefix limit window_seconds s k).1,
    )
    | inr miss ↦ ground (
      arith,
      other_key s k (λ e. absurd (cc (key_eq_refl mine))),
      admitted-le ks (count_request r prefix limit window_seconds s k).1,
    )
  ]
