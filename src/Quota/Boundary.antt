-- ===== src/Quota/Boundary.antt =====
-- `checkFixedWindowQuota` on both sides of the boundary between two windows.
use assessment_microservice.Base.{
  ℕ, zero, suc, ◌+◌, ◌-◌, ◌*◌, ◌≤◌, ◌<◌, ◌≡◌, ◌≢◌, refl, ap, ◌∙◌, true, none, some, List, [], ◌∷◌,
  ◌++◌, arith, if◌then◌else◌, String, ◌/◌, replicate,
}
use mathlib.Core.List.{append-nil}
use native.Mathlib.Nat.{le-div_iff_mul-le, div-lt_iff_lt-mul}
use assessment_microservice.Quota.Window.{
  Redis, Key, count_request, check_fixed_window_quota, key_at, window_start,
}
use assessment_microservice.Quota.Bound.{is_admitted}

-- A quotient is the number of times that the divisor fits.
div_unique : (a b k : ℕ) → 0 < b → k * b ≤ a → a < (k + 1) * b → a / b ≡ k
div_unique a b k positive low high = omega (
  arith,
  (le-div_iff_mul-le {k = b} {x = k} {y = a} positive).1 low,
  (div-lt_iff_lt-mul {k = b} {x = a} {y = k + 1} positive).1 high,
)

plus_zero : (n : ℕ) → n ≡ 0 + n
plus_zero n = omega arith

-- The first millisecond of the window after the window `m`.
abbrev pub boundary : ℕ → ℕ → ℕ
boundary m window_seconds = (m + 1) * window_seconds * 1000

pub window_start-boundary :
    (m window_seconds : ℕ)
    → 0 < window_seconds
    → (window_start (boundary m window_seconds - 1) window_seconds ≡ m)
      × (window_start (boundary m window_seconds) window_seconds ≡ m + 1)
window_start-boundary m window_seconds positive = (
  ap (λ q. q / window_seconds) (before window)
      ∙ div_unique (window - 1) window_seconds m positive (omega arith) (omega arith),
  ap (λ q. q / window_seconds) (at_start window)
      ∙ div_unique window window_seconds (m + 1) positive (omega arith) (omega arith),
)
  where
    window : ℕ
    window = (m + 1) * window_seconds

    before : (q : ℕ) → (q * 1000 - 1) / 1000 ≡ q - 1
    before q = omega arith

    at_start : (q : ℕ) → q * 1000 / 1000 ≡ q
    at_start q = omega arith

module _ (r : Redis) (prefix : String) (limit window_seconds scope : ℕ) where
  -- Of the requests at these moments, those that are counted and let through.
  unfoldable pub passed_at : List ℕ → r.State → ℕ
  passed_at [] s = 0
  passed_at (now ∷ times) s =
      let (result, t) =
        check_fixed_window_quota r prefix limit window_seconds (some s) (some scope) now in
      (if is_admitted result then 1 else 0) + elim t [ none ↦ 0 | some u ↦ passed_at times u ]

  -- Redis answers every command.
  abbrev pub Answers : Type 0
  Answers =
      ((s : r.State) (k : Key) → (n : ℕ) × (t : r.State) × (r.incr s k ≡ some (n, t)))
      × ((s : r.State) (k : Key) → (t : r.State) × (r.expire s k window_seconds ≡ some t))

  abbrev key : ℕ → Key
  key now = key_at prefix scope now window_seconds

  abbrev after : r.State → Key → r.State
  after s k = (count_request r prefix limit window_seconds s k).1

  answered :
      Answers
      → (s : r.State) (k : Key) → r.count s k + 1 ≤ limit
      → (is_admitted (count_request r prefix limit window_seconds s k).0 ≡ true)
        × (r.count (after s k) k ≡ r.count s k + 1)
        × ((j : Key) → j ≢ k → r.count (after s k) j ≡ r.count s j)
  unfolding count_request
  answered (increments, expires) s k room =
      let (n, t, e) = increments s k in
      let (u, f) = expires t k in
      (
        ground (arith, r.incr_returns s k n t e),
        ground (
          arith,
          r.incr_returns s k n t e,
          r.incr_stores s k n t e,
          r.expire_keeps t k window_seconds u k f,
        ),
        λ j ne.
            ground (arith, r.incr_others s k n t j e ne, r.expire_keeps t k window_seconds u j f),
      )

  -- Requests at one moment that fit under the limit all pass, and count against its key only.
  passed-replicate :
      Answers
      → (now n : ℕ) (times : List ℕ) (s : r.State) → r.count s (key now) + n ≤ limit
      → (t : r.State) × (passed_at (replicate n now ++ times) s ≡ n + passed_at times t)
        × ((j : Key) → j ≢ key now → r.count t j ≡ r.count s j)
  unfolding passed_at check_fixed_window_quota
  passed-replicate up now zero times s room = (s, plus_zero (passed_at times s), λ j ne. refl)
  passed-replicate up now (suc n) times s room =
      let (let_through, one_more, others) = answered up s (key now) (omega arith) in
      let (t, rest, kept) = passed-replicate up now n times (after s (key now)) (omega arith) in
      (t, ground arith, λ j ne. kept j ne ∙ others j ne)

  -- The windows are fixed and do not roll: as long as Redis answers, and where no request of a
  -- college or student has been counted in two windows that follow each other, the whole limit
  -- passes in the last millisecond of the first window, and the whole limit again one millisecond
  -- later.
  pub passed-boundary :
      Answers
      → 0 < window_seconds
      → (m : ℕ) (s : r.State) → r.count s (key (boundary m window_seconds - 1)) ≡ 0
      → r.count s (key (boundary m window_seconds)) ≡ 0
      → passed_at
          (replicate limit (boundary m window_seconds - 1)
            ++ replicate limit (boundary m window_seconds))
          s
        ≡ limit + limit
  unfolding passed_at
  passed-boundary up positive m s fresh fresh_next =
      let first = boundary m window_seconds in
      let (ends, starts) = window_start-boundary m window_seconds positive in
      let (t, before, others) =
        passed-replicate up (first - 1) limit (replicate limit first) s (omega arith) in
      let next = others (key first) (λ e. omega (arith, ends, starts, ap (λ k. k.window) e)) in
      let (u, after_it, kept) = passed-replicate up first limit [] t (omega arith) in
      omega (
        arith,
        before,
        after_it,
        ap (λ times. passed_at times t) (append-nil (replicate limit first)),
      )
