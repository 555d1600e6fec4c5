-- ===== src/Attempts/Kept.antt =====
-- That a request keeps what is fixed of every attempt, for the requests that write more than once.
use assessment_microservice.Base.{
  ℕ, Option-cases, ◌≡◌, inl, none, inr, some, Bool-cases, arith, subst, ◌==◌, ==_iff, ◌&&◌, sym,
  refl, true,
}
use assessment_microservice.Store.{
  World, attempt_at, update_attempt, find_by, find_by-cons, update_by-update_by,
}
use assessment_microservice.Models.{Attempt, Assessment, active}
use assessment_microservice.Attempts.Expiry.{
  Caller, Clock, expiration_time, is_active, is_attempt_expired,
}
use assessment_microservice.Attempts.Evolution.{
  EvolvesAt, Evolves-refl, Evolves, EvolvesAt-update_attempt, Evolves-of_score, Evolves-hand_in,
  Evolves-expire, Evolves-score, Evolves-time_out,
}
use assessment_microservice.Base.Int.{ℤ}
use assessment_microservice.Attempts.Score.{
  recalculate_attempt_score, recalculate_attempt_score_cases,
}
use assessment_microservice.Attempts.Start.{started}
use assessment_microservice.Attempts.Submit.{
  refreshed, close_attempt, hand_in, close_attempt_cases, time_out,
}
use assessment_microservice.Submissions.Gate.{expire}

module _ (j : ℕ) (w : World) where
  -- The attempt j, before and after.
  abbrev pub Kept : World → Type 0
  Kept w' = EvolvesAt (attempt_at j w) (attempt_at j w')

  pub Kept-refl : Kept w
  Kept-refl = elim (Option-cases (attempt_at j w)) [
    | inl e ↦ rw e tt
    | inr (a, e) ↦ rw e (Evolves-refl a)
  ]

  pub Kept-update :
      (k : ℕ) (f : Attempt → Attempt)
      → ((a : Attempt) → attempt_at k w ≡ some a → Evolves a (f a))
      → ((a : Attempt) → (f a).id ≡ a.id)
      → Kept (update_attempt k f w)
  Kept-update k f h keeps = EvolvesAt-update_attempt j k f w h keeps

  -- An update of the attempt after its rescoring.
  Kept-recalculate :
      (k : ℕ) (f : Attempt → Attempt)
      → ((a : Attempt) (n : ℕ) → attempt_at k w ≡ some a → Evolves a (f (record a { score = n })))
      → ((a : Attempt) → attempt_at k w ≡ some a → Evolves a (f a))
      → ((a : Attempt) → (f a).id ≡ a.id)
      → Kept (update_attempt k f (recalculate_attempt_score k w).1)
  Kept-recalculate k f h₁ h₂ keeps =
      recalculate_attempt_score_cases (λ v. Kept (update_attempt k f v)) k w
        (Kept-update k f h₂ keeps)
        (λ n.
          subst (λ xs. EvolvesAt (attempt_at j w) (find_by (λ (x : Attempt). x.id) j xs))
            (sym (
              update_by-update_by (λ (x : Attempt). x.id) k f (λ x. record x { score = n })
                w.attempts (λ x. refl)))
            (Kept-update k (λ x. f (record x { score = n })) (λ a. h₁ a n)
              (λ a. keeps (record a { score = n }))))

  pub Kept-view :
      (k : ℕ) (a : Attempt) (s : Assessment) (now : ℤ)
      → attempt_at k w ≡ some a
      → Kept (recalculate_attempt_score k (refreshed k a s now w)).1
  Kept-view k a s now e = elim (Bool-cases (is_active a.status && is_attempt_expired a s now)) [
    | inr later ↦ rw later (
        recalculate_attempt_score_cases Kept k w Kept-refl λ n.
          Kept-update k (λ x. record x { score = n }) (λ x _. Evolves-score x x n (Evolves-refl x))
            (λ x. refl))
    | inl over ↦ rw over (
        recalculate_attempt_score_cases Kept k (update_attempt k (expire at) w)
          (Kept-update k (expire at) (λ x found. timed_out_now x found over) (λ x. refl))
          (λ n.
            subst (λ xs. EvolvesAt (attempt_at j w) (find_by (λ (x : Attempt). x.id) j xs))
              (sym (
                update_by-update_by (λ (x : Attempt). x.id) k (λ x. record x { score = n })
                  (expire at) w.attempts (λ x. refl)))
              (Kept-update k (λ x. record (expire at x) { score = n })
                (λ x found. Evolves-score x _ n (timed_out_now x found over)) (λ x. refl))))
  ]
    where
      at : ℤ
      at = expiration_time a s

      timed_out_now :
          (x : Attempt)
          → attempt_at k w ≡ some x
          → (is_active a.status && is_attempt_expired a s now) ≡ true
          → Evolves x (expire at x)
      timed_out_now x found over = Evolves-expire x at (ground arith)

  pub Kept-close :
      (k : ℕ) (user : Caller) (clock : Clock) (a : Attempt) (s : Assessment)
      → attempt_at k w ≡ some a
      → a.status ≡ active
      → Kept (close_attempt k user clock a s w).1
  Kept-close k user clock a s e on =
      close_attempt_cases Kept k user clock a s w
        (recalculate_attempt_score_cases Kept k w Kept-refl λ n.
          Kept-update k (λ x. record x { score = n }) (λ x _. Evolves-score x x n (Evolves-refl x))
            (λ x. refl))
        (λ _.
          Kept-recalculate k (time_out (expiration_time a s))
            (λ x n found.
              Evolves-of_score x _ n (Evolves-time_out (record x { score = n }) _ (here x found)))
            (λ x found. Evolves-time_out x _ (here x found)) (λ x. refl))
        (λ _. handed) (λ _. handed)
    where
      here : (x : Attempt) → attempt_at k w ≡ some x → x.status ≡ active
      here x found = ground arith

      handed :
          Kept (update_attempt k (hand_in (clock 1) (clock 2)) (recalculate_attempt_score k w).1)
      handed =
          Kept-recalculate k (hand_in (clock 1) (clock 2))
            (λ x n found.
              Evolves-of_score x _ n (Evolves-hand_in (record x { score = n }) _ _ (here x found)))
            (λ x found. Evolves-hand_in x _ _ (here x found)) (λ x. refl)

  same_attempt : (k : ℕ) {a b : Attempt} → attempt_at k w ≡ some a → attempt_at k w ≡ some b → a ≡ b
  same_attempt k e e' = cc

  -- An update that was computed from the attempt that was found.
  pub Kept-found :
      (k : ℕ) (a : Attempt) (f : Attempt → Attempt)
      → attempt_at k w ≡ some a
      → Evolves a (f a)
      → ((x : Attempt) → (f x).id ≡ x.id)
      → Kept (update_attempt k f w)
  Kept-found k a f found h keeps =
      Kept-update k f (λ x found'. subst (λ y. Evolves y (f y)) (same_attempt k found found') h)
        keeps

  pub Kept-started :
      (a : Attempt) (user : Caller) → attempt_at a.id w ≡ none → Kept (started a user w)
  Kept-started a user fresh = elim (Bool-cases (a.id == j)) [
    | inl hit ↦ rw (subst (λ i. attempt_at i w ≡ none) ((==_iff a.id j).0 hit) fresh) tt
    | inr miss ↦ rw (find_by-cons (λ (x : Attempt). x.id) j a w.attempts, miss) Kept-refl
  ]
