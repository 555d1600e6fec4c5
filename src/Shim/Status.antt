-- ===== src/Shim/Status.antt =====
-- What the status and the memory of an answer mean.
use assessment_microservice.Base.{
  ℕ, ◌*◌, ◌≤◌, ◌<◌, ◌≡◌, ◌↔◌, ◌⊎◌, refl, sym, ap, ◌∙◌, inl, inr, Bool, true, false, Option, none,
  some, arith, if◌then◌else◌, String, Option-cases, ◌%◌,
}
use assessment_microservice.Store.{is_some}
use assessment_microservice.Shim.Run.{
  run_raw_code_assess, Raw, classify, RawRun, limit_mb, Backend, is_failure_code, response_of,
  RawRequest, map_language_id, raw_run, replied, Response, response_to, unreachable, nothing_ran,
  not_ok, unsupported,
}
use assessment_microservice.Arventiq.Verdict.{text_or_null}

-- A run that went well.
abbrev pub Clean : Raw → Type 0
Clean raw =
    (raw.compile_error ≡ false)
    × (raw.timed_out ≡ false)
    × (raw.oom_killed ≡ false)
    × (text_or_null raw.error ≡ none)
    × (is_failure_code raw.exit_code ≡ false)

is_some_iff : {A : Type 0} (o : Option A) → (is_some o ≡ false) ↔ (o ≡ none)
is_some_iff none = (λ h. refl, λ h. refl)
is_some_iff (some a) = (λ h. ground arith, λ h. ground arith)

-- The tests of `classify` on their answers alone.
abbrev picked : Bool → Bool → Bool → Bool → Bool → ℕ → ℕ × ℕ
picked a b c d e m =
    if a
    then (6, 0)
    else if b
    then (5, 0)
    else if c
    then (11, m)
    else if d
    then (13, 0)
    else if e
    then (11, 0)
    else (3, 0)

picked_accepted_iff :
    (a b c d e : Bool) (m : ℕ)
    → ((picked a b c d e m).0 ≡ 3)
      ↔ ((a ≡ false) × (b ≡ false) × (c ≡ false) × (d ≡ false) × (e ≡ false))
picked_accepted_iff a b c d e m = ground arith

classify-accepted_iff : (m : ℕ) (raw : Raw) → ((classify m raw).0 ≡ 3) ↔ Clean raw
unfolding classify
classify-accepted_iff m raw = (
  λ h.
      let (a, b, c, d, e) =
        (picked_accepted_iff raw.compile_error raw.timed_out raw.oom_killed
            (is_some (text_or_null raw.error)) (is_failure_code raw.exit_code) (m * 1024)).0
          h in
      (a, b, c, (is_some_iff (text_or_null raw.error)).0 d, e),
  λ (a, b, c, d, e).
      (picked_accepted_iff raw.compile_error raw.timed_out raw.oom_killed
          (is_some (text_or_null raw.error)) (is_failure_code raw.exit_code) (m * 1024)).1
        (a, b, c, (is_some_iff (text_or_null raw.error)).1 d, e),
)

Backend-cases :
    (b : Backend) → ((raw : Raw) × (b ≡ replied raw)) ⊎ ((m : ℕ) → (response_to m b).status ≡ 13)
Backend-cases (unreachable e) = inr (λ m. refl)
Backend-cases (not_ok n t) = inr (λ m. refl)
Backend-cases (replied raw) = inl (raw, refl)

known_language :
    (judge : RawRun → Backend) (r : RawRequest) (language : String)
    → map_language_id r.language_id ≡ some language
    → run_raw_code_assess judge r
      ≡ response_to (limit_mb r.memory_limit_kb) (judge (raw_run language r))
unfolding run_raw_code_assess
known_language judge r language e =
    ap
      (λ o. elim o as (λ x. Response) [
        | none ↦ nothing_ran (unsupported r.language_id)
        | some l ↦ response_to (limit_mb r.memory_limit_kb) (judge (raw_run l r))
      ])
      e

unknown_language :
    (judge : RawRun → Backend) (r : RawRequest)
    → map_language_id r.language_id ≡ none
    → (run_raw_code_assess judge r).status ≡ 13
unfolding run_raw_code_assess
unknown_language judge r e =
    ap
      (λ o.
        (elim o as (λ x. Response) [
          | none ↦ nothing_ran (unsupported r.language_id)
          | some l ↦ response_to (limit_mb r.memory_limit_kb) (judge (raw_run l r))
        ]).status)
      e

-- An answer is "accepted" (status 3) exactly when the language is known, the judge replied, and the
-- run compiled, did not time out, was not killed for its memory, met no internal error and ended with
-- exit code 0 or none.
pub run_raw_code_assess-accepted_iff :
    (judge : RawRun → Backend) (r : RawRequest)
    → ((run_raw_code_assess judge r).status ≡ 3) ↔ (
        (language : String) × (raw : Raw) × (map_language_id r.language_id ≡ some language)
        × (judge (raw_run language r) ≡ replied raw)
        × Clean raw)
run_raw_code_assess-accepted_iff judge r = (
  λ h. elim (Option-cases (map_language_id r.language_id)) [
    | inl e ↦ absurd (differ (sym (unknown_language judge r e) ∙ h))
    | inr (l, e) ↦ elim (Backend-cases (judge (raw_run l r))) [
      | inl (raw, f) ↦ (
        l,
        raw,
        e,
        f,
        (classify-accepted_iff (limit_mb r.memory_limit_kb) raw).0 (sym (answered r l raw e f) ∙ h),
      )
      | inr away ↦ absurd (
          differ (
            sym (away (limit_mb r.memory_limit_kb))
            ∙ sym (ap (λ (x : Response). x.status) (known_language judge r l e))
            ∙ h))
    ]
  ],
  λ (l, raw, e, f, clean).
      answered r l raw e f ∙ (classify-accepted_iff (limit_mb r.memory_limit_kb) raw).1 clean,
)
  where
    differ : ◌≡◌ {A = ℕ} 13 3 → ⊥
    differ h = omega arith

    answered :
        (r : RawRequest) (l : String) (raw : Raw)
        → map_language_id r.language_id ≡ some l
        → judge (raw_run l r) ≡ replied raw
        → (run_raw_code_assess judge r).status ≡ (classify (limit_mb r.memory_limit_kb) raw).0
    answered r l raw e f =
        ap (λ (x : Response). x.status)
          (known_language judge r l e ∙ ap (response_to (limit_mb r.memory_limit_kb)) f)

-- A run that was killed for its memory reports at least the memory that the request allowed exactly
-- when that number of kilobytes is a whole number of megabytes, or is rounded up to one.
pub oom_memory_iff :
    (kb : ℕ) (raw : Raw)
    → raw.compile_error ≡ false
    → raw.timed_out ≡ false
    → raw.oom_killed ≡ true
    → 0 < kb
    → (kb ≤ (response_of (limit_mb (some kb)) raw).memory)
      ↔ ((kb % 1024 ≡ 0) ⊎ (512 ≤ kb % 1024) ⊎ (kb < 1024))
unfolding classify limit_mb
oom_memory_iff kb raw a b c positive = ground arith
