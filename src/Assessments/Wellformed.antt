-- ===== src/Assessments/Wellformed.antt =====
-- What a payload has to be, said without the code that looks for errors.
use assessment_microservice.Base.{
  ◌≡◌, ◌≢◌, ◌↔◌, refl, ap, ◌∙◌, Bool, true, false, not, Option, none, some, List, [], ◌∷◌, ◌++◌,
  arith, ◌==◌, String, text_eq_iff, sym,
}
use assessment_microservice.Assessments.Payload.{
  Payload, PayloadProblem, payload_errors, has_duplicates, is_blank, problem_errors, is_bad_score,
  is_not_positive, ends_too_early, validate_assessment_payload, error_if, refuse, Date,
  is_not_before, date, invalid_date,
}
use assessment_microservice.Store.{any, is_some, World, ok}
use assessment_microservice.Base.Int.{ℤ, ◌<ℤ◌, pos, leb_ℤ}

-- No problem stands in the list twice.
abbrev pub Once : List PayloadProblem → Type 0
Once [] = Unit {0}
Once (p ∷ ps) = (any (λ (q : PayloadProblem). q.problem_id == p.problem_id) ps ≡ false) × Once ps

abbrev pub Scored : List PayloadProblem → Type 0
Scored [] = Unit {0}
Scored (p ∷ ps) = ((n : ℤ) → p.max_score ≡ some n → pos 0 <ℤ n) × Scored ps

-- A start that can be read is before an end that can be read.
abbrev pub InOrder : Date → Date → Type 0
InOrder (date s) (date e) = s <ℤ e
InOrder (date s) invalid_date = Unit {0}
InOrder invalid_date e = Unit {0}

pub record Valid (p : Payload) : Type 0 where
  pub titled : (t : String) × (p.title ≡ some t) × (t ≢ "")
  pub timed : (s e : Date) × (p.start_time ≡ some s) × (p.end_time ≡ some e) × InOrder s e
  pub lasting : (n : ℤ) × (p.duration_minutes ≡ some n) × (pos 0 <ℤ n)
  pub posed :
      (q : PayloadProblem) × (qs : List PayloadProblem) × (p.problems ≡ some (q ∷ qs))
      × Once (q ∷ qs)
      × Scored (q ∷ qs)

Once-iff : (ps : List PayloadProblem) → (has_duplicates ps ≡ false) ↔ Once ps
unfolding has_duplicates
Once-iff [] = (λ h. tt, λ h. refl)
Once-iff (p ∷ ps) = ground (arith, Once-iff ps)

bad_score_iff :
    (o : Option ℤ)
    → (elim o as (λ x. Bool) [ none ↦ false | some n ↦ leb_ℤ n (pos 0) ] ≡ false)
      ↔ ((n : ℤ) → o ≡ some n → pos 0 <ℤ n)
bad_score_iff none = (λ h n e. ground arith, λ h. refl)
bad_score_iff (some m) = (λ h n e. ground arith, λ h. ground (arith, h m refl))

Scored-iff : (ps : List PayloadProblem) → (any is_bad_score ps ≡ false) ↔ Scored ps
Scored-iff [] = (λ h. tt, λ h. refl)
Scored-iff (p ∷ ps) = (
  λ h. ((bad_score_iff p.max_score).0 (ground arith), (Scored-iff ps).0 (ground arith)),
  λ h. ground (arith, (bad_score_iff p.max_score).1 h.0, (Scored-iff ps).1 h.1),
)

append_nil_iff : {A : Type 0} (xs ys : List A) → (xs ++ ys ≡ []) ↔ ((xs ≡ []) × (ys ≡ []))
append_nil_iff [] ys = (λ h. (refl, h), λ h. h.1)
append_nil_iff (x ∷ xs) ys = (λ h. ground arith, λ h. ground arith)

error_if_iff : (b : Bool) (t : String) → (error_if b t ≡ []) ↔ (b ≡ false)
error_if_iff true t = (λ h. ground arith, λ h. ground arith)
error_if_iff false t = (λ h. refl, λ h. refl)

listed_errors_iff :
    (a b : Bool) (s t : String) → (error_if a s ++ error_if b t ≡ []) ↔ ((a ≡ false) × (b ≡ false))
listed_errors_iff a b s t = (
  λ h.
      let (f, g) = (append_nil_iff (error_if a s) (error_if b t)).0 h in
      ((error_if_iff a s).0 f, (error_if_iff b t).0 g),
  λ h.
      (append_nil_iff (error_if a s) (error_if b t)).1
        ((error_if_iff a s).1 h.0, (error_if_iff b t).1 h.1),
)

-- The problems of a payload that passes.
abbrev pub Posed : Option (List PayloadProblem) → Type 0
Posed o =
    (q : PayloadProblem) × (qs : List PayloadProblem) × (o ≡ some (q ∷ qs))
    × Once (q ∷ qs)
    × Scored (q ∷ qs)

problem_errors→Posed : (o : Option (List PayloadProblem)) → problem_errors o ≡ [] → Posed o
problem_errors→Posed none h = absurd (ground arith)
problem_errors→Posed (some []) h = absurd (ground arith)
problem_errors→Posed (some (p ∷ ps)) h = (
  p,
  ps,
  refl,
  (Once-iff (p ∷ ps)).0
      ((listed_errors_iff (has_duplicates (p ∷ ps)) (any is_bad_score (p ∷ ps)) _ _).0 h).0,
  (Scored-iff (p ∷ ps)).0
      ((listed_errors_iff (has_duplicates (p ∷ ps)) (any is_bad_score (p ∷ ps)) _ _).0 h).1,
)

posed_problem_errors :
    (q : PayloadProblem) (qs : List PayloadProblem)
    → Once (q ∷ qs)
    → Scored (q ∷ qs)
    → problem_errors (some (q ∷ qs)) ≡ []
posed_problem_errors q qs once scored =
    (listed_errors_iff (has_duplicates (q ∷ qs)) (any is_bad_score (q ∷ qs)) _ _).1
      ((Once-iff (q ∷ qs)).1 once, (Scored-iff (q ∷ qs)).1 scored)

not_blank : (t : String) → t ≢ "" → is_blank (some t) ≡ false
not_blank t h = ground (arith, text_eq_iff t "")

refuse→ : (es : List String) (w : World) → (refuse es w).0 ≡ ok tt → es ≡ []
refuse→ [] w h = refl
refuse→ (e ∷ es) w h = absurd (ground arith)

-- The first five checks, in order.
five_errors_iff :
    (a b c d e : Bool) (r s t u v : String) (rest : List String)
    → (error_if a r ++ error_if b s ++ error_if c t ++ error_if d u ++ error_if e v ++ rest ≡ [])
      ↔ ((a ≡ false) × (b ≡ false) × (c ≡ false) × (d ≡ false) × (e ≡ false) × (rest ≡ []))
five_errors_iff true b c d e r s t u v rest = (λ h. ground arith, λ h. ground arith)
five_errors_iff false true c d e r s t u v rest = (λ h. ground arith, λ h. ground arith)
five_errors_iff false false true d e r s t u v rest = (λ h. ground arith, λ h. ground arith)
five_errors_iff false false false true e r s t u v rest = (λ h. ground arith, λ h. ground arith)
five_errors_iff false false false false true r s t u v rest = (λ h. ground arith, λ h. ground arith)
five_errors_iff false false false false false r s t u v rest =
    (λ h. (refl, refl, refl, refl, refl, h), λ (a, b, c, d, e, h). h)

is_blank→ : (o : Option String) → is_blank o ≡ false → (t : String) × (o ≡ some t) × (t ≢ "")
is_blank→ none h = absurd (ground arith)
is_blank→ (some t) h = (t, refl, λ e. ground (arith, text_eq_iff t ""))

is_some→ : {A : Type 0} (o : Option A) → not (is_some o) ≡ false → (a : A) × (o ≡ some a)
is_some→ none h = absurd (ground arith)
is_some→ (some a) h = (a, refl)

is_not_positive→ :
    (o : Option ℤ) → is_not_positive o ≡ false → (n : ℤ) × (o ≡ some n) × (pos 0 <ℤ n)
is_not_positive→ none h = absurd (ground arith)
is_not_positive→ (some n) h = (n, refl, ground arith)

too_early :
    {a b : Option Date} {s e : Date}
    → a ≡ some s
    → b ≡ some e
    → ends_too_early a b ≡ is_not_before s e
too_early {a} {b} {s} {e} p q =
    ap (λ o. ends_too_early o b) p ∙ ap (λ o. ends_too_early (some s) o) q

InOrder-iff : (s e : Date) → (is_not_before s e ≡ false) ↔ InOrder s e
InOrder-iff invalid_date e = (λ h. tt, λ h. refl)
InOrder-iff (date s) invalid_date = (λ h. tt, λ h. refl)
InOrder-iff (date s) (date e) = (λ h. ground arith, λ h. ground arith)

-- A payload is accepted exactly when it has a title, a start and an end, a positive duration, and at least
-- one problem, none of them twice and none with a score of its own that is not positive; and the start
-- is before the end, unless one of the two dates cannot be read, for such a date passes.
pub validate_assessment_payload-Valid :
    (p : Payload) (w : World) → ((validate_assessment_payload p w).0 ≡ ok tt) ↔ Valid p
unfolding validate_assessment_payload payload_errors
validate_assessment_payload-Valid p w = (
  λ h.
      let (titled, starts, ends, lasts, order, posed) =
        (five_errors_iff _ _ _ _ _ _ _ _ _ _ (problem_errors p.problems)).0
          (refuse→ (payload_errors p) w h) in
      let (s, es) = is_some→ p.start_time starts in
      let (e, ee) = is_some→ p.end_time ends in
      record {
        titled = is_blank→ p.title titled;
        timed = (s, e, es, ee, (InOrder-iff s e).0 (sym (too_early es ee) ∙ order));
        lasting = is_not_positive→ p.duration_minutes lasts;
        posed = problem_errors→Posed p.problems posed;
      },
  λ v.
      let (t, et, nonempty) = v.titled in
      let (s, e, es, ee, before) = v.timed in
      let (n, en, positive) = v.lasting in
      let (q, qs, eq, once, scored) = v.posed in
      ap (λ errors. (refuse errors w).0)
        ((five_errors_iff _ _ _ _ _ _ _ _ _ _ (problem_errors p.problems)).1 (
          ap is_blank et ∙ not_blank t nonempty,
          ap (λ o. not (is_some o)) es,
          ap (λ o. not (is_some o)) ee,
          ap is_not_positive en ∙ ground arith,
          ap (λ o. ends_too_early o p.end_time) es
              ∙ ap (λ o. ends_too_early (some s) o) ee
              ∙ (InOrder-iff s e).1 before,
          ap problem_errors eq ∙ posed_problem_errors q qs once scored,
        )),
)
