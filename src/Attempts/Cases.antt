-- ===== src/Attempts/Cases.antt =====
-- One rule for each request about an attempt: what is to be shown for the world that it leaves.
use assessment_microservice.Base.{
  ℕ, String, ◌≡◌, refl, true, false, Option, none, some, arith, inl, inr, Option-cases, List,
}
use assessment_microservice.Base.Int.{ℤ, ◌≤ℤ◌}
use assessment_microservice.Models.{Assessment, Attempt, active, unchallenged, raised, published}
use assessment_microservice.Store.{
  World, attempt_at, update_attempt, assessment_at, in_scope, attempt_of, Result-cases,
}
use assessment_microservice.Attempts.Expiry.{
  Caller, Clock, college_scope_for, is_student, is_active, attempt_expiration,
}
use assessment_microservice.Attempts.Score.{recalculate_attempt_score}
use assessment_microservice.Attempts.Start.{problem_ids, new_attempt, started, start_assessment}
use assessment_microservice.Submissions.Gate.{expire, validate_assessment_submission}
use assessment_microservice.Attempts.Submit.{
  close_attempt, submit_assessment, refreshed, get_assessment_attempt_by_id, is_other_student,
}
use assessment_microservice.Attempts.Events.{
  save_draft, EventType, is_known, logged_event, log_anti_cheating_event, granted, add_grace_time,
  challenged, raise_challenge, Resolution, is_valid, resolved, resolve_challenge,
}

module _ (P : World → Type 0) (k : ℕ) (user : Caller) (w : World) (same : P w) where
  pub submit_assessment_cases :
      (clock : Clock)
      → ((a : Attempt) (s : Assessment)
          → attempt_at k w ≡ some a
          → assessment_at a.assessment_id w ≡ some s
          → a.status ≡ active
          → in_scope (college_scope_for user) a.college_id ≡ true
          → is_other_student user a.student_id ≡ false
          → P (close_attempt k user clock a s w).1)
      → P (submit_assessment k user clock w).1
  unfolding submit_assessment
  submit_assessment_cases clock closed = elim (Option-cases (attempt_at k w)) [
    | inl e ↦ ground arith
    | inr (a, ea) ↦ elim (Option-cases (assessment_at a.assessment_id w)) [
      | inl e ↦ ground arith
      | inr (s, es) ↦ ground (arith, closed a s ea es)
    ]
  ]

  pub save_draft_cases :
      (code : String)
      → ((a : Attempt)
          → attempt_at k w ≡ some a
          → a.status ≡ active
          → in_scope (college_scope_for user) a.college_id ≡ true
          → is_other_student user a.student_id ≡ false
          → P (update_attempt k (λ x. record x { code_drafts = code }) w))
      → P (save_draft k code user w).1
  unfolding save_draft
  save_draft_cases code saved = elim (Option-cases (attempt_at k w)) [
    | inl e ↦ ground arith
    | inr (a, ea) ↦ ground (arith, saved a ea)
  ]

  pub log_anti_cheating_event_cases :
      (type : EventType) (clock : Clock)
      → ((a : Attempt)
          → attempt_at k w ≡ some a
          → a.status ≡ active
          → in_scope (college_scope_for user) a.college_id ≡ true
          → a.student_id ≡ user.id
          → is_known type ≡ true
          → P (update_attempt k (logged_event type (clock 0)) w))
      → P (log_anti_cheating_event k type user clock w).1
  unfolding log_anti_cheating_event
  log_anti_cheating_event_cases type clock logged = elim (Option-cases (attempt_at k w)) [
    | inl e ↦ ground arith
    | inr (a, ea) ↦ ground (arith, logged a ea)
  ]

  pub add_grace_time_cases :
      (minutes : Option ℤ) (clock : Clock)
      → ((a : Attempt) (m : ℤ)
          → attempt_at k w ≡ some a
          → minutes ≡ some m
          → in_scope (college_scope_for user) a.college_id ≡ true
          → is_student user.role ≡ false
          → P (update_attempt k (granted a m (clock 0)) w))
      → P (add_grace_time k minutes user clock w).1
  unfolding add_grace_time
  add_grace_time_cases none clock added = elim (Option-cases (attempt_at k w)) [
    | inl e ↦ ground arith
    | inr (a, ea) ↦ ground arith
  ]
  add_grace_time_cases (some m) clock added = elim (Option-cases (attempt_at k w)) [
    | inl e ↦ ground arith
    | inr (a, ea) ↦ ground (arith, added a m ea refl)
  ]

  pub raise_challenge_cases :
      (why : String) (clock : Clock)
      → ((a : Attempt)
          → attempt_at k w ≡ some a
          → a.student_id ≡ user.id
          → is_active a.status ≡ false
          → a.challenge.status ≡ unchallenged
          → P (update_attempt k (challenged why (clock 0) (clock 1)) w))
      → P (raise_challenge k why user clock w).1
  unfolding raise_challenge
  raise_challenge_cases why clock done = elim (Option-cases (attempt_at k w)) [
    | inl e ↦ ground arith
    | inr (a, ea) ↦ ground (arith, done a ea)
  ]

  pub resolve_challenge_cases :
      (status : Resolution) (comment : String) (clock : Clock)
      → ((a : Attempt)
          → attempt_at k w ≡ some a
          → in_scope (college_scope_for user) a.college_id ≡ true
          → a.challenge.status ≡ raised
          → is_valid status ≡ true
          → P (update_attempt k (resolved status comment (clock 0) (clock 1)) w))
      → P (resolve_challenge k status comment user clock w).1
  unfolding resolve_challenge
  resolve_challenge_cases status comment clock done = elim (Option-cases (attempt_at k w)) [
    | inl e ↦ ground arith
    | inr (a, ea) ↦ ground (arith, done a ea)
  ]

  pub get_assessment_attempt_by_id_cases :
      (clock : Clock)
      → ((a : Attempt) (s : Assessment)
          → attempt_at k w ≡ some a
          → assessment_at a.assessment_id w ≡ some s
          → in_scope (college_scope_for user) a.college_id ≡ true
          → P (recalculate_attempt_score k (refreshed k a s (clock 0) w)).1)
      → P (get_assessment_attempt_by_id k user clock w).1
  unfolding get_assessment_attempt_by_id
  get_assessment_attempt_by_id_cases clock viewed = elim (Option-cases (attempt_at k w)) [
    | inl e ↦ ground arith
    | inr (a, ea) ↦ elim (Option-cases (assessment_at a.assessment_id w)) [
      | inl e ↦ ground arith
      | inr (s, es) ↦ ground (arith, viewed a s ea es)
    ]
  ]

module _ (P : World → Type 0) (w : World) (same : P w) where
  pub validate_assessment_submission_cases :
      (problem : ℕ) (language : String) (user : ℕ) (assessment_id attempt_id : Option ℕ) (now : ℤ)
      → ((k : ℕ) (a : Attempt) (s : Assessment)
          → attempt_at k w ≡ some a
          → assessment_at a.assessment_id w ≡ some s
          → a.status ≡ active
          → a.student_id ≡ user
          → P (update_attempt k (expire (attempt_expiration a s)) w))
      → P (validate_assessment_submission problem language user assessment_id attempt_id now w).1
  unfolding validate_assessment_submission
  validate_assessment_submission_cases problem language user none none now expired = same
  validate_assessment_submission_cases problem language user (some s) none now expired = same
  validate_assessment_submission_cases problem language user none (some k) now expired = same
  validate_assessment_submission_cases problem language user (some s) (some k) now expired =
      elim (Option-cases (attempt_at k w)) [
        | inl e ↦ ground arith
        | inr (a, ea) ↦ elim (Option-cases (assessment_at a.assessment_id w)) [
          | inl e ↦ ground arith
          | inr (s, es) ↦ ground (arith, expired k a s ea es)
        ]
      ]

  -- A new attempt is created only where, after the other requests, none is there.
  pub start_assessment_cases :
      (meanwhile : World → World) (shuffle : List ℕ → List ℕ) (new_id assessment_id : ℕ)
      (user : Caller) (clock : Clock)
      → P (meanwhile w)
      → ((s : Assessment) (ids : List ℕ)
          → assessment_at assessment_id w ≡ some s
          → s.status ≡ published
          → s.locked ≡ false
          → s.start_time ≤ℤ clock 0
          → clock 0 ≤ℤ s.end_time
          → attempt_of s.id user.id (meanwhile w) ≡ none
          → P (started (new_attempt new_id s user (clock 0) (shuffle ids)) user (meanwhile w)))
      → P (start_assessment meanwhile shuffle new_id assessment_id user clock w).1
  unfolding start_assessment
  start_assessment_cases meanwhile shuffle new_id assessment_id user clock later created =
      elim (Option-cases (assessment_at assessment_id w)) [
        | inl e ↦ ground arith
        | inr (s, es) ↦ elim (Option-cases (attempt_of assessment_id user.id w)) [
          | inr (a, ea) ↦ ground arith
          | inl ea ↦ elim (Result-cases (problem_ids w s.problems)) [
            | inr (x, e) ↦ ground arith
            | inl (ids, e) ↦ elim (Option-cases (attempt_of s.id user.id (meanwhile w))) [
              | inl none_yet ↦ ground (arith, created s ids es)
              | inr (a, there) ↦ ground arith
            ]
          ]
        ]
      ]
