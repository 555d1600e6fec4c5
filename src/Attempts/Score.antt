-- ===== src/Attempts/Score.antt =====
-- `recalculateAttemptScore` of assessments.service.js, against the sum that it is meant to be.
use assessment_microservice.Base.{
  ℕ, ◌+◌, ◌≤◌, ◌≡◌, refl, Bool, true, false, ◌&&◌, none, some, List, [], ◌∷◌, arith, ◌==◌,
  if◌then◌else◌, Option-cases, inl, inr,
}
use assessment_microservice.Models.{
  Assessment, AssessmentProblem, Attempt, Submission, SubmissionStatus, success,
}
use assessment_microservice.Store.{
  World, Request, Result, ok, err, type_error, pure, gets, ◌>>=◌, filter, any, is_id,
  find_by-update_by, key-find_by, attempt_at, assessment_at, attempt_by_id, assessment_by_id,
  problem_ref, update_attempt, problem_at, is_some, Result-cases,
}

abbrev pub is_success : SubmissionStatus → Bool
is_success success = true
is_success _ = false

-- Submission.find({ attemptId, status: 'Success' })
abbrev pub successful : ℕ → World → List Submission
successful attempt w = filter (λ s. is_id s.attempt_id attempt && is_success s.status) w.submissions

-- solvedProblemIds.has(id)
abbrev pub solved : List Submission → ℕ → Bool
solved submissions problem = any (λ s. s.problem_id == problem) submissions

-- The loop over the assessment's problems. `p.problemId._id` of a deleted problem is a TypeError.
pub total_score : World → List Submission → List AssessmentProblem → ℕ → Result ℕ
total_score w submissions [] total = ok total
total_score w submissions (p ∷ ps) total = elim (problem_ref w p) [
  | none ↦ err type_error
  | some k ↦
      total_score w submissions ps (if solved submissions k then total + p.max_score else total)
]

abbrev pub write_score : ℕ → Attempt → Result ℕ → Request (Unit {0})
write_score attempt_id attempt (err e) w = (err e, w)
write_score attempt_id attempt (ok total) w = (
  ok tt,
  if attempt.score == total
      then w
      else update_attempt attempt_id (λ a. record a { score = total }) w,
)

unfoldable pub recalculate_attempt_score : ℕ → Request (Unit {0})
unfolding total_score
recalculate_attempt_score attempt_id = do
  found ← attempt_by_id attempt_id none
  elim found [
    | none ↦ pure tt
    | some attempt ↦ do
      assessment? ← gets (assessment_by_id attempt.assessment none)
      elim assessment? [
        | none ↦ pure tt
        | some assessment ↦ λ w.
            write_score attempt_id attempt.doc
              (total_score w (successful attempt.id w) assessment.problems 0) w
      ]
  ]

-- The score that the attempt has earned: the full marks of each problem with an accepted solution.
abbrev pub earned : List Submission → List AssessmentProblem → ℕ
earned submissions [] = 0
earned submissions (p ∷ ps) =
    (if solved submissions p.problem_id then p.max_score else 0) + earned submissions ps

-- All that can be earned.
abbrev pub full_marks : List AssessmentProblem → ℕ
full_marks [] = 0
full_marks (p ∷ ps) = p.max_score + full_marks ps

-- Every problem of the list is still there.
abbrev pub all_present : World → List AssessmentProblem → Bool
all_present w [] = true
all_present w (p ∷ ps) = is_some (problem_at p.problem_id w) && all_present w ps

pub total_score-eq-earned :
    (w : World) (submissions : List Submission) (ps : List AssessmentProblem) (total : ℕ)
    → total_score w submissions ps total
      ≡ (if all_present w ps then ok (total + earned submissions ps) else err type_error)
unfolding total_score
total_score-eq-earned w submissions [] total = ground arith
total_score-eq-earned w submissions (p ∷ ps) total = ground (
  arith,
  total_score-eq-earned w submissions ps
      (if solved submissions p.problem_id then total + p.max_score else total),
)

pub earned-le-full_marks :
    (submissions : List Submission) (ps : List AssessmentProblem)
    → earned submissions ps ≤ full_marks ps
earned-le-full_marks submissions [] = omega arith
earned-le-full_marks submissions (p ∷ ps) = ground (arith, earned-le-full_marks submissions ps)

-- The world after a rescoring.
abbrev pub rescored : ℕ → ℕ → World → World
rescored k total w = update_attempt k (λ a. record a { score = total }) w

-- What `recalculateAttemptScore` does to an attempt whose assessment is there: it writes the sum of
-- the maximal scores of the solved problems and nothing else, unless a problem of the assessment
-- was deleted, which raises a TypeError and writes nothing.
pub recalculate_attempt_score-attempt_at :
    (k j : ℕ) (w : World) (a : Attempt) (s : Assessment)
    → attempt_at k w ≡ some a
    → assessment_at a.assessment_id w ≡ some s
    → let (r, w') = recalculate_attempt_score k w in
      let total = earned (successful k w) s.problems in
      (r ≡ (if all_present w s.problems then ok tt else err type_error))
      × (attempt_at j w' ≡ (
          if k == j && all_present w s.problems
          then some (record a { score = total })
          else attempt_at j w))
      × (w' ≡ record w { attempts = w'.attempts })
unfolding recalculate_attempt_score
recalculate_attempt_score-attempt_at k j w a s found there = ground (
  arith,
  key-find_by (λ (x : Attempt). x.id) k w.attempts found,
  total_score-eq-earned w (successful k w) s.problems 0,
  find_by-update_by (λ (x : Attempt). x.id) j k
      (λ x. record x { score = earned (successful k w) s.problems }) w.attempts (λ x. refl),
)

-- In any case it leaves the world alone or writes one score.
pub recalculate_attempt_score_cases :
    (P : World → Type 0) (k : ℕ) (w : World)
    → P w
    → ((n : ℕ) → P (rescored k n w))
    → P (recalculate_attempt_score k w).1
unfolding recalculate_attempt_score
recalculate_attempt_score_cases P k w same written = elim (Option-cases (attempt_at k w)) [
  | inl e ↦ ground arith
  | inr (a, ea) ↦ elim (Option-cases (assessment_at a.assessment_id w)) [
    | inl e ↦ ground arith
    | inr (s, es) ↦ elim (Result-cases (total_score w (successful a.id w) s.problems 0)) [
      | inl (n, e) ↦ ground (arith, written n)
      | inr (x, e) ↦ ground arith
    ]
  ]
]
