-- ===== src/Reports/Solved.antt =====
-- The reports by problem: how many students tried it, and how many solved it.
use assessment_microservice.Base.{
  ℕ, ◌*◌, Bool, true, false, none, some, List, [], ◌∷◌, map, ◌==◌, if◌then◌else◌, String, text_eq,
  length,
}
use assessment_microservice.Models.{success}
use assessment_microservice.Models.{Submission, AssessmentProblem, Problem}
use assessment_microservice.Reports.Overall.{Rounded, or_hundred}
use assessment_microservice.Store.{World, Result, err, filter, ok, problem_at, type_error}
use assessment_microservice.Reports.Sections.{rate_of}

unfoldable pub has_id : ℕ → List ℕ → Bool
has_id k [] = false
has_id k (j ∷ ks) = let rest = has_id k ks in if j == k then true else rest

-- The members of `new Set(ids)`, each once.
unfoldable pub id_set : List ℕ → List ℕ
unfolding has_id
id_set [] = []
id_set (k ∷ ks) = let rest = id_set ks in if has_id k ks then rest else k ∷ rest

abbrev pub is_success : Submission → Bool
is_success s = elim s.status [ success ↦ true | _ ↦ false ]

-- The problem's difficulty, which is copied, is left out.
pub record QuestionReport : Type 0 where
  pub problem_id : ℕ
  pub title : String
  pub max_score : ℕ
  pub attempt_count : ℕ
  pub solved_count : ℕ
  pub solved_rate : Rounded
  pub overall_solved_rate : Rounded

unfoldable pub submissions_to : ℕ → List Submission → List Submission
submissions_to k submissions = filter (λ s. s.problem_id == k) submissions

unfoldable pub question_report : List Submission → ℕ → AssessmentProblem → Problem → QuestionReport
question_report submissions completed p problem =
    let own = submissions_to problem.id submissions in
    let tried = length (id_set (map (λ s. s.user_id) own)) in
    let solved = length (id_set (map (λ s. s.user_id) (filter is_success own))) in
    record {
      problem_id = problem.id;
      title = if text_eq problem.title "" then "Unknown" else problem.title;
      max_score = or_hundred p.max_score;
      attempt_count = tried;
      solved_count = solved;
      solved_rate = rate_of (solved * 100) tried 0;
      overall_solved_rate = rate_of (solved * 100) completed 0;
    }

abbrev pub add_report : QuestionReport → Result (List QuestionReport) → Result (List QuestionReport)
add_report r (err e) = err e
add_report r (ok rs) = ok (r ∷ rs)

-- `assessment.problems.map(…)`: reading the `_id` of a problem that was deleted raises.
unfoldable pub question_reports :
    World → List Submission → ℕ → List AssessmentProblem → Result (List QuestionReport)
question_reports w submissions completed [] = ok []
question_reports w submissions completed (p ∷ ps) =
    let rest = question_reports w submissions completed ps in
    elim (problem_at p.problem_id w) [
      | none ↦ err type_error
      | some problem ↦ add_report (question_report submissions completed p problem) rest
    ]
