-- ===== src/Arventiq/Submit.antt =====
-- `submitArventiqSolution` of arventiq.service.js.
use assessment_microservice.Base.{ℕ, Option, none, String}
use assessment_microservice.Store.{Request, raise, ◌>>=◌, http, or_raise, gets, pure}
use assessment_microservice.Models.{Problem, Submission}
use assessment_microservice.Accounts.Register.{required}
use assessment_microservice.Submissions.Intake.{
  Surroundings, Solution, Submitted, accepted_as, submit_solution, no_problem,
}
use assessment_microservice.Arventiq.Sync.{find_by_external_id}

pub record ArventiqSolution : Type 0 where
  pub user_id : ℕ
  pub question_id : Option String
  pub code : Option String
  pub external_student_id : Option String
  pub external_assessment_id : Option String

-- What `submitSolution` is called with: no college, assessment or attempt.
abbrev pub solution_for : Problem → String → String → ArventiqSolution → Solution
solution_for problem code language s = record {
  problem_id = problem.id;
  code = code;
  language = language;
  user_id = s.user_id;
  college_id = none;
  assessment_id = none;
  attempt_id = none;
  external_student_id = s.external_student_id;
  external_assessment_id = s.external_assessment_id;
}

abbrev pub delivered : Submitted → Request Submission
delivered no_problem = raise (http 404 "Problem not found")
delivered (accepted_as submission) = pure submission

-- `language` is what `resolveArventiqLanguage` gives, when it is no inherited name.
unfoldable pub submit_arventiq_solution :
    Surroundings → Option String → ArventiqSolution → Request Submission
submit_arventiq_solution o language s = do
  key ← or_raise (required s.question_id) (http 400 "questionId is required")
  code ← or_raise (required s.code) (http 400 "code is required")
  spoken ← or_raise language (http 400 "Unsupported or missing codeLanguage")
  found ← gets (λ w. find_by_external_id key w.problems)
  problem ← or_raise found (http 404 "Problem not found — sync it first")
  result ← submit_solution o (solution_for problem code spoken s)
  delivered result
