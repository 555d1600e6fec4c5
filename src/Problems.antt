-- ===== src/Problems.antt =====
-- problems.service.js: what a reader gets of a problem (`listProblems`, `getProblemById`,
-- `sanitizeProblemForStudent`), and `runProblem`, the run of a student's code against the problem's
-- samples or against tests of their own. The judge is an argument.
pub mod Payload
pub mod Create
pub mod Stored
pub mod Secret
mod Tests
use assessment_microservice.Base.{
  ℕ, zero, suc, ◌+◌, ◌-◌, ◌*◌, ◌≤◌, ◌<◌, ◌≡◌, ◌≢◌, ◌↔◌, ◌⊎◌, refl, sym, ap, subst, ◌∙◌, inl, inr,
  Bool, true, false, not, ◌&&◌, ◌||◌, Option, none, some, List, [], ◌∷◌, ◌++◌, map, arith, ◌==◌,
  ==_iff, ltb, leb, if◌then◌else◌, String, text_eq, Bool-cases, Option-cases, length, concat,
}
use assessment_microservice.Store.{World, filter, Result, map_option, problem_at, err, http, ok}
use assessment_microservice.Models.{
  stdin, function, Problem, TestCase, Report, ProblemType, ResultDetail, CompareMode,
}
use assessment_microservice.Attempts.Expiry.{Caller}
use assessment_microservice.Submissions.Sanitize.{
  coalesce, sanitize_result_details, is_sample_test_case, shown,
}
use assessment_microservice.Billing.Service.{college_allows_premium}
use assessment_microservice.Submissions.Access.{is_privileged_role}
use assessment_microservice.Assessments.Listing.{page_of, page_number, page_limit}

-- A problem with `locked`.
pub record ProblemView : Type 0 where
  pub doc : Problem
  pub locked : Bool

-- A request without a caller is `none`.
abbrev pub reads_all : Option Caller → Bool
reads_all none = false
reads_all (some user) = is_privileged_role user.role

abbrev pub college_of_reader : Option Caller → Option ℕ
college_of_reader none = none
college_of_reader (some user) = user.college_id

abbrev pub mark_visible : TestCase → TestCase
mark_visible tc = record tc { is_sample = some true; is_hidden = some false }

-- The sample test cases, marked as such.
abbrev pub visible_cases : List TestCase → List TestCase
visible_cases tcs = map mark_visible (filter is_sample_test_case tcs)

unfoldable pub sanitize_problem_for_student : Problem → Problem
sanitize_problem_for_student p = record p { test_cases = visible_cases p.test_cases }

-- `price` is the price of the paid plan.
abbrev pub is_locked : Option String → Option Caller → World → Problem → Bool
is_locked price reader w p =
    p.is_premium && not (college_allows_premium price (college_of_reader reader) w)

abbrev pub view_of : Option String → Option Caller → World → Problem → ProblemView
view_of price reader w p =
    if reads_all reader
    then record { doc = p; locked = false }
    else record { doc = sanitize_problem_for_student p; locked = is_locked price reader w p }

unfoldable pub get_problem_by_id : Option String → ℕ → Option Caller → World → Option ProblemView
get_problem_by_id price k reader w = map_option (view_of price reader w) (problem_at k w)

-- findAllWithoutTests leaves the test cases out.
abbrev pub without_tests : Problem → Problem
without_tests p = record p { test_cases = [] }

abbrev pub listed_as : Option String → Option Caller → World → Problem → ProblemView
listed_as price reader w p = record {
  doc = without_tests p;
  locked = if reads_all reader then false else is_locked price reader w p;
}

-- `wanted` is the database's match of the query's difficulty, tags and search text.
unfoldable pub list_problems :
    Option String
    → (Problem → Bool)
    → Option ℕ
    → Option ℕ
    → Option Caller
    → World
    → List ProblemView
list_problems price wanted page limit reader w =
    map (listed_as price reader w)
      (page_of (page_number page) (page_limit limit) (filter wanted w.problems))

-- A test that comes with a run; `expected` may be missing.
pub record CustomTest : Type 0 where
  pub inputs : String
  pub expected : Option String

pub record RunMessage : Type 0 where
  pub run_id : ℕ
  pub problem_id : ℕ
  pub language : String
  pub code : String
  pub problem_type : ProblemType
  pub compare_mode : CompareMode
  pub tests : List CustomTest
  pub function_name : Option String

-- fillMap: a later test case with the same inputs takes the place of an earlier one.
unfoldable pub fill_map : List TestCase → String → Option String
fill_map [] key = none
fill_map (tc ∷ tcs) key =
    let later = fill_map tcs key in
    coalesce later (if text_eq tc.inputs key then some tc.expected else none)

abbrev pub fill_expected : List TestCase → CustomTest → CustomTest
fill_expected tcs t = record {
  inputs = t.inputs;
  expected = coalesce t.expected (fill_map tcs t.inputs);
}

abbrev pub name_for_judge : Problem → Option String
name_for_judge p = elim p.problem_type [ stdin ↦ none | function ↦ p.function_name ]

unfoldable pub run_message : ℕ → Problem → String → String → List CustomTest → RunMessage
run_message now p language code tests = record {
  run_id = now;
  problem_id = p.id;
  language = language;
  code = code;
  problem_type = p.problem_type;
  compare_mode = p.compare_mode;
  tests = map (fill_expected p.test_cases) tests;
  function_name = name_for_judge p;
}

-- What comes of the call of the judge: no answer, a status that is not ok with its text, or a report.
pub data JudgeReply : Type 0 where
  unreachable : JudgeReply
  refused_run : ℕ → String → JudgeReply
  replied : Report → JudgeReply

-- Everything is shown of a run of own tests; a run of the problem's tests is redacted.
abbrev pub details_for : List CustomTest → List TestCase → List ResultDetail → List ResultDetail
details_for [] tcs ds = sanitize_result_details ds tcs false
details_for (t ∷ ts) tcs ds = map shown ds

unfoldable pub answer_run : List CustomTest → List TestCase → JudgeReply → Result Report
answer_run tests tcs unreachable = err (http 500 "Failed to connect to judge service")
answer_run tests tcs (refused_run status text) =
    err (http status (concat "Judge service error: " text))
answer_run tests tcs (replied r) =
    ok record { details = map_option (details_for tests tcs) r.details; others = r.others }

-- Tests that are missing count as none.
unfoldable pub run_problem :
    (RunMessage → JudgeReply) → ℕ → ℕ → String → String → List CustomTest → World → Result Report
run_problem judge now k language code tests w = elim (problem_at k w) [
  | none ↦ err (http 404 "Problem not found")
  | some p ↦ answer_run tests p.test_cases (judge (run_message now p language code tests))
]
