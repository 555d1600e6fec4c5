-- ===== src/Reports/Analytics.antt =====
-- `getAssessmentAnalytics`.
use assessment_microservice.Base.{ℕ, List, map, String, length}
use assessment_microservice.Base.Int.{ℤ}
use assessment_microservice.Models.{Assessment, Submission}
use assessment_microservice.Attempts.Expiry.{Caller}
use assessment_microservice.Store.{World, Result, filter, is_id}
use assessment_microservice.Reports.Overall.{
  OverallStats, max_possible_score, is_completed, overall_stats,
}
use assessment_microservice.Reports.{students_of, report_on, attempts_at, err, ok}
use assessment_microservice.Reports.Sections.{
  SectionReport, SectionStats, section_report, section_stats,
}
use assessment_microservice.Reports.Solved.{QuestionReport, question_reports}

pub record Analytics : Type 0 where
  pub id : ℕ
  pub title : String
  pub start_time : ℤ
  pub end_time : ℤ
  pub overall : OverallStats
  pub sections : List SectionReport
  pub questions : List QuestionReport

-- Submission.find({ assessmentId })
abbrev pub submissions_at : ℕ → World → List Submission
submissions_at k w = filter (λ s. is_id s.assessment_id k) w.submissions

abbrev pub analytics_of :
    Assessment
    → OverallStats
    → Result (List SectionStats)
    → Result (List QuestionReport)
    → Result Analytics
analytics_of a overall (err e) qs = err e
analytics_of a overall (ok sections) (err e) = err e
analytics_of a overall (ok sections) (ok qs) = ok record {
  id = a.id;
  title = a.title;
  start_time = a.start_time;
  end_time = a.end_time;
  overall = overall;
  sections = map section_report sections;
  questions = qs;
}

unfoldable pub assessment_analytics : ℕ → World → Assessment → Result Analytics
assessment_analytics k w a =
    let students = students_of a.college_id w in
    let attempts = attempts_at k w in
    let max_score = max_possible_score a.problems in
    let completed = length (filter is_completed attempts) in
    analytics_of a (overall_stats students attempts max_score)
      (section_stats w max_score attempts students)
      (question_reports w (submissions_at k w) completed a.problems)

unfoldable pub get_assessment_analytics : ℕ → Caller → World → Result Analytics
get_assessment_analytics k user w = report_on k user w (assessment_analytics k w)
