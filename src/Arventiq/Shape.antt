-- ===== src/Arventiq/Shape.antt =====
-- What the other platform can rely on in a verdict.
use assessment_microservice.Base.{
  ℕ, zero, suc, ◌+◌, ◌≡◌, ◌≢◌, ◌⊎◌, refl, ap, ◌∙◌, inl, inr, Bool, true, false, Option, none, some,
  List, [], ◌∷◌, arith, if◌then◌else◌, String, text_eq, length, get_elem?, text_eq_iff,
}
use assessment_microservice.Arventiq.Verdict.{
  get_arventiq_submission_result, map_submission_to_arventiq_verdict, map_case_verdict, cases_from,
  CaseDetail, JudgeReport, has_passed, text_or_null, is_waiting, Verdict, case_of, overall_verdict,
  answer, is_of_arventiq, verdict_of,
}
use assessment_microservice.Models.{Submission, SubmissionStatus}
use assessment_microservice.Store.{map_option, World, ok, Result-cases, or_default, is_some}
use assessment_microservice.Attempts.Expiry.{Caller}
use assessment_microservice.Submissions.Access.{
  missing, refused, fetched, is_privileged_role, can_access_submission, get_submission_by_id,
  fetched,
}
use assessment_microservice.Submissions.Reading.{source_of, get_submission_by_id-allowed}

length-cases_from :
    (overall : String) (idx : ℕ) (ds : List CaseDetail)
    → length (cases_from overall idx ds) ≡ length ds
unfolding cases_from
length-cases_from overall idx [] = refl
length-cases_from overall idx (d ∷ ds) = ap suc (length-cases_from overall (suc idx) ds)

get_elem?-cases_from :
    (overall : String) (idx i : ℕ) (ds : List CaseDetail)
    → get_elem? (cases_from overall idx ds) i
      ≡ map_option (case_of overall (idx + i)) (get_elem? ds i)
unfolding cases_from
get_elem?-cases_from overall idx i [] = refl
get_elem?-cases_from overall idx zero (d ∷ ds) = ap (λ k. some (case_of overall k d)) (same idx)
  where
    same : (idx : ℕ) → idx ≡ idx + 0
    same idx = omega arith
get_elem?-cases_from overall idx (suc i) (d ∷ ds) =
    get_elem?-cases_from overall (suc idx) i ds
    ∙ ap (λ k. map_option (case_of overall k) (get_elem? ds i)) (step idx i)
  where
    step : (idx i : ℕ) → suc idx + i ≡ idx + suc i
    step idx i = omega arith

-- There is a verdict exactly when the judge has reported and the submission neither waits nor runs;
-- then it has one case for each detail, in the judge's order, whose number is the judge's own or else
-- its place, counted from 1.
pub map_submission_to_arventiq_verdict-cases :
    (status : SubmissionStatus) (tr : JudgeReport) (output : Option String) (ds : List CaseDetail)
    (i : ℕ)
    → tr.details ≡ some ds
    → (map_submission_to_arventiq_verdict status none output ≡ none)
      × (is_waiting status ≡ true
          → map_submission_to_arventiq_verdict status (some tr) output ≡ none)
      × (is_waiting status ≡ false
          → (v : Verdict) × (map_submission_to_arventiq_verdict status (some tr) output ≡ some v)
            × (length v.cases ≡ length ds)
            × (get_elem? v.cases i
                ≡ map_option (case_of (overall_verdict tr.status) i) (get_elem? ds i)))
unfolding map_submission_to_arventiq_verdict
map_submission_to_arventiq_verdict-cases status tr output ds i e = (
  refl,
  λ h. ground arith,
  λ h. (
    verdict_of tr output,
    ap (λ b. if b then none else some (verdict_of tr output)) h,
    ap (λ o. length (cases_from (overall_verdict tr.status) 0 (or_default o []))) e
        ∙ length-cases_from (overall_verdict tr.status) 0 ds,
    ap (λ o. get_elem? (cases_from (overall_verdict tr.status) 0 (or_default o [])) i) e
        ∙ get_elem?-cases_from (overall_verdict tr.status) 0 i ds
        ∙ ap (λ k. map_option (case_of (overall_verdict tr.status) k) (get_elem? ds i))
            (omega arith),
  ),
)

differs : (t : String) → text_eq t "accepted" ≡ false → t ≢ "accepted"
differs t h e = ground (arith, text_eq_iff t "accepted")

accepted_branch :
    (timeout memory passed wrong error : Bool) (overall : String)
    → (if timeout
        then "time_limit_exceeded"
        else if memory
        then "memory_limit_exceeded"
        else if passed
        then "accepted"
        else if wrong
        then "wrong_answer"
        else if error
        then "runtime_error"
        else overall)
      ≡ "accepted"
    → (passed ≡ true) ⊎ ((overall ≡ "accepted") × (error ≡ false))
accepted_branch true m p w e o h = absurd (differs "time_limit_exceeded" refl h)
accepted_branch false true p w e o h = absurd (differs "memory_limit_exceeded" refl h)
accepted_branch false false true w e o h = inl refl
accepted_branch false false false true e o h = absurd (differs "wrong_answer" refl h)
accepted_branch false false false false true o h = absurd (differs "runtime_error" refl h)
accepted_branch false false false false false o h = inr (h, refl)

-- A case is called accepted only if it has passed, or if the whole submission was accepted and the
-- case names no error.
pub map_case_verdict-accepted :
    (d : CaseDetail) (overall : String)
    → map_case_verdict d overall ≡ "accepted"
    → (has_passed d ≡ true) ⊎ ((overall ≡ "accepted") × (is_some (text_or_null d.error) ≡ false))
unfolding map_case_verdict
map_case_verdict-accepted d overall h = accepted_branch _ _ _ _ _ overall h

-- The shared account, whose role is privileged, reads only submissions that came from the other
-- platform: an answer is given only for a document, cached or stored, that the caller may open and
-- that names a student or an assessment of that platform.
pub get_arventiq_submission_result-own :
    (report : Submission → Option JudgeReport) (text : Submission → Option String) (redis : Bool)
    (k : ℕ) (user : Caller) (w : World) (v : Option Verdict)
    → is_privileged_role user.role ≡ true
    → (get_arventiq_submission_result report text redis k user w).0 ≡ ok (answer v)
    → (s : Submission) × (source_of redis k w ≡ some s)
      × (can_access_submission s user ≡ true)
      × (is_of_arventiq s ≡ true)
unfolding get_arventiq_submission_result
get_arventiq_submission_result-own report text redis k user w v role h =
    elim (Result-cases (get_submission_by_id redis k user w).0) [
      | inl (missing, e) ↦ ground arith
      | inl (refused, e) ↦ ground arith
      | inl (fetched c d, e) ↦
          let (s, from, allowed, seen) = get_submission_by_id-allowed redis k user w c d e in
          (s, from, allowed, ground arith)
      | inr (x, e) ↦ ground arith
    ]
