-- ===== src/Problems/Secret.antt =====
-- What a student learns of the hidden test cases of a problem.
use assessment_microservice.Base.{
  ℕ, ◌≡◌, refl, sym, ap, ◌∙◌, false, not, ◌&&◌, Option, none, some, List, [], ◌∷◌, ◌++◌, map,
  String, text_eq_iff,
}
use assessment_microservice.Problems.{
  get_problem_by_id, fill_map, run_problem, without_tests, answer_run, run_message, reads_all,
  RunMessage, JudgeReply, CustomTest, replied, sanitize_problem_for_student, World, Caller, filter,
  problem_at, is_sample_test_case, ok, shown, Result, err, college_of_reader, ProblemView, http,
  is_locked, map_option, mark_visible, view_of,
}
use assessment_microservice.Billing.Service.{college_allows_premium}
use assessment_microservice.Models.{Problem, TestCase, Report, ResultDetail, College}
use assessment_microservice.Store.{find_by}
use assessment_microservice.Billing.Plans.{get_plan}

-- Two problems that differ in hidden test cases at most.
abbrev pub SameButHidden : Problem → Problem → Type 0
SameButHidden p q =
    (without_tests p ≡ without_tests q)
    × (filter is_sample_test_case p.test_cases ≡ filter is_sample_test_case q.test_cases)

-- A student gets the same view of two problems that differ in their hidden test cases only, so the
-- view tells nothing of those.
pub get_problem_by_id_same :
    (price : Option String) (k : ℕ) (reader : Option Caller) (w v : World) (p q : Problem)
    → reads_all reader ≡ false
    → w.colleges ≡ v.colleges
    → problem_at k w ≡ some p
    → problem_at k v ≡ some q
    → SameButHidden p q
    → get_problem_by_id price k reader w ≡ get_problem_by_id price k reader v
unfolding get_problem_by_id sanitize_problem_for_student college_allows_premium
get_problem_by_id_same price k reader w v p q s c found found' h =
    ap (map_option (view_of price reader w)) found
    ∙ rw s (ap some (same_view (allows_premium_same (college_of_reader reader))))
    ∙ sym (ap (map_option (view_of price reader v)) found')
  where
    allows_premium_same :
        (c : Option ℕ) → college_allows_premium price c w ≡ college_allows_premium price c v
    allows_premium_same none = refl
    allows_premium_same (some k) =
        ap
          (λ (cs : List College). elim (find_by (λ c. c.id) k cs) [
            | none ↦ false
            | some college ↦ (get_plan price college.plan_id).allows_premium_problems
          ])
          c

    same_view :
        college_allows_premium price (college_of_reader reader) w
          ≡ college_allows_premium price (college_of_reader reader) v
        → ◌≡◌ {A = ProblemView}
            (record { doc = sanitize_problem_for_student p; locked = is_locked price reader w p })
            (record { doc = sanitize_problem_for_student q; locked = is_locked price reader v q })
    same_view e i = record {
      doc = record (h.0 i) { test_cases = map mark_visible (h.1 i) };
      locked = (h.0 i).is_premium && not (e i);
    }

fill_map-last :
    (before after : List TestCase) (tc : TestCase)
    → fill_map after tc.inputs ≡ none
    → fill_map (before ++ tc ∷ after) tc.inputs ≡ some tc.expected
unfolding fill_map
fill_map-last [] after tc h = rw (h, (text_eq_iff tc.inputs tc.inputs).1 refl)
fill_map-last (d ∷ before) after tc h = rw (fill_map-last before after tc h)

-- A test of one's own with the inputs of a test case, hidden or not, and without an expected value
-- goes to the judge with that case's expected value, if no later case has the same inputs; what the
-- judge reports of it is shown in full.
pub run_problem-fills :
    (judge : RunMessage → JudgeReply) (now k : ℕ) (language code : String) (w : World) (p : Problem)
    (before after : List TestCase) (tc : TestCase) (r : Report) (ds : List ResultDetail)
    → problem_at k w ≡ some p
    → p.test_cases ≡ before ++ tc ∷ after
    → fill_map after tc.inputs ≡ none
    → r.details ≡ some ds
    → let own : CustomTest = record { inputs = tc.inputs; expected = none } in
      let message = run_message now p language code (own ∷ []) in
      judge message ≡ replied r
      → (message.tests ≡ record { inputs = tc.inputs; expected = some tc.expected } ∷ [])
        × (run_problem judge now k language code (own ∷ []) w
            ≡ ok record { details = some (map shown ds); others = r.others })
unfolding run_problem answer_run run_message
run_problem-fills judge now k language code w p before after tc r ds found cases last details
      reply =
    (
      ap (λ e. record { inputs = tc.inputs; expected = e } ∷ [])
          (ap (λ cs. fill_map cs tc.inputs) cases ∙ fill_map-last before after tc last),
      ap run_found found ∙ ap (answer_run (own_test ∷ []) p.test_cases) reply ∙ ap reported details,
    )
  where
    own_test : CustomTest
    own_test = record { inputs = tc.inputs; expected = none }

    run_found : Option Problem → Result Report
    run_found o = elim o [
      | none ↦ err (http 404 "Problem not found")
      | some q ↦
          answer_run (own_test ∷ []) q.test_cases
            (judge (run_message now q language code (own_test ∷ [])))
    ]

    reported : Option (List ResultDetail) → Result Report
    reported o = ok record { details = map_option (map shown) o; others = r.others }
