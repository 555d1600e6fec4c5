-- ===== src/Questions/Tests.antt =====
-- Runs of the question bank.
use assessment_microservice.Base.{
  ℕ, ◌≤◌, ◌≡◌, refl, true, none, some, [], ◌∷◌, arith, length, take, length-take,
}
use assessment_microservice.Questions.Picked.{Draws, admits, select_questions_sound}
use assessment_microservice.Store.{find_by}
use assessment_microservice.Questions.Select.{
  select_questions, Unique, Sampler, Selection, add_unique,
}
use assessment_microservice.Questions.{
  Question, Bank, easy, faculty, question_at, college_question, matches,
}
use assessment_microservice.Attempts.Expiry.{Caller}
use assessment_microservice.Questions.Manage.{QuestionPayload}
use assessment_microservice.Assessments.Paging.{All-take, All}

abbrev teacher : Caller
teacher = record { id = 4; role = faculty; college_id = some 7 }

-- of another college
abbrev visitor : Caller
visitor = record { id = 9; role = faculty; college_id = some 8 }

abbrev question : ℕ → Question
question k = record {
  id = k;
  title = "Sums";
  difficulty = easy;
  tags = "maths" ∷ [];
  author = some 3;
  college_id = some 7;
  visibility = college_question;
}

abbrev bank : Bank
bank = question 1 ∷ question 2 ∷ []

abbrev retitled : QuestionPayload
retitled = record {
  title = some "Products";
  difficulty = none;
  tags = none;
  author = none;
  college_id = none;
  visibility = none;
}

second_found : question_at 2 bank ≡ some (question 2)
unfolding find_by
second_found = refl

-- A sample that takes the first documents.
abbrev first_ones : Sampler
first_ones qs n = take n qs

first_ones-Draws : Draws first_ones
first_ones-Draws = record {
  drawn = λ p qs n h. All-take (λ q. p q ≡ true) n qs h;
  at_most = λ qs n. omega (arith, length-take n qs);
}

abbrev two_easy : Selection
two_easy = record { easy = 2; medium = 0; hard = 1; tags = "maths" ∷ [] }

two_picked : select_questions first_ones two_easy (some teacher) bank ≡ some bank
unfolding select_questions add_unique matches
two_picked = refl

select_questions_sound_example :
    Unique bank × All (λ q. admits ("maths" ∷ []) (some teacher) q ≡ true) bank × (length bank ≤ 3)
select_questions_sound_example =
    select_questions_sound first_ones two_easy (some teacher) bank bank first_ones-Draws two_picked
