-- ===== src/Reports/Attended.antt =====
-- The attendance against the attempts of the database.
use assessment_microservice.Base.{
  ℕ, ◌≡◌, refl, ap, ◌∙◌, Bool, true, false, ◌&&◌, none, some, List, [], ◌∷◌, map, arith, ◌==◌,
  if◌then◌else◌,
}
use assessment_microservice.Store.{World, find, key-find_by, attempt_of}
use assessment_microservice.Reports.{
  attendance_rows, report_on, get_assessment_attendance, find_own, Caller, Attempt, filter,
  attempts_at, User, Assessment, user_at, is_student, ok, Result, attendance_row, assessment_by_id,
  college_scope_for, students_of, err, type_error, add_row, own_or_next,
}
use assessment_microservice.Assessments.Paging.{All}

-- The account of the attempt's student is there.
abbrev pub Known : World → Attempt → Type 0
Known w a = (u : User) × (user_at a.student_id w ≡ some u)

find_own_ok :
    (w : World) (student : ℕ) (attempts : List Attempt)
    → All (Known w) attempts
    → find_own w student attempts ≡ ok (find (λ a. a.student_id == student) attempts)
unfolding find_own
find_own_ok w student [] h = refl
find_own_ok w student (a ∷ attempts) ((u, e), h) = rw e (
    named u.id a.student_id (key-find_by (λ u. u.id) a.student_id w.users e)
      (find_own_ok w student attempts h))
  where
    named :
        (j k : ℕ)
        → j ≡ k
        → find_own w student attempts ≡ ok (find (λ a. a.student_id == student) attempts)
        → (if j == student then ok (some a) else find_own w student attempts)
          ≡ ok (if k == student then some a else find (λ a. a.student_id == student) attempts)
    named j k p h = ground (arith, p, h)

attendance_rows_ok :
    (w : World) (attempts : List Attempt)
    → All (Known w) attempts
    → (students : List User)
    → attendance_rows w attempts students
      ≡ ok (map (λ u. attendance_row u (find (λ a. a.student_id == u.id) attempts)) students)
unfolding attendance_rows
attendance_rows_ok w attempts h [] = refl
attendance_rows_ok w attempts h (u ∷ students) =
    rw (find_own_ok w u.id attempts h, attendance_rows_ok w attempts h students) refl

find-filter :
    {A : Type 0} (p q : A → Bool) (xs : List A) → find q (filter p xs) ≡ find (λ x. p x && q x) xs
find-filter p q [] = refl
find-filter p q (x ∷ xs) = go (p x) (find-filter p q xs)
  where
    go :
        (b : Bool)
        → find q (filter p xs) ≡ find (λ x. p x && q x) xs
        → find q (if b then x ∷ filter p xs else filter p xs)
          ≡ (if b && q x then some x else find (λ x. p x && q x) xs)
    go true h = ap (λ r. if q x then some x else r) h
    go false h = h

map_same : {A B : Type 0} (f g : A → B) (xs : List A) → ((x : A) → f x ≡ g x) → map f xs ≡ map g xs
map_same f g [] h = refl
map_same f g (x ∷ xs) h = rw (h x, map_same f g xs h) refl

report_on_ok :
    {A : Type 0} (k : ℕ) (user : Caller) (w : World) (report : Assessment → Result A)
    (a : Assessment)
    → is_student user.role ≡ false
    → assessment_by_id (some k) (college_scope_for user) w ≡ some a
    → report_on k user w report ≡ report a
unfolding report_on
report_on_ok k user w report a s e = rw (s, e) refl

-- For a caller who is no student and may see the assessment, while the accounts of all its attempts are
-- there, the attendance has one row for each student of the assessment's college, in their order, with
-- the student's own attempt at this assessment, or as not started where there is none.
pub get_assessment_attendance_complete :
    (k : ℕ) (user : Caller) (w : World) (a : Assessment)
    → is_student user.role ≡ false
    → assessment_by_id (some k) (college_scope_for user) w ≡ some a
    → All (Known w) (attempts_at k w)
    → get_assessment_attendance k user w
      ≡ ok (map (λ u. attendance_row u (attempt_of k u.id w)) (students_of a.college_id w))
unfolding get_assessment_attendance attempts_at
get_assessment_attendance_complete k user w a s e h =
    report_on_ok k user w _ a s e
    ∙ attendance_rows_ok w (attempts_at k w) h (students_of a.college_id w)
    ∙ ap ok (
        map_same _ _ (students_of a.college_id w) (λ u.
          ap (attendance_row u)
            (find-filter (λ b. b.assessment_id == k) (λ b. b.student_id == u.id) w.attempts)))

-- When the account of the first attempt's student is gone, the attendance of a college with students
-- raises a TypeError, whoever else has attended.
pub get_assessment_attendance-gone_account :
    (k : ℕ) (user : Caller) (w : World) (a : Assessment) (b : Attempt) (bs : List Attempt)
    (u : User) (us : List User)
    → is_student user.role ≡ false
    → assessment_by_id (some k) (college_scope_for user) w ≡ some a
    → attempts_at k w ≡ b ∷ bs
    → students_of a.college_id w ≡ u ∷ us
    → user_at b.student_id w ≡ none
    → get_assessment_attendance k user w ≡ err type_error
unfolding get_assessment_attendance attendance_rows find_own
get_assessment_attendance-gone_account k user w a b bs u us s e f g h =
    report_on_ok k user w _ a s e
    ∙ ap (λ bs. attendance_rows w bs (students_of a.college_id w)) f
    ∙ ap (attendance_rows w (b ∷ bs)) g
    ∙ ap
        (λ o. add_row u (own_or_next u.id b (find_own w u.id bs) o) (attendance_rows w (b ∷ bs) us))
        h
