-- ===== src/Submissions/Reading.antt =====
-- Who reads which submission, and what the cache changes.
use assessment_microservice.Base.{
  ℕ, ◌≡◌, ◌↔◌, ◌⊎◌, refl, inl, inr, Bool, true, false, Option, none, some, arith, Option-cases,
}
use assessment_microservice.Store.{
  World, find_by, ok, submission_at, problem_at, find_by-update_by, key-find_by, find_by-cons,
}
use assessment_microservice.Submissions.Access.{
  can_access_submission, get_submission_by_id, cached_at, fetched, as_seen_by, is_finished,
}
use assessment_microservice.Models.{Submission, superadmin, Problem, student, admin, faculty}
use assessment_microservice.Submissions.Rejudge.{rejudge_submission, reset}
use assessment_microservice.Attempts.Expiry.{Caller}
use assessment_microservice.Submissions.Judge.{publish_submission_message, answering}

-- The document that a read answers from: the cached one, or else the stored one.
unfoldable pub source_of : Bool → ℕ → World → Option Submission
source_of redis k w = elim (cached_at redis k w) [ some s ↦ some s | none ↦ submission_at k w ]

pub get_submission_by_id-allowed :
    (redis : Bool) (k : ℕ) (user : Caller) (w : World) (from_cache : Bool) (d : Submission)
    → (get_submission_by_id redis k user w).0 ≡ ok (fetched from_cache d)
    → (s : Submission) × (source_of redis k w ≡ some s)
      × (can_access_submission s user ≡ true)
      × (d ≡ as_seen_by user w s)
unfolding get_submission_by_id source_of
get_submission_by_id-allowed redis k user w from_cache d h =
    elim (Option-cases (cached_at redis k w)) [
      | inr (s, e) ↦ (s, ground arith, ground arith, ground arith)
      | inl e ↦ elim (Option-cases (submission_at k w)) [
        | inr (s, f) ↦ (s, ground arith, ground arith, ground arith)
        | inl f ↦ ground arith
      ]
    ]

-- Who may open a submission: a superadmin any, a student their own, an admin or a faculty member
-- those of their own college and those that name no college, and nobody else any.
pub can_access_submission_iff :
    (s : Submission) (user : Caller)
    → (can_access_submission s user ≡ true) ↔ (
        (user.role ≡ superadmin)
        ⊎ ((user.role ≡ student) × (s.user_id ≡ user.id))
        ⊎ (((user.role ≡ admin) ⊎ (user.role ≡ faculty))
            × ((s.college_id ≡ none)
                ⊎ ((c : ℕ) × (s.college_id ≡ some c) × (user.college_id ≡ some c)))))
unfolding can_access_submission
can_access_submission_iff s user = ground arith

-- The cache is transparent: a finished submission that is not cached and that the caller may open
-- is read from the database, and the next read answers from the cache with the same content.
pub get_submission_by_id-again :
    (k : ℕ) (user : Caller) (w : World) (s : Submission)
    → find_by (λ (x : Submission). x.id) k w.cache ≡ none
    → submission_at k w ≡ some s
    → can_access_submission s user ≡ true
    → is_finished s.status ≡ true
    → let (r, w') = get_submission_by_id true k user w in
      (r ≡ ok (fetched false (as_seen_by user w s)))
      × (get_submission_by_id true k user w' ≡ (ok (fetched true (as_seen_by user w s)), w'))
unfolding get_submission_by_id
get_submission_by_id-again k user w s absent there allowed finished = ground (
  arith,
  key-find_by (λ (x : Submission). x.id) k w.submissions {a = s} there,
  find_by-cons (λ (x : Submission). x.id) k s w.cache,
)

-- A submission whose problem exists is rejudged, RabbitMQ answering, and is still read as it was:
-- while an old result that the caller may open is cached, the caller gets that old result from the cache, although the stored document is pending
-- again.
pub rejudge_submission-stale :
    (k : ℕ) (user : Caller) (w : World) (old s : Submission) (p : Problem)
    → find_by (λ (x : Submission). x.id) k w.cache ≡ some old
    → can_access_submission old user ≡ true
    → submission_at k w ≡ some s
    → problem_at s.problem_id w ≡ some p
    → let (_, w') = rejudge_submission answering k w in
      (submission_at k w' ≡ some (reset s))
      × ((get_submission_by_id true k user w').0 ≡ ok (fetched true (as_seen_by user w old)))
unfolding get_submission_by_id rejudge_submission publish_submission_message
rejudge_submission-stale k user w old s p cached allowed there problem = ground (
  arith,
  find_by-update_by (λ (x : Submission). x.id) k s.id reset w.submissions (λ x. refl),
  key-find_by (λ (x : Submission). x.id) k w.submissions {a = s} there,
)
