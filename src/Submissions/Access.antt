-- ===== src/Submissions/Access.antt =====
-- Who sees a submission: `canAccessSubmission`, `isPrivilegedRole` and `getSubmissionById` of
-- submissions.service.js, with the cache of cache.service.js. `redis` says whether there is a
-- connection; an entry that is older than its hour is no longer in the world's cache.
use assessment_microservice.Base.{
  ℕ, Bool, true, false, ◌&&◌, Option, none, some, ◌∷◌, ◌==◌, if◌then◌else◌,
}
use assessment_microservice.Store.{World, find_by, Request, problem_at, ok, submission_at, is_id}
use assessment_microservice.Models.{
  student, faculty, admin, superadmin, SubmissionStatus, Role, Submission, student, success, fail,
}
use assessment_microservice.Attempts.Expiry.{Caller}
use assessment_microservice.Submissions.Sanitize.{sanitize_submission_for_student}

-- The caller is signed in, so there always is a userId.
unfoldable pub can_access_submission : Submission → Caller → Bool
can_access_submission s user = elim user.role [
  | superadmin ↦ true
  | admin ↦ elim s.college_id [ none ↦ true | some c ↦ is_id user.college_id c ]
  | faculty ↦ elim s.college_id [ none ↦ true | some c ↦ is_id user.college_id c ]
  | student ↦ s.user_id == user.id
]

abbrev pub is_privileged_role : Role → Bool
is_privileged_role student = false
is_privileged_role _ = true

abbrev pub is_finished : SubmissionStatus → Bool
is_finished success = true
is_finished fail = true
is_finished _ = false

pub data Fetched : Type 0 where
  missing : Fetched
  refused : Fetched
  -- whether it comes from the cache, and what the caller gets
  fetched : Bool → Submission → Fetched

-- getCacheJSON(`submission:${id}`)
abbrev pub cached_at : Bool → ℕ → World → Option Submission
cached_at false k w = none
cached_at true k w = find_by (λ s. s.id) k w.cache

-- setCacheJSON, after the status was looked at
abbrev pub remember : Bool → Submission → World → World
remember redis s w = if is_finished s.status && redis then record w { cache = s ∷ w.cache } else w

abbrev pub as_seen_by : Caller → World → Submission → Submission
as_seen_by user w s =
    if is_privileged_role user.role
    then s
    else sanitize_submission_for_student s (problem_at s.problem_id w)

unfoldable pub get_submission_by_id : Bool → ℕ → Caller → Request Fetched
get_submission_by_id redis k user w = elim (cached_at redis k w) [
  | some s ↦
      (if can_access_submission s user
        then (ok (fetched true (as_seen_by user w s)), w)
        else (ok refused, w))
  | none ↦ elim (submission_at k w) [
    | none ↦ (ok missing, w)
    | some s ↦
        (if can_access_submission s user
          then (ok (fetched false (as_seen_by user w s)), remember redis s w)
          else (ok refused, w))
  ]
]
