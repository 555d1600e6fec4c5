-- ===== src/Attempts/Events.antt =====
-- assessments.service.js: what happens to an attempt beside its start and its end, from
-- `logAntiCheatingEvent` to `resolveChallenge`.
use assessment_microservice.Base.{
  ℕ, ◌+◌, String, Bool, true, false, not, Option, none, some, ◌==◌, concat,
}
use assessment_microservice.Base.Int.{ℤ, ◌+ℤ◌}
use assessment_microservice.Models.{
  Attempt, AttemptStatus, active, submitted, timed_out, ChallengeStatus, unchallenged, raised,
  accepted, rejected, bare, grace, reason, comment,
}
use assessment_microservice.Store.{
  Request, http, type_error, cast_error, pure, or_raise, raise_if, ◌>>=◌, ◌>>◌, branch,
  attempt_by_id, attempt_update_by_id,
}
use assessment_microservice.Attempts.Expiry.{
  Caller, Clock, college_scope_for, is_student, is_active,
}
use assessment_microservice.Attempts.Submit.{
  attempt_not_found, forbidden, is_other_student, push_event,
}

-- `eventType` of the request's body.
pub data EventType : Type 0 where
  tab_switch copy paste fullscreen_exit return : EventType
  other : String → EventType

-- The `$inc` of the switch; its default case throws.
unfoldable pub count_event : EventType → Attempt → Attempt
count_event tab_switch a = record a { tab_switch_count = a.tab_switch_count + 1 }
count_event copy a = record a { copy_count = a.copy_count + 1 }
count_event paste a = record a { paste_count = a.paste_count + 1 }
count_event fullscreen_exit a = record a { fullscreen_exit_count = a.fullscreen_exit_count + 1 }
count_event return a = a
count_event (other name) a = a

abbrev pub is_known : EventType → Bool
is_known (other name) = false
is_known _ = true

abbrev pub event_name : EventType → String
event_name tab_switch = "TAB_SWITCH"
event_name copy = "COPY"
event_name paste = "PASTE"
event_name fullscreen_exit = "FULLSCREEN_EXIT"
event_name return = "RETURN"
event_name (other name) = name

-- The update of an event that counts.
abbrev pub logged_event : EventType → ℤ → Attempt → Attempt
logged_event event_type now a =
    push_event (record { event = event_name event_type; timestamp = now; details = bare })
      (count_event event_type a)

unfoldable pub log_anti_cheating_event : ℕ → EventType → Caller → Clock → Request (Option Attempt)
unfolding count_event
log_anti_cheating_event attempt_id event_type user clock = do
  found ← attempt_by_id attempt_id (college_scope_for user)
  attempt ← or_raise found attempt_not_found
  owner ← or_raise attempt.student type_error
  raise_if (not (owner == user.id)) forbidden
  branch (is_active attempt.status)
      (do
        raise_if (not (is_known event_type)) (http 400 "Invalid event type")
        attempt_update_by_id attempt_id (logged_event event_type (clock 0)))
      (pure (some attempt.doc))

-- attempt.status.toLowerCase()
abbrev pub lower_status : AttemptStatus → String
lower_status active = "active"
lower_status submitted = "submitted"
lower_status timed_out = "timedout"

unfoldable pub save_draft : ℕ → String → Caller → Request (Option Attempt)
save_draft attempt_id code_drafts user = do
  found ← attempt_by_id attempt_id (college_scope_for user)
  attempt ← or_raise found attempt_not_found
  raise_if (not (is_active attempt.status)) (
      http 409
        (concat "Attempt is " (concat (lower_status attempt.status) " and cannot save draft")))
  owner ← or_raise attempt.student type_error
  raise_if (is_other_student user owner) forbidden
  attempt_update_by_id attempt_id λ a. record a { code_drafts = code_drafts }

abbrev pub reactivate : AttemptStatus → Attempt → Attempt
reactivate timed_out a = record a { status = active; submitted_at = none }
reactivate _ a = a

-- The update for m more minutes, for an attempt that was found as `attempt`.
abbrev pub granted : Attempt → ℤ → ℤ → Attempt → Attempt
granted attempt m now a =
    let total = attempt.grace_minutes +ℤ m in
    reactivate attempt.status (
      push_event (record { event = "GRACE_TIME_ADDED"; timestamp = now; details = grace m total })
        (record a { grace_minutes = total }))

-- `graceMinutes` comes from the request's body and is not checked; `none` is one that `Number`
-- makes NaN, which the database layer refuses to cast.
unfoldable pub add_grace_time : ℕ → Option ℤ → Caller → Clock → Request (Option Attempt)
add_grace_time attempt_id grace_minutes user clock = do
  raise_if (is_student user.role) forbidden
  found ← attempt_by_id attempt_id (college_scope_for user)
  attempt ← or_raise found attempt_not_found
  minutes ← or_raise grace_minutes cast_error
  attempt_update_by_id attempt_id (granted attempt.doc minutes (clock 0))

abbrev pub is_unchallenged : ChallengeStatus → Bool
is_unchallenged unchallenged = true
is_unchallenged _ = false

abbrev pub is_raised : ChallengeStatus → Bool
is_raised raised = true
is_raised _ = false

abbrev pub challenged : String → ℤ → ℤ → Attempt → Attempt
challenged why now logged a =
    push_event (record { event = "CHALLENGE_RAISED"; timestamp = logged; details = reason why })
      (record a {
        challenge = record (a.challenge) {
          status = raised;
          reason = some why;
          raised_at = some now;
          faculty_comment = some "";
        };
      })

unfoldable pub raise_challenge : ℕ → String → Caller → Clock → Request (Option Attempt)
raise_challenge attempt_id why user clock = do
  found ← attempt_by_id attempt_id none
  attempt ← or_raise found attempt_not_found
  owner ← or_raise attempt.student type_error
  raise_if (not (owner == user.id)) forbidden
  raise_if (is_active attempt.status) (http 400 "Cannot challenge an active assessment attempt")
  raise_if (not (is_unchallenged attempt.challenge.status))
      (http 409 "A challenge has already been raised for this attempt")
  attempt_update_by_id attempt_id (challenged why (clock 0) (clock 1))

-- `status` of the request's body.
pub data Resolution : Type 0 where
  accept reject invalid_status : Resolution

abbrev pub is_valid : Resolution → Bool
is_valid invalid_status = false
is_valid _ = true

abbrev pub resolved_status : Resolution → ChallengeStatus
resolved_status accept = accepted
resolved_status reject = rejected
resolved_status invalid_status = raised

abbrev pub resolved_event : Resolution → String
resolved_event accept = "CHALLENGE_ACCEPTED"
resolved_event reject = "CHALLENGE_REJECTED"
resolved_event invalid_status = ""

abbrev pub resolved : Resolution → String → ℤ → ℤ → Attempt → Attempt
resolved status faculty_comment now logged a =
    push_event
      (record {
        event = resolved_event status;
        timestamp = logged;
        details = comment faculty_comment;
      })
      (record a {
        challenge = record (a.challenge) {
          status = resolved_status status;
          faculty_comment = some faculty_comment;
          resolved_at = some now;
        };
      })

unfoldable pub resolve_challenge :
    ℕ → Resolution → String → Caller → Clock → Request (Option Attempt)
resolve_challenge attempt_id status faculty_comment user clock = do
  found ← attempt_by_id attempt_id (college_scope_for user)
  attempt ← or_raise found attempt_not_found
  raise_if (not (is_raised attempt.challenge.status))
      (http 400 "No active challenge found to resolve")
  raise_if (not (is_valid status)) (http 400 "Invalid status. Must be Accepted or Rejected")
  attempt_update_by_id attempt_id (resolved status faculty_comment (clock 0) (clock 1))
