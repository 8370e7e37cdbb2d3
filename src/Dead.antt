-- ===== src/Dead.antt =====
-- src/Dead.ts and src/Failure.ts: which failures bury a job, and the records that a dead queue
-- keeps. `wording` gives the message of an error of this library; it is a parameter.
pub mod Names
pub mod Reasons
pub mod Record
use jubs.Common.{ℕ, Bool, true, false, Option, none, some, List, [], ◌∷◌, leb, if◌then◌else◌}
use jubs.Text.{Text, codes}
use jubs.Fault.{
  Thrown, Cause, no_cause, cause, foreign, outliving, given_up, no_error, unrecoverable,
  version_ahead, cancelled, shutdown_abort, child_dead, children_short, is_unrecoverable,
  is_cancelled, is_version_ahead, ChildResult, handler_timeout, lease_held, payload_error,
  result_error, envelope_error, dead_record_error, children_pending, migration_threw,
  schedule_refused, recurrence_refused, flush_failed,
}
use jubs.Driver.{
  JobDelivery, ErrorSnapshot, SerializedError, Burial, child_died, attempts_exhausted,
  not_recoverable, ahead_of_version, cancellation, short_of_children,
}

-- `error.cause`
abbrev pub cause_of : Thrown → Cause
cause_of (foreign name message stack c) = c
cause_of (given_up message c) = c
cause_of (outliving u name message stack c body) = c
cause_of (unrecoverable e) = cause e
cause_of (migration_threw job from e) = cause e
cause_of (schedule_refused job e) = cause e
cause_of (recurrence_refused job e) = cause e
cause_of (flush_failed d h e) = cause e
cause_of (cancelled job body c) = c
cause_of (shutdown_abort job body c) = c
cause_of _ = no_cause

-- `error.name`. A class that sets none has its parent's: `Error`, or `UnrecoverableError`.
unfoldable pub name_of : Thrown → Text
name_of (foreign name message stack c) = name
name_of (outliving u name message stack c body) = name
name_of (given_up message c) = codes "UnrecoverableError"
name_of (unrecoverable e) = codes "UnrecoverableError"
name_of (version_ahead job v r) = codes "VersionAheadError"
name_of (cancelled job body c) = codes "CancelledError"
name_of (shutdown_abort job body c) = codes "ShutdownAbortError"
name_of (handler_timeout job body) = codes "HandlerTimeoutError"
name_of (lease_held key) = codes "LeaseHeldError"
name_of (payload_error job issues) = codes "PayloadError"
name_of (result_error job issues) = codes "ResultError"
name_of (envelope_error f) = codes "EnvelopeError"
name_of (dead_record_error f) = codes "DeadRecordError"
name_of (child_dead job f r) = codes "ChildDeadError"
name_of (children_pending job n) = codes "ChildrenPendingError"
name_of (children_short job slots) = codes "ChildrenShortError"
name_of _ = codes "Error"

module _ (wording : Thrown → Text) (stack_of : Thrown → Option Text) where
  -- `error.message`: an unrecoverable error has that of the error behind it.
  unfoldable pub message_of : Thrown → Text
  message_of (foreign name message stack c) = message
  message_of (given_up message c) = message
  message_of (outliving u name message stack c body) = message
  message_of (no_error text) = text
  message_of (unrecoverable e) = message_of e
  message_of e = wording e

  -- `snapshot`
  unfoldable pub snapshot : Thrown → ErrorSnapshot
  unfolding name_of message_of
  snapshot (no_error text) = record { name = codes "Error"; message = text; stack = none }
  snapshot (foreign name message stack c) = record { name = name; message = message; stack = stack }
  snapshot (outliving u name message stack c body) = record {
    name = name;
    message = message;
    stack = stack;
  }
  snapshot e = record { name = name_of e; message = message_of e; stack = stack_of e }

  abbrev snapshot_of_cause : Cause → Option ErrorSnapshot
  snapshot_of_cause no_cause = none
  snapshot_of_cause (cause e) = some (snapshot e)

  -- `serializeError`
  unfoldable pub serialize_error : Thrown → SerializedError
  unfolding snapshot
  serialize_error e = record { snapshot = snapshot e; caused_by = snapshot_of_cause (cause_of e) }

abbrev raised_from : Thrown → Cause → Thrown
raised_from e no_cause = e
raised_from e (cause c) = c

-- `raised`: the cause of an `UnrecoverableError` that has one.
unfoldable pub raised : Thrown → Thrown
raised e = if is_unrecoverable e then raised_from e (cause_of e) else e

-- `childDead`, with the results that the error carries
abbrev pub child_dead_results : Thrown → Option (List ChildResult)
child_dead_results (child_dead job failures results) = some results
child_dead_results _ = none

abbrev pub is_children_short : Thrown → Bool
is_children_short (children_short job slots) = true
is_children_short _ = false

-- `burialFor`
unfoldable pub burial_for : JobDelivery → Thrown → Option Burial
unfolding raised
burial_for delivery e =
    if is_cancelled e
    then some cancellation
    else if is_version_ahead e
    then some ahead_of_version
    else elim (child_dead_results (raised e)) [
      | some results ↦ some (child_died results)
      | none ↦
          if is_children_short (raised e)
          then some short_of_children
          else if is_unrecoverable e
          then some not_recoverable
          else if leb delivery.max_attempts delivery.attempt
          then some attempts_exhausted
          else none
    ]
