-- ===== src/Fault.antt =====
-- What the program throws: src/Failure.ts, src/Cancellation.ts, src/Shutdown.ts and the error
-- classes of the other files. An error keeps the data that its message mentions; the wording of the
-- messages is a parameter where a text is stored (`Failure`).
use jubs.Common.{ℕ, Bool, true, false, Option, none, some, List}
use jubs.Text.{Text}
use jubs.Value.{Value, Number, Fields}

-- What one child of a flow gave back.
pub record ChildResult : Type 0 where
  pub slot : Text
  pub value : Value
  -- the other fields that a stored child has
  pub extra : Fields

-- One child of a flow that failed every attempt.
pub record ChildFailure : Type 0 where
  pub id : Text
  pub slot : Text
  pub reason : Text

-- A slot of a job that waits on children, with the count that it was given, if its envelope has
-- one, and the children that arrived.
pub record SlotCount : Type 0 where
  pub name : Text
  pub expected : Option Number
  pub arrived : ℕ

pub record Issue : Type 0 where
  pub path : List Text
  pub message : Text

-- The refusals that are plain `Error`s of this library, one constructor for each `throw`.
pub data Reason : Type 0 where
  not_a_job_id not_a_dead_job_id : Text → Reason
  not_an_interval not_a_time not_a_timezone not_a_day_of_month every_with_timezone : Reason
  keep_last_without_window : Reason
  array_lost : Text → Reason
  not_a_version stray_migration not_a_timeout : Text → Reason
  unique_and_awaits key_and_awaits schedule_and_awaits : Text → Reason
  stray_slot_name : (job slot : Text) → Reason
  no_migration : Text → Number → Reason
  unsupported : Text → Reason
  every_queue_paused nothing_pending : Reason
  no_consumer : Text → Reason
  no_handler two_handlers : Text → Reason
  orphan_definition stray_tuning dead_queue_consumed : Text → Reason
  delay_on_schedule : Text → Reason
  slots_not_given : Text → Reason
  slots_missing : Text → List Text → Reason
  one_value_for_many many_values_for_one : (job slot : Text) → Reason
  unique_in_flow : Text → Reason
  empty_row_id : Reason
  colon_in_row_id : Text → Reason
  row_of_unknown_job row_of_flow : (row job : Text) → Reason
  replay_in_block no_dead_job replay_of_flow : Text → Reason
  replay_of_unknown replay_of_waiting replay_while_running : (id job : Text) → Reason
  unique_in_outbox flow_in_outbox : Text → Reason
  stray_dead_queue stray_board_queue : Text → Reason
  block_ended : Bool → Reason
  tx_without_outbox tx_inside_block relay_without_outbox : Reason
  stored_without_id delivered_without_id delivered_without_token : Text → Reason
  not_blocking no_board : Reason

pub data EnvelopeFault : Type 0 where
  not_an_object version_missing name_missing unknown_origin counts_not_an_object : EnvelopeFault
  count_not_whole : Text → EnvelopeFault

pub data RecordFault : Type 0 where
  no_object no_job_id no_reason no_error_object no_error_name no_error_message stack_not_text
        children_not_a_list child_without_slot stray_children :
      RecordFault

-- How a handler body ends that outlives its delivery.
pub data Ending : Type 0 where
  returned : Value → Ending
  threw : Ending

mutual
  pub data Thrown : Type 0 where
    refused : Reason → Thrown
    -- an `Error` of other code: its name, its message and its stack
    foreign : Text → Text → Option Text → Cause → Thrown
    -- such an `Error` that carries a promise `running` of a body besides, and whether it is an
    -- `UnrecoverableError`
    outliving : Bool → Text → Text → Option Text → Cause → Ending → Thrown
    -- an `UnrecoverableError` that a handler throws of its own
    given_up : Text → Cause → Thrown
    -- a thrown value that is no `Error`, as `String(error)` reads it
    no_error : Text → Thrown
    -- `unrecoverable(error)` of src/Runtime.ts
    unrecoverable : Thrown → Thrown
    version_ahead : Text → Number → ℕ → Thrown
    migration_threw : Text → ℕ → Thrown → Thrown
    schedule_refused : Text → Thrown → Thrown
    -- `refusedSchedule` of src/RedisDriver.ts
    recurrence_refused : Text → Thrown → Thrown
    flush_failed : (delivered held : ℕ) → Thrown → Thrown
    cancelled shutdown_abort : Text → Option Ending → Cause → Thrown
    handler_timeout : Text → Ending → Thrown
    lease_held : Text → Thrown
    payload_error result_error : Text → List Issue → Thrown
    envelope_error : EnvelopeFault → Thrown
    dead_record_error : RecordFault → Thrown
    child_dead : Text → List ChildFailure → List ChildResult → Thrown
    children_pending : Text → ℕ → Thrown
    children_short : Text → List SlotCount → Thrown

  pub data Cause : Type 0 where
    no_cause : Cause
    cause : Thrown → Cause

-- `error instanceof UnrecoverableError`
abbrev pub is_unrecoverable : Thrown → Bool
is_unrecoverable (unrecoverable e) = true
is_unrecoverable (given_up m c) = true
is_unrecoverable (outliving u n m s c b) = u
is_unrecoverable (version_ahead n v r) = true
is_unrecoverable (cancelled n b c) = true
is_unrecoverable _ = false

abbrev pub is_cancelled : Thrown → Bool
is_cancelled (cancelled n b c) = true
is_cancelled _ = false

abbrev pub is_shutdown_abort : Thrown → Bool
is_shutdown_abort (shutdown_abort n b c) = true
is_shutdown_abort _ = false

abbrev pub is_version_ahead : Thrown → Bool
is_version_ahead (version_ahead n v r) = true
is_version_ahead _ = false

abbrev pub is_lease_held : Thrown → Bool
is_lease_held (lease_held k) = true
is_lease_held _ = false

abbrev pub is_children_pending : Thrown → Bool
is_children_pending (children_pending n k) = true
is_children_pending _ = false

-- The three errors of a flow that a dispatch makes unrecoverable.
abbrev pub is_flow_failure : Thrown → Bool
is_flow_failure (child_dead n f r) = true
is_flow_failure (children_short n s) = true
is_flow_failure (result_error n i) = true
is_flow_failure _ = false

-- `stillRunning(error)`: the body that goes on running behind the error.
unfoldable pub still_running : Thrown → Option Ending
still_running (handler_timeout n b) = some b
still_running (outliving u n m s c b) = some b
still_running (cancelled n b c) = b
still_running (shutdown_abort n b c) = b
still_running _ = none
