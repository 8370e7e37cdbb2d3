-- ===== src/Driver.antt =====
-- src/Driver.ts: what a client asks of the storage that it talks to, and the records that travel
-- between them (`DeadEntry` of src/Dead.ts, `RunningDelivery` of src/Cancellation.ts).
use jubs.Common.{ℕ, Bool, Option, List}
use jubs.Text.{Text}
use jubs.Value.{Value}
use jubs.Fault.{ChildResult, ChildFailure}
use jubs.Effects.{Exec}
use jubs.Definition.{Delivery, Recurrence}
use jubs.Envelope.{Envelope}
use jubs.Idempotency.{IdempotencyStore}

pub record EnqueueRequest : Type 0 where
  pub queue : Text
  pub envelope : Envelope
  pub delivery : Delivery
  pub job_id : Option Text

-- A flow: a job, and the children that it waits on under the slots that they fill.
mutual
  pub data FlowNode : Type 0 where
    node : EnqueueRequest → FlowChildren → FlowNode

  pub data FlowChildren : Type 0 where
    childless : FlowChildren
    child : Text → FlowNode → FlowChildren → FlowChildren

pub record FlowState : Type 0 where
  pub results : List ChildResult
  pub failures : List ChildFailure
  pub pending : ℕ

pub record RunningDelivery : Type 0 where
  pub id : Text
  pub attempts_started : ℕ

pub record JobDelivery : Type 0 where
  pub running : RunningDelivery
  pub open running use *
  pub attempt : ℕ
  pub max_attempts : ℕ
  pub envelope : Value

pub data JobState : Type 0 where
  waiting active delayed completed failed waiting_children unknown : JobState

pub record JobSnapshot : Type 0 where
  pub id : Text
  pub queue : Text
  pub name : Text
  pub state : JobState
  pub envelope : Option Envelope
  pub attempts : ℕ
  pub max_attempts : ℕ
  pub failure : Option Text

pub data RetryResult : Type 0 where
  retried no_such_job : RetryResult
  not_failed : JobState → RetryResult

pub data CancelResult : Type 0 where
  removed aborting children_running unknown_job : CancelResult
  finished : JobState → CancelResult

pub record ErrorSnapshot : Type 0 where
  pub name : Text
  pub message : Text
  pub stack : Option Text

pub record SerializedError : Type 0 where
  pub snapshot : ErrorSnapshot
  pub open snapshot use *
  pub caused_by : Option ErrorSnapshot

-- Why a job was buried. The children travel with the one reason that has them.
pub data Burial : Type 0 where
  child_died : List ChildResult → Burial
  attempts_exhausted not_recoverable ahead_of_version cancellation short_of_children : Burial

pub record DeadEntry : Type 0 where
  pub job_id : Text
  pub envelope : Envelope
  pub error : SerializedError
  pub burial : Burial

pub record ScheduleUpsert : Type 0 where
  pub recurrence : Recurrence
  pub timezone : Option Text
  pub envelope : Envelope
  pub delivery : Delivery

-- `JobDriver`, over the state `S` of the storage, but for `consume` and `takeCancelled`, which the
-- runtime's loop calls.
pub record JobDriver (S : Type 0) : Type 0 where
  pub enqueue : EnqueueRequest → Exec S Text
  pub get : (queue id : Text) → Exec S (Option JobSnapshot)
  pub retry : (queue id : Text) → Exec S RetryResult
  pub cancel : (queue id : Text) → Exec S CancelResult
  pub pause : Text → Exec S (Unit {0})
  pub resume : Text → Exec S (Unit {0})
  pub reconcile_schedules : Text → List ScheduleUpsert → Exec S (Unit {0})
  pub bury : Text → DeadEntry → Exec S (Unit {0})
  pub list_dead : Text → Exec S (List (Text × DeadEntry))
  pub read_dead : (queue id : Text) → Exec S (Option DeadEntry)
  pub remove_dead : (queue id : Text) → Exec S Bool
  pub idempotency : IdempotencyStore S
  pub enqueue_flow : FlowNode → Exec S Text
  pub read_flow : (queue id : Text) → Exec S FlowState
