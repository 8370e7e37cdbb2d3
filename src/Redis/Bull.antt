-- ===== src/Redis/Bull.antt =====
-- BullMQ, as src/RedisDriver.ts calls it: a parameter, over the state that it keeps. The handles of
-- queues that the source opens once and keeps are not modelled: a call names its queue.
use jubs.Common.{ℕ, Bool, Option, none, some, List, [], ◌∷◌}
use jubs.Text.{Text}
use jubs.Value.{Value}
use jubs.Fault.{Reason, refused}
use jubs.Result.{Result, ok, err}
use jubs.Effects.{Exec}
use jubs.Driver.{JobState, waiting, active, delayed, completed, failed, waiting_children, unknown}
use jubs.Redis.Options.{TemplateOptions, RepeatOptions, JobsOptions, FlowJobNode}
use jubs.Redis.Flow.{FlowReply}

-- The states that BullMQ names.
pub data BullState : Type 0 where
  bull_waiting bull_prioritized bull_active bull_delayed bull_completed bull_failed
        bull_waiting_children bull_unknown :
      BullState

-- `JOB_STATES`
unfoldable pub job_state : BullState → JobState
job_state bull_waiting = waiting
job_state bull_prioritized = waiting
job_state bull_active = active
job_state bull_delayed = delayed
job_state bull_completed = completed
job_state bull_failed = failed
job_state bull_waiting_children = waiting_children
job_state bull_unknown = unknown

-- A job as BullMQ reads it.
pub record BullJob : Type 0 where
  pub id : Option Text
  pub name : Text
  pub stored : Value
  pub attempts_made : ℕ
  pub attempts_started : ℕ
  pub max_attempts : Option ℕ
  pub failed_reason : Option Text

-- The calls of BullMQ.
pub record Bull (S : Type 0) : Type 0 where
  pub add : (queue name : Text) → Value → Option JobsOptions → Exec S (Option Text)
  pub get_job : (queue id : Text) → Exec S (Option BullJob)
  pub get_state : (queue id : Text) → Exec S BullState
  -- `job.retry("failed", { resetAttemptsMade: true })`
  pub retry_failed : (queue id : Text) → Exec S (Unit {0})
  pub remove : (queue id : Text) (children : Bool) → Exec S (Unit {0})
  pub pause : Text → Exec S (Unit {0})
  pub resume : Text → Exec S (Unit {0})
  pub schedulers : Text → Exec S (List Text)
  pub remove_scheduler : (queue key : Text) → Exec S (Unit {0})
  pub upsert_scheduler :
      (queue key : Text)
      → RepeatOptions
      → (name : Text) → Value
      → TemplateOptions
      → Exec S (Unit {0})
  pub add_flow : FlowJobNode → Exec S (Option Text)
  pub read_flow : (queue id : Text) → Exec S FlowReply
  pub get_waiting : Text → Exec S (List BullJob)

-- `if (!id)`
abbrev pub given : Option Text → Option Text
given none = none
given (some []) = none
given (some (c ∷ id)) = some (c ∷ id)

abbrev pub id_or : Reason → Option Text → Result Text
id_or reason none = err (refused reason)
id_or reason (some id) = ok id
