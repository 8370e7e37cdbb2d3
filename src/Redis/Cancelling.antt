-- ===== src/Redis/Cancelling.antt =====
-- src/RedisDriver.ts: `cancel`. `locked e` is whether BullMQ refused a removal since a worker holds the
-- lock of the job.
pub mod Outcome
use jubs.Common.{Bool, true, Option, none, some, if◌then◌else◌}
use jubs.Text.{Text}
use jubs.Fault.{Thrown}
use jubs.Result.{ok}
use jubs.Effects.{Exec, pure, raise, catch, ◌>>=◌, ◌>>◌}
use jubs.Driver.{
  RunningDelivery, JobState, active, completed, failed, CancelResult, removed, aborting,
  children_running, unknown_job, finished,
}
use jubs.Redis.{Redis}
use jubs.Redis.Keys.{RedisState}
use jubs.Redis.Cancel.{request_cancel}
use jubs.Redis.Bull.{Bull, BullJob, job_state}

-- `cancelUnderLock`
unfoldable pub cancel_under_lock : JobState → CancelResult
cancel_under_lock active = aborting
cancel_under_lock _ = children_running

abbrev pub running_of : Text → BullJob → RunningDelivery
running_of id job = record { id = id; attempts_started = job.attempts_started }

module _ {R : Type 0} (redis : Redis R) (bull : Bull (RedisState R)) (locked : Thrown → Bool) where
  abbrev mark_cancelled : Text → RunningDelivery → Exec (RedisState R) (Unit {0})
  mark_cancelled queue delivery s =
      (ok tt, record s { stored = request_cancel redis queue delivery s.stored })

  -- `requestCancel` of a job that is read
  unfoldable pub abort : (queue id : Text) → BullJob → Exec (RedisState R) CancelResult
  abort queue id job = do mark_cancelled queue (running_of id job); pure aborting

  abbrev reached_under_lock :
      (queue id : Text) → BullJob → CancelResult → Exec (RedisState R) CancelResult
  reached_under_lock queue id job aborting = abort queue id job
  reached_under_lock queue id job reached = pure reached

  abbrev refused_by_lock : (queue id : Text) → Option BullJob → Exec (RedisState R) CancelResult
  refused_by_lock queue id none = pure unknown_job
  refused_by_lock queue id (some job) = do
    state ← bull.get_state queue id
    reached_under_lock queue id job (cancel_under_lock (job_state state))

  -- `cancelRefusedByALock`
  unfoldable pub cancel_refused_by_a_lock : (queue id : Text) → Exec (RedisState R) CancelResult
  cancel_refused_by_a_lock queue id = bull.get_job queue id >>= refused_by_lock queue id

  abbrev unlocked : (queue id : Text) → Thrown → Exec (RedisState R) CancelResult
  unlocked queue id e = if locked e then cancel_refused_by_a_lock queue id else raise e

  abbrev remove_whole : (queue id : Text) → Exec (RedisState R) CancelResult
  remove_whole queue id = catch (do bull.remove queue id true; pure removed) (unlocked queue id)

  abbrev cancel_in_state : (queue id : Text) → BullJob → JobState → Exec (RedisState R) CancelResult
  cancel_in_state queue id job completed = pure (finished completed)
  cancel_in_state queue id job failed = pure (finished failed)
  cancel_in_state queue id job active = abort queue id job
  cancel_in_state queue id job state = remove_whole queue id

  abbrev cancel_found : (queue id : Text) → Option BullJob → Exec (RedisState R) CancelResult
  cancel_found queue id none = pure unknown_job
  cancel_found queue id (some job) = do
    state ← bull.get_state queue id
    cancel_in_state queue id job (job_state state)

  -- `cancel`
  unfoldable pub cancel : (queue id : Text) → Exec (RedisState R) CancelResult
  cancel queue id = bull.get_job queue id >>= cancel_found queue id
