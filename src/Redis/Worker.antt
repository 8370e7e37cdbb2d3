-- ===== src/Redis/Worker.antt =====
-- src/RedisDriver.ts: what the worker of a consumer does with a delivery. `moveToDelayed` and
-- `moveToWaitingChildren` of BullMQ are parameters; the worker itself and its limiter are not modelled.
pub mod Postponed
use jubs.Common.{ℕ, ◌+◌, Bool, true, false, Option, none, some, List, [], ◌∷◌, ◌or_else◌}
use jubs.Text.{Text}
use jubs.Value.{Value}
use jubs.Fault.{
  Thrown, refused, delivered_without_id, delivered_without_token, lease_held, shutdown_abort,
  children_pending,
}
use jubs.Result.{Result, ok, err}
use jubs.Effects.{Exec, pure, raise, ◌>>=◌, ◌>>◌}
use jubs.Idempotency.{held_retry_delay_ms}
use jubs.Driver.{JobDelivery}
use jubs.Redis.Bull.{BullJob, given}

-- How a delivery ends: with a result, or moved away by a `DelayedError` or a `WaitingChildrenError`,
-- which BullMQ counts as no attempt.
pub data Processed : Type 0 where
  returned_value : Value → Processed
  delayed_for : ℕ → Processed
  waits_again : Processed

-- `SHUTDOWN_REDELIVERY_MS` of src/Shutdown.ts
abbrev pub shutdown_redelivery_ms : ℕ
shutdown_redelivery_ms = 1000

abbrev pub delivery_of : BullJob → Text → JobDelivery
delivery_of job id = record {
  running = record { id = id; attempts_started = job.attempts_started };
  attempt = job.attempts_made + 1;
  max_attempts = job.max_attempts or_else 1;
  envelope = job.stored;
}

module _ {S : Type 0}
    (move_to_delayed : BullJob → (delay_ms : ℕ) → (token : Text) → Exec S (Unit {0}))
    (move_to_waiting_children : BullJob → (token : Text) → Exec S Bool) where
  abbrev delay_by : BullJob → ℕ → Option Text → Exec S Processed
  delay_by job delay_ms none = raise (refused (delivered_without_token job.name))
  delay_by job delay_ms (some token) = do
    move_to_delayed job delay_ms token
    pure (delayed_for delay_ms)

  -- `reschedule`
  unfoldable pub reschedule : BullJob → Option Text → (delay_ms : ℕ) → Exec S Processed
  reschedule job token delay_ms = delay_by job delay_ms (given token)

  abbrev waits_or : Thrown → Bool → Exec S Processed
  waits_or pending true = pure waits_again
  waits_or pending false = raise pending

  abbrev wait_with : BullJob → Thrown → Option Text → Exec S Processed
  wait_with job pending none = raise (refused (delivered_without_token job.name))
  wait_with job pending (some token) = move_to_waiting_children job token >>= waits_or pending

  -- `waitForChildren`
  unfoldable pub wait_for_children : BullJob → Option Text → Thrown → Exec S Processed
  wait_for_children job token pending = wait_with job pending (given token)

  abbrev settled : BullJob → Option Text → Result Value → Exec S Processed
  settled job token (ok v) = pure (returned_value v)
  settled job token (err (lease_held key)) =
      reschedule job token (held_retry_delay_ms job.attempts_started)
  settled job token (err (shutdown_abort name body c)) = reschedule job token shutdown_redelivery_ms
  settled job token (err (children_pending name n)) =
      wait_for_children job token (children_pending name n)
  settled job token (err e) = raise e

  abbrev process_under :
      (JobDelivery → Exec S Value) → BullJob → Option Text → Option Text → Exec S Processed
  process_under run job token none s = (err (refused (delivered_without_id job.name)), s)
  process_under run job token (some id) s =
      let (outcome, s') = run (delivery_of job id) s in settled job token outcome s'

  -- The processor that `consume` gives to its worker
  unfoldable pub process : (JobDelivery → Exec S Value) → BullJob → Option Text → Exec S Processed
  process run job token = process_under run job token (given job.id)
