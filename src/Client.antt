-- ===== src/Client.antt =====
-- src/Client.ts: the client. Its state is that of the driver, within the scope of an atomic block. The
-- loop of the relay that `startRelay` starts is not modelled: a cycle of it is, in Outbox.antt.
pub mod Dead
pub mod Replay
pub mod Blocks
pub mod Ids
pub mod Delivered
use jubs.Common.{
  Bool, true, false, not, Option, none, some, List, [], ◌∷◌, map, find, if◌then◌else◌, ◌or_else◌,
}
use jubs.Text.{Text, ◌==◌}
use jubs.Value.{Value}
use jubs.Fault.{
  refused, replay_in_block, no_dead_job, replay_of_flow, replay_of_unknown, replay_of_waiting,
  replay_while_running, unique_in_outbox, flow_in_outbox, stray_dead_queue, tx_without_outbox,
  tx_inside_block,
}
use jubs.Result
use jubs.Result.{Result, ok, err, refuse}
use jubs.Effects.{Exec, pure, raise, lift, ◌>>=◌, ◌>>◌}
use jubs.Definition.{
  Origin, direct, schedule, flow, relay, JobDefinition, settings, Slot, slots_of, ResolvedUnique,
}
use jubs.JobId.{JobAddress, compose_job_id}
use jubs.Dead.Names.{dead_queue_name, read_dead_job_id, read_live_job_id}
use jubs.Delivery.{resolve_delivery, resolve_delivery_without_uniqueness}
use jubs.Envelope.{Envelope, write_envelope}
use jubs.Flow.Compose.{compose_flow}
use jubs.Idempotency.{ForgetOutcome, running, idempotency_key_for}
use jubs.Migration.{migrate_envelope, validate_payload}
use jubs.Schedule.{assert_timezone}
use jubs.Driver.{
  EnqueueRequest, JobDriver, JobSnapshot, RetryResult, no_such_job, CancelResult, unknown_job,
  DeadEntry,
}
use jubs.Atomic.{
  HeldEnqueue, InScope, WriteEnvelopes, in_atomic_block, hold_or_deliver, outside, run_atomic_block,
}
use jubs.Handlers.{JobsConfig}
use jubs.Runtime.Start.{among}

abbrev pub Client : Type 0 → Type 0 → Type 0
Client S A = Exec (InScope S Text) A

abbrev without_unique : EnqueueRequest → Option ResolvedUnique → Result Envelope
without_unique request none = ok (record request.envelope { origin = relay })
without_unique request (some unique) = refuse (unique_in_outbox request.envelope.name)

-- `envelopeForOutbox`
unfoldable pub envelope_for_outbox : EnqueueRequest → Result Envelope
envelope_for_outbox request = without_unique request request.delivery.unique

abbrev refuse_stray : Option Text → Result (Unit {0})
refuse_stray none = ok tt
refuse_stray (some []) = ok tt
refuse_stray (some (c ∷ queue)) = refuse (stray_dead_queue (c ∷ queue))

abbrev assert_used : List Text → Option (List JobDefinition) → Result (Unit {0})
assert_used dead_queues none = ok tt
assert_used dead_queues (some definitions) =
    refuse_stray
      (find (λ queue. not (among queue (map (λ d. (settings d).queue) definitions))) dead_queues)

abbrev pub renamed : Text → Option JobSnapshot → Option JobSnapshot
renamed queue none = none
renamed queue (some snapshot) = some (record snapshot { id = compose_job_id queue snapshot.id })

module _ {S : Type 0} (config : JobsConfig S) where
  -- `assertEveryDeadQueueIsUsed`
  unfoldable pub assert_every_dead_queue_is_used : Result (Unit {0})
  assert_every_dead_queue_is_used = assert_used config.dead_queues config.definitions

  abbrev pub named : Text → Option Text → Option Text
  named queue none = none
  named queue (some stored) = some (compose_job_id queue stored)

  -- `heldOrNamed`: `none` for an enqueue that a block holds.
  unfoldable pub held_or_named : Text → HeldEnqueue S Text → Client S (Option Text)
  held_or_named queue held = do stored ← hold_or_deliver held; pure (named queue stored)

  abbrev single : JobDefinition → Value → Client S (Option Text)
  single definition v = do
    validated ← lift (validate_payload definition v)
    delivery ← lift (resolve_delivery definition validated)
    let request : EnqueueRequest = record {
      queue = (settings definition).queue;
      envelope = write_envelope definition v direct;
      delivery = delivery;
      job_id = none;
    } in
        held_or_named (settings definition).queue (record {
          deliver = config.driver.enqueue request;
          for_outbox = envelope_for_outbox request;
        })

  abbrev whole_flow : JobDefinition → Value → Value → Client S (Option Text)
  whole_flow definition v awaits = do
    root ← lift (compose_flow definition v awaits)
    held_or_named (settings definition).queue (record {
      deliver = config.driver.enqueue_flow root;
      for_outbox = refuse (flow_in_outbox (settings definition).name);
    })

  abbrev by_slots : List Slot → JobDefinition → Value → Value → Client S (Option Text)
  by_slots [] definition v awaits = single definition v
  by_slots (s ∷ slots) definition v awaits = whole_flow definition v awaits

  -- `enqueue`
  unfoldable pub enqueue : JobDefinition → Value → (awaits : Value) → Client S (Option Text)
  enqueue definition v awaits = by_slots (slots_of definition) definition v awaits

  abbrev get_live : Option JobAddress → Exec S (Option JobSnapshot)
  get_live none = pure none
  get_live (some live) = do
    snapshot ← config.driver.get live.queue live.stored_id
    pure (renamed live.queue snapshot)

  -- `get`
  unfoldable pub get : Text → Client S (Option JobSnapshot)
  get id = outside (lift (read_live_job_id id) >>= get_live)

  abbrev retry_live : Option JobAddress → Exec S RetryResult
  retry_live none = pure no_such_job
  retry_live (some live) = config.driver.retry live.queue live.stored_id

  -- `retry`
  unfoldable pub retry : Text → Client S RetryResult
  retry id = outside (lift (read_live_job_id id) >>= retry_live)

  abbrev cancel_live : Option JobAddress → Exec S CancelResult
  cancel_live none = pure unknown_job
  cancel_live (some live) = config.driver.cancel live.queue live.stored_id

  -- `cancel`
  unfoldable pub cancel : Text → Client S CancelResult
  cancel id = outside (lift (read_live_job_id id) >>= cancel_live)

  -- `pause` and `resume`
  unfoldable pub pause : Text → Client S (Unit {0})
  pause queue = outside (config.driver.pause queue)

  unfoldable pub resume : Text → Client S (Unit {0})
  resume queue = outside (config.driver.resume queue)

-- `outbox.save`, by the transaction that a block is given.
module _ {S A Tx : Type 0} (run : Client S A) where
  abbrev in_transaction : Option (Tx → WriteEnvelopes S) → Tx → Client S A
  in_transaction none tx s = (err (refused tx_without_outbox), s)
  in_transaction (some save) tx s =
      if in_atomic_block s
      then (err (refused tx_inside_block), s)
      else run_atomic_block run (some (save tx)) s

  -- `atomic`
  unfoldable pub atomic : Option (Tx → WriteEnvelopes S) → Option Tx → Client S A
  atomic save none = run_atomic_block run none
  atomic save (some tx) = in_transaction save tx

module _ {S : Type 0} (config : JobsConfig S) (is_zone : Text → Bool) where
  abbrev checked_zone : Option Text → Result (Unit {0})
  checked_zone none = ok tt
  checked_zone (some []) = ok tt
  checked_zone (some (c ∷ zone)) = assert_timezone is_zone (c ∷ zone)

  -- What `createJobs` checks of its configuration.
  unfoldable pub assert_config : Result (Unit {0})
  assert_config =
      Result.◌>>◌ (assert_every_dead_queue_is_used config) (checked_zone config.timezone)
