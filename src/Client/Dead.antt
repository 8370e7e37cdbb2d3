-- ===== src/Client/Dead.antt =====
-- src/Client.ts: what the client does with dead jobs, and with the keys of idempotency.
use jubs.Common.{
  Bool, true, false, not, Option, none, some, List, [], ◌∷◌, map, find, if◌then◌else◌, ◌or_else◌,
}
use jubs.Text.{Text, ◌==◌}
use jubs.Value.{Value}
use jubs.Fault.{
  refused, replay_in_block, no_dead_job, replay_of_flow, replay_of_unknown, replay_of_waiting,
  replay_while_running,
}
use jubs.Result
use jubs.Result.{Result, ok, err, refuse}
use jubs.Effects.{Exec, pure, raise, lift, ◌>>=◌, ◌>>◌}
use jubs.Definition.{Origin, flow, JobDefinition, settings, Slot, slots_of}
use jubs.JobId.{JobAddress, compose_job_id}
use jubs.Dead.Names.{dead_queue_name, read_dead_job_id}
use jubs.Delivery.{resolve_delivery_without_uniqueness}
use jubs.Idempotency.{ForgetOutcome, running, idempotency_key_for}
use jubs.Migration.{migrate_envelope, validate_payload}
use jubs.Driver.{EnqueueRequest, DeadEntry}
use jubs.Atomic.{in_atomic_block, outside}
use jubs.Handlers.{JobsConfig}
use jubs.Client.{Client}

-- `ForgetResult`
pub data ForgetResult : Type 0 where
  not_guarded : ForgetResult
  of_key : ForgetOutcome → ForgetResult

abbrev pub is_running : ForgetResult → Bool
is_running (of_key running) = true
is_running _ = false

-- A dead job, under the id that names it.
abbrev pub DeadJob : Type 0
DeadJob = Text × DeadEntry

abbrev pub is_flow : Origin → Bool
is_flow flow = true
is_flow _ = false

module _ {S : Type 0} (config : JobsConfig S) where
  abbrev pub forget_named : Option Text → Exec S ForgetResult
  forget_named none = pure not_guarded
  forget_named (some []) = pure not_guarded
  forget_named (some (c ∷ key)) = do
    outcome ← config.driver.idempotency.forget (c ∷ key)
    pure (of_key outcome)

  -- `forgetKey`
  unfoldable pub forget_key : JobDefinition → Value → Exec S ForgetResult
  forget_key definition v = forget_named (idempotency_key_for definition v)

  abbrev dead_job : Text → Text × DeadEntry → DeadJob
  dead_job queue (stored_id, entry) = (compose_job_id (dead_queue_name queue) stored_id, entry)

  -- `dead.list`
  unfoldable pub list_dead : Text → Client S (List DeadJob)
  list_dead queue =
      outside (config.driver.list_dead queue >>= λ buried. pure (map (dead_job queue) buried))

  abbrev pub discarded : Text → Bool → Exec S (Unit {0})
  discarded id true = pure tt
  discarded id false = raise (refused (no_dead_job id))

  -- `dead.discard`
  unfoldable pub discard : Text → Client S (Unit {0})
  discard id = outside (do
    address ← lift (read_dead_job_id id)
    dropped ← config.driver.remove_dead address.queue address.stored_id
    discarded id dropped)

  -- The end of `dead.replay`: the key is forgotten, the job is enqueued, and then the record goes.
  unfoldable pub enqueue_and_drop : (queue : Text) → JobAddress → EnqueueRequest → Exec S Text
  enqueue_and_drop queue address request = do
    stored ← config.driver.enqueue request
    dropped ← config.driver.remove_dead address.queue address.stored_id
    pure (compose_job_id queue stored)

  unfoldable pub replay_validated :
      Text → JobAddress → DeadEntry → JobDefinition → Value → Exec S Text
  replay_validated id address entry definition validated = do
    forgotten ← forget_key definition validated
    lift (Result.require (not (is_running forgotten)) (replay_while_running id entry.envelope.name))
    delivery ← lift (resolve_delivery_without_uniqueness definition validated)
    enqueue_and_drop (settings definition).queue address (record {
      queue = (settings definition).queue;
      envelope = entry.envelope;
      delivery = delivery;
      job_id = none;
    })

  abbrev pub replay_job : Text → JobAddress → DeadEntry → JobDefinition → Exec S Text
  replay_job id address entry definition = do
    migrated ← lift (migrate_envelope definition entry.envelope)
    validated ← lift (validate_payload definition migrated)
    replay_validated id address entry definition validated

  abbrev pub replay_single : Text → JobAddress → DeadEntry → JobDefinition → List Slot → Exec S Text
  replay_single id address entry definition [] = replay_job id address entry definition
  replay_single id address entry definition (s ∷ slots) =
      raise (refused (replay_of_waiting id entry.envelope.name))

  abbrev pub replay_known : Text → JobAddress → DeadEntry → Option JobDefinition → Exec S Text
  replay_known id address entry none = raise (refused (replay_of_unknown id entry.envelope.name))
  replay_known id address entry (some definition) =
      replay_single id address entry definition (slots_of definition)

  abbrev pub replay_entry : Text → JobAddress → Option DeadEntry → Exec S Text
  replay_entry id address none = raise (refused (no_dead_job id))
  replay_entry id address (some entry) =
      if is_flow entry.envelope.origin
      then raise (refused (replay_of_flow id))
      else replay_known id address entry
          (find (λ d. (settings d).name == entry.envelope.name) (config.definitions or_else []))

  unfoldable pub replay_outside : Text → Exec S Text
  replay_outside id = do
    address ← lift (read_dead_job_id id)
    entry ← config.driver.read_dead address.queue address.stored_id
    replay_entry id address entry

  -- `dead.replay`
  unfoldable pub replay : Text → Client S Text
  replay id s =
      if in_atomic_block s
      then (err (refused (replay_in_block id)), s)
      else outside (replay_outside id) s

  -- `idempotency.forget`
  unfoldable pub forget : JobDefinition → Value → Client S ForgetResult
  forget definition v =
      outside (do validated ← lift (validate_payload definition v); forget_key definition validated)
