-- ===== src/Redis/Driver.antt =====
-- src/RedisDriver.ts: `redisDriver`, but for the consumer that it opens.
pub mod Dead
use jubs.Common.{ℕ, Bool, true, false, Option, none, some, List, [], ◌∷◌, ◌++◌, ◌or_else◌}
use jubs.Text.{Text}
use jubs.Value.{Value}
use jubs.Fault.{Thrown, stored_without_id}
use jubs.Result.{Result, ok, err}
use jubs.Effects.{Exec, pure, lift, ◌>>=◌, ◌>>◌}
use jubs.Envelope.{Envelope, envelope_value, read_envelope}
use jubs.Dead.Names.{dead_queue_name}
use jubs.Dead.Record.{dead_entry_value, read_dead_entry}
use jubs.Idempotency.{KeptResult}
use jubs.Driver.{
  EnqueueRequest, FlowNode, node, JobSnapshot, RetryResult, retried, no_such_job, not_failed,
  FlowState, DeadEntry, JobDriver,
}
use jubs.Redis.{Redis}
use jubs.Redis.Keys.{RedisState, redis_idempotency}
use jubs.Redis.Options.{to_enqueue_options, to_flow_job}
use jubs.Redis.Flow.{read_flow_state}
use jubs.Redis.Bull.{Bull, BullJob, BullState, bull_failed, job_state, given, id_or}
use jubs.Redis.Cancelling.{cancel}
use jubs.Redis.Schedules.{reconcile_schedules}

-- `storedEnvelope`
abbrev pub stored_envelope : Result Envelope → Option Envelope
stored_envelope (ok envelope) = some envelope
stored_envelope (err e) = none

abbrev pub snapshot_of : (queue id : Text) → BullJob → BullState → JobSnapshot
snapshot_of queue id job state = record {
  id = id;
  queue = queue;
  name = job.name;
  state = job_state state;
  envelope = stored_envelope (read_envelope job.stored);
  attempts = job.attempts_made;
  max_attempts = job.max_attempts or_else 1;
  failure = given job.failed_reason;
}

abbrev listed : BullJob → Text → Result DeadEntry → List (Text × DeadEntry)
listed job id (ok entry) = (id, entry) ∷ []
listed job id (err e) = []

abbrev listed_under : BullJob → Option Text → List (Text × DeadEntry)
listed_under job none = []
listed_under job (some id) = listed job id (read_dead_entry job.stored)

-- `dead.list`, of the jobs that wait: what cannot be read is left out.
unfoldable pub readable_entries : List BullJob → List (Text × DeadEntry)
readable_entries [] = []
readable_entries (job ∷ jobs) = listed_under job (given job.id) ++ readable_entries jobs

module _ {R : Type 0} (redis : Redis R) (bull : Bull (RedisState R)) (locked : Thrown → Bool)
    (blocking : Bool) (uuid : ℕ → Text) (stringify : KeptResult → Text)
    (parse_kept : Text → Result KeptResult) (parse : Text → Option Value) where
  -- An action on Redis
  abbrev Asking : Type 0 → Type 0
  Asking A = Exec (RedisState R) A

  -- `enqueue`
  unfoldable pub enqueue : EnqueueRequest → Asking Text
  enqueue request = do
    id ←
        bull.add request.queue request.envelope.name (envelope_value request.envelope)
          (some (to_enqueue_options request))
    lift (id_or (stored_without_id request.envelope.name) (given id))

  abbrev get_found : (queue id : Text) → Option BullJob → Asking (Option JobSnapshot)
  get_found queue id none = pure none
  get_found queue id (some job) = do
    state ← bull.get_state queue id
    pure (some (snapshot_of queue id job state))

  -- `get`
  unfoldable pub get : (queue id : Text) → Asking (Option JobSnapshot)
  get queue id = bull.get_job queue id >>= get_found queue id

  abbrev retry_in_state : (queue id : Text) → BullState → Asking RetryResult
  retry_in_state queue id bull_failed = do bull.retry_failed queue id; pure retried
  retry_in_state queue id state = pure (not_failed (job_state state))

  abbrev retry_found : (queue id : Text) → Option BullJob → Asking RetryResult
  retry_found queue id none = pure no_such_job
  retry_found queue id (some job) = bull.get_state queue id >>= retry_in_state queue id

  -- `retry`
  unfoldable pub retry : (queue id : Text) → Asking RetryResult
  retry queue id = bull.get_job queue id >>= retry_found queue id

  -- `dead.bury`
  unfoldable pub bury : Text → DeadEntry → Asking (Unit {0})
  bury queue entry = do
    id ← bull.add (dead_queue_name queue) entry.envelope.name (dead_entry_value entry) none
    pure tt

  -- `dead.list`
  unfoldable pub list_dead : Text → Asking (List (Text × DeadEntry))
  list_dead queue = do jobs ← bull.get_waiting (dead_queue_name queue); pure (readable_entries jobs)

  abbrev read_found : Option BullJob → Asking (Option DeadEntry)
  read_found none = pure none
  read_found (some job) = do entry ← lift (read_dead_entry job.stored); pure (some entry)

  -- `dead.read`
  unfoldable pub read_dead : (queue id : Text) → Asking (Option DeadEntry)
  read_dead queue id = bull.get_job (dead_queue_name queue) id >>= read_found

  abbrev remove_found : (queue id : Text) → Option BullJob → Asking Bool
  remove_found queue id none = pure false
  remove_found queue id (some job) = do bull.remove queue id false; pure true

  -- `dead.remove`
  unfoldable pub remove_dead : (queue id : Text) → Asking Bool
  remove_dead queue id =
      bull.get_job (dead_queue_name queue) id >>= remove_found (dead_queue_name queue) id

  abbrev root_name : FlowNode → Text
  root_name (node request children) = request.envelope.name

  -- `flow.enqueue`
  unfoldable pub enqueue_flow : FlowNode → Asking Text
  enqueue_flow root s =
      let (tree, minted) = to_flow_job uuid root s.minted in
      (do id ← bull.add_flow tree; lift (id_or (stored_without_id (root_name root)) (given id)))
        (record s { minted = minted })

  -- `flow.read`
  unfoldable pub read_flow : (queue id : Text) → Asking FlowState
  read_flow queue id = do reply ← bull.read_flow queue id; pure (read_flow_state parse reply)

  -- `redisDriver`
  unfoldable pub redis_driver : JobDriver (RedisState R)
  redis_driver = record {
    enqueue = enqueue;
    get = get;
    retry = retry;
    cancel = cancel redis bull locked;
    pause = bull.pause;
    resume = bull.resume;
    reconcile_schedules = reconcile_schedules bull blocking;
    bury = bury;
    list_dead = list_dead;
    read_dead = read_dead;
    remove_dead = remove_dead;
    idempotency = redis_idempotency redis uuid stringify parse_kept;
    enqueue_flow = enqueue_flow;
    read_flow = read_flow;
  }
