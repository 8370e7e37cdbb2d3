-- ===== src/Memory/Driver.antt =====
-- src/testing/index.ts: `memoryDriver`, as the driver that a client and the runtime are given, and
-- its consumers.
use jubs.Common.{ℕ, Bool, true, false, not, List, [], ◌∷◌, ◌++◌, keep, map, if◌then◌else◌}
use jubs.Text.{Text, codes, ◌==◌}
use jubs.Value.{Value}
use jubs.Fault.{refused, unsupported}
use jubs.Result.{ok, err}
use jubs.Effects.{Exec, pure, raise}
use jubs.Idempotency.{IdempotencyStore}
use jubs.Driver.{JobDriver, ScheduleUpsert}
use jubs.Memory.Keys.{MemoryKeys, memory_idempotency}
use jubs.Memory.Queue.{
  MemoryState, is_named, enqueue_in, get_in, retry_in, cancel_in, pause_in, resume_in, bury_in,
  list_buried, read_buried, remove_buried,
}

-- A call that cannot fail.
abbrev changing : (MemoryState → MemoryState) → Exec MemoryState (Unit {0})
changing f s = (ok tt, f s)

abbrev on_keys : {A : Type 0} → Exec MemoryKeys A → Exec MemoryState A
on_keys m s = let (r, keys) = m s.keys in (r, record s { keys = keys })

abbrev refuse_as : {A : Type 0} → Text → Exec MemoryState A
refuse_as what = raise (refused (unsupported what))

-- `consume`, for a queue with a limiter or without, and `close` of the consumer that it returns
unfoldable pub consume_in : Text → Bool → Exec MemoryState (Unit {0})
consume_in queue true s = (err (refused (unsupported (codes "limiter"))), s)
consume_in queue false s =
    if is_named s.consumers queue
    then (ok tt, s)
    else (ok tt, record s { consumers = s.consumers ++ queue ∷ [] })

unfoldable pub close_in : Text → MemoryState → MemoryState
close_in queue s = record s { consumers = keep (λ q. not (q == queue)) s.consumers }

-- `enqueued`: the payloads of the jobs under a name.
unfoldable pub enqueued : Text → MemoryState → List Value
enqueued name s = map (λ j. j.envelope.payload) (keep (λ j. j.envelope.name == name) s.recorded)

-- `reconcileSchedules`
unfoldable pub reconcile_in : Text → List ScheduleUpsert → Exec MemoryState (Unit {0})
reconcile_in queue [] = pure tt
reconcile_in queue (declared ∷ more) = refuse_as (codes "schedule")

module _ (uuid : ℕ → Text) where
  abbrev lifted_store : IdempotencyStore MemoryKeys → IdempotencyStore MemoryState
  lifted_store store = record {
    acquire = λ key lease_ms. on_keys (store.acquire key lease_ms);
    renew = λ key token lease_ms. on_keys (store.renew key token lease_ms);
    finish =
        λ key token result retain_for_ms. on_keys (store.finish key token result retain_for_ms);
    release = λ key token. on_keys (store.release key token);
    forget = λ key. on_keys (store.forget key);
  }

  -- `memoryDriver`
  unfoldable pub memory_driver : JobDriver MemoryState
  memory_driver = record {
    enqueue = enqueue_in;
    get = get_in;
    retry = retry_in;
    cancel = cancel_in;
    pause = λ queue. changing (pause_in queue);
    resume = λ queue. changing (resume_in queue);
    reconcile_schedules = reconcile_in;
    bury = λ queue entry. changing (bury_in queue entry);
    list_dead = λ queue s. (ok (list_buried queue s), s);
    read_dead = λ queue id s. (ok (read_buried queue id s), s);
    remove_dead = λ queue id s. let (r, s') = remove_buried queue id s in (ok r, s');
    idempotency = lifted_store (memory_idempotency uuid);
    enqueue_flow = λ flow. refuse_as (codes "a job that waits on children");
    read_flow = λ queue id.
        refuse_as (codes "what the children of a job that waits on children settled into");
  }
