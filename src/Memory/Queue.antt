-- ===== src/Memory/Queue.antt =====
-- src/testing/index.ts: the operations of the driver in memory on its jobs, its marks and its dead
-- queues. The set `paused` and the keys of `consumers` are lists of names; the function that a
-- consumer runs is a parameter of `run_next`.
pub mod Consistent
pub mod Keeps
pub mod Ids
use jubs.Common.{
  ℕ, suc, ◌+◌, Bool, true, false, ◌&&◌, not, Option, none, some, List, [], ◌∷◌, ◌++◌, map, any,
  keep, length, eqb, is_some, if◌then◌else◌,
}
use jubs.Text.{Text, codes, ◌==◌}
use jubs.Text.Decimal.{show}
use jubs.Value.{json_copy, json_fields}
use jubs.Fault.{refused, unsupported, ChildResult}
use jubs.Result.{ok, err}
use jubs.Effects.{Exec, pure, raise}
use jubs.Assoc.{Assoc, lookup, insert, remove}
use jubs.Definition.{Delivery, ResolvedUnique}
use jubs.JobId.{compose_job_id}
use jubs.Envelope.{Envelope}
use jubs.Driver.{
  EnqueueRequest, RunningDelivery, JobState, waiting, active, delayed, completed, failed,
  waiting_children, unknown, JobSnapshot, RetryResult, retried, no_such_job, not_failed,
  CancelResult, removed, aborting, unknown_job, finished, DeadEntry, Burial, child_died,
}
use jubs.Memory.Keys.{MemoryKeys}
use jubs.Memory.Jobs.{MemoryJob, write_job, drop_job, splice_ref, job_at}

pub record MemoryDeadQueue : Type 0 where
  pub entries : Assoc DeadEntry
  pub deaths : ℕ

-- `created` counts the jobs that were ever recorded, so that each has a reference of its own.
pub record MemoryState : Type 0 where
  pub created : ℕ
  pub recorded : List MemoryJob
  pub pending : List ℕ
  pub consumers : List Text
  pub paused : List Text
  pub buried : Assoc MemoryDeadQueue
  pub marked : Assoc ℕ
  pub keys : MemoryKeys

abbrev pub is_named : List Text → Text → Bool
is_named names name = any (λ n. n == name) names

-- `JSON.parse(JSON.stringify(envelope))`, of an envelope whose version is finite. Every version that
-- the library writes is the whole number of a definition.
abbrev pub copy_envelope : Envelope → Envelope
copy_envelope e = record e { payload = json_copy e.payload }

abbrev copy_result : ChildResult → ChildResult
copy_result r = record r { value = json_copy r.value; extra = json_fields r.extra }

abbrev copy_burial : Burial → Burial
copy_burial (child_died results) = child_died (map copy_result results)
copy_burial b = b

-- `JSON.parse(JSON.stringify(entry))`
abbrev pub copy_entry : DeadEntry → DeadEntry
copy_entry e = record e { envelope = copy_envelope e.envelope; burial = copy_burial e.burial }

-- The first key of a delivery that is not in `ACCEPTED_DELIVERY`.
abbrev pub rejected : Option ResolvedUnique → Option ℕ → Option Text
rejected (some u) delay = some (codes "unique")
rejected none (some d) = some (codes "delayMs")
rejected none none = none

-- `request.jobId ? jobAt(request.queue, request.jobId) : undefined`
abbrev pub already : Text → Option Text → List MemoryJob → Option MemoryJob
already queue none jobs = none
already queue (some []) jobs = none
already queue (some (c ∷ id)) jobs = job_at queue (c ∷ id) jobs

-- `request.jobId || String(recorded.length + 1)`
abbrev pub id_for : Option Text → List MemoryJob → Text
id_for none jobs = show (length jobs + 1)
id_for (some []) jobs = show (length jobs + 1)
id_for (some (c ∷ id)) jobs = c ∷ id

abbrev pub new_job : EnqueueRequest → MemoryState → MemoryJob
new_job request s = record {
  ref = s.created;
  id = id_for request.job_id s.recorded;
  queue = request.queue;
  max_attempts = request.delivery.attempts;
  envelope = copy_envelope request.envelope;
  state = waiting;
  attempts = 0;
  attempts_started = 0;
  failure = none;
}

-- The end of `enqueue`: both lists are given the job.
unfoldable pub record_job : MemoryJob → MemoryState → MemoryState
record_job job s = record s {
  created = suc s.created;
  recorded = s.recorded ++ job ∷ [];
  pending = s.pending ++ job.ref ∷ [];
}

abbrev enqueue_new : EnqueueRequest → Option MemoryJob → Exec MemoryState Text
enqueue_new request (some job) s = (ok job.id, s)
enqueue_new request none s = (ok (new_job request s).id, record_job (new_job request s) s)

abbrev enqueue_accepted : EnqueueRequest → Option Text → Exec MemoryState Text
enqueue_accepted request (some key) s = (err (refused (unsupported key)), s)
enqueue_accepted request none s =
    enqueue_new request (already request.queue request.job_id s.recorded) s

-- `enqueue`
unfoldable pub enqueue_in : EnqueueRequest → Exec MemoryState Text
enqueue_in request s =
    enqueue_accepted request (rejected request.delivery.unique request.delivery.delay_ms) s

abbrev snapshot_of : MemoryJob → JobSnapshot
snapshot_of job = record {
  id = job.id;
  queue = job.queue;
  name = job.envelope.name;
  state = job.state;
  envelope = some job.envelope;
  attempts = job.attempts;
  max_attempts = job.max_attempts;
  failure = job.failure;
}

-- `get`
unfoldable pub get_in : (queue id : Text) → Exec MemoryState (Option JobSnapshot)
get_in queue id s = elim (job_at queue id s.recorded) [
  | none ↦ (ok none, s)
  | some job ↦ (ok (some (snapshot_of job)), s)
]

abbrev pub retried_job : MemoryJob → MemoryJob
retried_job job = record job { state = waiting; attempts = 0; failure = none }

-- A failed job that is put back in the line.
unfoldable pub put_back : ℕ → MemoryState → MemoryState
put_back ref s = record s {
  recorded = write_job ref retried_job s.recorded;
  pending = s.pending ++ ref ∷ [];
}

abbrev retry_job : MemoryJob → JobState → MemoryState → RetryResult × MemoryState
retry_job job failed s = (retried, put_back job.ref s)
retry_job job state s = (not_failed state, s)

-- `retry`
unfoldable pub retry_in : (queue id : Text) → Exec MemoryState RetryResult
retry_in queue id s = elim (job_at queue id s.recorded) [
  | none ↦ (ok no_such_job, s)
  | some job ↦ let (result, s') = retry_job job job.state s in (ok result, s')
]

-- `requestCancel`
unfoldable pub request_cancel : Text → RunningDelivery → MemoryState → MemoryState
request_cancel queue delivery s = record s {
  marked = insert (compose_job_id queue delivery.id) delivery.attempts_started s.marked;
}

abbrev pub delivery_of : MemoryJob → RunningDelivery
delivery_of job = record { id = job.id; attempts_started = job.attempts_started }

-- A job that is taken out of both lists.
unfoldable pub forget_job : ℕ → MemoryState → MemoryState
forget_job ref s = record s {
  recorded = drop_job ref s.recorded;
  pending = splice_ref ref s.pending;
}

abbrev cancel_job : Text → MemoryJob → JobState → MemoryState → CancelResult × MemoryState
cancel_job queue job completed s = (finished completed, s)
cancel_job queue job failed s = (finished failed, s)
cancel_job queue job active s = (aborting, request_cancel queue (delivery_of job) s)
cancel_job queue job state s = (removed, forget_job job.ref s)

-- `cancel`
unfoldable pub cancel_in : (queue id : Text) → Exec MemoryState CancelResult
cancel_in queue id s = elim (job_at queue id s.recorded) [
  | none ↦ (ok unknown_job, s)
  | some job ↦ let (result, s') = cancel_job queue job job.state s in (ok result, s')
]

abbrev pub is_marked : Option ℕ → ℕ → Bool
is_marked none attempts = false
is_marked (some mark) attempts = eqb mark attempts

-- `takeCancellation`
unfoldable pub take_cancellation : Text → RunningDelivery → MemoryState → Bool × MemoryState
take_cancellation queue delivery s =
    let key = compose_job_id queue delivery.id in
    if is_marked (lookup key s.marked) delivery.attempts_started
    then (true, record s { marked = remove key s.marked })
    else (false, s)

abbrev pub with_taken {ℓ} : {A : Type ℓ} → A → Bool → List A → List A
with_taken a true rest = a ∷ rest
with_taken a false rest = rest

-- `takeCancelled`
unfoldable pub take_cancelled :
    Text → List RunningDelivery → MemoryState → List RunningDelivery × MemoryState
take_cancelled queue [] s = ([], s)
take_cancelled queue (d ∷ ds) s =
    let (taken, s') = take_cancellation queue d s in
    let (rest, s'') = take_cancelled queue ds s' in (with_taken d taken rest, s'')

-- `pause` and `resume`
unfoldable pub pause_in : Text → MemoryState → MemoryState
pause_in queue s =
    if is_named s.paused queue then s else record s { paused = s.paused ++ queue ∷ [] }

unfoldable pub resume_in : Text → MemoryState → MemoryState
resume_in queue s = record s { paused = keep (λ q. not (q == queue)) s.paused }

-- `deadQueueFor`
abbrev dead_queue_for : Text → MemoryState → MemoryDeadQueue
dead_queue_for queue s = elim (lookup queue s.buried) [
  | none ↦ record { entries = []; deaths = 0 }
  | some dead ↦ dead
]

-- `dead.bury`
unfoldable pub bury_in : Text → DeadEntry → MemoryState → MemoryState
bury_in queue entry s =
    let dead = dead_queue_for queue s in
    record s {
      buried =
          insert queue
            (record {
              entries = insert (show (suc dead.deaths)) (copy_entry entry) dead.entries;
              deaths = suc dead.deaths;
            })
            s.buried;
    }

abbrev pub entries_of : Option MemoryDeadQueue → Assoc DeadEntry
entries_of none = []
entries_of (some dead) = dead.entries

-- `dead.list` and `dead.read`
unfoldable pub list_buried : Text → MemoryState → List (Text × DeadEntry)
list_buried queue s = entries_of (lookup queue s.buried)

unfoldable pub read_buried : (queue id : Text) → MemoryState → Option DeadEntry
read_buried queue id s = lookup id (entries_of (lookup queue s.buried))

-- `dead.remove`
unfoldable pub remove_buried : (queue id : Text) → MemoryState → Bool × MemoryState
remove_buried queue id s = elim (lookup queue s.buried) [
  | none ↦ (false, s)
  | some dead ↦ (
    is_some (lookup id dead.entries),
    record s { buried = insert queue (record dead { entries = remove id dead.entries }) s.buried },
  )
]
