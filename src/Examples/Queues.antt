-- ===== src/Examples/Queues.antt =====
-- The driver in memory, and the client over it.
use jubs.Common.{ℕ, ◌+◌, ◌≡◌, refl, none, some, [], ◌∷◌, arith, map, length}
use jubs.Text.{Text, codes, ◌==◌, includes}
use jubs.Text.Decimal.{show}
use jubs.Value.{Value, json_copy, undefined}
use jubs.Fault.{Thrown}
use jubs.Result.{ok}
use jubs.Effects.{Exec, ◌>>=◌}
use jubs.Definition.{direct}
use jubs.Delivery.{delivery_defaults, resolve_delivery}
use jubs.Envelope.{write_envelope, read_envelope}
use jubs.JobId.{compose_job_id}
use jubs.Dead.Names.{dead_queue_name}
use jubs.Migration.{validate_payload}
use jubs.Driver.{
  EnqueueRequest, JobDelivery, DeadEntry, attempts_exhausted, waiting, no_such_job, unknown_job,
}
use jubs.Handlers.{JobsConfig}
use jubs.Atomic.{InScope, WriteEnvelopes, in_atomic_block, outside, write_all}
use jubs.Memory.Jobs.{MemoryJob, job_at}
use jubs.Memory.Queue.{
  MemoryState, enqueue_in, retry_in, cancel_in, take_cancelled, pause_in, resume_in, bury_in,
  remove_buried,
}
use jubs.Memory.Queue.Consistent.{IsConsistent}
use jubs.Memory.Queue.Keeps.{Kept, KeptFrom, KeptFrom-refl, queue-Kept}
use jubs.Memory.Queue.Ids.{enqueue_in-twice, enqueue_in-id_of_kept}
use jubs.Memory.Driver.{memory_driver}
use jubs.Memory.Run.{run_next, drain, runnable, delivery_for}
use jubs.Memory.Run.Keeps.{run_next-Kept}
use jubs.Memory.Run.Left.{Ends, drain-Ends}
use jubs.Client.{enqueue, get, retry, cancel, atomic}
use jubs.Client.Dead.{discard, discarded, replay}
use jubs.Client.Replay.{in_memory, Replayed, replay-Replayed}
use jubs.Client.Blocks.{enqueue_all, row_of, atomic-enqueue_all}
use jubs.Client.Ids.{dead_id-client}
use jubs.Client.Delivered.{enqueue-runnable}
use jubs.Examples.Samples.{mail_queue, email_job, email_envelope, payload, uuid, no_keys}

abbrev none_yet : MemoryState
none_yet = record {
  created = 0;
  recorded = [];
  pending = [];
  consumers = mail_queue ∷ [];
  paused = [];
  buried = [];
  marked = [];
  keys = no_keys;
}

none_yet-IsConsistent : IsConsistent none_yet
unfolding IsConsistent
none_yet-IsConsistent = λ ref. (refl, omega arith, refl, λ late. refl)

abbrev pub request : EnqueueRequest
request = record {
  queue = mail_queue;
  envelope = email_envelope;
  delivery = delivery_defaults;
  job_id = none;
}

abbrev under_id : EnqueueRequest
under_id = record request { job_id = some (codes "7") }

-- A consumer that returns the envelope.
abbrev returns : Text → JobDelivery → Exec MemoryState Value
returns queue delivery s = (ok delivery.envelope, s)

abbrev silent : Thrown → Text
silent e = []

-- One job waits.
abbrev one_waits : MemoryState
one_waits = record none_yet {
  created = 1;
  recorded =
      record {
        ref = 0;
        id = codes "2";
        queue = mail_queue;
        max_attempts = 3;
        envelope = email_envelope;
        state = waiting;
        attempts = 0;
        attempts_started = 0;
        failure = none;
      }
      ∷ [];
  pending = 0 ∷ [];
}

abbrev pub dead_email : DeadEntry
dead_email = record {
  job_id = codes "mail:2";
  envelope = email_envelope;
  error = record {
    snapshot = record { name = codes "Error"; message = codes "no"; stack = none };
    caused_by = none;
  };
  burial = attempts_exhausted;
}

one_waits-IsConsistent : IsConsistent one_waits
unfolding IsConsistent
one_waits-IsConsistent = λ ref. (ground arith, ground arith, ground arith, λ late. ground arith)

queue-Kept_example :
    Kept one_waits (enqueue_in under_id one_waits).1
    × Kept one_waits (retry_in mail_queue (codes "2") one_waits).1
    × Kept one_waits (cancel_in mail_queue (codes "2") one_waits).1
    × Kept one_waits (take_cancelled mail_queue [] one_waits).1
    × Kept one_waits (pause_in mail_queue one_waits)
    × Kept one_waits (resume_in mail_queue one_waits)
    × Kept one_waits (bury_in mail_queue dead_email one_waits)
    × Kept one_waits (remove_buried mail_queue (codes "2") one_waits).1
queue-Kept_example =
    queue-Kept under_id mail_queue (codes "2") [] dead_email one_waits one_waits-IsConsistent

run_next-Kept_example : Kept one_waits (run_next silent returns one_waits).1
unfolding KeptFrom
run_next-Kept_example =
    run_next-Kept silent returns (λ queue delivery s consistent. KeptFrom-refl s consistent)
      one_waits one_waits-IsConsistent

drain-Ends_example : Ends silent returns 1 (drain silent returns 2 one_waits)
drain-Ends_example =
    drain-Ends silent returns (λ queue delivery s. omega arith) 2 one_waits (omega arith)

enqueue_in-twice_example :
    enqueue_in under_id (enqueue_in under_id one_waits).1
    ≡ ((enqueue_in under_id one_waits).0, (enqueue_in under_id one_waits).1)
enqueue_in-twice_example = enqueue_in-twice under_id one_waits refl

enqueue_in-id_of_kept_example :
    let id = show (length one_waits.recorded + 1) in
    let s' = (enqueue_in request one_waits).1 in
    ((enqueue_in request one_waits).0 ≡ ok id)
    × (length s'.recorded ≡ length one_waits.recorded + 1)
    × (job_at mail_queue id s'.recorded ≡ job_at mail_queue id one_waits.recorded)
unfolding job_at show ◌==◌
enqueue_in-id_of_kept_example = enqueue_in-id_of_kept request one_waits refl refl refl

abbrev base : JobsConfig MemoryState
base = record {
  driver = memory_driver uuid;
  definitions = some (email_job ∷ []);
  dead_queues = mail_queue ∷ [];
  timezone = none;
  hooks = record { on_start = none; on_success = none; on_attempt_failed = none; on_dead = none };
}

abbrev outside_blocks : InScope MemoryState Text
outside_blocks = record { outer = none_yet; scope = none }

abbrev buried_once : InScope MemoryState Text
buried_once = record {
  outer = record none_yet {
    buried = (mail_queue, record { entries = (codes "1", dead_email) ∷ []; deaths = 1 }) ∷ [];
  };
  scope = none;
}

replay-Replayed_example : Replayed (codes "mail.dead:1") buried_once.outer (
  (replay (in_memory uuid base) (codes "mail.dead:1") buried_once).0,
  (replay (in_memory uuid base) (codes "mail.dead:1") buried_once).1.outer,
)
replay-Replayed_example = replay-Replayed uuid base (codes "mail.dead:1") buried_once

abbrev save : ℕ → WriteEnvelopes MemoryState
save tx rows s = (ok tt, record s { created = tx })

atomic-enqueue_all_example :
    atomic
      (enqueue_all (in_memory uuid base) ((email_job, payload) ∷ []))
      (some save)
      (some 5)
      outside_blocks
    ≡ outside (write_all (save 5) (map row_of ((email_job, payload) ∷ []))) outside_blocks
unfolding in_atomic_block validate_payload resolve_delivery
atomic-enqueue_all_example =
    atomic-enqueue_all (in_memory uuid base) ((email_job, payload) ∷ []) save 5 outside_blocks
      ((delivery_defaults, (refl, payload, refl, refl), refl), tt) refl

dead_id-client_example :
    let id = compose_job_id (dead_queue_name mail_queue) (codes "1") in
    (get base id outside_blocks ≡ (ok none, outside_blocks))
    × (retry base id outside_blocks ≡ (ok no_such_job, outside_blocks))
    × (cancel base id outside_blocks ≡ (ok unknown_job, outside_blocks))
    × (discard base id outside_blocks
        ≡ outside
            (base.driver.remove_dead mail_queue (codes "1") >>= discarded base id)
            outside_blocks)
unfolding includes
dead_id-client_example =
    dead_id-client base mail_queue (codes "1") (λ e. cc) refl (λ e. cc) outside_blocks

enqueue-runnable_example :
    let s' = (enqueue (in_memory uuid base) email_job payload undefined outside_blocks).1.outer in
    (j : MemoryJob) × (runnable s' ≡ some j)
    × (j.queue ≡ mail_queue)
    × ((delivery_for j).max_attempts ≡ delivery_defaults.attempts)
    × (read_envelope (delivery_for j).envelope
        ≡ ok (write_envelope email_job (json_copy payload) direct))
unfolding validate_payload resolve_delivery
enqueue-runnable_example =
    enqueue-runnable uuid base email_job payload delivery_defaults outside_blocks
      (refl, payload, refl, refl) refl refl (λ e. cc) refl none_yet-IsConsistent refl refl
