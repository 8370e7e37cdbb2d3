-- ===== src/Memory/Run.antt =====
-- src/testing/index.ts: `runNext` and `drain` of the driver in memory. What a consumer runs is a
-- parameter, and so is the wording of a failure.
pub mod Keeps
pub mod Drain
pub mod Left
use jubs.Common.{
  ℕ, zero, suc, ◌+◌, Bool, true, false, not, Option, none, some, List, [], ◌∷◌, if◌then◌else◌,
}
use jubs.Text.{Text, codes}
use jubs.Value.{Value}
use jubs.Fault.{
  Thrown, Reason, refused, unsupported, every_queue_paused, nothing_pending, no_consumer,
  is_lease_held,
}
use jubs.Result.{Result, ok, err}
use jubs.Effects.{Exec, raise}
use jubs.Envelope.{envelope_value}
use jubs.Driver.{JobState, waiting, active, completed, failed, JobDelivery}
use jubs.Memory.Jobs.{MemoryJob, write_job, splice_ref, first_runnable}
use jubs.Memory.Queue.{MemoryState, is_named}

-- `runnable`
abbrev pub runnable : MemoryState → Option MemoryJob
runnable s = first_runnable (is_named s.paused) s.recorded s.pending

abbrev pub started_job : MemoryJob → MemoryJob
started_job job = record job { state = active; attempts_started = suc job.attempts_started }

abbrev pub completed_job : MemoryJob → MemoryJob
completed_job job = record job { state = completed; attempts = suc job.attempts }

abbrev pub waiting_job : MemoryJob → MemoryJob
waiting_job job = record job { state = waiting }

abbrev pub failed_job : Text → MemoryJob → MemoryJob
failed_job message job = record job {
  state = failed;
  attempts = suc job.attempts;
  failure = some message;
}

-- The job leaves the line and becomes active.
unfoldable pub begin_job : ℕ → MemoryState → MemoryState
begin_job ref s = record s {
  recorded = write_job ref started_job s.recorded;
  pending = splice_ref ref s.pending;
}

unfoldable pub settle_job : ℕ → (MemoryJob → MemoryJob) → MemoryState → MemoryState
settle_job ref f s = record s { recorded = write_job ref f s.recorded }

-- A job whose key is held goes back to the head of the line.
unfoldable pub postpone_job : ℕ → MemoryState → MemoryState
postpone_job ref s = record s {
  recorded = write_job ref waiting_job s.recorded;
  pending = ref ∷ s.pending;
}

abbrev pub delivery_for : MemoryJob → JobDelivery
delivery_for job = record {
  running = record { id = job.id; attempts_started = suc job.attempts_started };
  attempt = job.attempts + 1;
  max_attempts = job.max_attempts;
  envelope = envelope_value job.envelope;
}

abbrev nothing_runnable : List ℕ → Reason
nothing_runnable [] = nothing_pending
nothing_runnable (r ∷ rs) = every_queue_paused

module _ (wording : Thrown → Text) (run : Text → JobDelivery → Exec MemoryState Value) where
  abbrev pub after_run : ℕ → Result Value → Exec MemoryState (Unit {0})
  after_run ref (ok v) s = (ok tt, settle_job ref completed_job s)
  after_run ref (err e) s =
      if is_lease_held e
      then (
        err (
            refused
              (unsupported (codes "rescheduling a delivery whose idempotency lease is held"))),
        postpone_job ref s,
      )
      else (err e, settle_job ref (failed_job (wording e)) s)

  unfoldable pub run_job : MemoryJob → Exec MemoryState (Unit {0})
  run_job job s =
      let (r, s') = run job.queue (delivery_for job) (begin_job job.ref s) in after_run job.ref r s'

  abbrev pub run_first : Option MemoryJob → Exec MemoryState (Unit {0})
  run_first none s = (err (refused (nothing_runnable s.pending)), s)
  run_first (some job) s =
      if is_named s.consumers job.queue
      then run_job job s
      else (err (refused (no_consumer job.queue)), s)

  -- `runNext`
  unfoldable pub run_next : Exec MemoryState (Unit {0})
  run_next s = run_first (runnable s) s

  abbrev pub one_more : Option (Result ℕ) → Option (Result ℕ)
  one_more (some (ok ran)) = some (ok (suc ran))
  one_more result = result

  abbrev pub after_one :
      Result (Unit {0})
      → Option (Result ℕ) × MemoryState
      → MemoryState
      → Option (Result ℕ) × MemoryState
  after_one (ok done) (rest, s'') s' = (one_more rest, s'')
  after_one (err e) rest s' = (some (err e), s')

  -- `drain`, for as many rounds at most; `none` where they do not suffice.
  unfoldable pub drain : ℕ → MemoryState → Option (Result ℕ) × MemoryState
  drain zero s = (none, s)
  drain (suc rounds) s =
      let (r, s') = run_next s in
      let rest = drain rounds s' in
      elim (runnable s) [ none ↦ (some (ok 0), s) | some job ↦ after_one r rest s' ]
