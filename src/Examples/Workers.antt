-- ===== src/Examples/Workers.antt =====
-- The driver over Redis, with BullMQ as calls that return.
use jubs.Common.{
  ℕ, ◌≡◌, ◌++◌, refl, Bool, true, false, not, ◌&&◌, none, some, List, [], ◌∷◌, arith, any, keep,
}
use jubs.Text.{Text, codes, ◌==◌, starts_with}
use jubs.Text.Laws.{==_iff}
use jubs.Value.{null}
use jubs.Fault.{Thrown, shutdown_abort, no_cause, cause, still_running}
use jubs.Result.{ok, err}
use jubs.Effects.{Exec}
use jubs.Assoc.{lookup, insert}
use jubs.Dead.Record.{dead_entry_value, read_dead_entry}
use jubs.Idempotency.{idempotency_key_for}
use jubs.Driver.{aborting}
use jubs.Redis.Bull.{Bull, BullJob, bull_waiting, bull_active, job_state}
use jubs.Redis.Cancel.{cancel_prefix, request_cancel}
use jubs.Text.Decimal.{show}
use jubs.Redis.Cancelling.{cancel, abort}
use jubs.Redis.Cancelling.Outcome.{Done, cancel-Done}
use jubs.Redis.Schedules.{reconcile_schedules, scheduler_prefix}
use jubs.Redis.Schedules.Kept.{SchedulerLaws, reconcile_schedules-keys}
use jubs.Redis.Driver.{readable_entries}
use jubs.Redis.Driver.Dead.{empty, written, unreadable, readable_entries-Holds}
use jubs.Redis.Worker.{delivery_of, process}
use jubs.Redis.Worker.Postponed.{MovesOrFails, process-run_on}
use jubs.Envelope.{envelope_value}
use jubs.Envelope.RoundTrip.{read_envelope-envelope_value}
use jubs.Definition.{payload_version}
use jubs.Migration.{
  migrate_from_version, migrate_from, assert_version_is_known, migrate_envelope, validate_payload,
}
use jubs.Flow.{children_for}
use jubs.Memory.Keys.{MemoryKeys}
use jubs.Runtime.{
  JobHandler, Environment, dispatch, dispatch_to, run_on, run_handler, report, event_of,
  failure_under, notify,
}
use jubs.Examples.Samples.{
  mail_queue, email, calm, config, email_job, email_envelope, failure, no_keys,
}
use jubs.Examples.Queues.{dead_email}
use jubs.Examples.Stores.{plain, nothing_kept}

abbrev stored_job : BullJob
stored_job = record {
  id = some (codes "1");
  name = email;
  stored = null;
  attempts_made = 0;
  attempts_started = 1;
  max_attempts = none;
  failed_reason = none;
}

-- BullMQ with one job that waits, and no schedulers.
abbrev quiet : {S : Type 0} → Bull S
quiet = record {
  add = λ queue name v options s. (ok (some (codes "1")), s);
  get_job = λ queue id s. (ok (some stored_job), s);
  get_state = λ queue id s. (ok bull_waiting, s);
  retry_failed = λ queue id s. (ok tt, s);
  remove = λ queue id children s. (ok tt, s);
  pause = λ queue s. (ok tt, s);
  resume = λ queue s. (ok tt, s);
  schedulers = λ queue s. (ok [], s);
  remove_scheduler = λ queue key s. (ok tt, s);
  upsert_scheduler = λ queue key repeat name v options s. (ok tt, s);
  add_flow = λ tree s. (ok (some (codes "1")), s);
  read_flow = λ queue id s. (ok (record { processed = []; failed = []; pending = 0 }), s);
  get_waiting = λ queue s. (ok [], s);
}

abbrev never_locked : Thrown → Bool
never_locked e = false

-- BullMQ with one job that runs.
abbrev busy : {S : Type 0} → Bull S
busy = record quiet { get_state = λ queue id s. (ok bull_active, s) }

cancel-Done_example :
    Done plain busy never_locked mail_queue
      (codes "1")
      aborting
      (record nothing_kept { stored = (cancel_prefix mail_queue ++ codes "1", show 1) ∷ [] })
unfolding cancel job_state abort request_cancel cancel_prefix lookup insert
cancel-Done_example =
    cancel-Done plain busy never_locked mail_queue (codes "1") nothing_kept
      (record nothing_kept { stored = (cancel_prefix mail_queue ++ codes "1", show 1) ∷ [] }) refl

-- BullMQ that keeps the keys of schedulers.
abbrev scheduling : Bull (List Text)
scheduling = record quiet {
  schedulers = λ queue s. (ok s, s);
  remove_scheduler = λ queue key s. (ok tt, keep (λ k. not (k == key)) s);
  upsert_scheduler = λ queue key repeat name v options s. (ok tt, key ∷ s);
}

any-keep :
    (key asked : Text) (s : List Text)
    → any (λ k. k == asked) (keep (λ k. not (k == key)) s)
      ≡ (any (λ k. k == asked) s && not (key == asked))
any-keep key asked [] = refl
any-keep key asked (k ∷ s) =
    ground (arith, any-keep key asked s, ==_iff k asked, ==_iff k key, ==_iff key asked)

scheduling-laws : SchedulerLaws scheduling (λ queue s. s)
scheduling-laws = record {
  schedulers_lem = λ queue s. refl;
  remove_lem = λ queue key s. refl;
  remove_keys = λ queue key asked s. any-keep key asked s;
  upsert_lem = λ queue key repeat name v options s. refl;
  upsert_keys = λ queue key repeat name v options asked s. refl;
}

abbrev old_keys : List Text
old_keys = codes "jubs.old" ∷ codes "other" ∷ []

reconcile_schedules-keys_example :
    let (r, s') = reconcile_schedules scheduling true mail_queue [] old_keys in
    (r ≡ ok tt)
    × (any (λ k. k == codes "other") s' ≡ (
        any (λ k. k == codes "other") old_keys
        && not (starts_with (codes "other") scheduler_prefix)))
reconcile_schedules-keys_example =
    reconcile_schedules-keys scheduling (λ queue s. s) scheduling-laws mail_queue (codes "other") []
      old_keys

readable_entries-Holds_example :
    readable_entries (stored_job ∷ record stored_job { stored = dead_entry_value dead_email } ∷ [])
    ≡ (codes "1", dead_email) ∷ []
unfolding read_dead_entry
readable_entries-Holds_example = readable_entries-Holds (
    unreadable stored_job _ refl (
      written (record stored_job { stored = dead_entry_value dead_email }) (codes "1") dead_email
        refl refl (λ e. cc) (λ e. cc) empty))

abbrev moves : BullJob → ℕ → Text → Exec MemoryKeys (Unit {0})
moves job delay_ms token s = (ok tt, s)

abbrev still_pending : BullJob → Text → Exec MemoryKeys Bool
still_pending job token s = (ok true, s)

-- The signal of every delivery is aborted by a shutdown.
abbrev closing : Environment MemoryKeys
closing = record calm { signal = λ delivery s. some (shutdown_abort email none no_cause) }

abbrev failing : List (JobHandler MemoryKeys)
failing = record { definition = email_job; run = λ v context s. (err failure, s) } ∷ []

abbrev started_job : BullJob
started_job = record stored_job { stored = envelope_value email_envelope }

abbrev cut_short : Thrown
cut_short = shutdown_abort email none (cause failure)

process-run_on_example :
    let delivery = delivery_of started_job (codes "1") in
    let event = event_of config closing failing mail_queue delivery email_envelope in
    MovesOrFails moves still_pending
      (λ job ms token s. refl)
      (λ job token s. refl)
      started_job
      (codes "t")
      cut_short
      no_keys
      (report config closing failing email_envelope event delivery cut_short no_keys).1
      (process moves still_pending
        (run_on config closing failing mail_queue)
        started_job
        (some (codes "t"))
        no_keys)
unfolding dispatch dispatch_to run_handler failure_under still_running ◌==◌ assert_version_is_known
    migrate_envelope validate_payload children_for idempotency_key_for notify payload_version
    migrate_from_version migrate_from
process-run_on_example =
    process-run_on moves still_pending (λ job ms token s. refl) (λ job token s. refl) config closing
      failing mail_queue started_job (codes "1") (codes "t") email_envelope cut_short no_keys
      no_keys refl refl (read_envelope-envelope_value email_envelope (λ e. cc)) refl
