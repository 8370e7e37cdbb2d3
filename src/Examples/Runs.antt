-- ===== src/Examples/Runs.antt =====
-- Deliveries, keys and starts.
use jubs.Common.{ℕ, ◌≡◌, refl, Bool, true, false, Option, none, some, [], ◌∷◌, if◌then◌else◌}
use jubs.Text.{Text, codes, ◌==◌}
use jubs.Value.{Value}
use jubs.Fault.{
  Thrown, Ending, returned, cancelled, shutdown_abort, no_cause, is_unrecoverable, still_running,
  handler_timeout,
}
use jubs.Result.{ok, err}
use jubs.Effects.{Exec}
use jubs.Definition.{JobDefinition, job, nothing, invalid}
use jubs.Envelope.RoundTrip.{read_envelope-envelope_value}
use jubs.Idempotency.{HeldKey, run_under_key}
use jubs.Idempotency.Contract.{
  held_by, acquire_answer, after_acquire, after_finish, after_release, forget_answer, after_forget,
}
use jubs.Idempotency.Runs.{run_under_key-free, run_under_key-outlived}
use jubs.Memory.Keys.{MemoryKeys, memory_idempotency, as_json_keeps}
use jubs.Memory.Keys.Laws.{
  memory_store_laws, memory_idempotency-refines, memory_idempotency-is_apart, is_apart, state_of,
}
use jubs.Runtime.{
  JobHandler, JobEvent, dispatch, run_on, report, event_of, is_postponed, failure_under,
}
use jubs.Runtime.Outcome.{run_on-dispatch}
use jubs.Runtime.Signal.{failure_under-ends}
use jubs.Runtime.Handled.{Handled}
use jubs.Dead.{burial_for}
use jubs.Driver.{cancellation}
use jubs.Assoc.{lookup}
use jubs.Examples.Samples.{
  mail_queue, email, email_settings, email_envelope, payload, uuid, no_keys, first_of_two, failure,
  config, calm, handlers,
}

abbrev event : JobEvent
event = event_of config calm handlers mail_queue first_of_two email_envelope

run_on-dispatch_example :
    let outcome = dispatch config calm handlers email_envelope event first_of_two no_keys in
    let done = run_on config calm handlers mail_queue first_of_two no_keys in
    (done.0 ≡ outcome.0)
    × ((v : Value) → outcome.0 ≡ ok v → done.1 ≡ outcome.1)
    × ((e : Thrown)
        → outcome.0 ≡ err e
        → done.1 ≡ (
            if is_postponed e
            then outcome.1
            else (report config calm handlers email_envelope event first_of_two e outcome.1).1))
run_on-dispatch_example =
    run_on-dispatch config calm handlers mail_queue first_of_two no_keys email_envelope
      (read_envelope-envelope_value email_envelope (λ e. cc))

abbrev never : Thrown → Bool
never e = false

failure_under-ends_example :
    (burial_for first_of_two (failure_under (some (cancelled email none no_cause)) never failure)
      ≡ some cancellation)
    × (is_unrecoverable failure ≡ false
        → is_postponed (failure_under (some (shutdown_abort email none no_cause)) never failure)
          ≡ true)
    × (is_unrecoverable failure ≡ true
        → failure_under (some (shutdown_abort email none no_cause)) never failure ≡ failure)
    × (failure_under none never failure ≡ failure)
failure_under-ends_example = failure_under-ends first_of_two email no_cause never failure

abbrev outrun : Thrown
outrun = handler_timeout email (returned payload)

abbrev body : Exec MemoryKeys Value
body s = (ok payload, s)

abbrev slow_body : Exec MemoryKeys Value
slow_body s = (err outrun, s)

abbrev key : Text
key = codes "email:k"

abbrev bytes : Value → Option ℕ
bytes v = some 2

abbrev never_ends : HeldKey → Ending → MemoryKeys → MemoryKeys
never_ends kept_by ending s = s

abbrev used : MemoryKeys
used = record { leased = []; kept = (key, some payload) ∷ []; minted = 1 }

run_under_key-free_example :
    (run_under_key bytes (memory_idempotency uuid) never_ends key body no_keys).0 ≡ ok payload
unfolding lookup ◌==◌ memory_idempotency memory_store_laws
run_under_key-free_example =
    ((run_under_key-free bytes (memory_idempotency uuid) never_ends key (memory_store_laws uuid key)
        body no_keys refl refl).0
      payload refl).0

run_under_key-outlived_example :
    run_under_key bytes (memory_idempotency uuid) never_ends key slow_body no_keys
    ≡ (err outrun, ((memory_idempotency uuid).acquire key 30000 no_keys).1)
unfolding lookup ◌==◌ memory_idempotency memory_store_laws still_running
run_under_key-outlived_example =
    (run_under_key-outlived bytes (memory_idempotency uuid) never_ends key
      (memory_store_laws uuid key) slow_body no_keys outrun (returned payload) refl refl refl
      refl).0

memory_idempotency-refines_example :
    let store = memory_idempotency uuid in
    let (lease, acquired) = store.acquire key 5 used in
    let (answer, forgotten) = store.forget key used in
    ((lease ≡ ok (acquire_answer (uuid 1) (state_of key used)))
      × (state_of key acquired ≡ after_acquire (uuid 1) (state_of key used)))
    × (state_of key used ≡ held_by (codes "u")
        → state_of key (store.finish key (codes "t") none 5 used).1
          ≡ after_finish (codes "t") (as_json_keeps none) (held_by (codes "u")))
    × (state_of key (store.release key (codes "t") used).1
        ≡ after_release (codes "t") (state_of key used))
    × (answer ≡ ok (forget_answer (state_of key used)))
    × (state_of key forgotten ≡ after_forget (state_of key used))
unfolding lookup ◌==◌
memory_idempotency-refines_example =
    memory_idempotency-refines uuid key (codes "t") (codes "u") none 5 used refl

memory_idempotency-is_apart_example :
    let store = memory_idempotency uuid in
    (is_apart uuid key (store.acquire key 5 used).1 ≡ true)
    × (is_apart uuid key (store.finish key (codes "t") none 5 used).1 ≡ true)
    × (is_apart uuid key (store.release key (codes "t") used).1 ≡ true)
    × (is_apart uuid key (store.forget key used).1 ≡ true)
unfolding lookup ◌==◌
memory_idempotency-is_apart_example =
    memory_idempotency-is_apart uuid key (codes "t") none 5 used refl

-- A version of the job that no migration leads to.
abbrev picky_job : JobDefinition
picky_job = job (record email_settings { payload = λ v. invalid [] }) nothing

abbrev picky_handler : JobHandler MemoryKeys
picky_handler = record { definition = picky_job; run = λ v context s. (ok v, s) }
