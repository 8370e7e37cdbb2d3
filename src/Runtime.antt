-- ===== src/Runtime.antt =====
-- src/Runtime.ts: what a delivery of a job does. The runtime is over the state `S`
-- of everything that it touches. What the timers, a sweep and a close do to a delivery is in
-- `Environment`; Runtime/Live is about the signals that they abort.
pub mod Start
pub mod Outcome
pub mod Refusals
pub mod Handled
pub mod Signal
pub mod Live
pub mod Consumers
use jubs.Common.{
  ℕ, Bool, true, false, ◌&&◌, ◌||◌, not, Option, none, some, List, [], ◌∷◌, any, find,
  if◌then◌else◌,
}
use jubs.Text.{Text, ◌==◌}
use jubs.Value.{Value, Fields}
use jubs.Fault.{
  Thrown, Cause, no_cause, cause, Ending, returned, threw, refused, no_handler, unrecoverable,
  cancelled, shutdown_abort, handler_timeout, is_unrecoverable, is_cancelled, is_shutdown_abort,
  is_lease_held, is_children_pending, is_flow_failure, still_running,
}
pub use jubs.Handlers.{
  JobEvent, JobFailureEvent, HandlerContext, JobHandler, JobHooks, JobsConfig, Environment,
}
unfoldable pub use jubs.Handlers.{notify}
use jubs.Result
use jubs.Result.{Result, ok, err}
use jubs.Effects.{Exec, pure, raise, lift, catch, ◌>>=◌, ◌>>◌}
use jubs.Definition.{Origin, JobDefinition, settings}
use jubs.Envelope.{Envelope, read_envelope}
use jubs.Migration.{assert_version_is_known, migrate_envelope, validate_payload, validate_result}
use jubs.JobId.{compose_job_id}
use jubs.Idempotency.{HeldKey, idempotency_key_for, run_under_key}
use jubs.Driver.{JobDelivery, JobDriver, SerializedError, Burial, DeadEntry}
use jubs.Dead.{serialize_error, burial_for}
use jubs.Flow.{children_for}

-- `result.catch((error) => { throw f(error) })`
abbrev pub rethrow {ℓ} : {A : Type ℓ} → (Thrown → Thrown) → Result A → Result A
rethrow f (ok a) = ok a
rethrow f (err e) = err (f e)

abbrev pub ending_of : Result Value → Ending
ending_of (ok v) = returned v
ending_of (err e) = threw

-- What an aborted delivery throws for the error `e` of its body: a new error of the reason where the body
-- goes on, and otherwise the reason, whose cause is set to `e` if `e` is not the reason itself (`same`).
abbrev pub aborted_by : Thrown → Bool → Thrown → Option Ending → Thrown
aborted_by (cancelled job body c) same e (some ending) = cancelled job (some ending) (cause e)
aborted_by (cancelled job body c) same e none = cancelled job body (if same then c else cause e)
aborted_by (shutdown_abort job body c) same e (some ending) =
    shutdown_abort job (some ending) (cause e)
aborted_by (shutdown_abort job body c) same e none =
    shutdown_abort job body (if same then c else cause e)
aborted_by reason same e body = e

-- What `run` throws for the error `e` of its body, by the reason of the signal. `same e` is whether the
-- error is the very object that the signal was aborted with.
unfoldable pub failure_under : Option Thrown → (same : Thrown → Bool) → Thrown → Thrown
failure_under none same e = e
failure_under (some reason) same e =
    if is_cancelled reason
    then aborted_by reason (same e) e (still_running e)
    else if not (is_shutdown_abort reason) || is_unrecoverable e
    then e
    else aborted_by reason (same e) e (still_running e)

-- The three errors that end a delivery without ending an attempt.
abbrev pub is_postponed : Thrown → Bool
is_postponed e = is_lease_held e || is_shutdown_abort e || is_children_pending e

module _ {S : Type 0} (config : JobsConfig S) (env : Environment S)
    (handlers : List (JobHandler S)) where
  -- `byName.get(name)`
  abbrev pub handler_named : Text → Option (JobHandler S)
  handler_named name = find (λ h. (settings h.definition).name == name) handlers

  -- `runUnderTimeout`, for a body that ended or that the timer outran
  abbrev pub under_timeout : JobDefinition → JobDelivery → Result Value → Exec S Value
  under_timeout d delivery outcome s = elim (settings d).timeout_ms [
    | none ↦ (outcome, s)
    | some ms ↦
        if env.runs_late delivery s
        then (err (handler_timeout (settings d).name (ending_of outcome)), s)
        else (outcome, s)
  ]

  abbrev fail_under : Option Thrown → (Thrown → Bool) → Result Value → Result Value
  fail_under reason same outcome = rethrow (failure_under reason same) outcome

  -- The handler's own run, its result validated.
  abbrev pub body_of : JobHandler S → Value → HandlerContext → Exec S Value
  body_of handler v context s =
      let (outcome, s') = handler.run v context s in
      (
        Result.◌>>=◌ outcome
            (λ value. rethrow unrecoverable (validate_result handler.definition value)),
        s',
      )

  -- `run` of `dispatch`
  unfoldable pub run_handler : JobHandler S → JobDelivery → Value → HandlerContext → Exec S Value
  run_handler handler delivery v context s =
      let (outcome, s') = body_of handler v context s in
      let (timed, s'') = under_timeout handler.definition delivery outcome s' in
      (fail_under (env.signal delivery s'') (env.is_reason delivery s'') timed, s'')

  abbrev keyed : Option Text → Exec S Value → Exec S Value
  keyed none run = run
  keyed (some key) run =
      run_under_key env.json_bytes config.driver.idempotency env.on_body_end key run

  abbrev flow_failure : Thrown → Thrown
  flow_failure e = if is_flow_failure e then unrecoverable e else e

  abbrev rethrow_in : (Thrown → Thrown) → Exec S Fields → Exec S Fields
  rethrow_in f m s = let (r, s') = m s in (rethrow f r, s')

  -- `dispatch` from the migration on
  unfoldable pub dispatch_to : JobHandler S → Envelope → JobEvent → JobDelivery → Exec S Value
  dispatch_to handler envelope event delivery = do
    migrated ← lift (rethrow unrecoverable (migrate_envelope handler.definition envelope))
    v ← lift (rethrow unrecoverable (validate_payload handler.definition migrated))
    children ←
        rethrow_in flow_failure
          (children_for config.driver.read_flow handler.definition envelope event.queue delivery.id)
    result ← keyed (idempotency_key_for handler.definition v) (
        run_handler handler delivery v (record {
          id = event.id;
          attempt = delivery.attempt;
          max_attempts = delivery.max_attempts;
          origin = envelope.origin;
          children = children;
        }))
    notify config.hooks.on_success event
    pure result

  abbrev pub started : Envelope → JobEvent → JobDelivery → Option (JobHandler S) → Exec S Value
  started envelope event delivery none s =
      (err (unrecoverable (refused (no_handler envelope.name))), s)
  started envelope event delivery (some handler) s =
      (do
        lift (assert_version_is_known handler.definition envelope)
        notify config.hooks.on_start event
        dispatch_to handler envelope event delivery)
        s

  -- `dispatch`
  unfoldable pub dispatch : Envelope → JobEvent → JobDelivery → Exec S Value
  dispatch envelope event delivery = started envelope event delivery (handler_named envelope.name)

  abbrev pub bury_in : Bool → Text → DeadEntry → Exec S (Unit {0})
  bury_in true queue entry = catch (config.driver.bury queue entry) (λ e. pure tt)
  bury_in false queue entry = pure tt

  abbrev pub buried : Envelope → JobFailureEvent → Option Burial → Exec S (Unit {0})
  buried envelope failure none s = (ok tt, s)
  buried envelope failure (some burial) s =
      (do
        bury_in (any (λ q. q == failure.event.queue) config.dead_queues) failure.event.queue
            (record {
              job_id = failure.event.id;
              envelope = envelope;
              error = failure.error;
              burial = burial;
            })
        notify config.hooks.on_dead failure)
        s

  -- `report`
  unfoldable pub report : Envelope → JobEvent → JobDelivery → Thrown → Exec S (Unit {0})
  report envelope event delivery e =
      let failure : JobFailureEvent = record {
        event = event;
        error = serialize_error env.wording env.stack_of e;
      } in
      do
        notify config.hooks.on_attempt_failed failure
        buried envelope failure (burial_for delivery e)

  abbrev pub failed : Envelope → JobEvent → JobDelivery → Thrown → Exec S Value
  failed envelope event delivery e =
      if is_postponed e then raise e else report envelope event delivery e >> raise e

  abbrev pub event_of : Text → JobDelivery → Envelope → JobEvent
  event_of queue delivery envelope = record {
    name = envelope.name;
    queue = queue;
    id = compose_job_id queue delivery.id;
    attempt = delivery.attempt;
    origin = envelope.origin;
  }

  -- `runOn`. An envelope that cannot be read fails before a job is known to report.
  unfoldable pub run_on : Text → JobDelivery → Exec S Value
  run_on queue delivery = do
    envelope ← lift (rethrow unrecoverable (read_envelope delivery.envelope))
    catch (dispatch envelope (event_of queue delivery envelope) delivery)
        (failed envelope (event_of queue delivery envelope) delivery)
