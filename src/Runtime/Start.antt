-- ===== src/Runtime/Start.antt =====
-- The checks that src/Runtime.ts makes before a runtime consumes anything, and the schedules that
-- it reconciles. `Map` is `Assoc`; the handlers of one name are refused.
pub mod Accepted
use jubs.Common.{
  ℕ, Bool, true, false, ◌&&◌, not, Option, none, some, List, [], ◌∷◌, ◌++◌, any, find, map,
  flat_map, if◌then◌else◌, ◌or_else◌,
}
use jubs.Text.{Text, codes, ◌==◌}
use jubs.Fault.{
  Thrown, refused, two_handlers, orphan_definition, stray_tuning, dead_queue_consumed,
  delay_on_schedule, schedule_refused,
}
use jubs.Result.{Result, ok, err, require, refuse, ◌>>=◌, ◌>>◌}
use jubs.Assoc.{Assoc, lookup, insert, has}
use jubs.Effects.{Exec, pure, lift}
use jubs.Effects
use jubs.Definition.{
  Origin, JobDefinition, settings, Schedule, Recurrence, every_ms, pattern_of, Delivery,
}
use jubs.Delivery.{resolve_delivery_without_uniqueness}
use jubs.Envelope.{write_envelope}
use jubs.Migration.{validate_payload}
use jubs.Driver.{ScheduleUpsert}
use jubs.Dead.Names.{dead_queue_name}
use jubs.Runtime.{JobHandler, JobsConfig, rethrow}

-- `queues.includes(queue)`, of a list or of the set of its elements
abbrev pub among : Text → List Text → Bool
among queue queues = any (λ q. q == queue) queues

-- `[...new Set(names)]`
abbrev pub unique_names : List Text → List Text → List Text
unique_names seen [] = []
unique_names seen (q ∷ qs) =
    let rest = unique_names (q ∷ seen) qs in if among q seen then rest else q ∷ rest

abbrev pub refuse_found {ℓ} : {A : Type ℓ} → (A → Thrown) → Option A → Result (Unit {0})
refuse_found thrown none = ok tt
refuse_found thrown (some a) = err (thrown a)

module _ {S : Type 0} where
  abbrev pub add_handler :
      Text → JobHandler S → Bool → Assoc (JobHandler S) → Result (Assoc (JobHandler S))
  add_handler name handler true by_name = refuse (two_handlers name)
  add_handler name handler false by_name = ok (insert name handler by_name)

  abbrev pub name_of : JobHandler S → Text
  name_of handler = (settings handler.definition).name

  abbrev pub add_handlers :
      List (JobHandler S) → Assoc (JobHandler S) → Result (Assoc (JobHandler S))
  add_handlers [] by_name = ok by_name
  add_handlers (h ∷ hs) by_name =
      add_handler (name_of h) h (has (name_of h) by_name) by_name >>= add_handlers hs

  -- `handlersByName`
  unfoldable pub handlers_by_name : List (JobHandler S) → Result (Assoc (JobHandler S))
  handlers_by_name handlers = add_handlers handlers []

  -- `assertEveryDefinitionRuns`
  unfoldable pub assert_every_definition_runs :
      List JobDefinition → Assoc (JobHandler S) → List Text → Result (Unit {0})
  assert_every_definition_runs definitions by_name queues =
      refuse_found (λ d. refused (orphan_definition (settings d).name))
        (find (λ d. among (settings d).queue queues && not (has (settings d).name by_name))
          definitions)

-- `assertEveryTunedQueueStarted`
unfoldable pub assert_every_tuned_queue_started : List Text → List Text → Result (Unit {0})
assert_every_tuned_queue_started tuned queues =
    refuse_found (λ q. refused (stray_tuning q)) (find (λ q. not (among q queues)) tuned)

-- `assertNoQueueConsumesADeadQueue`
unfoldable pub assert_no_queue_consumes_a_dead_queue : List Text → List Text → Result (Unit {0})
assert_no_queue_consumes_a_dead_queue dead_queues queues =
    refuse_found (λ q. refused (dead_queue_consumed q))
      (find (λ q. among (dead_queue_name q) queues) dead_queues)

abbrev default_timezone : Text
default_timezone = codes "UTC"

-- A recurrence by an interval has no timezone.
abbrev timezone_for : Recurrence → Option Text → Option Text → Option Text
timezone_for (every_ms n) own common = none
timezone_for (pattern_of p) own common = some (own or_else (common or_else default_timezone))

-- An upsert is given no delay: a recurrence has no place for one.
abbrev upsert_with :
    Option Text → JobDefinition → Schedule → Delivery → Option ℕ → Result ScheduleUpsert
upsert_with common definition s delivery (some delay) =
    refuse (delay_on_schedule (settings definition).name)
upsert_with common definition s delivery none = ok (record {
  recurrence = s.recurrence;
  timezone = timezone_for s.recurrence s.timezone common;
  envelope = write_envelope definition s.payload Origin.schedule;
  delivery = delivery;
})

-- `scheduleUpsert`, with the timezone of the configuration
unfoldable pub schedule_upsert : Option Text → JobDefinition → Schedule → Result ScheduleUpsert
schedule_upsert common definition s = do
  v ← rethrow (schedule_refused (settings definition).name) (validate_payload definition s.payload)
  delivery ← resolve_delivery_without_uniqueness definition v
  upsert_with common definition s delivery delivery.delay_ms

module _ {S : Type 0} (config : JobsConfig S) where
  abbrev upsert_of : JobDefinition → Option Schedule → List (Result ScheduleUpsert)
  upsert_of definition none = []
  upsert_of definition (some s) = schedule_upsert config.timezone definition s ∷ []

  abbrev declared_by : Text → JobHandler S → List (Result ScheduleUpsert)
  declared_by queue handler =
      let d = handler.definition in
      if (settings d).queue == queue then upsert_of d (settings d).recurring else []

  -- `Promise.all`, of promises that each end
  abbrev gathered {ℓ} : {A : Type ℓ} → List (Result A) → Result (List A)
  gathered [] = ok []
  gathered (r ∷ rs) = do a ← r; others ← gathered rs; ok (a ∷ others)

  -- `declaredSchedules`
  unfoldable pub declared_schedules : List (JobHandler S) → Text → Result (List ScheduleUpsert)
  declared_schedules handlers queue = gathered (flat_map (declared_by queue) handlers)

  abbrev requests_for : List (JobHandler S) → List Text → List (Result (Text × List ScheduleUpsert))
  requests_for handlers [] = []
  requests_for handlers (q ∷ qs) =
      (declared_schedules handlers q >>= λ declared. ok (q, declared)) ∷ requests_for handlers qs

  abbrev reconcile_each : List (Text × List ScheduleUpsert) → Exec S (Unit {0})
  reconcile_each [] = pure tt
  reconcile_each ((queue, declared) ∷ rest) =
      Effects.◌>>◌ (config.driver.reconcile_schedules queue declared) (reconcile_each rest)

  -- `reconcileEveryQueue`
  unfoldable pub reconcile_every_queue : List (JobHandler S) → List Text → Exec S (Unit {0})
  reconcile_every_queue handlers queues =
      Effects.◌>>=◌ (lift (gathered (requests_for handlers queues))) reconcile_each

  abbrev pub started_queues : List (JobHandler S) → List Text
  started_queues handlers = unique_names [] (map (λ h. (settings h.definition).queue) handlers)

  -- What `startRuntime` checks, of the handlers and the tuned queues.
  unfoldable pub assert_startable : List (JobHandler S) → List Text → Result (Unit {0})
  assert_startable handlers tuned = do
    by_name ← handlers_by_name handlers
    assert_every_definition_runs (config.definitions or_else []) by_name (started_queues handlers)
    assert_every_tuned_queue_started tuned (started_queues handlers)
    assert_no_queue_consumes_a_dead_queue config.dead_queues (started_queues handlers)

  -- `startRuntime`, until it opens its consumers
  unfoldable pub prepare_start : List (JobHandler S) → List Text → Exec S (Unit {0})
  prepare_start handlers tuned =
      Effects.◌>>◌ (lift (assert_startable handlers tuned))
        (reconcile_every_queue handlers (started_queues handlers))
