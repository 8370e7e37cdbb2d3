-- ===== src/Redis/Schedules.antt =====
-- src/RedisDriver.ts: `reconcileSchedules`. `not_blocking` stands for a connection that the source refuses
-- to open a worker on.
pub mod Kept
use jubs.Common.{Bool, true, false, ◌&&◌, not, List, [], ◌∷◌, ◌++◌, any, keep}
use jubs.Text.{Text, codes, ◌==◌, starts_with}
use jubs.Fault.{refused, not_blocking, recurrence_refused}
use jubs.Result.{Result, ok, err}
use jubs.Effects.{Exec, pure, raise, catch, ◌>>=◌, ◌>>◌}
use jubs.Envelope.{envelope_value}
use jubs.Driver.{ScheduleUpsert}
use jubs.Redis.Options.{to_template_options, to_repeat_options}
use jubs.Redis.Bull.{Bull}

abbrev pub scheduler_prefix : Text
scheduler_prefix = codes "jubs."

-- `schedulerId`
abbrev pub scheduler_id : Text → Text
scheduler_id job_name = scheduler_prefix ++ job_name

abbrev pub is_stale : List ScheduleUpsert → Text → Bool
is_stale declared key =
    starts_with key scheduler_prefix
    && not (any (λ schedule. scheduler_id schedule.envelope.name == key) declared)

abbrev pub stale : List ScheduleUpsert → List Text → List Text
stale declared existing = keep (is_stale declared) existing

abbrev pub both : Result (Unit {0}) → Result (Unit {0}) → Result (Unit {0})
both (ok u) rest = rest
both (err e) rest = err e

module _ {S : Type 0} (bull : Bull S) where
  -- `Promise.all` of the removals: each is asked for, whichever of them fails.
  abbrev pub remove_each : Text → List Text → Exec S (Unit {0})
  remove_each queue [] s = (ok tt, s)
  remove_each queue (key ∷ keys) s =
      let (r, s') = bull.remove_scheduler queue key s in
      let (rest, s'') = remove_each queue keys s' in (both r rest, s'')

  abbrev pub upsert_each : Text → List ScheduleUpsert → Exec S (Unit {0})
  upsert_each queue [] = pure tt
  upsert_each queue (schedule ∷ rest) =
      catch
        (bull.upsert_scheduler queue (scheduler_id schedule.envelope.name)
          (to_repeat_options schedule) schedule.envelope.name (envelope_value schedule.envelope)
          (to_template_options schedule.delivery))
        (λ e. raise (recurrence_refused schedule.envelope.name e))
      >> upsert_each queue rest

  -- `reconcileSchedules`
  unfoldable pub reconcile_schedules : Bool → Text → List ScheduleUpsert → Exec S (Unit {0})
  reconcile_schedules false queue declared = raise (refused not_blocking)
  reconcile_schedules true queue declared = do
    existing ← bull.schedulers queue
    remove_each queue (stale declared existing)
    upsert_each queue declared
