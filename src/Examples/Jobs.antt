-- ===== src/Examples/Jobs.antt =====
-- Jobs, their ids, deliveries, schedules and names.
use jubs.Common.{ℕ, ◌≤◌, ◌≡◌, refl, false, none, some, [], ◌∷◌, ◌++◌, arith}
use jubs.Text.{codes, includes}
use jubs.Text.Decimal.{show}
use jubs.Value.{pos, whole, Value, undefined, not_a_number}
use jubs.Result.{ok}
use jubs.JobId.{colon}
use jubs.Definition.{fixed, Delivery, last_of_key, nothing, payload_version}
use jubs.Definition.Checks.{
  JobDefinitionInput, define_job, assert_versioning, assert_timeout, assert_awaits,
}
use jubs.Definition.Checks.Accepted.{IsSound, define_job-IsSound}
use jubs.Delivery.{resolve_delivery, delivery_defaults}
use jubs.Delivery.Resolved.{keep_last_window}
use jubs.Schedule.{ScheduleOptions, interval_ms, time_fields}
use jubs.Schedule.Times.{time_text, time_fields-time_text}
use jubs.Schedule.Intervals.{interval_ms-constructor}
use jubs.Migration.{migrate_envelope, step_at}
use jubs.Migration.Steps.{migrate_envelope_iff, done, raise}
use jubs.Examples.Samples.{
  mail_queue, email, greeting_job, greet, email_envelope, payload, accepts, job_with, last_of,
}

-- The mail queue has a name without a colon.
mail_queue_plain : includes colon mail_queue ≡ false
unfolding includes
mail_queue_plain = refl

abbrev email_input : JobDefinitionInput
email_input = record {
  name = email;
  queue = mail_queue;
  payload = accepts;
  result = none;
  waits_on = nothing;
  version = some (whole (pos 2));
  migrations = (whole (pos 1), greet) ∷ [];
  delivery = none;
  recurring = none;
  idempotency_key = none;
  timeout_ms = none;
}

define_job-IsSound_example : IsSound greeting_job
unfolding define_job assert_versioning assert_timeout assert_awaits
define_job-IsSound_example = define_job-IsSound email_input {d = greeting_job} refl

interval_ms-constructor_example :
    interval_ms (show 5 ++ b' ' ∷ codes "constructor") ≡ ok not_a_number
interval_ms-constructor_example = interval_ms-constructor 5 (omega arith)

time_fields-time_text_example : time_fields (time_text 9 30) ≡ ok (record { hour = 9; minute = 30 })
time_fields-time_text_example = time_fields-time_text 9 30 (omega arith) (omega arith)

migrate_envelope_iff_example :
    migrate_envelope greeting_job email_envelope ≡ ok (Value.str (codes "hello"))
unfolding payload_version step_at
migrate_envelope_iff_example =
    (migrate_envelope_iff greeting_job email_envelope 1 {x = Value.str (codes "hello")} refl).1
      (raise {step = greet} refl refl done)

abbrev kept_last : Delivery
kept_last = record delivery_defaults {
  delay_ms = some 500;
  unique = some (last_of_key (codes "k") 500);
}

keep_last_window_example : (delay : ℕ) × (some 500 ≡ some delay) × (500 ≤ delay) × (0 ≤ delay)
unfolding resolve_delivery
keep_last_window_example =
    keep_last_window (job_with (last_of (some 500))) payload (fixed (last_of (some 500)))
      {r = kept_last} {key = codes "k"} {ttl = 500} refl refl refl

abbrev options_free : ScheduleOptions
options_free = record { timezone = none; payload = undefined }
