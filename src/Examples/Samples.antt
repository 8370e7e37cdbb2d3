-- ===== src/Examples/Samples.antt =====
-- The jobs, the envelopes and the drivers of the examples.
use jubs.Common.{ℕ, false, Option, none, some, List, [], ◌∷◌}
use jubs.Text.{Text, codes}
use jubs.Value.{pos, whole, Value, str}
use jubs.Result.{Result, ok, err}
use jubs.Effects.{Exec}
use jubs.Definition.{
  Settings, JobDefinition, job, nothing, Schema, valid, fixed, keep_last, DeliveryOverrides, direct,
}
use jubs.Fault.{Thrown, foreign, no_cause}
use jubs.Envelope.{Envelope, envelope_value}
use jubs.Runtime.{JobsConfig, Environment, JobHandler}
use jubs.Driver.{EnqueueRequest, FlowState, JobDelivery, JobDriver, no_such_job, unknown_job}
use jubs.Memory.Keys.{MemoryKeys, memory_idempotency}

abbrev pub mail_queue : Text
mail_queue = codes "mail"

abbrev pub email : Text
email = codes "email"

abbrev pub accepts : Schema
accepts v = valid v

abbrev pub email_settings : Settings
email_settings = record {
  name = email;
  queue = mail_queue;
  payload = accepts;
  result = none;
  version = none;
  migrations = [];
  delivery = none;
  recurring = none;
  idempotency_key = none;
  timeout_ms = none;
}

abbrev pub email_job : JobDefinition
email_job = job email_settings nothing

-- The version after the first raises a payload to a greeting.
abbrev pub greet : Value → Result Value
greet v = ok (str (codes "hello"))

abbrev pub greeting_job : JobDefinition
greeting_job =
    job (record email_settings { version = some 2; migrations = (1, greet) ∷ [] }) nothing

abbrev pub last_of : Option ℕ → DeliveryOverrides
last_of window = record {
  attempts = none;
  backoff = none;
  priority = none;
  keep_completed_for_ms = none;
  keep_failed_count = none;
  delay_ms = none;
  unique = some (record { key = λ v. codes "k"; mode = keep_last; ttl_ms = window });
}

abbrev pub job_with : DeliveryOverrides → JobDefinition
job_with overrides = job (record email_settings { delivery = some (fixed overrides) }) nothing

abbrev pub keyed_job : JobDefinition
keyed_job = job (record email_settings { idempotency_key = some (λ v. codes "k") }) nothing

abbrev pub payload : Value
payload = str (codes "hi")

abbrev pub email_envelope : Envelope
email_envelope = record {
  v = whole (pos 1);
  name = email;
  payload = payload;
  origin = direct;
  slots = none;
}

abbrev pub one_id : {S : Type 0} → EnqueueRequest → Exec S Text
one_id request s = (ok (codes "1"), s)

abbrev pub uuid : ℕ → Text
uuid n = codes "token"

abbrev pub no_keys : MemoryKeys
no_keys = record { leased = []; kept = []; minted = 0 }

abbrev pub settled : FlowState
settled = record { results = []; failures = []; pending = 0 }

abbrev pub mail_driver : JobDriver MemoryKeys
mail_driver = record {
  enqueue = one_id;
  get = λ queue id s. (ok none, s);
  retry = λ queue id s. (ok no_such_job, s);
  cancel = λ queue id s. (ok unknown_job, s);
  pause = λ queue s. (ok tt, s);
  resume = λ queue s. (ok tt, s);
  reconcile_schedules = λ queue upserts s. (ok tt, s);
  bury = λ queue entry s. (ok tt, s);
  list_dead = λ queue s. (ok [], s);
  read_dead = λ queue id s. (ok none, s);
  remove_dead = λ queue id s. (ok false, s);
  idempotency = memory_idempotency uuid;
  enqueue_flow = λ flow s. (ok (codes "1"), s);
  read_flow = λ queue id s. (ok settled, s);
}

abbrev pub first_of_two : JobDelivery
first_of_two = record {
  running = record { id = codes "1"; attempts_started = 1 };
  attempt = 1;
  max_attempts = 2;
  envelope = envelope_value email_envelope;
}

abbrev pub failure : Thrown
failure = foreign (codes "Error") (codes "no") none no_cause

abbrev pub config : JobsConfig MemoryKeys
config = record {
  driver = mail_driver;
  definitions = some (email_job ∷ []);
  dead_queues = mail_queue ∷ [];
  timezone = none;
  hooks = record { on_start = none; on_success = none; on_attempt_failed = none; on_dead = none };
}

-- No timer runs out, no signal is aborted, and a body that outlives its delivery never ends.
abbrev pub calm : Environment MemoryKeys
calm = record {
  wording = λ e. [];
  stack_of = λ e. none;
  json_bytes = λ v. some 2;
  runs_late = λ delivery s. false;
  signal = λ delivery s. none;
  is_reason = λ delivery s e. false;
  on_body_end = λ kept_by ending s. s;
}

abbrev pub email_handler : JobHandler MemoryKeys
email_handler = record { definition = email_job; run = λ v context s. (ok v, s) }

abbrev pub failing_handler : JobHandler MemoryKeys
failing_handler = record { definition = email_job; run = λ v context s. (err failure, s) }

abbrev pub handlers : List (JobHandler MemoryKeys)
handlers = email_handler ∷ []
