-- ===== src/Definition/Checks.antt =====
-- `defineJob` of src/Definition.ts and the checks that it makes. The keys of `migrations` are read
-- as the numbers that their type says they are.
pub mod Accepted
use jubs.Common.{
  ℕ, zero, suc, Bool, true, false, not, ◌&&◌, ◌||◌, Option, none, some, List, [], ◌∷◌, map, leb,
  is_some, all, ◌or_else◌, if◌then◌else◌, ◌≡◌, ◌≤◌, ◌<◌, ◌⊎◌,
}
use jubs.Text.{Text, includes}
use jubs.Value.{ℤ, pos, negsuc, Number, whole, Value, is_finite, is_positive, below}
use jubs.Fault.{
  Reason, not_a_version, stray_migration, not_a_timeout, unique_and_awaits, key_and_awaits,
  schedule_and_awaits, stray_slot_name, refused,
}
use jubs.Result.{Result, ok, err, require, ◌>>=◌, ◌>>◌}
use jubs.JobId.{colon, flow_id_marker}
use jubs.Definition.{
  Schedule, Schema, DeliveryPolicy, fixed, computed, JobDefinition, job, Awaits, Slot, slots_in,
  Settings, default_payload_version,
}

pub record JobDefinitionInput : Type 0 where
  pub name : Text
  pub queue : Text
  pub payload : Schema
  pub result : Option Schema
  pub waits_on : Awaits
  pub version : Option Number
  pub migrations : List (Number × (Value → Result Value))
  pub delivery : Option DeliveryPolicy
  pub recurring : Option Schedule
  pub idempotency_key : Option (Value → Text)
  pub timeout_ms : Option Number

-- A whole number of 1 or more.
abbrev pub is_count : Number → Bool
is_count (whole (pos (suc n))) = true
is_count _ = false

abbrev pub to_count : Number → ℕ
to_count (whole (pos n)) = n
to_count _ = 0

-- `input.version ?? DEFAULT_PAYLOAD_VERSION`
abbrev pub declared_version : JobDefinitionInput → Number
declared_version input = input.version or_else whole (pos default_payload_version)

abbrev runs : ℕ → Number → Bool
runs version from = is_count from && below from version

-- `assertVersioning`
unfoldable pub assert_versioning : JobDefinitionInput → Result (Unit {0})
assert_versioning input = do
  let version = declared_version input
  require (is_count version) (not_a_version input.name)
  require (all (λ m. runs (to_count version) m.0) input.migrations) (stray_migration input.name)

-- `assertTimeout`
unfoldable pub assert_timeout : JobDefinitionInput → Result (Unit {0})
assert_timeout input = elim input.timeout_ms [
  | none ↦ ok tt
  | some ms ↦ require (is_finite ms && is_positive ms) (not_a_timeout input.name)
]

abbrev pub fixes_unique : Option DeliveryPolicy → Bool
fixes_unique (some (fixed overrides)) = is_some overrides.unique
fixes_unique _ = false

abbrev pub is_plain : Text → Bool
is_plain slot = not (includes colon slot) && not (includes flow_id_marker slot)

-- the loop over the slots in `assertAwaits`
assert_slots : Text → List Slot → Result (Unit {0})
assert_slots name [] = ok tt
assert_slots name (slot ∷ rest) = do
  require (is_plain slot.name) (stray_slot_name name slot.name)
  assert_slots name rest

-- `assertAwaits` over the names of its slots.
waits_on_slots : JobDefinitionInput → List Slot → Result (Unit {0})
unfolding assert_slots
waits_on_slots input [] = ok tt
waits_on_slots input (slot ∷ slots) = do
  require (not (fixes_unique input.delivery)) (unique_and_awaits input.name)
  require (not (is_some input.idempotency_key)) (key_and_awaits input.name)
  require (not (is_some input.recurring)) (schedule_and_awaits input.name)
  assert_slots input.name (slot ∷ slots)

-- `assertAwaits`
unfoldable pub assert_awaits : JobDefinitionInput → Result (Unit {0})
unfolding waits_on_slots
assert_awaits input = waits_on_slots input (slots_in input.waits_on)

abbrev count_of : Option Number → Option ℕ
count_of none = none
count_of (some n) = some (to_count n)

abbrev defined : JobDefinitionInput → JobDefinition
defined input =
    job
      (record {
        name = input.name;
        queue = input.queue;
        payload = input.payload;
        result = input.result;
        version = count_of input.version;
        migrations = map (λ m. (to_count m.0, m.1)) input.migrations;
        delivery = input.delivery;
        recurring = input.recurring;
        idempotency_key = input.idempotency_key;
        timeout_ms = input.timeout_ms;
      })
      input.waits_on

-- `defineJob`
unfoldable pub define_job : JobDefinitionInput → Result JobDefinition
define_job input = do
  assert_versioning input
  assert_timeout input
  assert_awaits input
  ok (defined input)
