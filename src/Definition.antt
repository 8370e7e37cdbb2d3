-- ===== src/Definition.antt =====
-- src/Definition.ts: what a job declares, and the data that its parts are made of
-- (src/Schedule.ts, src/Delivery.ts). Durations and counts are natural numbers where the source
-- does not check them. A function that a caller gives (`unique.key`, a delivery policy, an
-- idempotency key) returns; a migration may throw.
pub mod Checks
use jubs.Common.{ℕ, Bool, true, false, Option, none, some, List, [], ◌∷◌, ◌or_else◌}
use jubs.Text.{Text}
use jubs.Value.{Value, Number}
use jubs.Fault.{Issue}
use jubs.Result.{Result}

pub data Origin : Type 0 where
  direct schedule flow relay : Origin

pub data Recurrence : Type 0 where
  every_ms : Number → Recurrence
  pattern_of : Text → Recurrence

-- `data` is `undefined` where a schedule carries none.
pub record Schedule : Type 0 where
  pub recurrence : Recurrence
  pub timezone : Option Text
  pub payload : Value

pub data UniqueMode : Type 0 where
  keep_first keep_last no_overlap : UniqueMode

pub record Unique : Type 0 where
  pub key : Value → Text
  pub mode : UniqueMode
  pub ttl_ms : Option ℕ

pub data ResolvedUnique : Type 0 where
  first_of_key : Text → Option ℕ → ResolvedUnique
  last_of_key : Text → ℕ → ResolvedUnique
  one_at_a_time : Text → ResolvedUnique

-- The one type that a backoff has is `exponential`.
pub record Backoff : Type 0 where
  pub delay_ms : ℕ

pub record Delivery : Type 0 where
  pub attempts : ℕ
  pub backoff : Backoff
  pub priority : ℕ
  pub keep_completed_for_ms : ℕ
  pub keep_failed_count : ℕ
  pub delay_ms : Option ℕ
  pub unique : Option ResolvedUnique

pub record DeliveryOverrides : Type 0 where
  pub attempts : Option ℕ
  pub backoff : Option Backoff
  pub priority : Option ℕ
  pub keep_completed_for_ms : Option ℕ
  pub keep_failed_count : Option ℕ
  pub delay_ms : Option ℕ
  pub unique : Option Unique

pub data DeliveryPolicy : Type 0 where
  fixed : DeliveryOverrides → DeliveryPolicy
  computed : (Value → Delivery → DeliveryOverrides) → DeliveryPolicy

-- What a Standard Schema validator answers.
pub data Validation : Type 0 where
  valid : Value → Validation
  invalid : List Issue → Validation

abbrev pub Schema : Type 0
Schema = Value → Validation

pub record Settings : Type 0 where
  pub name : Text
  pub queue : Text
  pub payload : Schema
  pub result : Option Schema
  pub version : Option ℕ
  pub migrations : List (ℕ × (Value → Result Value))
  pub delivery : Option DeliveryPolicy
  pub recurring : Option Schedule
  pub idempotency_key : Option (Value → Text)
  pub timeout_ms : Option Number

-- A definition is its own fields and its `awaits`, slot by slot: the slot's name, whether it holds
-- many children, and the definition that fills it.
mutual
  pub data JobDefinition : Type 0 where
    job : Settings → Awaits → JobDefinition

  pub data Awaits : Type 0 where
    nothing : Awaits
    slot_of : Text → Bool → JobDefinition → Awaits → Awaits

abbrev pub settings : JobDefinition → Settings
settings (job s a) = s

abbrev pub awaits : JobDefinition → Awaits
awaits (job s a) = a

abbrev pub default_payload_version : ℕ
default_payload_version = 1

-- `payloadVersion`
unfoldable pub payload_version : JobDefinition → ℕ
payload_version d = (settings d).version or_else default_payload_version

-- `Slot` and `slotsOf` of src/Flow.ts.
pub record Slot : Type 0 where
  pub name : Text
  pub definition : JobDefinition
  pub many : Bool

abbrev pub slots_in : Awaits → List Slot
slots_in nothing = []
slots_in (slot_of n m d rest) = record { name = n; definition = d; many = m } ∷ slots_in rest

abbrev pub slots_of : JobDefinition → List Slot
slots_of d = slots_in (awaits d)
