-- ===== src/Handlers.antt =====
-- What a runtime is given: its configuration (src/Client.ts), its handlers (src/Definition.ts), its
-- hooks (src/Hooks.ts) and its surroundings.
use jubs.Common.{ℕ, Bool, Option, none, some, List}
use jubs.Text.{Text}
use jubs.Value.{Value, Fields}
use jubs.Fault.{Thrown, Ending}
use jubs.Effects.{Exec, pure, catch}
use jubs.Definition.{Origin, JobDefinition}
use jubs.Idempotency.{HeldKey}
use jubs.Driver.{JobDelivery, JobDriver, SerializedError}

pub record JobEvent : Type 0 where
  pub name : Text
  pub queue : Text
  pub id : Text
  pub attempt : ℕ
  pub origin : Origin

pub record JobFailureEvent : Type 0 where
  pub event : JobEvent
  pub error : SerializedError

-- Without its `signal`: what an abort does is in `Environment`.
pub record HandlerContext : Type 0 where
  pub id : Text
  pub attempt : ℕ
  pub max_attempts : ℕ
  pub origin : Origin
  pub children : Fields

pub record JobHandler (S : Type 0) : Type 0 where
  pub definition : JobDefinition
  pub run : Value → HandlerContext → Exec S Value

pub record JobHooks (S : Type 0) : Type 0 where
  pub on_start : Option (JobEvent → Exec S (Unit {0}))
  pub on_success : Option (JobEvent → Exec S (Unit {0}))
  pub on_attempt_failed : Option (JobFailureEvent → Exec S (Unit {0}))
  pub on_dead : Option (JobFailureEvent → Exec S (Unit {0}))

-- What the runtime reads of it: `outbox` is the relay's.
pub record JobsConfig (S : Type 0) : Type 0 where
  pub driver : JobDriver S
  pub definitions : Option (List JobDefinition)
  pub dead_queues : List Text
  pub timezone : Option Text
  pub hooks : JobHooks S

-- What the code does not decide: the wording of its messages, the stacks of its errors, the size of
-- a JSON text, whether the timer of a delivery runs out before its body ends, and the reason that
-- the signal of a delivery is aborted with by then. `is_reason` is whether an error is that very object. `on_body_end` leaves a key to a body that goes
-- on running.
pub record Environment (S : Type 0) : Type 0 where
  pub wording : Thrown → Text
  pub stack_of : Thrown → Option Text
  pub json_bytes : Value → Option ℕ
  pub runs_late : JobDelivery → S → Bool
  pub signal : JobDelivery → S → Option Thrown
  pub is_reason : JobDelivery → S → Thrown → Bool
  pub on_body_end : HeldKey → Ending → S → S

-- `notify`: what a hook throws is written to the console.
unfoldable pub notify : {S E : Type 0} → Option (E → Exec S (Unit {0})) → E → Exec S (Unit {0})
notify none event = pure tt
notify (some hook) event = catch (hook event) (λ e. pure tt)
