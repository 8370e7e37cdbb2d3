-- ===== src/Runtime/Handled.antt =====
-- What comes out of a delivery that reaches its handler.
use jubs.Common.{◌≡◌, Bool, true, false, none, some}
use jubs.Value.{Value, Number}
use jubs.Fault.{Thrown, Ending, returned, threw, unrecoverable, handler_timeout}
use jubs.Result
use jubs.Result.{Result, ok, err}
use jubs.Definition.{JobDefinition, settings}
use jubs.Envelope.{Envelope}
use jubs.Migration.{validate_result}

-- What the schema of a job makes of how its handler ended.
pub data Checked (d : JobDefinition) : Result Value → Result Value → Ending → Type 0 where
  accepted : (v w : Value) → validate_result d v ≡ ok w → Checked d (ok v) (ok w) (returned w)
  rejected :
      (v : Value) (e : Thrown)
      → validate_result d v ≡ err e
      → Checked d (ok v) (err (unrecoverable e)) threw
  failed : (e : Thrown) → Checked d (err e) (err e) threw

-- The outcome of a handler that ended so: the checked one in time, and an error of the timeout, with what
-- the body ended with behind it, where the timer ran out first.
pub data Handled (d : JobDefinition) (late : Bool) (ended : Result Value)
    : Result Value → Type 0 where
  untimed :
      (outcome : Result Value) (body : Ending)
      → (settings d).timeout_ms ≡ none
      → Checked d ended outcome body
      → Handled d late ended outcome
  in_time :
      (outcome : Result Value) (body : Ending) (ms : Number)
      → (settings d).timeout_ms ≡ some ms
      → late ≡ false
      → Checked d ended outcome body
      → Handled d late ended outcome
  out_of_time :
      (outcome : Result Value) (body : Ending) (ms : Number)
      → (settings d).timeout_ms ≡ some ms
      → late ≡ true
      → Checked d ended outcome body
      → Handled d late ended (err (handler_timeout (settings d).name body))
