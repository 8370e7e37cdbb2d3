-- ===== src/Runtime/Live.antt =====
-- src/Runtime.ts: the deliveries that a runtime is running, the sweep that aborts the cancelled ones,
-- and what `close` does to those that outlive its patience. A controller is a number, and the state keeps
-- the reason that each was aborted for. `take_cancelled` is the call of the driver, and `wait` is all
-- that happens until the consumers are drained (true) or the timer of `close` has expired (false). No delivery begins or ends between two steps of a sweep.
pub mod Sweep
pub mod Close
use jubs.Common.{
  ℕ, eqb, Bool, true, false, Option, none, some, List, [], ◌∷◌, ◌++◌, keep, not, if◌then◌else◌,
  ◌or_else◌,
}
use jubs.Text.{Text}
use jubs.Fault.{Thrown, cancelled, shutdown_abort, no_cause}
use jubs.Assoc.{Assoc, lookup, insert}
use jubs.Driver.{RunningDelivery}
use jubs.Result.{ok}
use jubs.Effects.{Exec, pure, ◌>>=◌, ◌>>◌}

pub record LiveDelivery : Type 0 where
  pub running : RunningDelivery
  pub open running use *
  pub queue : Text
  pub name : Text
  pub controller : ℕ

-- The reason of each signal, where it is aborted.
abbrev pub Signals : Type 0
Signals = ℕ → Option Thrown

-- `controller.abort(reason)`: the first reason stays.
abbrev pub abort : ℕ → Thrown → Signals → Signals
abort controller reason signals =
    λ c. if eqb c controller then some (signals c or_else reason) else signals c

pub record LiveState (S : Type 0) : Type 0 where
  pub live : List LiveDelivery
  pub signals : Signals
  pub outer : S

-- `liveByQueue`
unfoldable pub by_queue_from :
    Assoc (List LiveDelivery) → List LiveDelivery → Assoc (List LiveDelivery)
by_queue_from groups [] = groups
by_queue_from groups (d ∷ ds) =
    by_queue_from (insert d.queue ((lookup d.queue groups or_else []) ++ d ∷ []) groups) ds

abbrev pub live_by_queue : List LiveDelivery → Assoc (List LiveDelivery)
live_by_queue live = by_queue_from [] live

-- Aborts each of these deliveries for the reason that its name gives.
abbrev pub abort_each : (Text → Thrown) → List LiveDelivery → Signals → Signals
abort_each reason [] signals = signals
abort_each reason (d ∷ ds) signals =
    abort_each reason ds (abort d.controller (reason d.name) signals)

module _ {S : Type 0} where
  abbrev pub aborting : (Text → Thrown) → List LiveDelivery → Exec (LiveState S) (Unit {0})
  aborting reason ds s = (ok tt, record s { signals = abort_each reason ds s.signals })

  abbrev pub on_driver : {A : Type 0} → Exec S A → Exec (LiveState S) A
  on_driver action s = let (r, o) = action s.outer in (r, record s { outer = o })

  module _ (take_cancelled : Text → List LiveDelivery → Exec S (List LiveDelivery)) where
    abbrev pub sweep_each : Assoc (List LiveDelivery) → Exec (LiveState S) (Unit {0})
    sweep_each [] s = (ok tt, s)
    sweep_each ((queue, running) ∷ groups) s =
        (do
          given ← on_driver (take_cancelled queue running)
          aborting (λ name. cancelled name none no_cause) given
          sweep_each groups)
          s

    -- `sweepCancellations`
    unfoldable pub sweep_cancellations : Exec (LiveState S) (Unit {0})
    sweep_cancellations s = sweep_each (live_by_queue s.live) s

  module _ (wait : Option ℕ → Exec (LiveState S) Bool) where
    abbrev pub outlasted : Bool → Exec (LiveState S) (Unit {0})
    outlasted true s = (ok tt, s)
    outlasted false s = aborting (λ name. shutdown_abort name none no_cause) s.live s

    abbrev pub drained_by : Option ℕ → Bool → Exec (LiveState S) (Unit {0})
    drained_by none drained s = (ok tt, s)
    drained_by (some timeout_ms) drained s = outlasted drained s

    -- `drainConsumers`
    unfoldable pub drain_consumers : Option ℕ → Exec (LiveState S) (Unit {0})
    drain_consumers timeout_ms = do drained ← wait timeout_ms; drained_by timeout_ms drained
