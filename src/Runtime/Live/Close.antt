-- ===== src/Runtime/Live/Close.antt =====
-- What `close` does to the deliveries that still run when its timeout has passed.
use jubs.Common.{
  ◌≡◌, refl, ℕ, eqb, eqb_iff, Bool, true, false, not, ◌&&◌, ◌||◌, Option, none, some, is_some, List,
  [], ◌∷◌, any, arith, Bool-cases, inl, inr,
}
use jubs.Text.{Text}
use jubs.Fault.{Thrown, shutdown_abort, no_cause}
use jubs.Result.{ok}
use jubs.Effects.{Exec}
use jubs.Runtime.Live.{
  LiveDelivery, Signals, abort, LiveState, abort_each, drained_by, drain_consumers,
}
use jubs.Runtime.Live.Sweep.{runs_on, Aborts, abort_each-Aborts}

-- A delivery runs on this controller.
abbrev pub is_live : ℕ → List LiveDelivery → Bool
is_live c ds = any (λ d. eqb d.controller c) ds

abort-is_some :
    (c controller : ℕ) (reason : Thrown) (s : Signals)
    → is_some (abort controller reason s c) ≡ (is_some (s c) || eqb controller c)
abort-is_some c controller reason s = elim (Bool-cases (eqb c controller)) [
  | inl same ↦ rw same (ground (arith, same, eqb_iff c controller, eqb_iff controller c))
  | inr other ↦ rw other (ground (arith, other, eqb_iff c controller, eqb_iff controller c))
]

abort_each-is_some :
    (c : ℕ) (reason : Text → Thrown) (ds : List LiveDelivery) (s : Signals)
    → is_some (abort_each reason ds s c) ≡ (is_some (s c) || is_live c ds)
abort_each-is_some c reason [] s = ground arith
abort_each-is_some c reason (d ∷ ds) s =
    let rest = abort_each-is_some c reason ds (abort d.controller (reason d.name) s) in
    let first = abort-is_some c d.controller (reason d.name) s in rw (rest, first) (ground arith)

module _ {S : Type 0} (wait : Option ℕ → Exec (LiveState S) Bool) where
  abbrev close_reason : Text → Thrown
  close_reason name = shutdown_abort name none no_cause

  by-Aborts :
      (timeout_ms : Option ℕ) (drained : Bool) (t : LiveState S)
      → Aborts close_reason
          (λ c name. runs_on c name t.live)
          t.signals
          (drained_by wait timeout_ms drained t).1.signals
  by-Aborts none drained t = λ c. inl refl
  by-Aborts (some ms) true t = λ c. inl refl
  by-Aborts (some ms) false t = abort_each-Aborts close_reason t.live t.signals

  by-is_some :
      (c : ℕ) (timeout_ms : Option ℕ) (drained : Bool) (t : LiveState S)
      → is_some ((drained_by wait timeout_ms drained t).1.signals c)
        ≡ (is_some (t.signals c) || (is_some timeout_ms && not drained && is_live c t.live))
  by-is_some c none drained t = ground arith
  by-is_some c (some ms) true t = ground arith
  by-is_some c (some ms) false t = abort_each-is_some c close_reason t.live t.signals

  -- When the wait for the consumers is over, `close` aborts signals for a shutdown only, and only of
  -- deliveries that still run and were not aborted. If it was given a timeout and the consumers were
  -- not drained, the signal of every delivery that still runs is then aborted; in the other cases
  -- `close` aborts no signal.
  pub drain_consumers_lem :
      (timeout_ms : Option ℕ) (drained : Bool) (s t : LiveState S) (c : ℕ)
      → wait timeout_ms s ≡ (ok drained, t)
      → let u = (drain_consumers wait timeout_ms s).1 in
        Aborts
          (λ name. shutdown_abort name none no_cause)
          (λ k name. runs_on k name t.live)
          t.signals
          u.signals
        × (is_some (u.signals c)
            ≡ (is_some (t.signals c) || (is_some timeout_ms && not drained && is_live c t.live)))
  unfolding drain_consumers
  drain_consumers_lem timeout_ms drained s t c waited =
      rw waited (by-Aborts timeout_ms drained t, by-is_some c timeout_ms drained t)
