-- ===== src/Runtime/Signal.antt =====
-- What the abort signal of a delivery makes of the error of its body.
use jubs.Common.{◌≡◌, Bool, true, false, none, some, arith}
use jubs.Text.{Text}
use jubs.Fault.{Thrown, Cause, cancelled, shutdown_abort, is_unrecoverable, still_running}
use jubs.Driver.{JobDelivery, cancellation}
use jubs.Dead.{burial_for}
use jubs.Runtime.{failure_under, is_postponed}

-- A cancelled delivery that fails is buried as a cancellation, whatever its body threw. A delivery
-- that a shutdown aborts is postponed, unless its error is an unrecoverable one: that one stands.
-- Without a signal the error stands.
pub failure_under-ends :
    (delivery : JobDelivery) (job : Text) (c : Cause) (same : Thrown → Bool) (e : Thrown)
    → (burial_for delivery (failure_under (some (cancelled job none c)) same e) ≡ some cancellation)
      × (is_unrecoverable e ≡ false
          → is_postponed (failure_under (some (shutdown_abort job none c)) same e) ≡ true)
      × (is_unrecoverable e ≡ true → failure_under (some (shutdown_abort job none c)) same e ≡ e)
      × (failure_under none same e ≡ e)
unfolding failure_under burial_for still_running
failure_under-ends delivery job c same e = ground arith

-- The error of a delivery that was cancelled or aborted by a shutdown has the same body going on
-- behind it as the error that the delivery failed with, so its idempotency key stays with the body.
pub still_running-failure_under :
    (job : Text) (c : Cause) (same : Thrown → Bool) (e : Thrown)
    → (still_running (failure_under (some (cancelled job none c)) same e) ≡ still_running e)
      × (still_running (failure_under (some (shutdown_abort job none c)) same e) ≡ still_running e)
unfolding failure_under still_running
still_running-failure_under job c same e = ground arith
