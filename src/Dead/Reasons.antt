-- ===== src/Dead/Reasons.antt =====
-- When a failure buries a job, and for what.
use jubs.Common.{◌≡◌, ◌↔◌, true, false, none, some, List, arith, leb}
use jubs.Fault.{
  Thrown, cause, no_cause, outliving, given_up, ChildResult, unrecoverable, child_dead,
  is_unrecoverable,
}
use jubs.Driver.{JobDelivery, child_died, not_recoverable, short_of_children}
use jubs.Dead.{raised, burial_for, child_dead_results, is_children_short}

-- A failure leaves its job alive exactly when the error can be recovered from, no attempt is
-- exhausted, and it is not an error about children that died or are missing.
pub burial_for-none_iff :
    (delivery : JobDelivery) (e : Thrown)
    → (burial_for delivery e ≡ none) ↔ (
        (is_unrecoverable e ≡ false)
        × (leb delivery.max_attempts delivery.attempt ≡ false)
        × (child_dead_results e ≡ none)
        × (is_children_short e ≡ false))
unfolding burial_for raised
burial_for-none_iff delivery (outliving false n m s c b) = ground arith
burial_for-none_iff delivery (outliving true n m s no_cause b) = ground arith
burial_for-none_iff delivery (outliving true n m s (cause e) b) = ground arith
burial_for-none_iff delivery (given_up m no_cause) = ground arith
burial_for-none_iff delivery (given_up m (cause e)) = ground arith
burial_for-none_iff delivery e = ground arith

-- An error that the runtime has made unrecoverable buries its job whatever the attempt: for the
-- children that died, with the results of the others, for a slot that is short, or for being
-- unrecoverable.
pub burial_for-unrecoverable :
    (delivery : JobDelivery) (e : Thrown)
    → ((results : List ChildResult)
        → child_dead_results e ≡ some results
        → burial_for delivery (unrecoverable e) ≡ some (child_died results))
      × (is_children_short e ≡ true
          → burial_for delivery (unrecoverable e) ≡ some short_of_children)
      × (child_dead_results e ≡ none
          → is_children_short e ≡ false
          → burial_for delivery (unrecoverable e) ≡ some not_recoverable)
unfolding burial_for raised
burial_for-unrecoverable delivery (child_dead j f r) =
    (λ results h. ground arith, λ h. cc, λ h k. cc)
burial_for-unrecoverable delivery e = (λ results h. cc, λ h. ground arith, λ h k. ground arith)
