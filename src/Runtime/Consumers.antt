-- ===== src/Runtime/Consumers.antt =====
-- src/Runtime.ts: the consumers that a start opens, one for each queue. `consume` is the driver's and
-- `close` that of a consumer. The requests are taken in order.
pub mod Closed
use jubs.Common.{ℕ, Option, none, some, List, [], ◌∷◌, ◌or_else◌}
use jubs.Text.{Text}
use jubs.Value.{Value}
use jubs.Fault.{Thrown}
use jubs.Result.{Result, ok, err}
use jubs.Driver.{JobDelivery}
use jubs.Effects.{Exec, pure, raise, catch, ◌>>=◌, ◌>>◌}

pub record QueueLimiter : Type 0 where
  pub max : ℕ
  pub duration_ms : ℕ

pub record QueueTuning : Type 0 where
  pub concurrency : Option ℕ
  pub limiter : Option QueueLimiter

abbrev pub default_concurrency : ℕ
default_concurrency = 10

pub record ConsumeRequest (S : Type 0) : Type 0 where
  pub queue : Text
  pub concurrency : ℕ
  pub limiter : Option QueueLimiter
  pub run : JobDelivery → Exec S Value

module _ {S : Type 0} where
  -- `consumeRequest`
  abbrev pub consume_request :
      Text → Option QueueTuning → (JobDelivery → Exec S Value) → ConsumeRequest S
  consume_request queue none run = record {
    queue = queue;
    concurrency = default_concurrency;
    limiter = none;
    run = run;
  }
  consume_request queue (some tuning) run = record {
    queue = queue;
    concurrency = tuning.concurrency or_else default_concurrency;
    limiter = tuning.limiter;
    run = run;
  }

  module _ {C : Type 0} (consume : ConsumeRequest S → Exec S C)
      (close : C → Exec S (Unit {0})) where
    -- What became of the requests: the consumers that opened, and the errors of the others.
    abbrev pub with_settled : Result C → List C × List Thrown → List C × List Thrown
    with_settled (ok consumer) (opened, refused) = (consumer ∷ opened, refused)
    with_settled (err e) (opened, refused) = (opened, e ∷ refused)

    abbrev pub settle_all : List (ConsumeRequest S) → S → (List C × List Thrown) × S
    settle_all [] s = (([], []), s)
    settle_all (request ∷ requests) s =
        let (r, s') = consume request s in
        let (settled, s'') = settle_all requests s' in (with_settled r settled, s'')

    abbrev pub close_all : List C → Exec S (Unit {0})
    close_all [] s = (ok tt, s)
    close_all (consumer ∷ consumers) s =
        (do catch (close consumer) (λ e. pure tt); close_all consumers) s

    abbrev pub unless_refused : List C → List Thrown → Exec S (List C)
    unless_refused opened [] s = (ok opened, s)
    unless_refused opened (e ∷ refused) s = (do close_all opened; raise e) s

    -- `openConsumers`
    unfoldable pub open_consumers : List (ConsumeRequest S) → Exec S (List C)
    open_consumers requests s =
        let ((opened, refused), s') = settle_all requests s in unless_refused opened refused s'
