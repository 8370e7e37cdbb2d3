-- ===== src/Idempotency.antt =====
-- src/Idempotency.ts: the three states of an idempotency key, and a body that runs under one. The
-- renewal of a lease is driven by a clock, which is not modelled; `renew` is.
pub mod Contract
pub mod Laws
pub mod Runs
pub mod Retry
use jubs.Common.{
  ℕ, ◌-◌, ◌*◌, ◌^◌, min, max, Bool, true, false, Option, none, some, List, [], ◌∷◌, ◌++◌, leb,
  if◌then◌else◌,
}
use jubs.Text.{Text}
use jubs.Value.{Value, undefined}
use jubs.Fault.{Thrown, lease_held, Ending, returned, threw, still_running}
use jubs.Effects.{Exec, catch, pure, raise, lift, ◌>>=◌, ◌>>◌}
use jubs.Result.{Result, ok, err}
use jubs.Definition.{JobDefinition, settings}

abbrev pub idempotency_lease_ms : ℕ
idempotency_lease_ms = 30000

abbrev pub held_retry_floor_ms : ℕ
held_retry_floor_ms = 100

abbrev pub held_retry_ms : ℕ
held_retry_ms = 1000

-- `heldRetryDelayMs`
unfoldable pub held_retry_delay_ms : ℕ → ℕ
held_retry_delay_ms deliveries_started =
    min (held_retry_floor_ms * 2 ^ (deliveries_started - 1)) held_retry_ms

abbrev pub idempotency_result_retention_ms : ℕ
idempotency_result_retention_ms = 24 * 60 * 60 * 1000

abbrev pub idempotency_max_result_bytes : ℕ
idempotency_max_result_bytes = 64 * 1024

-- `KeptResult`: the result, where one is kept.
abbrev pub KeptResult : Type 0
KeptResult = Option Value

pub data IdempotencyLease : Type 0 where
  acquired : Text → IdempotencyLease
  held : IdempotencyLease
  complete : KeptResult → IdempotencyLease

pub data ForgetOutcome : Type 0 where
  forgotten not_found running : ForgetOutcome

-- `IdempotencyStore`, over the state `S` that a store keeps.
pub record IdempotencyStore (S : Type 0) : Type 0 where
  pub acquire : (key : Text) (lease_ms : ℕ) → Exec S IdempotencyLease
  pub renew : (key token : Text) (lease_ms : ℕ) → Exec S (Unit {0})
  pub finish : (key token : Text) (kept : KeptResult) (retain_for_ms : ℕ) → Exec S (Unit {0})
  pub release : (key token : Text) → Exec S (Unit {0})
  pub forget : (key : Text) → Exec S ForgetOutcome

-- `idempotencyKeyFor`
unfoldable pub idempotency_key_for : JobDefinition → Value → Option Text
idempotency_key_for definition v = elim (settings definition).idempotency_key [
  | none ↦ none
  | some key ↦ some ((settings definition).name ++ b':' ∷ key v)
]

-- A key that a body holds which outlived its delivery.
pub record HeldKey : Type 0 where
  pub key : Text
  pub token : Text

abbrev pub or_undefined : KeptResult → Value
or_undefined none = undefined
or_undefined (some v) = v

-- `json_bytes` is the length of `JSON.stringify` in UTF-8, `none` where there is no such text.
-- `on_body_end` leaves behind what is to be done when a body ends.
module _ {S : Type 0} (json_bytes : Value → Option ℕ) (store : IdempotencyStore S) where
  abbrev kept_within : Value → Option ℕ → KeptResult
  kept_within result none = none
  kept_within result (some bytes) =
      if leb bytes idempotency_max_result_bytes then some result else none

  -- `keptResultOf`
  unfoldable pub kept_result_of : Value → KeptResult
  kept_result_of result = kept_within result (json_bytes result)

  -- A failure is written to the console.
  abbrev reported : Thrown → Exec S (Unit {0})
  reported e = pure tt

  -- `settleWhenBodyEnds`, when the body has ended
  unfoldable pub settle_when_body_ends : HeldKey → Ending → Exec S (Unit {0})
  settle_when_body_ends kept_by (returned result) =
      catch
        (store.finish kept_by.key kept_by.token (kept_result_of result)
          idempotency_result_retention_ms)
        reported
  settle_when_body_ends kept_by threw = catch (store.release kept_by.key kept_by.token) reported

  module _ (on_body_end : HeldKey → Ending → S → S) where
    -- The delivery fails with its error. A body behind it keeps the key, otherwise it is released.
    abbrev failed : HeldKey → Thrown → Option Ending → Exec S Value
    failed kept_by e (some ending) s = (err e, on_body_end kept_by ending s)
    failed kept_by e none s = (store.release kept_by.key kept_by.token >> raise e) s

    abbrev settled : HeldKey → Result Value → Exec S Value
    settled kept_by (ok result) =
        store.finish kept_by.key kept_by.token (kept_result_of result)
          idempotency_result_retention_ms
        >> pure result
    settled kept_by (err e) = failed kept_by e (still_running e)

    abbrev under_lease : Text → Exec S Value → IdempotencyLease → Exec S Value
    under_lease key run held s = (err (lease_held key), s)
    under_lease key run (complete kept) s = (ok (or_undefined kept), s)
    under_lease key run (acquired token) s =
        let (outcome, s') = run s in settled (record { key = key; token = token }) outcome s'

    -- `runUnderKey`
    unfoldable pub run_under_key : Text → Exec S Value → Exec S Value
    run_under_key key run = do
      lease ← store.acquire key idempotency_lease_ms
      under_lease key run lease
