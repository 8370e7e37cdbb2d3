-- ===== src/Delivery.antt =====
-- src/Delivery.ts: the policy that one enqueue gets, out of a definition, its payload and the
-- defaults.
pub mod Resolved
use jubs.Common.{
  ℕ, ◌*◌, max, Bool, true, false, ◌&&◌, Option, none, some, ◌or_else◌, if◌then◌else◌, is_some,
}
use jubs.Text.{Text}
use jubs.Value.{Value}
use jubs.Fault.{keep_last_without_window}
use jubs.Result.{Result, ok, refuse, ◌>>=◌}
use jubs.Definition.{
  keep_first, keep_last, no_overlap, Unique, ResolvedUnique, first_of_key, last_of_key,
  one_at_a_time, Delivery, DeliveryOverrides, DeliveryPolicy, fixed, computed, JobDefinition,
  settings,
}

-- `DELIVERY_DEFAULTS`
abbrev pub delivery_defaults : Delivery
delivery_defaults = record {
  attempts = 5;
  backoff = record { delay_ms = 2000 };
  priority = 20;
  keep_completed_for_ms = 60 * 60 * 1000;
  keep_failed_count = 200;
  delay_ms = none;
  unique = none;
}

-- `SCHEDULED_DEFAULTS`
abbrev pub scheduled_defaults : Delivery
scheduled_defaults = record delivery_defaults { attempts = 1 }

-- `resolveUnique`
unfoldable pub resolve_unique : Unique → Value → Result ResolvedUnique
resolve_unique unique payload = elim unique.mode [
  | no_overlap ↦ ok (one_at_a_time (unique.key payload))
  | keep_last ↦ elim unique.ttl_ms [
    | none ↦ refuse keep_last_without_window
    | some ttl ↦ ok (last_of_key (unique.key payload) ttl)
  ]
  | keep_first ↦ ok (first_of_key (unique.key payload) unique.ttl_ms)
]

-- `resolveDelayMs`
unfoldable pub resolve_delay_ms : Option ℕ → Option ResolvedUnique → Option ℕ
resolve_delay_ms delay (some (last_of_key key ttl)) = some (max (delay or_else 0) ttl)
resolve_delay_ms delay _ = delay

abbrev pub overrides_of : DeliveryPolicy → Value → Delivery → DeliveryOverrides
overrides_of (fixed overrides) payload defaults = overrides
overrides_of (computed f) payload defaults = f payload defaults

-- `keepUnique && overrides.unique ? resolveUnique(…) : undefined`
abbrev kept_unique : Bool → Option Unique → Value → Result (Option ResolvedUnique)
kept_unique true (some unique) payload = do u ← resolve_unique unique payload; ok (some u)
kept_unique _ _ payload = ok none

abbrev pub defaults_for : JobDefinition → Delivery
defaults_for d = if is_some (settings d).recurring then scheduled_defaults else delivery_defaults

abbrev with_overrides : Delivery → DeliveryOverrides → Option ResolvedUnique → Delivery
with_overrides defaults overrides unique = record {
  attempts = overrides.attempts or_else defaults.attempts;
  backoff = overrides.backoff or_else defaults.backoff;
  priority = overrides.priority or_else defaults.priority;
  keep_completed_for_ms = overrides.keep_completed_for_ms or_else defaults.keep_completed_for_ms;
  keep_failed_count = overrides.keep_failed_count or_else defaults.keep_failed_count;
  delay_ms = resolve_delay_ms overrides.delay_ms unique;
  unique = unique;
}

-- `resolve` where the definition has a policy.
pub apply_policy : Delivery → DeliveryOverrides → Value → Bool → Result Delivery
unfolding resolve_unique resolve_delay_ms
apply_policy defaults overrides payload keep_unique = do
  unique ← kept_unique keep_unique overrides.unique payload
  ok (with_overrides defaults overrides unique)

-- `resolve`
unfoldable pub resolve : JobDefinition → Value → Bool → Result Delivery
unfolding apply_policy
resolve definition payload keep_unique = elim (settings definition).delivery [
  | none ↦ ok (defaults_for definition)
  | some policy ↦
      let defaults = defaults_for definition in
      apply_policy defaults (overrides_of policy payload defaults) payload keep_unique
]

-- `resolveDelivery`
unfoldable pub resolve_delivery : JobDefinition → Value → Result Delivery
unfolding resolve
resolve_delivery definition payload = resolve definition payload true

-- `resolveDeliveryWithoutUniqueness`
unfoldable pub resolve_delivery_without_uniqueness : JobDefinition → Value → Result Delivery
unfolding resolve
resolve_delivery_without_uniqueness definition payload = resolve definition payload false
