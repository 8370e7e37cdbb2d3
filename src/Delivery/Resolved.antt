-- ===== src/Delivery/Resolved.antt =====
-- What the resolved delivery of a job has, whatever its policy.
use jubs.Common.{
  Option-cases, inl, inr, max, ℕ, ◌≤◌, ◌≡◌, refl, true, none, some, arith, ◌or_else◌, ◌↔◌,
}
use jubs.Text.{Text}
use jubs.Value.{Value}
use jubs.Fault.{keep_last_without_window, refused, Thrown}
use jubs.Result.{ok, err}
use jubs.Definition.{
  Unique, keep_last, last_of_key, Delivery, DeliveryOverrides, DeliveryPolicy, JobDefinition,
  settings,
}
use jubs.Delivery.{
  with_overrides, apply_policy, overrides_of, defaults_for, resolve, resolve_delivery,
  resolve_delivery_without_uniqueness,
}

plain_unique : (d : JobDefinition) → (defaults_for d).unique ≡ none
plain_unique d = ground arith

-- Without uniqueness a delivery is always resolved, and it has no uniqueness.
pub resolve_delivery_without_uniqueness_total :
    (d : JobDefinition) (payload : Value)
    → (r : Delivery) × (resolve_delivery_without_uniqueness d payload ≡ ok r) × (r.unique ≡ none)
unfolding resolve_delivery_without_uniqueness
resolve_delivery_without_uniqueness_total d payload = elim (Option-cases (settings d).delivery) [
  | inl plain ↦ (defaults_for d, rw (plain, resolve), plain_unique d)
  | inr (policy, given) ↦
      let defaults = defaults_for d in
      (
        with_overrides defaults (overrides_of policy payload defaults) none,
        rw (given, resolve),
        refl,
      )
]

module _ (defaults : Delivery) (overrides : DeliveryOverrides) (payload : Value) where
  apply_policy-window :
      {r : Delivery} {key : Text} {ttl : ℕ}
      → apply_policy defaults overrides payload true ≡ ok r
      → r.unique ≡ some (last_of_key key ttl)
      → r.delay_ms ≡ some (max (overrides.delay_ms or_else 0) ttl)
  unfolding apply_policy
  apply_policy-window h u = ground arith

  apply_policy_fails :
      {e : Thrown}
      → apply_policy defaults overrides payload true ≡ err e
      → (e ≡ refused keep_last_without_window)
        × ((u : Unique) × (overrides.unique ≡ some u) × (u.mode ≡ keep_last) × (u.ttl_ms ≡ none))
  unfolding apply_policy
  apply_policy_fails h = elim (Option-cases overrides.unique) [
    | inl plain ↦ absurd (ground arith)
    | inr (u, given) ↦ (ground arith, (u, given, ground arith, ground arith))
  ]

  apply_policy_refuses :
      (u : Unique)
      → overrides.unique ≡ some u
      → u.mode ≡ keep_last
      → u.ttl_ms ≡ none
      → apply_policy defaults overrides payload true ≡ err (refused keep_last_without_window)
  unfolding apply_policy
  apply_policy_refuses u h m t = ground arith

-- A delivery that is resolved from a policy and keeps the last job of a key is delayed by at least
-- the window of that key, and by at least the delay that the policy gives.
pub keep_last_window :
    (d : JobDefinition) (payload : Value) (policy : DeliveryPolicy) {r : Delivery} {key : Text}
    {ttl : ℕ}
    → (settings d).delivery ≡ some policy
    → resolve_delivery d payload ≡ ok r
    → r.unique ≡ some (last_of_key key ttl)
    → (delay : ℕ) × (r.delay_ms ≡ some delay)
      × (ttl ≤ delay)
      × (((overrides_of policy payload (defaults_for d)).delay_ms or_else 0) ≤ delay)
unfolding resolve_delivery
keep_last_window d payload policy {r} {key} {ttl} h k u =
    let defaults = defaults_for d in
    let overrides = overrides_of policy payload defaults in
    let resolved : apply_policy defaults overrides payload true ≡ ok r = rw (h, resolve) at k in
    let window = apply_policy-window defaults overrides payload resolved u in
    (max (overrides.delay_ms or_else 0) ttl, window, omega arith, omega arith)

-- Resolving a policy fails for want of a window exactly when the policy asks to keep the last job
-- of a key and gives no window.
pub resolve_delivery_fails_iff :
    (d : JobDefinition) (payload : Value) (policy : DeliveryPolicy)
    → (settings d).delivery ≡ some policy
    → (resolve_delivery d payload ≡ err (refused keep_last_without_window)) ↔ (
        (u : Unique) × ((overrides_of policy payload (defaults_for d)).unique ≡ some u)
        × (u.mode ≡ keep_last)
        × (u.ttl_ms ≡ none))
unfolding resolve_delivery
resolve_delivery_fails_iff d payload policy h =
    let defaults = defaults_for d in
    let overrides = overrides_of policy payload defaults in
    (
      λ e. (apply_policy_fails defaults overrides payload (rw (h, resolve) at e)).1,
      λ (u, given, m, t).
          rw (h, resolve) (apply_policy_refuses defaults overrides payload u given m t),
    )
