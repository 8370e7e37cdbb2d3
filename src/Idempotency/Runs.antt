-- ===== src/Idempotency/Runs.antt =====
-- What a body under an idempotency key does, over any store that keeps its contract.
use jubs.Common.{ℕ, ◌≡◌, ap, ◌∙◌, Option, none, some}
use jubs.Text.{Text}
use jubs.Text.Laws.{==_refl}
use jubs.Value.{Value}
use jubs.Fault.{Thrown, lease_held, Ending, returned, threw, still_running}
use jubs.Result.{ok, err}
use jubs.Effects.{Exec}
use jubs.Idempotency.{
  IdempotencyStore, KeptResult, HeldKey, kept_result_of, run_under_key, settle_when_body_ends,
  or_undefined, idempotency_result_retention_ms, idempotency_lease_ms,
}
use jubs.Idempotency.Contract.{absent, held_by, completed, after_acquire}
use jubs.Idempotency.Laws.{StoreLaws}

module _ {S : Type 0} (json_bytes : Value → Option ℕ) (store : IdempotencyStore S)
    (on_body_end : HeldKey → Ending → S → S) (key : Text) (laws : StoreLaws store key) where
  -- The state in which the body of a key starts.
  abbrev pub leased : S → S
  leased s = (store.acquire key idempotency_lease_ms s).1

  abbrev pub run_key : Exec S Value → Exec S Value
  run_key run = run_under_key json_bytes store on_body_end key run

  -- Under a key that is complete its kept result is given back, and under a key that is held the
  -- delivery is refused: in both cases without the body, after nothing but an acquire of the key.
  pub run_under_key-taken :
      (run : Exec S Value) (s : S)
      → ((kept : KeptResult)
          → laws.view s ≡ completed kept
          → run_key run s ≡ (ok (or_undefined kept), leased s))
        × ((token : Text)
            → laws.view s ≡ held_by token
            → run_key run s ≡ (err (lease_held key), leased s))
  unfolding run_under_key
  run_under_key-taken run s =
      let (answer, _) = laws.acquire_lem idempotency_lease_ms s in
      (λ kept h. rw (answer, h), λ token h. rw (answer, h))

  -- Under a free key, where the body leaves the state of its key alone, the outcome of the body
  -- stands: the key is complete with the result if the body returns, and it is free again if the
  -- body throws with nothing going on behind it.
  pub run_under_key-free :
      (run : Exec S Value) (s : S)
      → laws.view s ≡ absent
      → laws.view (run (leased s)).1 ≡ laws.view (leased s)
      → ((v : Value)
          → (run (leased s)).0 ≡ ok v
          → ((run_key run s).0 ≡ ok v)
            × (laws.view (run_key run s).1
                ≡ completed (laws.kept_as (kept_result_of json_bytes store v))))
        × ((e : Thrown)
            → (run (leased s)).0 ≡ err e
            → still_running e ≡ none
            → ((run_key run s).0 ≡ err e) × (laws.view (run_key run s).1 ≡ absent))
  unfolding run_under_key
  run_under_key-free run s free unmoved =
      let (answer, taken) = laws.acquire_lem idempotency_lease_ms s in
      let token = laws.token_for s in
      let s' = (run (leased s)).1 in
      let held : laws.view s' ≡ held_by token = unmoved ∙ taken ∙ ap (after_acquire token) free in
      (
        λ v returns.
            let (finished, complete) =
              laws.finish_lem token (kept_result_of json_bytes store v)
                idempotency_result_retention_ms token s' held in
            (
              rw (answer, free, returns, finished),
              rw (answer, free, returns, finished) (complete ∙ rw (==_refl token)),
            ),
        λ e throws alone.
            let (released, gone) = laws.release_lem token s' in
            (
              rw (answer, free, throws, alone, released),
              rw (answer, free, throws, alone, released) (gone ∙ rw (held, ==_refl token)),
            ),
      )

  -- Under a free key, where the body leaves the state of its key alone, a delivery that fails
  -- while its body goes on ends with its error and leaves the key to that body. When the body has
  -- ended, the key is complete with what it returned, or free if it threw.
  pub run_under_key-outlived :
      (run : Exec S Value) (s : S) (e : Thrown) (ending : Ending)
      → laws.view s ≡ absent
      → laws.view (run (leased s)).1 ≡ laws.view (leased s)
      → (run (leased s)).0 ≡ err e
      → still_running e ≡ some ending
      → let kept_by : HeldKey = record { key = key; token = laws.token_for s } in
        let s' = (run (leased s)).1 in
        (run_key run s ≡ (err e, on_body_end kept_by ending s'))
        × ((v : Value)
            → laws.view (settle_when_body_ends json_bytes store kept_by (returned v) s').1
              ≡ completed (laws.kept_as (kept_result_of json_bytes store v)))
        × (laws.view (settle_when_body_ends json_bytes store kept_by threw s').1 ≡ absent)
  unfolding run_under_key settle_when_body_ends
  run_under_key-outlived run s e ending free unmoved throws runs =
      let (answer, taken) = laws.acquire_lem idempotency_lease_ms s in
      let token = laws.token_for s in
      let s' = (run (leased s)).1 in
      let held : laws.view s' ≡ held_by token = unmoved ∙ taken ∙ ap (after_acquire token) free in
      let (released, gone) = laws.release_lem token s' in
      (
        rw (answer, free, throws, runs),
        λ v.
            let (finished, complete) =
              laws.finish_lem token (kept_result_of json_bytes store v)
                idempotency_result_retention_ms token s' held in
            rw finished (complete ∙ rw (==_refl token)),
        rw released (gone ∙ rw (held, ==_refl token)),
      )
