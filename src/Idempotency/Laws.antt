-- ===== src/Idempotency/Laws.antt =====
-- The interface between `runUnderKey` and a store: what the operations of a store do to one key, as
-- the contract has it. `view` is the state of the key; `kept_as` is how the store keeps a result.
use jubs.Common.{ℕ, ◌≡◌}
use jubs.Text.{Text}
use jubs.Result.{ok}
use jubs.Idempotency.{IdempotencyStore, KeptResult}
use jubs.Idempotency.Contract.{
  KeyState, held_by, acquire_answer, after_acquire, after_finish, after_release,
}

pub record StoreLaws {S : Type 0} (store : IdempotencyStore S) (key : Text) : Type 0 where
  pub view : S → KeyState
  pub kept_as : KeptResult → KeptResult
  pub token_for : S → Text
  pub acquire_lem :
      (lease_ms : ℕ) (s : S)
      → ((store.acquire key lease_ms s).0 ≡ ok (acquire_answer (token_for s) (view s)))
        × (view (store.acquire key lease_ms s).1 ≡ after_acquire (token_for s) (view s))
  pub finish_lem :
      (token : Text) (kept : KeptResult) (retain_for_ms : ℕ) (t : Text) (s : S)
      → view s ≡ held_by t
      → ((store.finish key token kept retain_for_ms s).0 ≡ ok tt)
        × (view (store.finish key token kept retain_for_ms s).1
            ≡ after_finish token (kept_as kept) (held_by t))
  pub release_lem :
      (token : Text) (s : S)
      → ((store.release key token s).0 ≡ ok tt)
        × (view (store.release key token s).1 ≡ after_release token (view s))
