-- ===== src/Memory/Keys/Laws.antt =====
-- The store of the driver in memory keeps the contract of an idempotency store.
use jubs.Common.{ℕ, ◌≡◌, Bool, true, not, ◌&&◌, Option, none, some, arith}
use jubs.Text.{Text}
use jubs.Text.Laws.{==_refl}
use jubs.Result.{ok}
use jubs.Assoc.{lookup, has, lookup-insert, lookup-remove}
use jubs.Idempotency.{KeptResult}
use jubs.Idempotency.Contract.{
  KeyState, absent, held_by, completed, acquire_answer, after_acquire, after_finish, after_release,
  forget_answer, after_forget,
}
use jubs.Idempotency.Laws.{StoreLaws}
use jubs.Memory.Keys.{MemoryKeys, as_json_keeps, memory_idempotency}

abbrev pub key_state : Option KeptResult → Option Text → KeyState
key_state (some result) holder = completed result
key_state none (some holder) = held_by holder
key_state none none = absent

-- What the store knows of a key.
abbrev pub state_of : Text → MemoryKeys → KeyState
state_of key s = key_state (lookup key s.kept) (lookup key s.leased)

module _ (uuid : ℕ → Text) (key : Text) where
  pub acquire_lem :
      (lease_ms : ℕ) (s : MemoryKeys)
      → let (r, s') = (memory_idempotency uuid).acquire key lease_ms s in
        (r ≡ ok (acquire_answer (uuid s.minted) (state_of key s)))
        × (state_of key s' ≡ after_acquire (uuid s.minted) (state_of key s))
  unfolding memory_idempotency
  acquire_lem lease_ms s =
      ground (arith, lookup-insert key key (uuid s.minted) s.leased, ==_refl key)

  pub finish_lem :
      (token : Text) (result : KeptResult) (retain_for_ms : ℕ) (holder : Text) (s : MemoryKeys)
      → state_of key s ≡ held_by holder
      → let (r, s') = (memory_idempotency uuid).finish key token result retain_for_ms s in
        (r ≡ ok tt) × (state_of key s' ≡ after_finish token (as_json_keeps result) (held_by holder))
  unfolding memory_idempotency
  finish_lem token result retain holder s h = ground (
    arith,
    ==_refl key,
    lookup-remove key key s.leased,
    lookup-insert key key (as_json_keeps result) s.kept,
  )

  pub release_lem :
      (token : Text) (s : MemoryKeys)
      → let (r, s') = (memory_idempotency uuid).release key token s in
        (r ≡ ok tt) × (state_of key s' ≡ after_release token (state_of key s))
  unfolding memory_idempotency
  release_lem token s = ground (arith, ==_refl key, lookup-remove key key s.leased)

  -- The store in memory keeps the contract that a body under a key relies on.
  unfoldable pub memory_store_laws : StoreLaws (memory_idempotency uuid) key
  memory_store_laws = record {
    view = state_of key;
    kept_as = as_json_keeps;
    token_for = λ s. uuid s.minted;
    acquire_lem = acquire_lem;
    finish_lem = finish_lem;
    release_lem = release_lem;
  }

  -- The key is not leased and complete at once.
  abbrev pub is_apart : MemoryKeys → Bool
  is_apart s = not (has key s.kept && has key s.leased)

  -- While a key is not leased and complete at once, the store does to it what the contract says: it
  -- answers an acquire and a forget by the state of the key, and an acquire, a finish of a held key,
  -- a release and a forget lead to the state that the contract names.
  pub memory_idempotency-refines :
      (token holder : Text) (result : KeptResult) (ms : ℕ) (s : MemoryKeys)
      → is_apart s ≡ true
      → let store = memory_idempotency uuid in
        let (lease, acquired) = store.acquire key ms s in
        let (answer, forgotten) = store.forget key s in
        ((lease ≡ ok (acquire_answer (uuid s.minted) (state_of key s)))
          × (state_of key acquired ≡ after_acquire (uuid s.minted) (state_of key s)))
        × (state_of key s ≡ held_by holder
            → state_of key (store.finish key token result ms s).1
              ≡ after_finish token (as_json_keeps result) (held_by holder))
        × (state_of key (store.release key token s).1 ≡ after_release token (state_of key s))
        × (answer ≡ ok (forget_answer (state_of key s)))
        × (state_of key forgotten ≡ after_forget (state_of key s))
  unfolding memory_idempotency
  memory_idempotency-refines token holder result ms s h = (
    acquire_lem ms s,
    λ held. (finish_lem token result ms holder s held).1,
    (release_lem token s).1,
    ground arith,
    ground (arith, ==_refl key, lookup-remove key key s.kept),
  )

  -- A key is never leased and complete at once: each operation keeps it so.
  pub memory_idempotency-is_apart :
      (token : Text) (result : KeptResult) (ms : ℕ) (s : MemoryKeys)
      → is_apart s ≡ true
      → let store = memory_idempotency uuid in
        (is_apart (store.acquire key ms s).1 ≡ true)
        × (is_apart (store.finish key token result ms s).1 ≡ true)
        × (is_apart (store.release key token s).1 ≡ true)
        × (is_apart (store.forget key s).1 ≡ true)
  unfolding memory_idempotency
  memory_idempotency-is_apart token result ms s h = (
    ground (arith, ==_refl key, lookup-insert key key (uuid s.minted) s.leased),
    ground (
      arith,
      ==_refl key,
      lookup-remove key key s.leased,
      lookup-insert key key (as_json_keeps result) s.kept,
    ),
    ground (arith, ==_refl key, lookup-remove key key s.leased),
    ground (arith, ==_refl key, lookup-remove key key s.kept),
  )
