-- ===== src/Redis/Keys/Laws.antt =====
-- The idempotency store over Redis refines the contract of an idempotency store.
use jubs.Common.{
  ℕ, ◌<◌, ◌≡◌, refl, ap, true, false, Option, none, some, arith, Bool-cases, inl, inr,
}
use jubs.Text.{Text, ◌==◌, starts_with}
use jubs.Text.Laws.{==_sound}
use jubs.Result.{Result, ok}
use jubs.Idempotency.{KeptResult}
use jubs.Idempotency.Contract.{
  KeyState, absent, held_by, completed, acquire_answer, after_acquire, after_finish, after_release,
  forget_answer, after_forget,
}
use jubs.Redis.{Redis, RedisLaws}
use jubs.Redis.Keys.{
  RedisState, redis_key, held_by_text, running_prefix, read_lease, acquire_script, complete_script,
  renew_script, release_script, forget_script, redis_idempotency, read_forgotten,
}

module _ {R : Type 0} (redis : Redis R) (laws : RedisLaws redis) (uuid : ℕ → Text)
    (stringify : KeptResult → Text) (parse : Text → Result KeptResult)
    (as_json : KeptResult → KeptResult)
    (parse-stringify : (kept : KeptResult) → parse (stringify kept) ≡ ok (as_json kept))
    (stringify-starts_with : (kept : KeptResult)
      → starts_with (stringify kept) running_prefix ≡ false) where
  -- The value under a key stands for a state of the key.
  abbrev pub Represents : Option Text → KeyState → Type 0
  Represents none absent = Unit
  Represents (some current) (held_by token) = current ≡ held_by_text token
  Represents (some current) (completed kept) =
      (starts_with current running_prefix ≡ false) × (parse current ≡ ok kept)
  Represents _ _ = ⊥

  abbrev pub Shows : Text → RedisState R → KeyState → Type 0
  Shows key s k = Represents (redis.get (redis_key key) s.stored) k

  held-starts_with : (token : Text) → starts_with (held_by_text token) running_prefix ≡ true
  unfolding starts_with
  held-starts_with token = refl

  held-== : (t token : Text) → (held_by_text t == held_by_text token) ≡ (t == token)
  unfolding ◌==◌
  held-== t token = refl

  -- A kept result is no token.
  kept-== :
      (current token : Text)
      → starts_with current running_prefix ≡ false
      → (current == held_by_text token) ≡ false
  kept-== current token kept = elim (Bool-cases (current == held_by_text token)) [
    | inl same ↦
        let of_token =
          ap (λ t. starts_with t running_prefix) (==_sound current (held_by_text token) same) in
        let starts = held-starts_with token in cc
    | inr other ↦ other
  ]

  -- What a finish over Redis leads to: the contract, but that an absent key is completed.
  abbrev pub finished_over_redis : Text → KeptResult → KeyState → KeyState
  finished_over_redis token kept absent = completed kept
  finished_over_redis token kept k = after_finish token kept k

  acquires :
      (key token : Text) (ttl_ms : ℕ) (lasts : 0 < ttl_ms) (s : R) (found : Option Text)
      (k : KeyState)
      → redis.get key s ≡ found
      → Represents found k
      → let (reply, s') = acquire_script redis key (held_by_text token) ttl_ms s in
        (read_lease parse reply token ≡ ok (acquire_answer token k))
        × Represents (redis.get key s') (after_acquire token k)
  unfolding acquire_script read_lease
  acquires key token ttl_ms lasts s none absent is shown =
      rw (acquire_script, is, laws.get-set_for key (held_by_text token) ttl_ms s lasts) (refl, refl)
  acquires key token ttl_ms lasts s (some current) (held_by t) is shown =
      rw (acquire_script, is, shown, held-starts_with t, is) (refl, shown)
  acquires key token ttl_ms lasts s (some current) (completed kept) is (no_token, reads) =
      rw (acquire_script, is, no_token, reads, is) (refl, (no_token, reads))
  acquires key token ttl_ms lasts s none (held_by t) is shown = elim shown [ ]
  acquires key token ttl_ms lasts s none (completed kept) is shown = elim shown [ ]
  acquires key token ttl_ms lasts s (some current) absent is shown = elim shown [ ]

  finishes :
      (key token : Text) (result : KeptResult) (ttl_ms : ℕ) (lasts : 0 < ttl_ms) (s : R)
      (found : Option Text) (k : KeyState)
      → redis.get key s ≡ found
      → Represents found k
      → Represents
          (redis.get key
            (complete_script redis key (held_by_text token) (stringify result) ttl_ms s))
          (finished_over_redis token (as_json result) k)
  unfolding complete_script
  finishes key token result ttl_ms lasts s none absent is shown =
      rw (complete_script, is, laws.get-set_for key (stringify result) ttl_ms s lasts)
        (stringify-starts_with result, parse-stringify result)
  finishes key token result ttl_ms lasts s (some current) (held_by t) is shown =
      elim (Bool-cases (t == token)) [
        | inl same ↦
            rw
              (
                complete_script,
                is,
                shown,
                held-== t token,
                same,
                laws.get-set_for key (stringify result) ttl_ms s lasts,
              )
              (stringify-starts_with result, parse-stringify result)
        | inr other ↦ rw (complete_script, is, shown, held-== t token, other, is) shown
      ]
  finishes key token result ttl_ms lasts s (some current) (completed kept) is (no_token, reads) =
      rw (complete_script, is, kept-== current token no_token, is) (no_token, reads)
  finishes key token result ttl_ms lasts s none (held_by t) is shown = elim shown [ ]
  finishes key token result ttl_ms lasts s none (completed kept) is shown = elim shown [ ]
  finishes key token result ttl_ms lasts s (some current) absent is shown = elim shown [ ]

  releases :
      (key token : Text) (s : R) (found : Option Text) (k : KeyState)
      → redis.get key s ≡ found
      → Represents found k
      → Represents
          (redis.get key (release_script redis key (held_by_text token) s))
          (after_release token k)
  unfolding release_script
  releases key token s none absent is shown = rw (is, is) tt
  releases key token s (some current) (held_by t) is shown = elim (Bool-cases (t == token)) [
    | inl same ↦ rw (is, shown, held-== t token, same, laws.get-delete key s) tt
    | inr other ↦ rw (is, shown, held-== t token, other, is) shown
  ]
  releases key token s (some current) (completed kept) is (no_token, reads) =
      rw (is, kept-== current token no_token, is) (no_token, reads)
  releases key token s none (held_by t) is shown = elim shown [ ]
  releases key token s none (completed kept) is shown = elim shown [ ]
  releases key token s (some current) absent is shown = elim shown [ ]

  renews :
      (key token : Text) (ttl_ms : ℕ) (lasts : 0 < ttl_ms) (s : R)
      → redis.get key (renew_script redis key (held_by_text token) ttl_ms s) ≡ redis.get key s
  unfolding renew_script
  renews key token ttl_ms lasts s = ground (arith, laws.get-expire_in key key ttl_ms s lasts)

  forgets :
      (key : Text) (s : R) (found : Option Text) (k : KeyState)
      → redis.get key s ≡ found
      → Represents found k
      → let (reply, s') = forget_script redis key running_prefix s in
        (read_forgotten reply ≡ forget_answer k) × Represents (redis.get key s') (after_forget k)
  unfolding forget_script
  forgets key s none absent is shown = rw (forget_script, is, is) (refl, tt)
  forgets key s (some current) (held_by t) is shown =
      rw (forget_script, is, shown, held-starts_with t, is) (refl, shown)
  forgets key s (some current) (completed kept) is (no_token, reads) =
      rw (forget_script, is, no_token, laws.get-delete key s) (refl, tt)
  forgets key s none (held_by t) is shown = elim shown [ ]
  forgets key s none (completed kept) is shown = elim shown [ ]
  forgets key s (some current) absent is shown = elim shown [ ]

  -- Where the value under a key stands for a state of the key (no value for an absent one, a token for a
  -- held one, the text of a kept result for a complete one), the store over Redis answers an acquire and a
  -- forget by that state, and every operation leaves a value that stands for the state which the contract
  -- of a store leads to. `JSON.parse` reads back what `JSON.stringify` writes, which never starts like a
  -- token, every lease and every result is kept for a time above 0, and no key expires meanwhile. One case
  -- departs from the contract: a finish completes a key that is absent.
  pub redis_idempotency-refines :
      (key token : Text) (result : KeptResult) (ms : ℕ) (s : RedisState R) (k : KeyState)
      → 0 < ms
      → Shows key s k
      → let store = redis_idempotency redis uuid stringify parse in
        let (lease, acquired) = store.acquire key ms s in
        let (answer, forgotten) = store.forget key s in
        ((lease ≡ ok (acquire_answer (uuid s.minted) k))
          × Shows key acquired (after_acquire (uuid s.minted) k))
        × Shows key (store.renew key token ms s).1 k
        × Shows key
            (store.finish key token result ms s).1
            (finished_over_redis token (as_json result) k)
        × Shows key (store.release key token s).1 (after_release token k)
        × (answer ≡ ok (forget_answer k))
        × Shows key forgotten (after_forget k)
  unfolding redis_idempotency
  redis_idempotency-refines key token result ms s k lasts shown =
      let value = redis.get (redis_key key) s.stored in
      let (answer, after) = forgets (redis_key key) s.stored value k refl shown in
      (
        acquires (redis_key key) (uuid s.minted) ms lasts s.stored value k refl shown,
        rw (renews (redis_key key) token ms lasts s.stored) shown,
        finishes (redis_key key) token result ms lasts s.stored value k refl shown,
        releases (redis_key key) token s.stored value k refl shown,
        ap ok answer,
        after,
      )
