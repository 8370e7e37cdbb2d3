-- ===== src/Redis/Keys.antt =====
-- src/RedisDriver.ts: the idempotency store over Redis, its scripts included. `uuid n` is the n-th
-- token (`randomUUID`); `JSON.stringify` and `JSON.parse` of a kept result are parameters.
pub mod Laws
use jubs.Common.{ℕ, suc, Bool, true, false, Option, none, some, ◌++◌, eqb, if◌then◌else◌}
use jubs.Text.{Text, codes, ◌==◌, starts_with}
use jubs.Result.{Result, ok, err, ◌>>=◌}
use jubs.Effects.{Exec}
use jubs.Idempotency.{
  KeptResult, IdempotencyLease, acquired, held, complete, ForgetOutcome, forgotten, not_found,
  running, IdempotencyStore,
}
use jubs.Redis.{Redis}

abbrev pub idempotency_key_prefix : Text
idempotency_key_prefix = codes "jubs:idem:"

abbrev pub running_prefix : Text
running_prefix = codes "running:"

-- What Redis keeps, and how many tokens were minted.
pub record RedisState (R : Type 0) : Type 0 where
  pub stored : R
  pub minted : ℕ

-- `redisKey` and `heldBy`
abbrev pub redis_key : Text → Text
redis_key key = idempotency_key_prefix ++ key

abbrev pub held_by_text : Text → Text
held_by_text token = running_prefix ++ token

module _ (parse : Text → Result KeptResult) where
  abbrev lease_of_text : Text → Bool → Result IdempotencyLease
  lease_of_text current true = ok held
  lease_of_text current false = parse current >>= λ kept. ok (complete kept)

  -- `readLease`, of the value that the script found, if any
  unfoldable pub read_lease : Option Text → Text → Result IdempotencyLease
  read_lease none token = ok (acquired token)
  read_lease (some current) token = lease_of_text current (starts_with current running_prefix)

-- `readForgotten`
abbrev pub read_forgotten : ℕ → ForgetOutcome
read_forgotten reply = if eqb reply 1 then forgotten else if eqb reply 2 then running else not_found

module _ {R : Type 0} (redis : Redis R) where
  -- `ACQUIRE_LUA`
  unfoldable pub acquire_script : (key value : Text) → ℕ → R → Option Text × R
  acquire_script key value ttl_ms s = elim (redis.get key s) [
    | none ↦ (none, redis.set_for key value ttl_ms s)
    | some current ↦ (some current, s)
  ]

  abbrev is_value : Option Text → Text → Bool
  is_value none value = false
  is_value (some current) value = current == value

  -- `RENEW_LUA`
  unfoldable pub renew_script : (key value : Text) → ℕ → R → R
  renew_script key value ttl_ms s =
      if is_value (redis.get key s) value then redis.expire_in key ttl_ms s else s

  -- `COMPLETE_LUA`
  unfoldable pub complete_script : (key value result : Text) → ℕ → R → R
  complete_script key value result ttl_ms s = elim (redis.get key s) [
    | none ↦ redis.set_for key result ttl_ms s
    | some current ↦ if current == value then redis.set_for key result ttl_ms s else s
  ]

  -- `RELEASE_LUA`
  unfoldable pub release_script : (key value : Text) → R → R
  release_script key value s = if is_value (redis.get key s) value then redis.delete key s else s

  -- `FORGET_LUA`
  unfoldable pub forget_script : (key prefix : Text) → R → ℕ × R
  forget_script key prefix s = elim (redis.get key s) [
    | none ↦ (0, s)
    | some current ↦ if starts_with current prefix then (2, s) else (1, redis.delete key s)
  ]

  module _ (uuid : ℕ → Text) (stringify : KeptResult → Text)
      (parse : Text → Result KeptResult) where
    abbrev acquire_over : Text → ℕ → Exec (RedisState R) IdempotencyLease
    acquire_over key lease_ms s =
        let token = uuid s.minted in
        let (reply, r) = acquire_script (redis_key key) (held_by_text token) lease_ms s.stored in
        (read_lease parse reply token, record { stored = r; minted = suc s.minted })

    abbrev forget_over : Text → Exec (RedisState R) ForgetOutcome
    forget_over key s =
        let (reply, r) = forget_script (redis_key key) running_prefix s.stored in
        (ok (read_forgotten reply), record s { stored = r })

    abbrev running_script : (R → R) → Exec (RedisState R) (Unit {0})
    running_script f s = (ok tt, record s { stored = f s.stored })

    -- `redisIdempotency`
    unfoldable pub redis_idempotency : IdempotencyStore (RedisState R)
    redis_idempotency = record {
      acquire = acquire_over;
      renew = λ key token lease_ms.
          running_script (renew_script (redis_key key) (held_by_text token) lease_ms);
      finish = λ key token kept retain_for_ms.
          running_script
            (complete_script (redis_key key) (held_by_text token) (stringify kept) retain_for_ms);
      release = λ key token. running_script (release_script (redis_key key) (held_by_text token));
      forget = forget_over;
    }
