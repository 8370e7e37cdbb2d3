-- ===== src/Redis.antt =====
-- src/RedisDriver.ts: the driver over Redis. Redis and BullMQ are parameters; no key expires between
-- two steps of a theorem.
pub mod Keys
pub mod Options
pub mod Flow
pub mod Cancel
pub mod Bull
pub mod Cancelling
pub mod Schedules
pub mod Driver
pub mod Worker
pub mod Connection
use jubs.Common.{ℕ, ◌<◌, ◌≡◌, false, Option, none, some}
use jubs.Text.{Text, ◌==◌}

-- The commands of Redis that the scripts call, over what Redis keeps.
pub record Redis (R : Type 0) : Type 0 where
  pub get : (key : Text) → R → Option Text
  -- `SET key value PX ttl`
  pub set_for : (key value : Text) (ttl_ms : ℕ) → R → R
  -- `PEXPIRE key ttl`
  pub expire_in : (key : Text) (ttl_ms : ℕ) → R → R
  pub delete : (key : Text) → R → R

-- What the scripts rely on: what Redis documents of these commands, for a time to live above 0.
pub record RedisLaws {R : Type 0} (redis : Redis R) : Type 0 where
  pub get-set_for :
      (key value : Text) (ttl_ms : ℕ) (s : R)
      → 0 < ttl_ms
      → redis.get key (redis.set_for key value ttl_ms s) ≡ some value
  pub get-expire_in :
      (key asked : Text) (ttl_ms : ℕ) (s : R)
      → 0 < ttl_ms
      → redis.get asked (redis.expire_in key ttl_ms s) ≡ redis.get asked s
  pub get-delete : (key : Text) (s : R) → redis.get key (redis.delete key s) ≡ none
  pub get-delete_other :
      (gone asked : Text) (s : R)
      → (gone == asked) ≡ false
      → redis.get asked (redis.delete gone s) ≡ redis.get asked s
