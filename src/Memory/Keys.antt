-- ===== src/Memory/Keys.antt =====
-- src/testing/index.ts: the idempotency store of the driver in memory. `uuid n` is the token of the
-- n-th lease (`randomUUID`).
pub mod Laws
use jubs.Common.{ℕ, suc, Bool, true, false, Option, none, some, if◌then◌else◌}
use jubs.Text.{Text, ◌==◌}
use jubs.Value.{Value, undefined, json_copy}
use jubs.Result.{ok}
use jubs.Effects.{Exec}
use jubs.Assoc.{Assoc, lookup, insert, remove, has}
use jubs.Idempotency.{
  KeptResult, IdempotencyLease, acquired, held, complete, ForgetOutcome, forgotten, not_found,
  running, IdempotencyStore,
}

pub record MemoryKeys : Type 0 where
  pub leased : Assoc Text
  pub kept : Assoc KeptResult
  pub minted : ℕ

-- `asJsonKeeps`: a result that is `undefined` goes.
unfoldable pub as_json_keeps : KeptResult → KeptResult
as_json_keeps none = none
as_json_keeps (some undefined) = none
as_json_keeps (some v) = some (json_copy v)

abbrev finish_by : Text → Text → KeptResult → MemoryKeys → Option Text → MemoryKeys
finish_by key token result s none = record s {
  leased = remove key s.leased;
  kept = insert key (as_json_keeps result) s.kept;
}
finish_by key token result s (some holder) =
    if holder == token
    then record s { leased = remove key s.leased; kept = insert key (as_json_keeps result) s.kept }
    else s

abbrev release_by : Text → Text → MemoryKeys → Option Text → MemoryKeys
release_by key token s none = s
release_by key token s (some holder) =
    if holder == token then record s { leased = remove key s.leased } else s

abbrev forget_in : Text → Exec MemoryKeys ForgetOutcome
forget_in key s =
    if has key s.leased
    then (ok running, s)
    else if has key s.kept
    then (ok forgotten, record s { kept = remove key s.kept })
    else (ok not_found, s)

module _ (uuid : ℕ → Text) where
  abbrev acquire_by :
      Text → MemoryKeys → Option KeptResult → Option Text → IdempotencyLease × MemoryKeys
  acquire_by key s (some result) holder = (complete result, s)
  acquire_by key s none (some holder) = (held, s)
  acquire_by key s none none = (
    acquired (uuid s.minted),
    record s { leased = insert key (uuid s.minted) s.leased; minted = suc s.minted },
  )

  abbrev acquire_in : Text → ℕ → Exec MemoryKeys IdempotencyLease
  acquire_in key lease_ms s =
      let (lease, s') = acquire_by key s (lookup key s.kept) (lookup key s.leased) in (ok lease, s')

  -- `idempotency` of `memoryDriver`
  unfoldable pub memory_idempotency : IdempotencyStore MemoryKeys
  memory_idempotency = record {
    acquire = acquire_in;
    renew = λ key token lease_ms s. (ok tt, s);
    finish = λ key token result retain_for_ms s.
        (ok tt, finish_by key token result s (lookup key s.leased));
    release = λ key token s. (ok tt, release_by key token s (lookup key s.leased));
    forget = forget_in;
  }
