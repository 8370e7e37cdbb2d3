-- ===== src/Atomic.antt =====
-- src/Atomic.ts: a block that holds its enqueues until it resolves. `AsyncLocalStorage` is a part of
-- the state: the scope that the running code sees. A callback that outlives its block sees the
-- scope of that block, closed.
pub mod Flush
pub mod Block
use jubs.Common.{
  ℕ, zero, suc, ◌+◌, Bool, true, false, Option, none, some, List, [], ◌∷◌, ◌++◌, length, is_some,
}
use jubs.Fault.{Thrown, refused, block_ended, flush_failed}
use jubs.Result.{Result, ok, err}
use jubs.Effects.{Exec, pure, raise, handle}
use jubs.Envelope.{Envelope}

-- `HeldEnqueue`: the call that delivers it, and the envelope that an outbox keeps in its place.
pub record HeldEnqueue (S D : Type 0) : Type 0 where
  pub deliver : Exec S D
  pub for_outbox : Result Envelope

abbrev pub WriteEnvelopes : Type 0 → Type 0
WriteEnvelopes S = List Envelope → Exec S (Unit {0})

pub record AtomicScope (S D : Type 0) : Type 0 where
  pub held : List (HeldEnqueue S D)
  pub written : List Envelope
  pub write : Option (WriteEnvelopes S)
  pub closed : Bool

-- What the program is in, and the scope that the running code sees.
pub record InScope (S D : Type 0) : Type 0 where
  pub outer : S
  pub scope : Option (AtomicScope S D)

abbrev now : {D : Type 0} → Result D → Result (Option D)
now (ok d) = ok (some d)
now (err e) = err e

-- An outbox is not called with no rows.
abbrev pub write_all : {S : Type 0} → WriteEnvelopes S → List Envelope → Exec S (Unit {0})
write_all write [] s = (ok tt, s)
write_all write (e ∷ es) s = write (e ∷ es) s

-- A block gives back its own result once what it held is settled.
abbrev pub resolved : {A : Type 0} → A → Result (Unit {0}) → Result A
resolved a (ok u) = ok a
resolved a (err e) = err e

module _ {S D : Type 0} where
  abbrev is_open : Option (AtomicScope S D) → Bool
  is_open none = false
  is_open (some scope) = elim scope.closed [ true ↦ false | false ↦ true ]

  -- `inAtomicBlock`
  unfoldable pub in_atomic_block : InScope S D → Bool
  in_atomic_block s = is_open s.scope

  -- An action on what is outside the scope.
  abbrev pub outside : {A : Type 0} → Exec S A → Exec (InScope S D) A
  outside action s = let (r, o) = action s.outer in (r, record { outer = o; scope = s.scope })

  abbrev write_down : AtomicScope S D → Result Envelope → Exec (InScope S D) (Option D)
  write_down scope (err e) s = (err e, s)
  write_down scope (ok envelope) s = (
    ok none,
    record {
      outer = s.outer;
      scope = some (record scope { written = scope.written ++ envelope ∷ [] });
    },
  )

  abbrev hold :
      AtomicScope S D → HeldEnqueue S D → Option (WriteEnvelopes S) → Exec (InScope S D) (Option D)
  hold scope enqueue (some write) s = write_down scope enqueue.for_outbox s
  hold scope enqueue none s = (
    ok none,
    record { outer = s.outer; scope = some (record scope { held = scope.held ++ enqueue ∷ [] }) },
  )

  abbrev hold_in : HeldEnqueue S D → AtomicScope S D → Bool → Exec (InScope S D) (Option D)
  hold_in enqueue scope true s = (err (refused (block_ended (is_some scope.write))), s)
  hold_in enqueue scope false s = hold scope enqueue scope.write s

  abbrev hold_by : HeldEnqueue S D → Option (AtomicScope S D) → Exec (InScope S D) (Option D)
  hold_by enqueue none s = let (r, s') = outside enqueue.deliver s in (now r, s')
  hold_by enqueue (some scope) s = hold_in enqueue scope scope.closed s

  -- `holdOrDeliver`: `none` for an enqueue that is held.
  unfoldable pub hold_or_deliver : HeldEnqueue S D → Exec (InScope S D) (Option D)
  hold_or_deliver enqueue s = hold_by enqueue s.scope s

  abbrev pub flush_next : (index total : ℕ) → Exec S (Unit {0}) → Result D → Exec S (Unit {0})
  flush_next index total rest (ok d) s = rest s
  flush_next index total rest (err e) s = (err (flush_failed index total e), s)

  abbrev pub flush_from : (index total : ℕ) → List (HeldEnqueue S D) → Exec S (Unit {0})
  flush_from index total [] s = (ok tt, s)
  flush_from index total (h ∷ hs) s =
      let (r, s') = h.deliver s in flush_next index total (flush_from (index + 1) total hs) r s'

  -- `flush`. The number that it abandons is the rest of those it held.
  unfoldable pub flush : List (HeldEnqueue S D) → Exec S (Unit {0})
  flush held = flush_from 0 (length held) held

  abbrev settle_by : AtomicScope S D → Option (WriteEnvelopes S) → Exec S (Unit {0})
  settle_by scope (some write) = write_all write scope.written
  settle_by scope none = flush scope.held

  abbrev pub settle : {A : Type 0} → Option (AtomicScope S D) → Result A → Exec S A
  settle scope (err e) s = (err e, s)
  settle none (ok a) s = (ok a, s)
  settle (some scope) (ok a) s = let (r, s') = settle_by scope scope.write s in (resolved a r, s')

  abbrev pub opened : Option (WriteEnvelopes S) → S → InScope S D
  opened write outer = record {
    outer = outer;
    scope = some (record { held = []; written = []; write = write; closed = false });
  }

  abbrev within :
      {A : Type 0} → Bool → Exec (InScope S D) A → Option (WriteEnvelopes S) → Exec (InScope S D) A
  within true run write s = run s
  within false run write s =
      let (r, inside) = run (opened write s.outer) in
      let (r', outer) = settle inside.scope r inside.outer in
      (r', record { outer = outer; scope = s.scope })

  -- `runAtomicBlock`
  unfoldable pub run_atomic_block :
      {A : Type 0} → Exec (InScope S D) A → Option (WriteEnvelopes S) → Exec (InScope S D) A
  run_atomic_block run write s = within (in_atomic_block s) run write s
