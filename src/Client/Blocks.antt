-- ===== src/Client/Blocks.antt =====
-- What the enqueues of the client do in a block that is given a transaction.
use jubs.Common.{
  ◌≡◌, refl, false, none, some, List, [], ◌∷◌, ◌++◌, map, append-nil, append_assoc, All,
}
use jubs.Text.{Text}
use jubs.Value.{Value, undefined}
use jubs.Fault.{refused, unique_in_outbox}
use jubs.Result.{ok, err}
use jubs.Effects.{pure, ◌>>◌}
use jubs.Definition.{JobDefinition, settings, slots_of, Delivery, ResolvedUnique, relay}
use jubs.Delivery.{resolve_delivery}
use jubs.Migration.{validate_payload}
use jubs.Envelope.{Envelope, write_envelope}
use jubs.Handlers.{JobsConfig}
use jubs.Atomic.{
  InScope, WriteEnvelopes, in_atomic_block, hold_or_deliver, outside, run_atomic_block, write_all,
}
use jubs.Atomic.Block.{in_block, resolved-tt}
use jubs.Client.{Client, enqueue, held_or_named, envelope_for_outbox, atomic}

-- A call of `enqueue`: its definition and its payload.
abbrev pub Call : Type 0
Call = JobDefinition × Value

-- The call is of a job without slots, and it resolves to this delivery.
abbrev pub ResolvesTo : Delivery → Call → Type 0
ResolvesTo delivery (definition, v) =
    (slots_of definition ≡ [])
    × (validated : Value) × (validate_payload definition v ≡ ok validated)
    × (resolve_delivery definition validated ≡ ok delivery)

abbrev pub IsPlain : Call → Type 0
IsPlain call = (delivery : Delivery) × ResolvesTo delivery call × (delivery.unique ≡ none)

-- The envelope of the call's row in an outbox.
abbrev pub row_of : Call → Envelope
row_of (definition, v) = write_envelope definition v relay

module _ {S : Type 0} (config : JobsConfig S) where
  -- Code that makes calls one after the other.
  abbrev pub enqueue_all : List Call → Client S (Unit {0})
  enqueue_all [] = pure tt
  enqueue_all ((definition, v) ∷ calls) = enqueue config definition v undefined >> enqueue_all calls

  enqueue-plain :
      (call : Call) (write : WriteEnvelopes S) (written : List Envelope) (o : S)
      → IsPlain call
      → enqueue config call.0 call.1 undefined (in_block (some write) [] written o)
        ≡ (ok none, in_block (some write) [] (written ++ row_of call ∷ []) o)
  unfolding enqueue held_or_named hold_or_deliver envelope_for_outbox write_envelope
  enqueue-plain (definition, v) write written o
        (delivery, (single, validated, valid, resolves), free) =
      rw (single, valid, resolves, free) refl

  enqueue_unique :
      (call : Call) (write : WriteEnvelopes S) (written : List Envelope) (o : S)
      (delivery : Delivery) (unique : ResolvedUnique)
      → ResolvesTo delivery call
      → delivery.unique ≡ some unique
      → enqueue config call.0 call.1 undefined (in_block (some write) [] written o) ≡ (
        err (refused (unique_in_outbox (settings call.0).name)),
        in_block (some write) [] written o,
      )
  unfolding enqueue held_or_named hold_or_deliver envelope_for_outbox write_envelope
  enqueue_unique (definition, v) write written o delivery unique
        (single, validated, valid, resolves) declared =
      rw (single, valid, resolves, declared) refl

  enqueue_all-plain :
      (calls : List Call) (write : WriteEnvelopes S) (written : List Envelope) (o : S)
      → All IsPlain calls
      → enqueue_all calls (in_block (some write) [] written o)
        ≡ (ok tt, in_block (some write) [] (written ++ map row_of calls) o)
  enqueue_all-plain [] write written o plain = rw (append-nil written) refl
  enqueue_all-plain (call ∷ calls) write written o (plain, all_plain) =
      rw
        (
          enqueue-plain call write written o plain,
          enqueue_all-plain calls write (written ++ row_of call ∷ []) o all_plain,
          append_assoc written (row_of call ∷ []) (map row_of calls),
        )
        refl

  -- In a block that is given a transaction and that is not in an open block, calls of `enqueue` for jobs
  -- without slots and without uniqueness, whose payloads are accepted, ask the driver for nothing: they
  -- hand the outbox one row for each call, in their order and with the origin of a relay, in one write.
  pub atomic-enqueue_all :
      {Tx : Type 0} (calls : List Call) (save : Tx → WriteEnvelopes S) (tx : Tx)
      (s : InScope S Text)
      → All IsPlain calls
      → in_atomic_block s ≡ false
      → atomic (enqueue_all calls) (some save) (some tx) s
        ≡ outside (write_all (save tx) (map row_of calls)) s
  unfolding atomic run_atomic_block
  atomic-enqueue_all calls save tx s plain free =
      rw (free, enqueue_all-plain calls (save tx) [] s.outer plain)
        (rw (resolved-tt (write_all (save tx) (map row_of calls) s.outer).0) refl)

  -- A call of `enqueue` for a job with uniqueness, as the last one of such a block, makes the block throw,
  -- and nothing of the block is written.
  pub atomic_unique :
      {Tx : Type 0} (calls : List Call) (last : Call) (delivery : Delivery)
      (unique : ResolvedUnique) (save : Tx → WriteEnvelopes S) (tx : Tx) (s : InScope S Text)
      → All IsPlain calls
      → ResolvesTo delivery last
      → delivery.unique ≡ some unique
      → in_atomic_block s ≡ false
      → atomic (enqueue_all calls >> enqueue config last.0 last.1 undefined) (some save) (some tx) s
        ≡ (err (refused (unique_in_outbox (settings last.0).name)), s)
  unfolding atomic run_atomic_block
  atomic_unique calls last delivery unique save tx s plain resolves declared free =
      rw
        (
          free,
          enqueue_all-plain calls (save tx) [] s.outer plain,
          enqueue_unique last (save tx) (map row_of calls) s.outer delivery unique resolves
              declared,
        )
        refl
