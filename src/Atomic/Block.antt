-- ===== src/Atomic/Block.antt =====
-- What an atomic block does with the enqueues that are made in it.
use jubs.Common.{
  ◌≡◌, refl, inl, inr, false, Option, none, some, List, [], ◌∷◌, ◌++◌, append-nil, append_assoc,
}
use jubs.Fault.{Thrown}
use jubs.Result.{Result, Result-cases, >>=-eq-ok, ◌>>=◌, ok, err}
use jubs.Effects.{Exec, pure, raise, continue, ◌>>◌}
use jubs.Envelope.{Envelope}
use jubs.Atomic.{
  HeldEnqueue, InScope, WriteEnvelopes, in_atomic_block, hold_or_deliver, flush, run_atomic_block,
  opened, resolved, outside, write_all,
}

pub resolved-tt : (r : Result (Unit {0})) → resolved tt r ≡ r
resolved-tt (ok _) = refl
resolved-tt (err e) = refl

-- An action that is followed by a throw throws.
>>-raise :
    {S A : Type 0} (r : Result (Unit {0})) (e : Thrown) (s : S)
    → (thrown : Thrown) × (continue r (λ _. raise {A = A} e) s ≡ (err thrown, s))
>>-raise (ok _) e s = (e, refl)
>>-raise (err e') e s = (e', refl)

module _ {S D : Type 0} where
  -- Code that makes enqueues one after the other.
  abbrev pub enqueue_each : List (HeldEnqueue S D) → Exec (InScope S D) (Unit {0})
  enqueue_each [] = pure tt
  enqueue_each (h ∷ hs) = hold_or_deliver h >> enqueue_each hs

  abbrev pub in_block :
      Option (WriteEnvelopes S) → List (HeldEnqueue S D) → List Envelope → S → InScope S D
  in_block write held written outer = record {
    outer = outer;
    scope = some (record { held = held; written = written; write = write; closed = false });
  }

  enqueue_each-held :
      (hs held : List (HeldEnqueue S D)) (o : S)
      → enqueue_each hs (in_block none held [] o) ≡ (ok tt, in_block none (held ++ hs) [] o)
  unfolding hold_or_deliver
  enqueue_each-held [] held o = rw (append-nil held)
  enqueue_each-held (h ∷ hs) held o =
      rw (enqueue_each-held hs (held ++ h ∷ []) o, append_assoc held (h ∷ []) hs)

  enqueue_each-outer :
      (hs : List (HeldEnqueue S D)) (write : Option (WriteEnvelopes S))
      (held : List (HeldEnqueue S D)) (written : List Envelope) (o : S)
      → (enqueue_each hs (in_block write held written o)).1.outer ≡ o
  unfolding hold_or_deliver
  enqueue_each-outer [] write held written o = refl
  enqueue_each-outer (h ∷ hs) none held written o =
      enqueue_each-outer hs none (held ++ h ∷ []) written o
  enqueue_each-outer (h ∷ hs) (some write) held written o = elim (Result-cases h.for_outbox) [
    | inl (envelope, row) ↦
        rw row (enqueue_each-outer hs (some write) held (written ++ envelope ∷ []) o)
    | inr (e, refusal) ↦ rw refusal
  ]

  -- A block that is not in an open block flushes, once its body has resolved, all that was
  -- enqueued in it, in the order of the enqueues and those of a block inside it among them, and it
  -- delivers nothing before that.
  pub run_atomic_block-flush :
      (xs ys zs : List (HeldEnqueue S D)) (write : Option (WriteEnvelopes S)) (s : InScope S D)
      → in_atomic_block s ≡ false
      → run_atomic_block
          (enqueue_each xs >> run_atomic_block (enqueue_each ys) write >> enqueue_each zs)
          none
          s
        ≡ outside (flush (xs ++ ys ++ zs)) s
  unfolding run_atomic_block in_atomic_block
  run_atomic_block-flush xs ys zs write s free =
      rw
        (
          free,
          enqueue_each-held xs [] s.outer,
          enqueue_each-held ys xs s.outer,
          enqueue_each-held zs (xs ++ ys) s.outer,
        )
        (rw (resolved-tt (flush (xs ++ ys ++ zs) s.outer).0))

  -- A block that is not in an open block and that makes enqueues and then throws has delivered and
  -- written nothing: the program is in the state that it was in.
  pub run_atomic_block-raise :
      (hs : List (HeldEnqueue S D)) (write : Option (WriteEnvelopes S)) (e : Thrown)
      (s : InScope S D)
      → in_atomic_block s ≡ false
      → (run_atomic_block {A = Unit {0}} (enqueue_each hs >> raise e) write s).1 ≡ s
  unfolding run_atomic_block in_atomic_block
  run_atomic_block-raise hs write e s free =
      let (thrown, raised) =
        >>-raise {A = Unit {0}} (enqueue_each hs (opened write s.outer)).0 e
          (enqueue_each hs (opened write s.outer)).1 in
      rw (free, raised, enqueue_each-outer hs write [] [] s.outer)

  -- The rows of some enqueues: the first one that no row can hold refuses.
  abbrev pub rows_of : List (HeldEnqueue S D) → Result (List Envelope)
  rows_of [] = ok []
  rows_of (h ∷ hs) = h.for_outbox >>= λ row. rows_of hs >>= λ rows. ok (row ∷ rows)

  enqueue_each-written :
      (hs : List (HeldEnqueue S D)) (write : WriteEnvelopes S) (written rows : List Envelope)
      (o : S)
      → rows_of hs ≡ ok rows
      → enqueue_each hs (in_block (some write) [] written o)
        ≡ (ok tt, in_block (some write) [] (written ++ rows) o)
  unfolding hold_or_deliver
  enqueue_each-written [] write written rows o h =
      let same : [] ≡ rows = cc in rw (← same, append-nil written)
  enqueue_each-written (x ∷ hs) write written rows o h =
      let (row, first, more) = >>=-eq-ok x.for_outbox _ h in
      let (rest, others, all) = >>=-eq-ok (rows_of hs) _ more in
      let same : row ∷ rest ≡ rows = cc in
      rw (
        first,
        enqueue_each-written hs write (written ++ row ∷ []) rest o others,
        ← same,
        append_assoc written (row ∷ []) rest,
      )

  -- A block over an outbox, not in an open block, writes the rows of all its enqueues in one call,
  -- if each has a row, and delivers nothing; with no enqueue there is no call.
  pub run_atomic_block-write :
      (hs : List (HeldEnqueue S D)) (write : WriteEnvelopes S) (rows : List Envelope)
      (s : InScope S D)
      → in_atomic_block s ≡ false
      → rows_of hs ≡ ok rows
      → run_atomic_block (enqueue_each hs) (some write) s ≡ outside (write_all write rows) s
  unfolding run_atomic_block in_atomic_block
  run_atomic_block-write hs write rows s free rowed =
      rw (free, enqueue_each-written hs write [] rows s.outer rowed)
        (rw (resolved-tt (write_all write rows s.outer).0))
