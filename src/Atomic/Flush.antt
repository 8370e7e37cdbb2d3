-- ===== src/Atomic/Flush.antt =====
-- What a block that flushes has delivered.
use jubs.Common.{ℕ, suc, ◌+◌, ◌≡◌, refl, subst, List, [], ◌∷◌, length, arith}
use jubs.Fault.{Thrown, flush_failed}
use jubs.Result.{Result, ok, err}
use jubs.Atomic.{HeldEnqueue, flush, flush_from, flush_next}

-- Every enqueue is delivered, once and in its order, from one state to the other.
pub data Delivers {S D : Type 0} : List (HeldEnqueue S D) → S → S → Type 0 where
  done : (s : S) → Delivers [] s s
  next :
      (h : HeldEnqueue S D) (hs : List (HeldEnqueue S D)) (d : D) (s s' s'' : S)
      → h.deliver s ≡ (ok d, s')
      → Delivers hs s' s''
      → Delivers (h ∷ hs) s s''

-- The one enqueue that fails, after those before it were delivered.
pub data FailsAt {S D : Type 0} : List (HeldEnqueue S D) → ℕ → Thrown → S → S → Type 0 where
  here :
      (h : HeldEnqueue S D) (hs : List (HeldEnqueue S D)) (e : Thrown) (s s' : S)
      → h.deliver s ≡ (err e, s')
      → FailsAt (h ∷ hs) 0 e s s'
  there :
      (h : HeldEnqueue S D) (hs : List (HeldEnqueue S D)) (d : D) (n : ℕ) (e : Thrown)
      (s s' s'' : S)
      → h.deliver s ≡ (ok d, s')
      → FailsAt hs n e s' s''
      → FailsAt (h ∷ hs) (suc n) e s s''

-- How a flush from an index on ends.
pub data Flushed {S D : Type 0} (index total : ℕ) (held : List (HeldEnqueue S D)) (s : S)
    : Result (Unit {0}) × S → Type 0 where
  whole : (s' : S) → Delivers held s s' → Flushed index total held s (ok tt, s')
  part :
      (n : ℕ) (e : Thrown) (s' : S)
      → FailsAt held n e s s'
      → Flushed index total held s (err (flush_failed (index + n) total e), s')

zero_right : (n : ℕ) → n + 0 ≡ n
zero_right n = omega arith

module _ {S D : Type 0} where
  extend :
      (index total : ℕ) (h : HeldEnqueue S D) (hs : List (HeldEnqueue S D)) (d : D) (s s' : S)
      (out : Result (Unit {0}) × S)
      → h.deliver s ≡ (ok d, s')
      → Flushed (index + 1) total hs s' out
      → Flushed index total (h ∷ hs) s out
  extend index total h hs d s s' _ gives (whole s'' rest) =
      whole s'' (next h hs d s s' s'' gives rest)
  extend index total h hs d s s' _ gives (part n e s'' rest) =
      let shift : index + 1 + n ≡ index + suc n = omega arith in
      rw shift (part (suc n) e s'' (there h hs d n e s s' s'' gives rest))

  flush_next_lem :
      (index total : ℕ) (h : HeldEnqueue S D) (hs : List (HeldEnqueue S D)) (s : S)
      → ((s' : S) → Flushed (index + 1) total hs s' (flush_from (index + 1) total hs s'))
      → (r : Result D) (s' : S) → h.deliver s ≡ (r, s')
      → Flushed index total
          (h ∷ hs)
          s
          (flush_next index total (flush_from (index + 1) total hs) r s')
  flush_next_lem index total h hs s rest (ok d) s' gives =
      extend index total h hs d s s' _ gives (rest s')
  flush_next_lem index total h hs s rest (err e) s' fails =
      subst (λ k. Flushed index total (h ∷ hs) s (err (flush_failed k total e), s'))
        (zero_right index) (part 0 e s' (here h hs e s s' fails))

  flush_from_lem :
      (index total : ℕ) (held : List (HeldEnqueue S D)) (s : S)
      → Flushed index total held s (flush_from index total held s)
  flush_from_lem index total [] s = whole s (done s)
  flush_from_lem index total (h ∷ hs) s =
      flush_next_lem index total h hs s (flush_from_lem (index + 1) total hs) (h.deliver s).0
        (h.deliver s).1 refl

  -- A flush delivers all that is held in its order, or it delivers what is before the first enqueue
  -- that fails, tries nothing after it, and counts those that it delivered.
  pub flush_lem :
      (held : List (HeldEnqueue S D)) (s : S) → Flushed 0 (length held) held s (flush held s)
  unfolding flush
  flush_lem held s = flush_from_lem 0 (length held) held s
