-- ===== src/Memory/Run/Left.antt =====
-- What `drain` of the driver in memory leaves in the line.
use jubs.Common.{
  ℕ, zero, suc, ◌+◌, ◌≤◌, ◌<◌, ◌≡◌, refl, Bool, true, false, Option, none, some, List, [], ◌∷◌, ◌⊎◌,
  arith, any, length, All, Bool-cases, Option-cases, inl, inr,
}
use jubs.Text.{Text, ◌==◌}
use jubs.Value.{Value}
use jubs.Fault.{Thrown}
use jubs.Result.{Result, ok, err}
use jubs.Effects.{Exec}
use jubs.Driver.{JobDelivery}
use jubs.Memory.Jobs.{MemoryJob, job_by, first_runnable}
use jubs.Memory.Queue.{MemoryState}
use jubs.Memory.Run.{runnable, run_next, after_one, drain}
use jubs.Memory.Run.Drain.{drain-none, drain-some, run_next-length}

-- The queue of every job in the line is paused.
abbrev pub AllPaused : MemoryState → Type 0
AllPaused s =
    All
      (λ r.
        (j : MemoryJob)
        → job_by r s.recorded ≡ some j
        → any (λ name. name == j.queue) s.paused ≡ true)
      s.pending

first_runnable-none :
    (paused : Text → Bool) (jobs : List MemoryJob) (line : List ℕ)
    → first_runnable paused jobs line ≡ none
    → All (λ r. (j : MemoryJob) → job_by r jobs ≡ some j → paused j.queue ≡ true) line
unfolding first_runnable
first_runnable-none paused jobs [] h = tt
first_runnable-none paused jobs (r ∷ rs) h = elim (Option-cases (job_by r jobs)) [
  | inl nobody ↦ (λ j is. cc, first_runnable-none paused jobs rs (rw (first_runnable, nobody) at h))
  | inr (i, found) ↦ elim (Bool-cases (paused i.queue)) [
    | inl waits ↦ (
      λ j is. let same : i ≡ j = cc in rw (← same) waits,
      first_runnable-none paused jobs rs (rw (first_runnable, found, waits) at h),
    )
    | inr runs ↦ let first = rw (first_runnable, found, runs) at h in cc
  ]
]

first_runnable-some :
    (paused : Text → Bool) (jobs : List MemoryJob) (line : List ℕ) {j : MemoryJob}
    → first_runnable paused jobs line ≡ some j
    → paused j.queue ≡ false
unfolding first_runnable
first_runnable-some paused jobs [] h = cc
first_runnable-some paused jobs (r ∷ rs) {j} h = elim (Option-cases (job_by r jobs)) [
  | inl nobody ↦ first_runnable-some paused jobs rs (rw (first_runnable, nobody) at h)
  | inr (i, found) ↦ elim (Bool-cases (paused i.queue)) [
    | inl waits ↦ first_runnable-some paused jobs rs (rw (first_runnable, found, waits) at h)
    | inr runs ↦
        let first = rw (first_runnable, found, runs) at h in
        let same : i ≡ j = cc in rw (← same) runs
  ]
]

module _ (wording : Thrown → Text) (run : Text → JobDelivery → Exec MemoryState Value) where
  -- A drain of a line of that length: it throws what `runNext` threw for a job of an open queue, or it
  -- returns how many jobs it ran, and leaves only jobs of paused queues in the line.
  abbrev pub Ends : ℕ → Option (Result ℕ) × MemoryState → Type 0
  Ends line (result, t) =
      ((e : Thrown) × (s : MemoryState) × (j : MemoryJob) × (result ≡ some (err e))
        × (runnable s ≡ some j)
        × (any (λ name. name == j.queue) s.paused ≡ false)
        × (run_next wording run s ≡ (err e, t)))
      ⊎ ((ran : ℕ) × (result ≡ some (ok ran)) × (ran + length t.pending ≤ line) × AllPaused t)

  one_more-Ends :
      (line : ℕ) (rest : Option (Result ℕ) × MemoryState) (s' : MemoryState)
      → Ends line rest
      → Ends (suc line) (after_one wording run (ok tt) rest s')
  one_more-Ends line (result, t) s' (inl (e, s, j, is, found, open_queue, threw)) =
      inl (e, s, j, rw is refl, found, open_queue, threw)
  one_more-Ends line (result, t) s' (inr (ran, is, fewer, paused)) =
      inr (suc ran, rw is refl, omega arith, paused)

  Ends-le :
      {line more : ℕ} (done : Option (Result ℕ) × MemoryState)
      → line ≤ more
      → Ends line done
      → Ends more done
  Ends-le (result, t) h (inl threw) = inl threw
  Ends-le (result, t) h (inr (ran, is, fewer, paused)) = inr (ran, is, omega arith, paused)

  module _
      (shortens : (queue : Text) (delivery : JobDelivery) (s : MemoryState)
        → length (run queue delivery s).1.pending ≤ length s.pending) where
    after_one-Ends :
        (s s' : MemoryState) (r : Result (Unit {0})) (rest : Option (Result ℕ) × MemoryState)
        {j : MemoryJob}
        → runnable s ≡ some j
        → run_next wording run s ≡ (r, s')
        → (r ≡ ok tt → (length s'.pending < length s.pending) × Ends (length s'.pending) rest)
        → Ends (length s.pending) (after_one wording run r rest s')
    after_one-Ends s s' (ok done) rest found ran ih =
        let (shorter, ends) = ih refl in
        Ends-le (after_one wording run (ok tt) rest s') (omega arith)
          (one_more-Ends (length s'.pending) rest s' ends)
    after_one-Ends s s' (err e) rest {j} found threw ih = inl (
      e,
      s,
      j,
      refl,
      found,
      first_runnable-some (λ q. any (λ name. name == q) s.paused) s.recorded s.pending found,
      threw,
    )

    -- Within one round more than the jobs in the line, if what the consumer runs does not make the line
    -- longer, `drain` ends. It throws what `runNext` threw for a job of a queue that is not paused, in the
    -- state that this left, or it returns a count; then every job that is left in the line is of a paused queue, and the
    -- count and those jobs together are no more than the jobs that stood in the line.
    pub drain-Ends :
        (rounds : ℕ) (s : MemoryState)
        → length s.pending < rounds
        → Ends (length s.pending) (drain wording run rounds s)
    drain-Ends zero s h = absurd (omega arith)
    drain-Ends (suc rounds) s h = elim (Option-cases (runnable s)) [
      | inl nothing ↦
          rw (drain-none wording run rounds s nothing)
            (inr (0, refl, omega arith, first_runnable-none _ s.recorded s.pending nothing))
      | inr (job, found) ↦ rw (drain-some wording run rounds s found) (
          after_one-Ends s (run_next wording run s).1 (run_next wording run s).0 _ found refl
            (λ ran.
              let shorter = run_next-length wording run shortens s found ran in
              (shorter, drain-Ends rounds _ (omega arith))))
    ]
