-- ===== src/Memory/Run/Drain.antt =====
-- How `drain` of the driver in memory ends.
use jubs.Common.{
  ℕ, suc, ◌≤◌, ◌<◌, ◌≡◌, refl, ap, true, none, some, List, [], ◌∷◌, arith, any, eqb, length,
  Bool-cases, inl, inr,
}
use jubs.Text.{Text}
use jubs.Value.{Value}
use jubs.Fault.{Thrown, is_lease_held}
use jubs.Result.{Result, ok, err}
use jubs.Effects.{Exec}
use jubs.Driver.{JobDelivery}
use jubs.Memory.Jobs.{MemoryJob, splice_ref, drop_ref, drop_last}
use jubs.Memory.Jobs.Counts.{in_line}
use jubs.Memory.Queue.{MemoryState, is_named}
use jubs.Memory.Run.{
  runnable, begin_job, settle_job, delivery_for, after_run, run_job, run_next, after_one, drain,
}
use jubs.Memory.Run.Keeps.{first_runnable-in_line}

length-drop_last : (x : ℕ) (rs : List ℕ) → length (drop_last (x ∷ rs)) ≡ length rs
length-drop_last x [] = refl
length-drop_last x (y ∷ rs) = ap suc (length-drop_last y rs)

length-drop_ref :
    (ref : ℕ) (rs : List ℕ)
    → any (λ r. eqb r ref) rs ≡ true
    → suc (length (drop_ref ref rs)) ≡ length rs
length-drop_ref ref [] h = cc
length-drop_ref ref (r ∷ rs) h = ground (arith, length-drop_ref ref rs)

length-splice_ref : (ref r : ℕ) (rs : List ℕ) → length (splice_ref ref (r ∷ rs)) ≡ length rs
unfolding splice_ref
length-splice_ref ref r rs = elim (Bool-cases (any (λ q. eqb q ref) (r ∷ rs))) [
  | inl there ↦ rw there (omega (arith, length-drop_ref ref (r ∷ rs) there))
  | inr nowhere ↦ rw nowhere (length-drop_last r rs)
]

begin_job-length :
    (s : MemoryState) {j : MemoryJob}
    → runnable s ≡ some j
    → suc (length (begin_job j.ref s).pending) ≡ length s.pending
unfolding begin_job
begin_job-length s {j} found = go s.pending (first_runnable-in_line _ s.recorded s.pending found).1
  where
    go :
        (line : List ℕ)
        → 0 < in_line j.ref line
        → suc (length (splice_ref j.ref line)) ≡ length line
    go [] h = absurd (omega arith)
    go (r ∷ rs) h = ap suc (length-splice_ref j.ref r rs)

module _ (wording : Thrown → Text) (run : Text → JobDelivery → Exec MemoryState Value) where
  pub drain-none :
      (rounds : ℕ) (s : MemoryState)
      → runnable s ≡ none
      → drain wording run (suc rounds) s ≡ (some (ok 0), s)
  unfolding drain
  drain-none rounds s nothing = rw (drain, nothing) refl

  pub drain-some :
      (rounds : ℕ) (s : MemoryState) {j : MemoryJob}
      → runnable s ≡ some j
      → let (r, s') = run_next wording run s in
        drain wording run (suc rounds) s ≡ after_one wording run r (drain wording run rounds s') s'
  unfolding drain
  drain-some rounds s found = rw (drain, found) refl

  after_run-pending :
      (ref : ℕ) (outcome : Result Value) (t : MemoryState)
      → (after_run wording run ref outcome t).0 ≡ ok tt
      → (after_run wording run ref outcome t).1.pending ≡ t.pending
  unfolding settle_job
  after_run-pending ref (ok v) t h = refl
  after_run-pending ref (err e) t h = elim (Bool-cases (is_lease_held e)) [
    | inl held ↦ let thrown = rw held at h in cc
    | inr other ↦ let thrown = rw other at h in cc
  ]

  module _
      (shortens : (queue : Text) (delivery : JobDelivery) (s : MemoryState)
        → length (run queue delivery s).1.pending ≤ length s.pending) where
    pub run_next-length :
        (s : MemoryState) {j : MemoryJob}
        → runnable s ≡ some j
        → (run_next wording run s).0 ≡ ok tt
        → length (run_next wording run s).1.pending < length s.pending
    unfolding run_next run_job
    run_next-length s {j} found h = elim (Bool-cases (is_named s.consumers j.queue)) [
      | inl consumed ↦
          let begun = begin_job j.ref s in
          let (outcome, t) = run j.queue (delivery_for j) begun in
          let same_line = after_run-pending j.ref outcome t (rw (found, consumed) at h) in
          let shorter = shortens j.queue (delivery_for j) begun in
          rw (found, consumed, same_line) (omega (arith, shorter, begin_job-length s found))
      | inr nobody ↦ let thrown = rw (found, nobody) at h in cc
    ]
