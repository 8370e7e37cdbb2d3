-- ===== src/Memory/Run/Keeps.antt =====
-- What `runNext` keeps of the two lists of the driver in memory, where what the consumer runs keeps
-- it.
use jubs.Common.{
  ℕ, ◌+◌, ◌≤◌, ◌<◌, ◌≡◌, refl, ap, sym, subst, ◌∙◌, Bool, true, false, some, List, [], ◌∷◌, arith,
  eqb, if◌then◌else◌, Bool-cases, Option-cases, inl, inr,
}
use jubs.Text.{Text}
use jubs.Value.{Value}
use jubs.Fault.{Thrown, is_lease_held}
use jubs.Result.{Result, ok, err}
use jubs.Effects.{Exec}
use jubs.Driver.{JobState, JobDelivery, active}
use jubs.Memory.Jobs.{MemoryJob, is_waiting, is_active, job_by, write_job, first_runnable}
use jubs.Memory.Jobs.Counts.{one_if, in_line, in_line-splice_ref, jobs_with-write_job}
use jubs.Memory.Jobs.Found.{job_by-ref, jobs_with-job_by, jobs_with_unique}
use jubs.Memory.Queue.{MemoryState, is_named}
use jubs.Memory.Queue.Consistent.{
  IsConsistent, waits, runs, strays, running_under, one_under, in_line-one_if, write-IsConsistent,
}
use jubs.Memory.Queue.Keeps.{Kept, KeptFrom, KeptFrom-refl, KeptFrom-assume}
use jubs.Memory.Run.{
  runnable, started_job, completed_job, waiting_job, failed_job, begin_job, settle_job,
  postpone_job, delivery_for, after_run, run_job, run_next,
}

-- A job that the line gives out stands in the line, and its queue is not paused.
pub first_runnable-in_line :
    (paused : Text → Bool) (jobs : List MemoryJob) (line : List ℕ) {j : MemoryJob}
    → first_runnable paused jobs line ≡ some j
    → (job_by j.ref jobs ≡ some j) × (0 < in_line j.ref line) × (paused j.queue ≡ false)
unfolding first_runnable
first_runnable-in_line paused jobs [] found = cc
first_runnable-in_line paused jobs (r ∷ rs) {j} found = elim (Option-cases (job_by r jobs)) [
  | inl nothing ↦
      let later : first_runnable paused jobs rs ≡ some j = rw (first_runnable, nothing) at found in
      let (there, line, open_queue) = first_runnable-in_line paused jobs rs later in
      (there, ground arith, open_queue)
  | inr (k, here) ↦
      let found' : (if paused k.queue then first_runnable paused jobs rs else some k) ≡ some j =
        rw (first_runnable, here) at found in
      elim (Bool-cases (paused k.queue)) [
        | inl held ↦
            let later : first_runnable paused jobs rs ≡ some j = rw held at found' in
            let (there, line, open_queue) = first_runnable-in_line paused jobs rs later in
            (there, ground arith, open_queue)
        | inr open_queue ↦
            let this : some k ≡ some j = rw open_queue at found' in
            let same_job : k ≡ j = cc in
            let same_ref : j.ref ≡ r = rw (← same_job) (job_by-ref r jobs here) in
            (
              subst (λ x. job_by x jobs ≡ some j) (sym same_ref) (here ∙ this),
              ground arith,
              rw (← same_job) open_queue,
            )
      ]
]

not_both : (j : MemoryJob) → waits j ≡ true → runs j ≡ false
not_both j waiting_now = go j.state waiting_now
  where
    go : (state : JobState) → is_waiting state ≡ true → is_active state ≡ false
    go active h = cc
    go state h = refl

runs-waits_not : (j : MemoryJob) → runs j ≡ true → waits j ≡ false
runs-waits_not j running = elim (Bool-cases (waits j)) [
  | inl waiting_now ↦ let stopped = not_both j waiting_now in cc
  | inr not_waiting ↦ not_waiting
]

module _ (s : MemoryState) (consistent : IsConsistent s) where
  pub runnable-waits :
      {j : MemoryJob} → runnable s ≡ some j → (job_by j.ref s.recorded ≡ some j) × (waits j ≡ true)
  runnable-waits {j} found =
      let (there, in_line_there, open_queue) =
        first_runnable-in_line _ s.recorded s.pending found in
      let once = in_line-one_if s consistent j.ref there in (there, ground arith)

  begin_job-IsConsistent :
      (j : MemoryJob)
      → job_by j.ref s.recorded ≡ some j
      → waits j ≡ true
      → IsConsistent (begin_job j.ref s)
  unfolding begin_job
  begin_job-IsConsistent j there waiting_now =
      let once : in_line j.ref s.pending ≡ 1 =
        in_line-one_if s consistent j.ref there ∙ ap one_if waiting_now in
      write-IsConsistent s consistent j.ref started_job there refl refl _ (λ other.
        let line = in_line-splice_ref j.ref other s.pending (omega (arith, once)) in
        ground (arith, line, waiting_now))

  begin_job-runs :
      (j : MemoryJob)
      → job_by j.ref s.recorded ≡ some j
      → waits j ≡ true
      → (other : ℕ)
      → running_under other s + one_if (eqb j.ref other) ≡ running_under other (begin_job j.ref s)
  unfolding begin_job
  begin_job-runs j there waiting_now other = ground (
    arith,
    jobs_with-write_job runs j.ref other started_job s.recorded there refl,
    waiting_now,
    not_both j waiting_now,
  )

  -- The job of a delivery that ran, where it still runs.
  running_job :
      (ref : ℕ)
      → 0 < running_under ref s
      → (j : MemoryJob) × (job_by ref s.recorded ≡ some j) × (runs j ≡ true)
  running_job ref h =
      let (j, there) = jobs_with-job_by runs ref s.recorded h in
      let once = jobs_with_unique runs ref s.recorded there (one_under s consistent ref) in
      (j, there, ground arith)

  -- The end of a run: the job's own state is written, and it may go back to the head of the line.
  end_run :
      (ref : ℕ) (f : MemoryJob → MemoryJob) (pending : List ℕ)
      → ((k : MemoryJob)
          → ((f k).ref ≡ k.ref)
            × (strays (f k) ≡ false)
            × ((other : ℕ)
                → in_line other pending
                  ≡ in_line other s.pending + (if eqb ref other then one_if (waits (f k)) else 0)))
      → 0 < running_under ref s
      → let s' = record s { recorded = write_job ref f s.recorded; pending = pending } in
        IsConsistent s'
        × ((other : ℕ) → running_under other s ≤ running_under other s' + one_if (eqb ref other))
  end_run ref f pending fits h =
      let (j, there, running) = running_job ref h in
      let (same, kept, line) = fits j in
      let waits_not : waits j ≡ false = runs-waits_not j running in
      (
        write-IsConsistent s consistent ref f there same kept pending
            (λ other. ground (arith, line other, waits_not)),
        λ other.
            ground (arith, jobs_with-write_job runs ref other f s.recorded there same, running),
      )

-- A run from a job that waits: what happens in between keeps the lists, and the job that ends has
-- its own state written.
around_run :
    (s t : MemoryState) (job : MemoryJob) (f : MemoryJob → MemoryJob) (pending : List ℕ)
    → job_by job.ref s.recorded ≡ some job
    → waits job ≡ true
    → KeptFrom (begin_job job.ref s) t
    → ((k : MemoryJob)
        → ((f k).ref ≡ k.ref)
          × (strays (f k) ≡ false)
          × ((other : ℕ)
              → in_line other pending
                ≡ in_line other t.pending
                  + (if eqb job.ref other then one_if (waits (f k)) else 0)))
    → KeptFrom s (record t { recorded = write_job job.ref f t.recorded; pending = pending })
unfolding KeptFrom Kept
around_run s t job f pending there waiting_now between fits = λ consistent.
    let begun = begin_job-IsConsistent s consistent job there waiting_now in
    let begun_runs = begin_job-runs s consistent job there waiting_now in
    let (consistent', kept) = between begun in
    let at_job : running_under job.ref s + 1 ≡ running_under job.ref (begin_job job.ref s) =
      ground (arith, begun_runs job.ref) in
    let runs_still : 0 < running_under job.ref t = omega (arith, at_job, kept job.ref) in
    let (consistent'', kept') = end_run t consistent' job.ref f pending fits runs_still in
    (consistent'', λ other. omega (arith, begun_runs other, kept other, kept' other))

module _ (wording : Thrown → Text) (run : Text → JobDelivery → Exec MemoryState Value)
    (keeps : (queue : Text) (delivery : JobDelivery) (s : MemoryState)
      → KeptFrom s (run queue delivery s).1) where
  after_run-KeptFrom :
      (job : MemoryJob) (s t : MemoryState) (outcome : Result Value)
      → job_by job.ref s.recorded ≡ some job
      → waits job ≡ true
      → KeptFrom (begin_job job.ref s) t
      → KeptFrom s (after_run wording run job.ref outcome t).1
  unfolding settle_job postpone_job
  after_run-KeptFrom job s t (ok v) there waiting_now between =
      around_run s t job completed_job t.pending there waiting_now between
        (λ k. (refl, refl, λ other. ground arith))
  after_run-KeptFrom job s t (err e) there waiting_now between =
      elim (Bool-cases (is_lease_held e)) [
        | inl held ↦ rw held (
            around_run s t job waiting_job (job.ref ∷ t.pending) there waiting_now between
              (λ k. (refl, refl, λ other. ground arith)))
        | inr failed_now ↦ rw failed_now (
            around_run s t job (failed_job (wording e)) t.pending there waiting_now between
              (λ k. (refl, refl, λ other. ground arith)))
      ]

  run_job-KeptFrom :
      (job : MemoryJob) (s : MemoryState)
      → job_by job.ref s.recorded ≡ some job
      → waits job ≡ true
      → KeptFrom s (run_job wording run job s).1
  unfolding run_job
  run_job-KeptFrom job s there waiting_now =
      let (outcome, t) = run job.queue (delivery_for job) (begin_job job.ref s) in
      after_run-KeptFrom job s t outcome there waiting_now (keeps job.queue (delivery_for job) _)

  run_next-KeptFrom : (s : MemoryState) → KeptFrom s (run_next wording run s).1
  unfolding run_next
  run_next-KeptFrom s = KeptFrom-assume s _ λ consistent. elim (Option-cases (runnable s)) [
    | inl nothing ↦ rw nothing (KeptFrom-refl s)
    | inr (job, found) ↦
        let (there, waiting_now) = runnable-waits s consistent found in
        elim (Bool-cases (is_named s.consumers job.queue)) [
          | inl consumed ↦ rw (found, consumed) (run_job-KeptFrom job s there waiting_now)
          | inr nobody ↦ rw (found, nobody) (KeptFrom-refl s)
        ]
  ]

-- From a state in which the two lists agree, a run of the next job leads to one in which they agree, and
-- no job that ran before stops running, if the function of the consumer keeps both so.
pub run_next-Kept :
    (wording : Thrown → Text) (run : Text → JobDelivery → Exec MemoryState Value)
    → ((queue : Text) (delivery : JobDelivery) (s : MemoryState)
        → IsConsistent s
        → Kept s (run queue delivery s).1)
    → (s : MemoryState) → IsConsistent s
    → Kept s (run_next wording run s).1
unfolding KeptFrom
run_next-Kept wording run keeps s consistent = run_next-KeptFrom wording run keeps s consistent
