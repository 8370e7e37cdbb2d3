-- ===== src/Memory/Queue/Consistent.antt =====
-- The two lists of the driver in memory: when they agree, and what one write to a job and to the
-- line makes of them.
use jubs.Common.{
  ℕ, ◌+◌, ◌≤◌, ◌≡◌, refl, ap, ◌∙◌, Bool, true, false, some, List, arith, eqb, if◌then◌else◌,
}
use jubs.Driver.{JobState, waiting, delayed, waiting_children, unknown}
use jubs.Memory.Jobs.{MemoryJob, is_waiting, is_active, job_by, write_job}
use jubs.Memory.Jobs.Counts.{
  one_if, in_line, jobs_with, jobs_under, in_line-splice_ref, in_line-append_one,
  jobs_with-append_one, jobs_with-write_job, jobs_with-drop_job,
}
use jubs.Memory.Jobs.Found.{jobs_with_unique}
use jubs.Memory.Queue.{MemoryState, record_job, forget_job}

-- The states that the driver in memory never gives a job.
abbrev pub is_foreign : JobState → Bool
is_foreign delayed = true
is_foreign waiting_children = true
is_foreign unknown = true
is_foreign _ = false

abbrev pub waits : MemoryJob → Bool
waits j = is_waiting j.state

abbrev pub runs : MemoryJob → Bool
runs j = is_active j.state

abbrev pub strays : MemoryJob → Bool
strays j = is_foreign j.state

-- A reference is to one job at most, to none that is yet to come, and it stands in the line once
-- where its job waits, and not at all where it does not.
abbrev pub FitsAt : ℕ → ℕ → List MemoryJob → List ℕ → Type 0
FitsAt ref created recorded pending =
    (in_line ref pending ≡ jobs_with waits ref recorded)
    × (jobs_under ref recorded ≤ 1)
    × (jobs_with strays ref recorded ≡ 0)
    × (created ≤ ref → jobs_under ref recorded ≡ 0)

unfoldable pub IsConsistent : MemoryState → Type 0
IsConsistent s = (ref : ℕ) → FitsAt ref s.created s.recorded s.pending

-- How many jobs run under a reference.
abbrev pub running_under : ℕ → MemoryState → ℕ
running_under ref s = jobs_with runs ref s.recorded

module _ (s : MemoryState) (consistent : IsConsistent s) where
  -- What the lists say of the job under a reference.
  pub one_under : (ref : ℕ) → jobs_under ref s.recorded ≤ 1
  unfolding IsConsistent
  one_under ref = (consistent ref).1

  pub in_line-one_if :
      (ref : ℕ) {j : MemoryJob}
      → job_by ref s.recorded ≡ some j
      → in_line ref s.pending ≡ one_if (waits j)
  unfolding IsConsistent
  in_line-one_if ref {j} found =
      (consistent ref).0 ∙ jobs_with_unique waits ref s.recorded found (one_under ref)

  pub strays-none : (ref : ℕ) {j : MemoryJob} → job_by ref s.recorded ≡ some j → strays j ≡ false
  unfolding IsConsistent
  strays-none ref {j} found =
      let same = jobs_with_unique strays ref s.recorded found (one_under ref) in
      let none_there = (consistent ref).2 in ground arith

  -- A write to one job, with the line that goes with it.
  write_fits :
      (ref other : ℕ) (f : MemoryJob → MemoryJob) {j : MemoryJob} (pending : List ℕ)
      → job_by ref s.recorded ≡ some j
      → (f j).ref ≡ j.ref
      → strays (f j) ≡ false
      → in_line other pending + (if eqb ref other then one_if (waits j) else 0)
        ≡ in_line other s.pending + (if eqb ref other then one_if (waits (f j)) else 0)
      → FitsAt other s.created (write_job ref f s.recorded) pending
  unfolding IsConsistent
  write_fits ref other f {j} pending found same kept line =
      let stray_before = strays-none ref found in
      let under = jobs_with-write_job (λ k. true) ref other f s.recorded found same in
      let waiting_there = jobs_with-write_job waits ref other f s.recorded found same in
      let stray_there = jobs_with-write_job strays ref other f s.recorded found same in
      let (in_order, one, none_stray, unborn) = consistent other in
      let same_under : jobs_under other (write_job ref f s.recorded) ≡ jobs_under other s.recorded =
        omega (arith, under) in
      (
        omega (arith, line, waiting_there, in_order),
        omega (arith, one, same_under),
        ground (arith, stray_there, none_stray, stray_before, kept),
        λ late. same_under ∙ unborn late,
      )

  -- A job that is written where its state calls for the same line.
  pub write-IsConsistent :
      (ref : ℕ) (f : MemoryJob → MemoryJob) {j : MemoryJob}
      → job_by ref s.recorded ≡ some j
      → (f j).ref ≡ j.ref
      → strays (f j) ≡ false
      → (pending : List ℕ)
      → ((other : ℕ)
          → in_line other pending + (if eqb ref other then one_if (waits j) else 0)
            ≡ in_line other s.pending + (if eqb ref other then one_if (waits (f j)) else 0))
      → IsConsistent (record s { recorded = write_job ref f s.recorded; pending = pending })
  unfolding IsConsistent
  write-IsConsistent ref f found same kept pending line =
      λ other. write_fits ref other f pending found same kept (line other)

  pub record_job-IsConsistent :
      (job : MemoryJob)
      → job.ref ≡ s.created
      → job.state ≡ waiting
      → IsConsistent (record_job job s)
  unfolding IsConsistent record_job
  record_job-IsConsistent job new waiting_now = λ other.
      let (in_order, one, none_stray, unborn) = consistent other in
      let line = in_line-append_one other job.ref s.pending in
      let under = jobs_with-append_one (λ k. true) other job s.recorded in
      let waiting_there = jobs_with-append_one waits other job s.recorded in
      let stray_there = jobs_with-append_one strays other job s.recorded in
      let waits_now : waits job ≡ true = rw waiting_now refl in
      let strays_not : strays job ≡ false = rw waiting_now refl in
      (
        ground (arith, line, waiting_there, in_order, waits_now),
        ground (arith, under, one, unborn, new),
        ground (arith, stray_there, none_stray, strays_not),
        λ late. ground (arith, under, unborn, new, late),
      )

  pub forget_job-IsConsistent :
      (ref : ℕ) {j : MemoryJob}
      → job_by ref s.recorded ≡ some j
      → waits j ≡ true
      → IsConsistent (forget_job ref s)
  unfolding IsConsistent forget_job
  forget_job-IsConsistent ref {j} found waiting_now = λ other.
      let (in_order, one, none_stray, unborn) = consistent other in
      let once : in_line ref s.pending ≡ 1 = in_line-one_if ref found ∙ ap one_if waiting_now in
      let line = in_line-splice_ref ref other s.pending (omega (arith, once)) in
      let under = jobs_with-drop_job (λ k. true) ref other s.recorded found in
      let waiting_there = jobs_with-drop_job waits ref other s.recorded found in
      let stray_there = jobs_with-drop_job strays ref other s.recorded found in
      (
        ground (arith, line, waiting_there, in_order, waiting_now),
        omega (arith, under, one),
        omega (arith, stray_there, none_stray),
        λ late. let nothing = unborn late in omega (arith, under, nothing),
      )
