-- ===== src/Memory/Queue/Keeps.antt =====
-- What the operations of the driver in memory keep of its two lists: that they agree, and every job
-- that runs.
use jubs.Common.{
  ℕ, ◌≤◌, ◌≡◌, refl, ap, true, false, some, List, [], ◌∷◌, ◌++◌, arith, Option-cases, inl, inr, ◌⊎◌,
}
use jubs.Text.{Text}
use jubs.Driver.{
  EnqueueRequest, DeadEntry, RunningDelivery, JobState, waiting, active, delayed, completed, failed,
  waiting_children, unknown,
}
use jubs.Memory.Jobs.{MemoryJob, is_waiting, is_active, job_by, job_at}
use jubs.Memory.Jobs.Counts.{
  in_line-append_one, jobs_with-append_one, jobs_with-write_job, jobs_with-drop_job,
}
use jubs.Memory.Jobs.Found.{find-job_by}
use jubs.Memory.Queue.{
  MemoryState, record_job, forget_job, put_back, retried_job, request_cancel, enqueue_in, already,
  new_job, rejected, retry_in, cancel_in, take_cancellation, take_cancelled, pause_in, resume_in,
  bury_in, remove_buried,
}
use jubs.Memory.Queue.Consistent.{
  IsConsistent, waits, runs, strays, running_under, one_under, strays-none, write-IsConsistent,
  record_job-IsConsistent, forget_job-IsConsistent,
}

-- In a later state the two lists agree, and what ran before still runs.
unfoldable pub Kept : MemoryState → MemoryState → Type 0
Kept s s' = IsConsistent s' × ((ref : ℕ) → running_under ref s ≤ running_under ref s')

unfoldable pub KeptFrom : MemoryState → MemoryState → Type 0
KeptFrom s s' = IsConsistent s → Kept s s'

pub KeptFrom-refl : (s : MemoryState) → KeptFrom s s
unfolding KeptFrom Kept
KeptFrom-refl s = λ consistent. (consistent, λ ref. omega arith)

pub KeptFrom-trans : (s t u : MemoryState) → KeptFrom s t → KeptFrom t u → KeptFrom s u
unfolding KeptFrom Kept
KeptFrom-trans s t u first second = λ consistent.
    let (consistent', kept) = first consistent in
    let (consistent'', kept') = second consistent' in
    (consistent'', λ ref. omega (arith, kept ref, kept' ref))

pub KeptFrom-assume : (s s' : MemoryState) → (IsConsistent s → KeptFrom s s') → KeptFrom s s'
unfolding KeptFrom Kept
KeptFrom-assume s s' kept = λ consistent. kept consistent consistent

-- A change of what is not the two lists.
same_lists :
    (s s' : MemoryState)
    → s'.created ≡ s.created
    → s'.recorded ≡ s.recorded
    → s'.pending ≡ s.pending
    → KeptFrom s s'
unfolding KeptFrom Kept IsConsistent
same_lists s s' same_count same_jobs same_line = λ consistent. (
  λ ref. rw (same_count, same_jobs, same_line) (consistent ref),
  λ ref. rw same_jobs (omega arith),
)

record_job-KeptFrom :
    (job : MemoryJob) (s : MemoryState)
    → job.ref ≡ s.created
    → job.state ≡ waiting
    → KeptFrom s (record_job job s)
unfolding KeptFrom Kept record_job
record_job-KeptFrom job s new waiting_now = λ consistent. (
  record_job-IsConsistent s consistent job new waiting_now,
  λ ref. omega (arith, jobs_with-append_one runs ref job s.recorded),
)

enqueue_new-KeptFrom :
    (request : EnqueueRequest) (s : MemoryState) → KeptFrom s (record_job (new_job request s) s)
enqueue_new-KeptFrom request s = record_job-KeptFrom (new_job request s) s refl refl

-- An enqueue keeps the two lists in agreement, and every job that runs.
pub enqueue_in-KeptFrom :
    (request : EnqueueRequest) (s : MemoryState) → KeptFrom s (enqueue_in request s).1
unfolding enqueue_in
enqueue_in-KeptFrom request s =
    elim (Option-cases (rejected request.delivery.unique request.delivery.delay_ms)) [
      | inl nothing ↦ elim (Option-cases (already request.queue request.job_id s.recorded)) [
        | inl new ↦ rw (nothing, new) (enqueue_new-KeptFrom request s)
        | inr (job, kept) ↦ rw (nothing, kept) (KeptFrom-refl s)
      ]
      | inr (key, refusal) ↦ rw refusal (KeptFrom-refl s)
    ]

job_at-job_by :
    (queue id : Text) (s : MemoryState)
    → IsConsistent s
    → {j : MemoryJob} → job_at queue id s.recorded ≡ some j
    → job_by j.ref s.recorded ≡ some j
unfolding job_at
job_at-job_by queue id s consistent {j} found =
    find-job_by _ s.recorded found (one_under s consistent j.ref)

put_back-KeptFrom :
    (s : MemoryState) (j : MemoryJob)
    → job_by j.ref s.recorded ≡ some j
    → j.state ≡ failed
    → KeptFrom s (put_back j.ref s)
unfolding KeptFrom Kept put_back
put_back-KeptFrom s j found over = λ consistent.
    let waits_not : waits j ≡ false = ap is_waiting over in
    let runs_not : runs j ≡ false = ap is_active over in
    (
      write-IsConsistent s consistent j.ref retried_job found refl refl (s.pending ++ j.ref ∷ [])
          (λ other. ground (arith, in_line-append_one other j.ref s.pending, waits_not)),
      λ other.
          ground (
            arith,
            jobs_with-write_job runs j.ref other retried_job s.recorded found refl,
            runs_not,
          ),
    )

state-cases :
    (j : MemoryJob)
    → strays j ≡ false
    → (j.state ≡ waiting) ⊎ (j.state ≡ active) ⊎ (j.state ≡ completed) ⊎ (j.state ≡ failed)
state-cases j kept = go j.state refl
  where
    go :
        (state : JobState)
        → j.state ≡ state
        → (j.state ≡ waiting) ⊎ (j.state ≡ active) ⊎ (j.state ≡ completed) ⊎ (j.state ≡ failed)
    go waiting is = inl is
    go active is = inr (inl is)
    go completed is = inr (inr (inl is))
    go failed is = inr (inr (inr is))
    go delayed is = let no : true ≡ false = rw is at kept in cc
    go waiting_children is = let no : true ≡ false = rw is at kept in cc
    go unknown is = let no : true ≡ false = rw is at kept in cc

-- A retry keeps the two lists in agreement, and every job that runs.
pub retry_in-KeptFrom : (queue id : Text) (s : MemoryState) → KeptFrom s (retry_in queue id s).1
unfolding retry_in
retry_in-KeptFrom queue id s = KeptFrom-assume s _ λ consistent.
    elim (Option-cases (job_at queue id s.recorded)) [
      | inl nothing ↦ rw (retry_in, nothing) (KeptFrom-refl s)
      | inr (j, found) ↦
          let there = job_at-job_by queue id s consistent found in
          elim (state-cases j (strays-none s consistent j.ref there)) [
            | inl is ↦ rw (retry_in, found, is) (KeptFrom-refl s)
            | inr (inl is) ↦ rw (retry_in, found, is) (KeptFrom-refl s)
            | inr (inr (inl is)) ↦ rw (retry_in, found, is) (KeptFrom-refl s)
            | inr (inr (inr is)) ↦ rw (retry_in, found, is) (put_back-KeptFrom s j there is)
          ]
    ]

forget_job-KeptFrom :
    (s : MemoryState) (j : MemoryJob)
    → job_by j.ref s.recorded ≡ some j
    → j.state ≡ waiting
    → KeptFrom s (forget_job j.ref s)
unfolding KeptFrom Kept forget_job
forget_job-KeptFrom s j found waiting_now = λ consistent.
    let runs_not : runs j ≡ false = ap is_active waiting_now in
    (
      forget_job-IsConsistent s consistent j.ref found (ap is_waiting waiting_now),
      λ other. ground (arith, jobs_with-drop_job runs j.ref other s.recorded found, runs_not),
    )

request_cancel-KeptFrom :
    (queue : Text) (delivery : RunningDelivery) (s : MemoryState)
    → KeptFrom s (request_cancel queue delivery s)
unfolding request_cancel
request_cancel-KeptFrom queue delivery s = same_lists s _ refl refl refl

-- A cancellation keeps the two lists in agreement, and every job that runs.
pub cancel_in-KeptFrom : (queue id : Text) (s : MemoryState) → KeptFrom s (cancel_in queue id s).1
unfolding cancel_in
cancel_in-KeptFrom queue id s = KeptFrom-assume s _ λ consistent.
    elim (Option-cases (job_at queue id s.recorded)) [
      | inl nothing ↦ rw (cancel_in, nothing) (KeptFrom-refl s)
      | inr (j, found) ↦
          let there = job_at-job_by queue id s consistent found in
          elim (state-cases j (strays-none s consistent j.ref there)) [
            | inl is ↦ rw (cancel_in, found, is) (forget_job-KeptFrom s j there is)
            | inr (inl is) ↦ rw (cancel_in, found, is) (request_cancel-KeptFrom queue _ s)
            | inr (inr (inl is)) ↦ rw (cancel_in, found, is) (KeptFrom-refl s)
            | inr (inr (inr is)) ↦ rw (cancel_in, found, is) (KeptFrom-refl s)
          ]
    ]

take_cancellation-KeptFrom :
    (queue : Text) (delivery : RunningDelivery) (s : MemoryState)
    → KeptFrom s (take_cancellation queue delivery s).1
unfolding take_cancellation
take_cancellation-KeptFrom queue delivery s =
    same_lists s _ (ground arith) (ground arith) (ground arith)

pub take_cancelled-KeptFrom :
    (queue : Text) (deliveries : List RunningDelivery) (s : MemoryState)
    → KeptFrom s (take_cancelled queue deliveries s).1
unfolding take_cancelled
take_cancelled-KeptFrom queue [] s = KeptFrom-refl s
take_cancelled-KeptFrom queue (d ∷ ds) s =
    KeptFrom-trans s _ _ (take_cancellation-KeptFrom queue d s)
      (take_cancelled-KeptFrom queue ds (take_cancellation queue d s).1)

pub pause_in-KeptFrom : (queue : Text) (s : MemoryState) → KeptFrom s (pause_in queue s)
unfolding pause_in
pause_in-KeptFrom queue s = same_lists s _ (ground arith) (ground arith) (ground arith)

pub resume_in-KeptFrom : (queue : Text) (s : MemoryState) → KeptFrom s (resume_in queue s)
unfolding resume_in
resume_in-KeptFrom queue s = same_lists s _ refl refl refl

pub bury_in-KeptFrom :
    (queue : Text) (entry : DeadEntry) (s : MemoryState) → KeptFrom s (bury_in queue entry s)
unfolding bury_in
bury_in-KeptFrom queue entry s = same_lists s _ refl refl refl

pub remove_buried-KeptFrom :
    (queue id : Text) (s : MemoryState) → KeptFrom s (remove_buried queue id s).1
unfolding remove_buried
remove_buried-KeptFrom queue id s = same_lists s _ (ground arith) (ground arith) (ground arith)

-- From a state in which the two lists agree, every operation of the driver in memory on its jobs, marks,
-- pauses and dead records leads to one in which they agree, and no job that runs stops running.
pub queue-Kept :
    (request : EnqueueRequest) (queue id : Text) (deliveries : List RunningDelivery)
    (entry : DeadEntry) (s : MemoryState)
    → IsConsistent s
    → Kept s (enqueue_in request s).1
      × Kept s (retry_in queue id s).1
      × Kept s (cancel_in queue id s).1
      × Kept s (take_cancelled queue deliveries s).1
      × Kept s (pause_in queue s)
      × Kept s (resume_in queue s)
      × Kept s (bury_in queue entry s)
      × Kept s (remove_buried queue id s).1
unfolding KeptFrom
queue-Kept request queue id deliveries entry s consistent = (
  enqueue_in-KeptFrom request s consistent,
  retry_in-KeptFrom queue id s consistent,
  cancel_in-KeptFrom queue id s consistent,
  take_cancelled-KeptFrom queue deliveries s consistent,
  pause_in-KeptFrom queue s consistent,
  resume_in-KeptFrom queue s consistent,
  bury_in-KeptFrom queue entry s consistent,
  remove_buried-KeptFrom queue id s consistent,
)
