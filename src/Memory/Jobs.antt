-- ===== src/Memory/Jobs.antt =====
-- src/testing/index.ts: the jobs that the driver in memory records, and the line of those that wait.
-- A job is an object that both lists refer to; `ref` stands for its identity, since two jobs may have
-- one id.
pub mod Counts
pub mod Found
use jubs.Common.{
  ℕ, suc, ◌+◌, Bool, true, false, ◌&&◌, not, Option, none, some, List, [], ◌∷◌, any, eqb, find,
  if◌then◌else◌,
}
use jubs.Text.{Text, ◌==◌}
use jubs.Envelope.{Envelope}
use jubs.Driver.{JobState, waiting, active, delayed, completed, failed, waiting_children, unknown}

pub record MemoryJob : Type 0 where
  pub ref : ℕ
  pub id : Text
  pub queue : Text
  pub max_attempts : ℕ
  pub envelope : Envelope
  pub state : JobState
  pub attempts : ℕ
  pub attempts_started : ℕ
  pub failure : Option Text

abbrev pub is_waiting : JobState → Bool
is_waiting waiting = true
is_waiting _ = false

abbrev pub is_active : JobState → Bool
is_active active = true
is_active _ = false

-- The job that a reference is to.
unfoldable pub job_by : ℕ → List MemoryJob → Option MemoryJob
job_by ref [] = none
job_by ref (j ∷ js) = if eqb j.ref ref then some j else job_by ref js

-- A write to the job that a reference is to.
unfoldable pub write_job : ℕ → (MemoryJob → MemoryJob) → List MemoryJob → List MemoryJob
write_job ref f [] = []
write_job ref f (j ∷ js) = if eqb j.ref ref then f j ∷ js else j ∷ write_job ref f js

-- `recorded.splice(recorded.indexOf(job), 1)`
unfoldable pub drop_job : ℕ → List MemoryJob → List MemoryJob
drop_job ref [] = []
drop_job ref (j ∷ js) = if eqb j.ref ref then js else j ∷ drop_job ref js

-- `array.splice(-1, 1)`
abbrev pub drop_last {ℓ} : {A : Type ℓ} → List A → List A
drop_last [] = []
drop_last (x ∷ []) = []
drop_last (x ∷ y ∷ xs) = x ∷ drop_last (y ∷ xs)

abbrev pub drop_ref : ℕ → List ℕ → List ℕ
drop_ref ref [] = []
drop_ref ref (r ∷ rs) = if eqb r ref then rs else r ∷ drop_ref ref rs

-- `pending.splice(pending.indexOf(job), 1)`: an index of -1 is that of the last element.
unfoldable pub splice_ref : ℕ → List ℕ → List ℕ
splice_ref ref rs = if any (λ r. eqb r ref) rs then drop_ref ref rs else drop_last rs

-- `jobAt`
unfoldable pub job_at : Text → Text → List MemoryJob → Option MemoryJob
job_at queue id jobs = find (λ j. j.queue == queue && j.id == id) jobs

-- `runnable`, over the line and the jobs
unfoldable pub first_runnable : (Text → Bool) → List MemoryJob → List ℕ → Option MemoryJob
first_runnable paused jobs [] = none
first_runnable paused jobs (r ∷ rs) = elim (job_by r jobs) [
  | none ↦ first_runnable paused jobs rs
  | some j ↦ if paused j.queue then first_runnable paused jobs rs else some j
]
