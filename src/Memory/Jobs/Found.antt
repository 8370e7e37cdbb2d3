-- ===== src/Memory/Jobs/Found.antt =====
-- The job that a reference is to, where the reference is to one job at most.
use jubs.Common.{
  ℕ, ◌+◌, ◌≤◌, ◌<◌, ◌≡◌, refl, ◌∙◌, Bool, true, false, some, List, [], ◌∷◌, ◌++◌, arith, eqb, find,
  Bool-cases, inl, inr,
}
use jubs.Memory.Jobs.{MemoryJob, job_by}
use jubs.Memory.Jobs.Counts.{one_if, jobs_with, jobs_under}

pub job_by-ref :
    (ref : ℕ) (js : List MemoryJob) {j : MemoryJob} → job_by ref js ≡ some j → j.ref ≡ ref
unfolding job_by
job_by-ref ref [] found = cc
job_by-ref ref (k ∷ js) {j} found = elim (Bool-cases (eqb k.ref ref)) [
  | inl here ↦
      let found' : some k ≡ some j = rw here at found in
      let same_job : k ≡ j = cc in rw (← same_job) (ground arith)
  | inr there ↦ let found' : job_by ref js ≡ some j = rw there at found in job_by-ref ref js found'
]

job_by-rest :
    (ref : ℕ) (k : MemoryJob) (js : List MemoryJob)
    → eqb k.ref ref ≡ false
    → job_by ref (k ∷ js) ≡ job_by ref js
unfolding job_by
job_by-rest ref k js there = rw there refl

module _ (p : MemoryJob → Bool) where
  pub jobs_with-job_by :
      (ref : ℕ) (js : List MemoryJob)
      → 0 < jobs_with p ref js
      → (j : MemoryJob) × (job_by ref js ≡ some j)
  unfolding job_by
  jobs_with-job_by ref [] h = absurd (omega arith)
  jobs_with-job_by ref (k ∷ js) h = elim (Bool-cases (eqb k.ref ref)) [
    | inl here ↦ (k, rw here refl)
    | inr there ↦
        let h' : 0 < 0 + jobs_with p ref js = rw there at h in
        let in_rest = jobs_with-job_by ref js (omega (arith, h')) in
        (in_rest.0, job_by-rest ref k js there ∙ in_rest.1)
  ]

  pub jobs_with-at_most : (ref : ℕ) (js : List MemoryJob) → jobs_with p ref js ≤ jobs_under ref js
  jobs_with-at_most ref [] = omega arith
  jobs_with-at_most ref (k ∷ js) = ground (arith, jobs_with-at_most ref js)

  pub jobs_with_unique :
      (ref : ℕ) (js : List MemoryJob) {j : MemoryJob}
      → job_by ref js ≡ some j
      → jobs_under ref js ≤ 1
      → jobs_with p ref js ≡ one_if (p j)
  unfolding job_by
  jobs_with_unique ref [] found one = cc
  jobs_with_unique ref (k ∷ js) {j} found one = elim (Bool-cases (eqb k.ref ref)) [
    | inl here ↦
        let found' : some k ≡ some j = rw here at found in
        let same_job : k ≡ j = cc in
        let one' : 1 + jobs_under ref js ≤ 1 = rw here at one in
        rw (here, ← same_job) (omega (arith, one', jobs_with-at_most ref js))
    | inr there ↦
        let found' : job_by ref js ≡ some j = rw there at found in
        let one' : 0 + jobs_under ref js ≤ 1 = rw there at one in
        rw there (omega (arith, jobs_with_unique ref js found' (omega (arith, one'))))
  ]

  found_under : (js : List MemoryJob) {j : MemoryJob} → find p js ≡ some j → 0 < jobs_under j.ref js
  found_under [] found = cc
  found_under (k ∷ js) {j} found = elim (Bool-cases (p k)) [
    | inl here ↦
        let found' : some k ≡ some j = rw here at found in
        let same_job : k ≡ j = cc in rw (← same_job) (ground arith)
    | inr there ↦
        let found' : find p js ≡ some j = rw there at found in ground (arith, found_under js found')
  ]

  pub find-job_by :
      (js : List MemoryJob) {j : MemoryJob}
      → find p js ≡ some j
      → jobs_under j.ref js ≤ 1
      → job_by j.ref js ≡ some j
  unfolding job_by
  find-job_by [] found one = cc
  find-job_by (k ∷ js) {j} found one = elim (Bool-cases (p k)) [
    | inl here ↦
        let found' : some k ≡ some j = rw here at found in
        let same_job : k ≡ j = cc in
        let itself : eqb k.ref j.ref ≡ true = rw same_job (ground arith) in rw itself found'
    | inr there ↦
        let found' : find p js ≡ some j = rw there at found in
        elim (Bool-cases (eqb k.ref j.ref)) [
          | inl twice ↦
              let two : 1 + jobs_under j.ref js ≤ 1 = rw twice at one in
              absurd (omega (arith, two, found_under js found'))
          | inr other ↦
              let one' : 0 + jobs_under j.ref js ≤ 1 = rw other at one in
              rw other (find-job_by js found' (omega (arith, one')))
        ]
  ]

pub job_by-append_one :
    (js : List MemoryJob) (j : MemoryJob)
    → jobs_under j.ref js ≡ 0
    → job_by j.ref (js ++ j ∷ []) ≡ some j
unfolding job_by
job_by-append_one [] j new = ground arith
job_by-append_one (k ∷ js) j new = elim (Bool-cases (eqb k.ref j.ref)) [
  | inl twice ↦
      let one : 1 + jobs_under j.ref js ≡ 0 = rw twice at new in absurd (omega (arith, one))
  | inr other ↦
      let rest : 0 + jobs_under j.ref js ≡ 0 = rw other at new in
      rw other (job_by-append_one js j (omega (arith, rest)))
]
