-- ===== src/Memory/Jobs/Counts.antt =====
-- How often a reference stands in the line, and among the jobs that wait.
use jubs.Common.{
  ℕ, ◌+◌, ◌<◌, ◌≡◌, Bool, true, false, some, List, [], ◌∷◌, ◌++◌, arith, any, eqb, if◌then◌else◌,
  Bool-cases, inl, inr,
}
use jubs.Memory.Jobs.{MemoryJob, job_by, write_job, drop_job, drop_ref, splice_ref}

abbrev pub one_if : Bool → ℕ
one_if true = 1
one_if false = 0

abbrev pub in_line : ℕ → List ℕ → ℕ
in_line ref [] = 0
in_line ref (r ∷ rs) = one_if (eqb r ref) + in_line ref rs

-- The jobs under a reference that a test accepts.
abbrev pub jobs_with : (MemoryJob → Bool) → ℕ → List MemoryJob → ℕ
jobs_with p ref [] = 0
jobs_with p ref (j ∷ js) = (if eqb j.ref ref then one_if (p j) else 0) + jobs_with p ref js

abbrev pub jobs_under : ℕ → List MemoryJob → ℕ
jobs_under ref jobs = jobs_with (λ j. true) ref jobs

in_line-any : (ref : ℕ) (rs : List ℕ) → 0 < in_line ref rs → any (λ r. eqb r ref) rs ≡ true
in_line-any ref [] h = absurd (omega arith)
in_line-any ref (r ∷ rs) h = ground (arith, in_line-any ref rs)

in_line-drop_ref :
    (ref other : ℕ) (rs : List ℕ)
    → 0 < in_line ref rs
    → in_line other (drop_ref ref rs) + one_if (eqb ref other) ≡ in_line other rs
in_line-drop_ref ref other [] h = absurd (omega arith)
in_line-drop_ref ref other (r ∷ rs) h = ground (arith, in_line-drop_ref ref other rs)

-- A reference that stands in the line is taken out of it once, and no other one is.
pub in_line-splice_ref :
    (ref other : ℕ) (rs : List ℕ)
    → 0 < in_line ref rs
    → in_line other (splice_ref ref rs) + one_if (eqb ref other) ≡ in_line other rs
unfolding splice_ref
in_line-splice_ref ref other rs h =
    ground (arith, in_line-any ref rs h, in_line-drop_ref ref other rs h)

pub in_line-append_one :
    (other ref : ℕ) (rs : List ℕ)
    → in_line other (rs ++ ref ∷ []) ≡ in_line other rs + one_if (eqb ref other)
in_line-append_one other ref [] = omega arith
in_line-append_one other ref (r ∷ rs) = omega (arith, in_line-append_one other ref rs)

module _ (p : MemoryJob → Bool) where
  pub jobs_with-append_one :
      (other : ℕ) (j : MemoryJob) (js : List MemoryJob)
      → jobs_with p other (js ++ j ∷ [])
        ≡ jobs_with p other js + (if eqb j.ref other then one_if (p j) else 0)
  jobs_with-append_one other j [] = omega arith
  jobs_with-append_one other j (k ∷ js) = omega (arith, jobs_with-append_one other j js)

  write_head :
      (ref other : ℕ) (f : MemoryJob → MemoryJob) (j : MemoryJob) (js : List MemoryJob)
      → eqb j.ref ref ≡ true
      → (f j).ref ≡ j.ref
      → jobs_with p other (write_job ref f (j ∷ js)) + (if eqb ref other then one_if (p j) else 0)
        ≡ jobs_with p other (j ∷ js) + (if eqb ref other then one_if (p (f j)) else 0)
  unfolding write_job
  write_head ref other f j js here same = ground arith

  pub jobs_with-write_job :
      (ref other : ℕ) (f : MemoryJob → MemoryJob) (js : List MemoryJob) {j : MemoryJob}
      → job_by ref js ≡ some j
      → (f j).ref ≡ j.ref
      → jobs_with p other (write_job ref f js) + (if eqb ref other then one_if (p j) else 0)
        ≡ jobs_with p other js + (if eqb ref other then one_if (p (f j)) else 0)
  unfolding job_by write_job
  jobs_with-write_job ref other f [] found same = cc
  jobs_with-write_job ref other f (k ∷ js) {j} found same = elim (Bool-cases (eqb k.ref ref)) [
    | inl here ↦
        let found' : some k ≡ some j = rw here at found in
        let same_job : k ≡ j = cc in
        rw same_job (write_head ref other f j js (rw (← same_job) here) same)
    | inr there ↦
        let found' : job_by ref js ≡ some j = rw there at found in
        rw there (omega (arith, jobs_with-write_job ref other f js found' same))
  ]

  drop_head :
      (ref other : ℕ) (j : MemoryJob) (js : List MemoryJob)
      → eqb j.ref ref ≡ true
      → jobs_with p other (drop_job ref (j ∷ js)) + (if eqb ref other then one_if (p j) else 0)
        ≡ jobs_with p other (j ∷ js)
  unfolding drop_job
  drop_head ref other j js here = ground arith

  pub jobs_with-drop_job :
      (ref other : ℕ) (js : List MemoryJob) {j : MemoryJob}
      → job_by ref js ≡ some j
      → jobs_with p other (drop_job ref js) + (if eqb ref other then one_if (p j) else 0)
        ≡ jobs_with p other js
  unfolding job_by drop_job
  jobs_with-drop_job ref other [] found = cc
  jobs_with-drop_job ref other (k ∷ js) {j} found = elim (Bool-cases (eqb k.ref ref)) [
    | inl here ↦
        let found' : some k ≡ some j = rw here at found in
        let same_job : k ≡ j = cc in rw same_job (drop_head ref other j js (rw (← same_job) here))
    | inr there ↦
        let found' : job_by ref js ≡ some j = rw there at found in
        rw there (omega (arith, jobs_with-drop_job ref other js found'))
  ]
