-- ===== src/Memory/Queue/Ids.antt =====
-- The ids that `enqueue` of the driver in memory gives out.
use jubs.Common.{
  ℕ, ◌+◌, ◌≡◌, refl, ap, sym, ◌∙◌, Bool, true, Option, none, some, List, [], ◌∷◌, ◌++◌, length,
  length-append, find, Bool-cases, Option-cases, inl, inr,
}
use jubs.Text.{Text}
use jubs.Text.Laws.{==_refl}
use jubs.Text.Decimal.{show}
use jubs.Fault.{refused, unsupported}
use jubs.Result.{ok, err}
use jubs.Driver.{EnqueueRequest}
use jubs.Memory.Jobs.{MemoryJob, job_at}
use jubs.Memory.Queue.{MemoryState, rejected, new_job, record_job, enqueue_in, id_for, already}

module _ {ℓ} {A : Type ℓ} (p : A → Bool) where
  find-append_found : (xs ys : List A) {a : A} → find p xs ≡ some a → find p (xs ++ ys) ≡ some a
  find-append_found [] ys h = cc
  find-append_found (x ∷ xs) ys {a} h = elim (Bool-cases (p x)) [
    | inl here ↦ rw here (rw here at h)
    | inr there ↦ rw there (find-append_found xs ys (rw there at h))
  ]

  find-append_none :
      (xs : List A) (a : A) → find p xs ≡ none → p a ≡ true → find p (xs ++ a ∷ []) ≡ some a
  find-append_none [] a h accepts = rw accepts refl
  find-append_none (x ∷ xs) a h accepts = elim (Bool-cases (p x)) [
    | inl here ↦ let found : some x ≡ none = rw here at h in cc
    | inr there ↦ rw there (find-append_none xs a (rw there at h) accepts)
  ]

module _ (request : EnqueueRequest) (s : MemoryState) where
  recorded_length : length (record_job (new_job request s) s).recorded ≡ length s.recorded + 1
  unfolding record_job
  recorded_length = length-append s.recorded (new_job request s ∷ [])

  recorded_found :
      (id : Text) {j : MemoryJob}
      → job_at request.queue id s.recorded ≡ some j
      → job_at request.queue id (record_job (new_job request s) s).recorded ≡ some j
  unfolding record_job job_at
  recorded_found id found = find-append_found _ s.recorded _ found

  pub enqueue_in-rejected :
      {key : Text}
      → rejected request.delivery.unique request.delivery.delay_ms ≡ some key
      → enqueue_in request s ≡ (err (refused (unsupported key)), s)
  unfolding enqueue_in
  enqueue_in-rejected refusal = rw refusal refl

  module _ (accepted : rejected request.delivery.unique request.delivery.delay_ms ≡ none) where
    pub enqueue_in-new :
        already request.queue request.job_id s.recorded ≡ none
        → enqueue_in request s ≡ (ok (new_job request s).id, record_job (new_job request s) s)
    unfolding enqueue_in
    enqueue_in-new new = rw (accepted, new) refl

    enqueue_in-kept :
        {j : MemoryJob}
        → already request.queue request.job_id s.recorded ≡ some j
        → enqueue_in request s ≡ (ok j.id, s)
    unfolding enqueue_in
    enqueue_in-kept kept = rw (accepted, kept) refl

    job_at-record_job :
        (id : Text)
        → id_for request.job_id s.recorded ≡ id
        → job_at request.queue id s.recorded ≡ none
        → job_at request.queue id (record_job (new_job request s) s).recorded
          ≡ some (new_job request s)
    unfolding job_at record_job
    job_at-record_job id same nothing =
        find-append_none _ s.recorded (new_job request s) nothing
          (rw (same, ==_refl request.queue, ==_refl id) refl)

already-named :
    (queue : Text) {job_id : Option Text} (jobs : List MemoryJob) {c : ℕ} {rest : Text}
    → job_id ≡ some (c ∷ rest)
    → already queue job_id jobs ≡ job_at queue (c ∷ rest) jobs
already-named queue jobs named = rw named refl

module _ (request : EnqueueRequest) (s : MemoryState) where
  -- An enqueue that names its job is one job however often it is repeated: the second one returns what
  -- the first did, and changes nothing.
  pub enqueue_in-twice :
      {c : ℕ} {rest : Text}
      → request.job_id ≡ some (c ∷ rest)
      → let (r, s') = enqueue_in request s in enqueue_in request s' ≡ (r, s')
  enqueue_in-twice {c} {rest} named =
      elim (Option-cases (rejected request.delivery.unique request.delivery.delay_ms)) [
        | inl accepted ↦ elim (Option-cases (already request.queue request.job_id s.recorded)) [
          | inl new ↦
              let same_id : id_for request.job_id s.recorded ≡ c ∷ rest = rw named refl in
              let nothing = sym (already-named request.queue s.recorded named) ∙ new in
              let s' = record_job (new_job request s) s in
              let there = job_at-record_job request s accepted (c ∷ rest) same_id nothing in
              let kept = already-named request.queue s'.recorded named ∙ there in
              rw (enqueue_in-new request s accepted new) (enqueue_in-kept request s' accepted kept)
          | inr (j, kept) ↦
              rw (enqueue_in-kept request s accepted kept) (enqueue_in-kept request s accepted kept)
        ]
        | inr (key, refusal) ↦
            rw (enqueue_in-rejected request s refusal) (enqueue_in-rejected request s refusal)
      ]

  -- An enqueue that names no job is given the count of the kept jobs plus one as its id. Where a kept
  -- job of the queue has that id, a new job is recorded, and the id goes on answering with the kept
  -- one.
  pub enqueue_in-id_of_kept :
      {j : MemoryJob}
      → rejected request.delivery.unique request.delivery.delay_ms ≡ none
      → request.job_id ≡ none
      → let id = show (length s.recorded + 1) in
        let s' = (enqueue_in request s).1 in
        job_at request.queue id s.recorded ≡ some j
        → ((enqueue_in request s).0 ≡ ok id)
          × (length s'.recorded ≡ length s.recorded + 1)
          × (job_at request.queue id s'.recorded ≡ some j)
  unfolding job_at
  enqueue_in-id_of_kept {j} accepted unnamed kept =
      let nothing : already request.queue request.job_id s.recorded ≡ none = rw unnamed refl in
      let same_id : id_for request.job_id s.recorded ≡ show (length s.recorded + 1) =
        rw unnamed refl in
      rw (enqueue_in-new request s accepted nothing)
        (ap ok same_id, recorded_length request s, recorded_found request s _ kept)
