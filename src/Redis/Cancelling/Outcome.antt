-- ===== src/Redis/Cancelling/Outcome.antt =====
-- What an answer of `cancel` over Redis stands for.
use jubs.Common.{
  ◌≡◌, ◌≢◌, refl, ap, subst, ◌++◌, Bool, true, Option, none, some, Bool-cases, inl, inr, ◌⊎◌,
}
use jubs.Text.{Text}
use jubs.Fault.{Thrown}
use jubs.Result.{Result, ok, err, Result-cases}
use jubs.Effects.{Exec, ◌>>=◌}
use jubs.Driver.{
  active, completed, failed, CancelResult, removed, aborting, children_running, unknown_job,
  finished,
}
use jubs.Redis.{Redis}
use jubs.Redis.Keys.{RedisState}
use jubs.Redis.Bull.{
  Bull, BullJob, BullState, job_state, bull_waiting, bull_prioritized, bull_active, bull_delayed,
  bull_completed, bull_failed, bull_waiting_children, bull_unknown,
}
use jubs.Redis.Cancel.{request_cancel, cancel_prefix}
use jubs.Text.Decimal.{show}
use jubs.Redis.Cancelling.{
  cancel_under_lock, abort, cancel_refused_by_a_lock, refused_by_lock, reached_under_lock,
  remove_whole, cancel_in_state, cancel_found, cancel,
}

module _ {R : Type 0} (redis : Redis R) (bull : Bull (RedisState R)) (locked : Thrown → Bool) where
  -- A call is answered so, and leaves the state that follows.
  abbrev pub Answers : {A : Type 0} → Exec (RedisState R) A → A → RedisState R → Type 0
  Answers call a t = (s : RedisState R) × (call s ≡ (ok a, t))

  -- What has to have happened just before an answer of `cancel`.
  abbrev pub Done : (queue id : Text) → CancelResult → RedisState R → Type 0
  Done queue id removed t = Answers (bull.remove queue id true) tt t
  Done queue id aborting t =
      (job : BullJob) × (r s : RedisState R) × Answers (bull.get_job queue id) (some job) r
      × (bull.get_state queue id r ≡ (ok bull_active, s))
      × (t ≡ record s {
        stored =
            redis.set_for (cancel_prefix queue ++ id) (show job.attempts_started) 30000 s.stored;
      })
  Done queue id children_running t =
      (state : BullState) × (job_state state ≢ active) × Answers (bull.get_state queue id) state t
  Done queue id unknown_job t = Answers (bull.get_job queue id) none t
  Done queue id (finished state) t =
      (now : BullState) × (job_state now ≡ state)
      × Answers (bull.get_state queue id) now t
      × ((state ≡ completed) ⊎ (state ≡ failed))

  abbrev Justified : (queue id : Text) → Result CancelResult × RedisState R → Type 0
  Justified queue id (ok answer, t) = Done queue id answer t
  Justified queue id (err e, t) = Unit

  -- Code that goes on with what a call answers, or stops at its error.
  by_answer :
      {A : Type 0} (P : Result CancelResult × RedisState R → Type 0) (call : Exec (RedisState R) A)
      (f : A → Exec (RedisState R) CancelResult) (s : RedisState R)
      → ((e : Thrown) (t : RedisState R) → P (err e, t))
      → ((a : A) (t : RedisState R) → call s ≡ (ok a, t) → P (f a t))
      → P ((call >>= f) s)
  by_answer P call f s stop go = elim (Result-cases (call s).0) [
    | inl (a, answers) ↦ rw answers (go a (call s).1 (ap (λ r. (r, (call s).1)) answers))
    | inr (e, throws) ↦ rw throws (stop e (call s).1)
  ]

  under_lock :
      (queue id : Text) (job : BullJob) (state : BullState) (s t : RedisState R)
      → Answers (bull.get_job queue id) (some job) s
      → bull.get_state queue id s ≡ (ok state, t)
      → Justified queue id (
          reached_under_lock redis bull locked queue id job (cancel_under_lock (job_state state)) t)
  unfolding cancel_under_lock job_state abort request_cancel cancel_prefix
  under_lock queue id job bull_active s t was is = (job, s, t, was, is, refl)
  under_lock queue id job bull_waiting s t was is = (bull_waiting, (λ h. cc), (s, is))
  under_lock queue id job bull_prioritized s t was is = (bull_prioritized, (λ h. cc), (s, is))
  under_lock queue id job bull_delayed s t was is = (bull_delayed, (λ h. cc), (s, is))
  under_lock queue id job bull_completed s t was is = (bull_completed, (λ h. cc), (s, is))
  under_lock queue id job bull_failed s t was is = (bull_failed, (λ h. cc), (s, is))
  under_lock queue id job bull_waiting_children s t was is =
      (bull_waiting_children, (λ h. cc), (s, is))
  under_lock queue id job bull_unknown s t was is = (bull_unknown, (λ h. cc), (s, is))

  refused_by_lock-Justified :
      (queue id : Text) (found : Option BullJob) (s t : RedisState R)
      → bull.get_job queue id s ≡ (ok found, t)
      → Justified queue id (refused_by_lock redis bull locked queue id found t)
  refused_by_lock-Justified queue id none s t is = (s, is)
  refused_by_lock-Justified queue id (some job) s t is =
      by_answer (Justified queue id) (bull.get_state queue id) _ t (λ e u. tt)
        (λ state u now. under_lock queue id job state t u (s, is) now)

  remove_whole-Justified :
      (queue id : Text) (s : RedisState R)
      → Justified queue id (remove_whole redis bull locked queue id s)
  unfolding cancel_refused_by_a_lock
  remove_whole-Justified queue id s = elim (Result-cases (bull.remove queue id true s).0) [
    | inl (done, answers) ↦ rw answers (s, ap (λ r. (r, (bull.remove queue id true s).1)) answers)
    | inr (e, throws) ↦ elim (Bool-cases (locked e)) [
      | inl by_lock ↦
          rw (throws, by_lock)
            (by_answer (Justified queue id) (bull.get_job queue id) _ _ (λ e' u. tt)
              (λ found u is. refused_by_lock-Justified queue id found _ u is))
      | inr other ↦ rw (throws, other) tt
    ]
  ]

  in_state :
      (queue id : Text) (job : BullJob) (state : BullState) (s t : RedisState R)
      → Answers (bull.get_job queue id) (some job) s
      → bull.get_state queue id s ≡ (ok state, t)
      → Justified queue id (cancel_in_state redis bull locked queue id job (job_state state) t)
  unfolding job_state abort request_cancel cancel_prefix
  in_state queue id job bull_completed s t was is = (bull_completed, refl, (s, is), inl refl)
  in_state queue id job bull_failed s t was is = (bull_failed, refl, (s, is), inr refl)
  in_state queue id job bull_active s t was is = (job, s, t, was, is, refl)
  in_state queue id job bull_waiting s t was is = remove_whole-Justified queue id t
  in_state queue id job bull_prioritized s t was is = remove_whole-Justified queue id t
  in_state queue id job bull_delayed s t was is = remove_whole-Justified queue id t
  in_state queue id job bull_waiting_children s t was is = remove_whole-Justified queue id t
  in_state queue id job bull_unknown s t was is = remove_whole-Justified queue id t

  found-Justified :
      (queue id : Text) (found : Option BullJob) (s t : RedisState R)
      → bull.get_job queue id s ≡ (ok found, t)
      → Justified queue id (cancel_found redis bull locked queue id found t)
  found-Justified queue id none s t is = (s, is)
  found-Justified queue id (some job) s t is =
      by_answer (Justified queue id) (bull.get_state queue id) _ t (λ e u. tt)
        (λ state u now. in_state queue id job state t u (s, is) now)

  -- An answer of `cancel` is the last thing that was seen or done: `removed` after a removal that
  -- returned, `aborting` after the job was read, then its state as active, and then a mark was set under
  -- its id that names the attempts started of the job that was read, for 30 seconds, `finished` after a state that
  -- is completed or failed, `children_running` after one that is not active, and `unknown_job` after a
  -- read that found no job. This holds where a worker takes the lock of the job in between too.
  pub cancel-Done :
      (queue id : Text) (s t : RedisState R) {answer : CancelResult}
      → cancel redis bull locked queue id s ≡ (ok answer, t)
      → Done queue id answer t
  unfolding cancel
  cancel-Done queue id s t h = subst (Justified queue id) h (
      by_answer (Justified queue id) (bull.get_job queue id) _ s (λ e u. tt)
        (λ found u is. found-Justified queue id found s u is))
