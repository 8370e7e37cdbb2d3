-- ===== src/Redis/Worker/Postponed.antt =====
-- What BullMQ counts as a failed attempt is what the runtime reports as one.
use jubs.Common.{
  ℕ, ◌*◌, ◌-◌, ◌^◌, min, ◌≡◌, refl, ◌⊎◌, inl, inr, Bool, true, false, Option, some, List,
  if◌then◌else◌,
}
use jubs.Text.{Text}
use jubs.Fault.{Thrown, Ending, Cause, lease_held, shutdown_abort, children_pending}
use jubs.Result.{Result, ok, err}
use jubs.Effects.{Exec}
use jubs.Envelope.{Envelope, read_envelope}
use jubs.Idempotency.{held_retry_delay_ms}
use jubs.Runtime.{
  JobHandler, JobsConfig, Environment, is_postponed, dispatch, report, run_on, event_of,
}
use jubs.Runtime.Outcome.{run_on-dispatch}
use jubs.Redis.Bull.{BullJob, given}
use jubs.Redis.Worker.{
  Processed, delayed_for, waits_again, reschedule, wait_for_children, delivery_of, settled, process,
}

module _ {S : Type 0}
    (move_to_delayed : BullJob → (delay_ms : ℕ) → (token : Text) → Exec S (Unit {0}))
    (move_to_waiting_children : BullJob → (token : Text) → Exec S Bool)
    (delays : (job : BullJob) (delay_ms : ℕ) (token : Text) (s : S)
      → (move_to_delayed job delay_ms token s).0 ≡ ok tt)
    (waits : (job : BullJob) (token : Text) (s : S)
      → (move_to_waiting_children job token s).0 ≡ ok true) where
  -- The time to a delivery that met a held lease: 100 ms, doubled at each start, up to a second.
  abbrev pub retry_ms : BullJob → ℕ
  retry_ms job = min (100 * 2 ^ (job.attempts_started - 1)) 1000

  -- The move that an error asks for, how the delivery then ends, and the state behind it.
  pub data Moves (job : BullJob) (token : Text) (t : S) : Thrown → Processed → S → Type 0 where
    by_lease :
        (key : Text)
        → Moves job token t
            (lease_held key)
            (delayed_for (retry_ms job))
            (move_to_delayed job (retry_ms job) token t).1
    by_shutdown :
        (name : Text) (body : Option Ending) (c : Cause)
        → Moves job token t
            (shutdown_abort name body c)
            (delayed_for 1000)
            (move_to_delayed job 1000 token t).1
    by_children :
        (name : Text) (n : ℕ)
        → Moves job token t
            (children_pending name n)
            waits_again
            (move_to_waiting_children job token t).1

  -- A delivery is moved away and fails no attempt, or it fails with its error and `reported` behind it.
  abbrev pub MovesOrFails : BullJob → Text → Thrown → S → S → Result Processed × S → Type 0
  MovesOrFails job token e t reported done =
      ((ending : Processed) × (u : S) × Moves job token t e ending u × (done ≡ (ok ending, u)))
      ⊎ ((is_postponed e ≡ false) × (done ≡ (err e, reported)))

  settled-MovesOrFails :
      (job : BullJob) {token : Text} (e : Thrown) (t reported : S)
      → given (some token) ≡ some token
      → MovesOrFails job token e t reported (
          settled move_to_delayed move_to_waiting_children job
            (some token)
            (err e)
            (if is_postponed e then t else reported))
  unfolding reschedule wait_for_children held_retry_delay_ms
  settled-MovesOrFails job {token} (lease_held key) t reported held = inl (
    delayed_for (retry_ms job),
    _,
    by_lease key,
    rw (held, delays job (retry_ms job) token t) refl,
  )
  settled-MovesOrFails job {token} (shutdown_abort name body c) t reported held =
      inl (delayed_for 1000, _, by_shutdown name body c, rw (held, delays job 1000 token t) refl)
  settled-MovesOrFails job {token} (children_pending name n) t reported held =
      inl (waits_again, _, by_children name n, rw (held, waits job token t) refl)
  settled-MovesOrFails job e t reported held = inr (refl, refl)

  -- Over BullMQ that makes the moves, a delivery of a job with an id, a token and an envelope that can be
  -- read, whose dispatch throws: where its key is held or a shutdown aborts it, it is delayed, for the time of a
  -- held key or for a second, and where children are pending it waits for them again; then nothing was
  -- reported, and BullMQ counts no failed attempt. With every other error BullMQ fails the attempt, and the
  -- runtime has reported it.
  pub process-run_on :
      (config : JobsConfig S) (env : Environment S) (handlers : List (JobHandler S)) (queue : Text)
      (job : BullJob) (id token : Text) (envelope : Envelope) (e : Thrown) (s t : S)
      → given job.id ≡ some id
      → given (some token) ≡ some token
      → read_envelope job.stored ≡ ok envelope
      → let delivery = delivery_of job id in
        let event = event_of config env handlers queue delivery envelope in
        dispatch config env handlers envelope event delivery s ≡ (err e, t)
        → MovesOrFails job token e t (report config env handlers envelope event delivery e t).1 (
            process move_to_delayed move_to_waiting_children
              (run_on config env handlers queue)
              job
              (some token)
              s)
  unfolding process
  process-run_on config env handlers queue job id token envelope e s t named held readable threw =
      let delivery = delivery_of job id in
      let event = event_of config env handlers queue delivery envelope in
      let (outcome, returned_state, thrown_state) =
        run_on-dispatch config env handlers queue delivery s envelope readable in
      let ends : (run_on config env handlers queue delivery s).0 ≡ err e =
        rw (outcome, threw) refl in
      let after = rw threw at (thrown_state e (rw threw refl)) in
      rw (named, ends, after)
        (settled-MovesOrFails job e t (report config env handlers envelope event delivery e t).1
          held)
