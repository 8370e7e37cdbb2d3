-- ===== src/Runtime/Outcome.antt =====
-- What comes out of a delivery, whatever the hooks and the dead queue do.
use jubs.Common.{
  ◌≡◌, refl, Bool, true, false, Option, none, some, List, Bool-cases, inl, inr, any, if◌then◌else◌,
}
use jubs.Text.{Text, ◌==◌}
use jubs.Fault.{Thrown}
use jubs.Result.{Result, ok, err}
use jubs.Effects.{Exec, handle, catch, pure, ◌>>◌}
use jubs.Value.{Value}
use jubs.Envelope.{Envelope, read_envelope}
use jubs.Driver.{JobDelivery, Burial, DeadEntry}
use jubs.Dead.{burial_for, serialize_error}
use jubs.Runtime.{
  bury_in, buried, failed, JobEvent, JobFailureEvent, JobHandler, JobsConfig, Environment, notify,
  is_postponed, dispatch, report, run_on, event_of,
}

-- An action that always ends well.
abbrev pub EndsWell {ℓ} : {S : Type ℓ} → Exec S (Unit {ℓ}) → Type ℓ
EndsWell m = (s : _) → (m s).0 ≡ ok tt

handle-ok :
    {S : Type 0} (r : Result (Unit {0})) (s : S)
    → (handle {A = Unit {0}} r (λ e. pure tt) s).0 ≡ ok tt
handle-ok (ok _) s = refl
handle-ok (err e) s = refl

EndsWell-catch : {S : Type 0} (m : Exec S (Unit {0})) → EndsWell (catch m (λ e. pure tt))
EndsWell-catch m s = handle-ok (m s).0 (m s).1

EndsWell->> : {S : Type 0} (m n : Exec S (Unit {0})) → EndsWell m → EndsWell n → EndsWell (m >> n)
EndsWell->> m n hm hn s = rw (hm s) (hn (m s).1)

pub EndsWell-notify :
    {S E : Type 0} (hook : Option (E → Exec S (Unit {0}))) (event : E)
    → EndsWell (notify hook event)
unfolding notify
EndsWell-notify none event s = refl
EndsWell-notify (some hook) event s = EndsWell-catch (hook event) s

module _ {S : Type 0} (config : JobsConfig S) (env : Environment S)
    (handlers : List (JobHandler S)) where
  EndsWell-bury_in :
      (kept : Bool) (queue : Text) (entry : DeadEntry)
      → EndsWell (bury_in config env handlers kept queue entry)
  EndsWell-bury_in true queue entry s = EndsWell-catch (config.driver.bury queue entry) s
  EndsWell-bury_in false queue entry s = refl

  EndsWell-buried :
      (envelope : Envelope) (failure : JobFailureEvent) (burial : Option Burial)
      → EndsWell (buried config env handlers envelope failure burial)
  EndsWell-buried envelope failure none s = refl
  EndsWell-buried envelope failure (some burial) s =
      let kept = any (λ q. q == failure.event.queue) config.dead_queues in
      let entry : DeadEntry = record {
        job_id = failure.event.id;
        envelope = envelope;
        error = failure.error;
        burial = burial;
      } in
      EndsWell->> (bury_in config env handlers kept failure.event.queue entry)
        (notify config.hooks.on_dead failure) (EndsWell-bury_in kept failure.event.queue entry)
        (EndsWell-notify config.hooks.on_dead failure) s

  EndsWell-report :
      (envelope : Envelope) (event : JobEvent) (delivery : JobDelivery) (e : Thrown)
      → EndsWell (report config env handlers envelope event delivery e)
  unfolding report
  EndsWell-report envelope event delivery e s =
      let failure : JobFailureEvent = record {
        event = event;
        error = serialize_error env.wording env.stack_of e;
      } in
      EndsWell->> (notify config.hooks.on_attempt_failed failure)
        (buried config env handlers envelope failure (burial_for delivery e))
        (EndsWell-notify config.hooks.on_attempt_failed failure)
        (EndsWell-buried envelope failure (burial_for delivery e)) s

  -- The outcome of a dispatch that failed is its error.
  failed-outcome :
      (envelope : Envelope) (event : JobEvent) (delivery : JobDelivery) (e : Thrown) (s : S)
      → (failed config env handlers envelope event delivery e s).0 ≡ err e
  failed-outcome envelope event delivery e s = elim (Bool-cases (is_postponed e)) [
    | inl h ↦ rw h
    | inr h ↦ rw (h, EndsWell-report envelope event delivery e s)
  ]

  failed-state :
      (envelope : Envelope) (event : JobEvent) (delivery : JobDelivery) (e : Thrown) (s : S)
      → (failed config env handlers envelope event delivery e s).1
        ≡ (if is_postponed e then s else (report config env handlers envelope event delivery e s).1)
  failed-state envelope event delivery e s = elim (Bool-cases (is_postponed e)) [
    | inl h ↦ rw h
    | inr h ↦ rw (h, EndsWell-report envelope event delivery e s)
  ]

  handle-failed :
      (envelope : Envelope) (event : JobEvent) (delivery : JobDelivery) (r : Result Value) (s : S)
      → let done = handle r (failed config env handlers envelope event delivery) s in
        (done.0 ≡ r)
        × ((v : Value) → r ≡ ok v → done.1 ≡ s)
        × ((e : Thrown)
            → r ≡ err e
            → done.1 ≡ (
                if is_postponed e
                then s
                else (report config env handlers envelope event delivery e s).1))
  handle-failed envelope event delivery (ok v) s = (refl, λ w h. refl, λ e h. cc)
  handle-failed envelope event delivery (err e) s = (
    failed-outcome envelope event delivery e s,
    λ w h. cc,
    λ e' h. let same : e ≡ e' = cc in rw (← same) (failed-state envelope event delivery e s),
  )

  -- The outcome of a delivery whose envelope can be read is that of its dispatch, whatever the
  -- hooks and the dead queue do. A dispatch that returns is followed by nothing, an error that
  -- postpones the job by nothing either, and every other error by its report alone.
  pub run_on-dispatch :
      (queue : Text) (delivery : JobDelivery) (s : S) (envelope : Envelope)
      → read_envelope delivery.envelope ≡ ok envelope
      → let event = event_of config env handlers queue delivery envelope in
        let outcome = dispatch config env handlers envelope event delivery s in
        let done = run_on config env handlers queue delivery s in
        (done.0 ≡ outcome.0)
        × ((v : Value) → outcome.0 ≡ ok v → done.1 ≡ outcome.1)
        × ((e : Thrown)
            → outcome.0 ≡ err e
            → done.1 ≡ (
                if is_postponed e
                then outcome.1
                else (report config env handlers envelope event delivery e outcome.1).1))
  unfolding run_on
  run_on-dispatch queue delivery s envelope h =
      let event = event_of config env handlers queue delivery envelope in
      let outcome = dispatch config env handlers envelope event delivery s in
      rw h (handle-failed envelope event delivery outcome.0 outcome.1)
