-- ===== src/Runtime/Refusals.antt =====
-- What a delivery does not do when it is refused, and what comes out when it reaches its handler.
use jubs.Common.{◌≡◌, refl, inl, inr, Option, none, some, List}
use jubs.Text.{Text}
use jubs.Fault.{Thrown, unrecoverable, refused, no_handler}
use jubs.Result
use jubs.Result.{Result, Result-cases, >>=-eq-ok, ok, err}
use jubs.Value.{Value, Fields}
use jubs.Effects.{Exec, continue, pure, ◌>>◌}
use jubs.Envelope.{Envelope, read_envelope}
use jubs.Driver.{JobDelivery}
use jubs.Idempotency.{idempotency_key_for}
use jubs.Migration.{assert_version_is_known, migrate_envelope, validate_payload}
use jubs.Flow.{children_for}
use jubs.Runtime.{
  JobEvent, JobHandler, JobsConfig, Environment, HandlerContext, notify, dispatch, dispatch_to,
  run_on, handler_named, run_handler,
}
use jubs.Runtime.Outcome.{EndsWell-notify}

continue-notify :
    {S E : Type 0} (hook : Option (E → Exec S (Unit {0}))) (event : E) (r : Result Value) (s : S)
    → (continue r (λ v. notify hook event >> pure v) s).0 ≡ r
continue-notify hook event (ok v) s = rw (EndsWell-notify hook event s)
continue-notify hook event (err e) s = refl

module _ {S : Type 0} (config : JobsConfig S) (env : Environment S)
    (handlers : List (JobHandler S)) where
  -- A delivery whose envelope cannot be read fails for good, with nothing written, reported or buried.
  pub run_on-unreadable :
      (queue : Text) (delivery : JobDelivery) (s : S) (e : Thrown)
      → read_envelope delivery.envelope ≡ err e
      → run_on config env handlers queue delivery s ≡ (err (unrecoverable e), s)
  unfolding run_on
  run_on-unreadable queue delivery s e h = rw h

  -- A job without a handler, and one that the check of its version refuses, fail with nothing
  -- written: no hook has run, no lease is taken and no handler is called.
  pub dispatch-unstarted :
      (envelope : Envelope) (event : JobEvent) (delivery : JobDelivery) (s : S)
      → (handler_named config env handlers envelope.name ≡ none
          → dispatch config env handlers envelope event delivery s
            ≡ (err (unrecoverable (refused (no_handler envelope.name))), s))
        × ((handler : JobHandler S) (e : Thrown)
            → handler_named config env handlers envelope.name ≡ some handler
            → assert_version_is_known handler.definition envelope ≡ err e
            → dispatch config env handlers envelope event delivery s ≡ (err e, s))
  unfolding dispatch
  dispatch-unstarted envelope event delivery s =
      (λ none_named. rw none_named, λ handler e named ahead. rw (named, ahead))

  -- What the migration of the envelope and the schema of its job make of the payload.
  abbrev pub prepared : JobHandler S → Envelope → Result Value
  prepared handler envelope =
      Result.◌>>=◌ (migrate_envelope handler.definition envelope)
        (λ migrated. validate_payload handler.definition migrated)

  dispatch_to-unprepared :
      (handler : JobHandler S) (envelope : Envelope) (event : JobEvent) (delivery : JobDelivery)
      (s : S) (e : Thrown)
      → prepared handler envelope ≡ err e
      → dispatch_to config env handlers handler envelope event delivery s
        ≡ (err (unrecoverable e), s)
  unfolding dispatch_to
  dispatch_to-unprepared handler envelope event delivery s e failed =
      elim (Result-cases (migrate_envelope handler.definition envelope)) [
        | inl (migrated, h) ↦
            let invalid : validate_payload handler.definition migrated ≡ err e = rw h at failed in
            rw (h, invalid)
        | inr (e', h) ↦
            let thrown : Path (Result Value) (err e') (err e) = rw h at failed in
            let same : e' ≡ e = cc in rw (h, same)
      ]

  -- A job with a handler and a known version, of which no migration or no schema accepts the
  -- payload, fails for good before its handler is called or its key is taken: only the hook of the
  -- start has run.
  pub dispatch-unprepared :
      (envelope : Envelope) (event : JobEvent) (delivery : JobDelivery) (s : S)
      (handler : JobHandler S) (e : Thrown)
      → handler_named config env handlers envelope.name ≡ some handler
      → assert_version_is_known handler.definition envelope ≡ ok tt
      → prepared handler envelope ≡ err e
      → dispatch config env handlers envelope event delivery s
        ≡ (err (unrecoverable e), (notify config.hooks.on_start event s).1)
  unfolding dispatch dispatch_to
  dispatch-unprepared envelope event delivery s handler e named known failed =
      rw (named, known, EndsWell-notify config.hooks.on_start event s)
        (dispatch_to-unprepared handler envelope event delivery
          (notify config.hooks.on_start event s).1 e failed)

  -- What comes out of a delivery that reaches its handler is what comes out of `run`.
  pub dispatch-run_handler :
      (envelope : Envelope) (event : JobEvent) (delivery : JobDelivery) (s s' : S)
      (handler : JobHandler S) (v : Value) (children : Fields)
      → handler_named config env handlers envelope.name ≡ some handler
      → assert_version_is_known handler.definition envelope ≡ ok tt
      → prepared handler envelope ≡ ok v
      → children_for config.driver.read_flow handler.definition envelope event.queue delivery.id
          (notify config.hooks.on_start event s).1
        ≡ (ok children, s')
      → idempotency_key_for handler.definition v ≡ none
      → (dispatch config env handlers envelope event delivery s).0
        ≡ (run_handler config env handlers handler delivery v
            (record {
              id = event.id;
              attempt = delivery.attempt;
              max_attempts = delivery.max_attempts;
              origin = envelope.origin;
              children = children;
            })
            s').0
  unfolding dispatch dispatch_to
  dispatch-run_handler envelope event delivery s s' handler v children named known valid full
        keyless =
      let context : HandlerContext = record {
        id = event.id;
        attempt = delivery.attempt;
        max_attempts = delivery.max_attempts;
        origin = envelope.origin;
        children = children;
      } in
      let outcome = run_handler config env handlers handler delivery v context s' in
      let (migrated, moved, accepted) =
        >>=-eq-ok (migrate_envelope handler.definition envelope)
          (λ migrated. validate_payload handler.definition migrated) valid in
      rw
        (
          named,
          known,
          EndsWell-notify config.hooks.on_start event s,
          moved,
          accepted,
          full,
          keyless,
        )
        (continue-notify config.hooks.on_success event outcome.0 outcome.1)
