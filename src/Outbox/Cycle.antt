-- ===== src/Outbox/Cycle.antt =====
-- What a cycle of the relay marks as delivered.
use jubs.Common.{◌≡◌, refl, Option, none, some, List, [], ◌∷◌, ◌++◌, if◌then◌else◌, ◌or_else◌}
use jubs.Text.{Text}
use jubs.Fault.{Thrown, is_version_ahead}
use jubs.Result.{Result, ok, err}
use jubs.Effects.{Exec}
use jubs.Driver.{EnqueueRequest}
use jubs.Outbox.{
  mark, run_relay_cycle, driver_failed, ClaimedEnvelope, LeftBehindEvent, RelayConfig, request_of,
  deliver, deliver_request, hand_over, report_left_behind, with_row, deliver_each,
  left_behind_event, told, newer_version, not_recoverable, reported,
}

module _ {S : Type 0} (config : RelayConfig S) where
  -- What the hook for a row that is left behind does, if there is one, whatever it throws.
  pub data Told (event : LeftBehindEvent) : S → S → Type 0 where
    no_hook : (s : S) → config.on_left_behind ≡ none → Told event s s
    by_hook :
        (hook : LeftBehindEvent → Exec S (Unit {0})) (r : Result (Unit {0})) (s s' : S)
        → config.on_left_behind ≡ some hook
        → hook event s ≡ (r, s')
        → Told event s s'

  -- The rows that the driver takes one after the other, and those that are left behind: since no request
  -- is made of them, or since the driver refuses it.
  pub data Relays : List ClaimedEnvelope → S → List Text → S → Type 0 where
    finished : (s : S) → Relays [] s [] s
    taken :
        (row : ClaimedEnvelope) (rows : List ClaimedEnvelope) (request : EnqueueRequest) (id : Text)
        (s s' s'' : S) (ids : List Text)
        → request_of config row ≡ ok request
        → config.enqueue request s ≡ (ok id, s')
        → Relays rows s' ids s''
        → Relays (row ∷ rows) s (row.id ∷ ids) s''
    unmade :
        (row : ClaimedEnvelope) (rows : List ClaimedEnvelope) (e : Thrown) (s s' s'' : S)
        (ids : List Text)
        → request_of config row ≡ err e
        → Told
            (record {
              row_id = row.id;
              name = row.envelope.name;
              reason = if is_version_ahead e then newer_version else not_recoverable;
              error = e;
            })
            s
            s'
        → Relays rows s' ids s''
        → Relays (row ∷ rows) s ids s''
    refused :
        (row : ClaimedEnvelope) (rows : List ClaimedEnvelope) (request : EnqueueRequest)
        (e : Thrown) (s s' t s'' : S) (ids : List Text)
        → request_of config row ≡ ok request
        → config.enqueue request s ≡ (err e, s')
        → Told
            (record {
              row_id = row.id;
              name = row.envelope.name;
              reason = driver_failed;
              error = e;
            })
            s'
            t
        → Relays rows t ids s''
        → Relays (row ∷ rows) s ids s''

  told-Told :
      (hook : Option (LeftBehindEvent → Exec S (Unit {0}))) (event : LeftBehindEvent) (s : S)
      → config.on_left_behind ≡ hook
      → Told event s (told config hook event s)
  told-Told none event s is = no_hook s is
  told-Told (some hook) event s is = by_hook hook _ s _ is refl

  report_left_behind-Told :
      (event : LeftBehindEvent) (s : S) → Told event s (report_left_behind config event s)
  unfolding report_left_behind
  report_left_behind-Told event s = told-Told config.on_left_behind event s refl

  deliver_request_lem :
      (row : ClaimedEnvelope) (rows : List ClaimedEnvelope) (r : Result EnqueueRequest) (s : S)
      → request_of config row ≡ r
      → let (event, s') = deliver_request config row r s in
        (ids : List Text) (s'' : S)
        → Relays rows (reported config event s') ids s''
        → Relays (row ∷ rows) s (with_row config row.id event ids) s''
  deliver_request_lem row rows (err e) s h ids s'' rest =
      unmade row rows e s _ s'' ids h (report_left_behind-Told _ s) rest
  deliver_request_lem row rows (ok request) s h ids s'' rest =
      hand_over_lem (config.enqueue request s).0 refl rest
    where
      hand_over_lem :
          (r : Result Text)
          → (config.enqueue request s).0 ≡ r
          → Relays rows
              (reported config (hand_over config row r) (config.enqueue request s).1)
              ids
              s''
          → Relays (row ∷ rows) s (with_row config row.id (hand_over config row r) ids) s''
      hand_over_lem (ok id) took rest =
          taken row rows request id s _ s'' ids h (λ i. (took i, (config.enqueue request s).1)) rest
      hand_over_lem (err e) took rest =
          refused row rows request e s _ _ s'' ids h (λ i. (took i, (config.enqueue request s).1))
            (report_left_behind-Told _ _) rest

  -- The rows that the driver takes are delivered.
  pub deliver_each_lem :
      (rows : List ClaimedEnvelope) (s : S)
      → Relays rows s (deliver_each config rows s).0 (deliver_each config rows s).1
  unfolding deliver
  deliver_each_lem [] s = finished s
  deliver_each_lem (row ∷ rows) s =
      deliver_request_lem row rows (request_of config row) s refl _ _
        (deliver_each_lem rows (reported config (deliver config row s).0 (deliver config row s).1))

  -- The one write that marks the rows, which is left out where there are none.
  pub data Marks (ids : List Text) (s : S) : Result (Unit {0}) × S → Type 0 where
    nothing_to_mark : ids ≡ [] → Marks ids s (ok tt, s)
    marked :
        (id : Text) (rest : List Text)
        → ids ≡ id ∷ rest
        → Marks ids s (config.outbox.mark_delivered ids s)

  mark-Marks : (ids : List Text) (s : S) → Marks ids s (mark config ids s)
  mark-Marks [] s = nothing_to_mark refl
  mark-Marks (id ∷ ids) s = marked id ids refl

  -- A cycle claims rows up to its limit, or 100. Of these it marks as delivered, in one write behind all of
  -- them, those of which a request is made that the driver takes, in their order, and no other; without such
  -- a row it marks nothing. A row of which no request is made is told to the hook as of a newer version or as
  -- not recoverable, by its error, and one that the driver refuses as a failure of the driver; the cycle goes
  -- on with the next row, whatever the hook throws.
  pub run_relay_cycle-Relays :
      (rows : List ClaimedEnvelope) (s t : S)
      → config.outbox.claim (config.limit or_else 100) s ≡ (ok rows, t)
      → (ids : List Text) × (u : S) × Relays rows t ids u × Marks ids u (run_relay_cycle config s)
  unfolding run_relay_cycle
  run_relay_cycle-Relays rows s t claimed =
      let (ids, u) = deliver_each config rows t in
      (ids, u, deliver_each_lem rows t, rw claimed (mark-Marks ids u))

  told-none :
      (hook : Option (LeftBehindEvent → Exec S (Unit {0}))) (event : LeftBehindEvent) (s : S)
      → hook ≡ none
      → told config hook event s ≡ s
  told-none none event s h = refl
  told-none (some hook) event s h = cc

  -- A row that cannot be made into a request holds no other row back: without a hook, a cycle does
  -- with the rows around it what it does without it.
  pub deliver_each-broken :
      (before after : List ClaimedEnvelope) (row : ClaimedEnvelope) (e : Thrown) (s : S)
      → config.on_left_behind ≡ none
      → request_of config row ≡ err e
      → deliver_each config (before ++ row ∷ after) s ≡ deliver_each config (before ++ after) s
  unfolding deliver report_left_behind
  deliver_each-broken [] after row e s unhooked broken = rw (
    broken,
    told-none config.on_left_behind
        (left_behind_event row (if is_version_ahead e then newer_version else not_recoverable) e) s
        unhooked,
  )
  deliver_each-broken (r ∷ before) after row e s unhooked broken =
      let (event, s') = deliver config r s in
      rw (deliver_each-broken before after row e (reported config event s') unhooked broken)
