-- ===== src/Outbox.antt =====
-- src/Outbox.ts: the relay that enqueues the rows of an outbox. The timer of its loop is not modelled,
-- a cycle is.
pub mod Rows
pub mod Cycle
use jubs.Common.{
  ℕ, Bool, true, false, Option, none, some, List, [], ◌∷◌, ◌++◌, find, if◌then◌else◌, ◌or_else◌,
}
use jubs.Text.{Text, codes, ◌==◌, includes}
use jubs.Fault.{
  Thrown, is_version_ahead, empty_row_id, colon_in_row_id, row_of_unknown_job, row_of_flow,
}
use jubs.Result.{Result, ok, err, refuse, ◌>>=◌}
use jubs.Effects.{Exec, pure, lift, catch, ◌>>◌}
use jubs.Effects
use jubs.Definition.{JobDefinition, settings, Slot, slots_of}
use jubs.Delivery.{resolve_delivery_without_uniqueness}
use jubs.Envelope.{Envelope}
use jubs.JobId.{colon}
use jubs.Migration.{migrate_envelope, validate_payload}
use jubs.Driver.{EnqueueRequest}

pub record ClaimedEnvelope : Type 0 where
  pub id : Text
  pub envelope : Envelope

-- `Outbox`, over the state `S` of the table; `save` of the rows of a block has its transaction.
pub record Outbox (S : Type 0) : Type 0 where
  pub claim : ℕ → Exec S (List ClaimedEnvelope)
  pub mark_delivered : List Text → Exec S (Unit {0})

pub data LeftBehindReason : Type 0 where
  driver_failed newer_version not_recoverable : LeftBehindReason

pub record LeftBehindEvent : Type 0 where
  pub row_id : Text
  pub name : Text
  pub reason : LeftBehindReason
  pub error : Thrown

pub record RelayConfig (S : Type 0) : Type 0 where
  pub outbox : Outbox S
  pub enqueue : EnqueueRequest → Exec S Text
  pub definitions : Option (List JobDefinition)
  pub limit : Option ℕ
  pub on_left_behind : Option (LeftBehindEvent → Exec S (Unit {0}))

abbrev default_limit : ℕ
default_limit = 100

-- `outboxJobId`
unfoldable pub outbox_job_id : Text → Result Text
outbox_job_id [] = refuse empty_row_id
outbox_job_id (c ∷ row) =
    if includes colon (c ∷ row)
    then refuse (colon_in_row_id (c ∷ row))
    else ok (codes "outbox-" ++ c ∷ row)

abbrev pub without_slots : Text → JobDefinition → List Slot → Result JobDefinition
without_slots row d [] = ok d
without_slots row d (s ∷ ss) = refuse (row_of_flow row (settings d).name)

abbrev pub known : ClaimedEnvelope → Option JobDefinition → Result JobDefinition
known claimed none = refuse (row_of_unknown_job claimed.id claimed.envelope.name)
known claimed (some d) = without_slots claimed.id d (slots_of d)

-- `leftBehindEvent`
abbrev pub left_behind_event : ClaimedEnvelope → LeftBehindReason → Thrown → LeftBehindEvent
left_behind_event row reason e = record {
  row_id = row.id;
  name = row.envelope.name;
  reason = reason;
  error = e;
}

module _ {S : Type 0} (config : RelayConfig S) where
  -- `definitionOf`
  unfoldable pub definition_of : ClaimedEnvelope → Result JobDefinition
  definition_of claimed =
      known claimed
        (find (λ d. (settings d).name == claimed.envelope.name) (config.definitions or_else []))

  -- The first `try` of `deliver`
  unfoldable pub request_of : ClaimedEnvelope → Result EnqueueRequest
  request_of claimed = do
    definition ← definition_of claimed
    migrated ← migrate_envelope definition claimed.envelope
    validated ← validate_payload definition migrated
    delivery ← resolve_delivery_without_uniqueness definition validated
    job_id ← outbox_job_id claimed.id
    ok (record {
      queue = (settings definition).queue;
      envelope = claimed.envelope;
      delivery = delivery;
      job_id = some job_id;
    })

  abbrev pub hand_over : ClaimedEnvelope → Result Text → Option LeftBehindEvent
  hand_over claimed (ok id) = none
  hand_over claimed (err e) = some (left_behind_event claimed driver_failed e)

  abbrev pub deliver_request :
      ClaimedEnvelope → Result EnqueueRequest → S → Option LeftBehindEvent × S
  deliver_request claimed (err e) s = (
    some (
        left_behind_event claimed (if is_version_ahead e then newer_version else not_recoverable)
          e),
    s,
  )
  deliver_request claimed (ok request) s =
      let (r, s') = config.enqueue request s in (hand_over claimed r, s')

  -- `deliver`: the event of a row that it left behind. It throws nothing.
  unfoldable pub deliver : ClaimedEnvelope → S → Option LeftBehindEvent × S
  deliver claimed = deliver_request claimed (request_of claimed)

  abbrev pub told : Option (LeftBehindEvent → Exec S (Unit {0})) → LeftBehindEvent → S → S
  told none event s = s
  told (some hook) event s = (hook event s).1

  -- `reportLeftBehind`: what the hook throws is written to the console.
  unfoldable pub report_left_behind : LeftBehindEvent → S → S
  report_left_behind event s = told config.on_left_behind event s

  abbrev pub reported : Option LeftBehindEvent → S → S
  reported none s = s
  reported (some event) s = report_left_behind event s

  abbrev pub with_row : Text → Option LeftBehindEvent → List Text → List Text
  with_row id none delivered = id ∷ delivered
  with_row id (some event) delivered = delivered

  -- The loop of a cycle: the rows that it delivered, in their order.
  abbrev pub deliver_each : List ClaimedEnvelope → S → List Text × S
  deliver_each [] s = ([], s)
  deliver_each (row ∷ rows) s =
      let (event, s') = deliver row s in
      let (delivered, s'') = deliver_each rows (reported event s') in
      (with_row row.id event delivered, s'')

  abbrev pub mark : List Text → Exec S (Unit {0})
  mark [] = pure tt
  mark (id ∷ ids) = config.outbox.mark_delivered (id ∷ ids)

  abbrev pub relay : List ClaimedEnvelope → Exec S (Unit {0})
  relay rows s = let (delivered, s') = deliver_each rows s in mark delivered s'

  -- `runRelayCycle`
  unfoldable pub run_relay_cycle : Exec S (Unit {0})
  run_relay_cycle = Effects.◌>>=◌ (config.outbox.claim (config.limit or_else default_limit)) relay
