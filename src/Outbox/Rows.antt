-- ===== src/Outbox/Rows.antt =====
-- The job that a row of the outbox becomes.
use jubs.Common.{
  ◌≡◌, ◌≢◌, refl, ap, sym, ◌∙◌, false, Option, none, some, List, [], ◌∷◌, ◌++◌, arith, find,
  ◌or_else◌,
}
use jubs.Text.{Text, codes, ◌==◌, includes}
use jubs.Result.{ok, >>=-eq-ok, ok-injective}
use jubs.JobId.{colon, compose_job_id, read_job_id}
use jubs.JobId.Laws.{read_job_id-compose_job_id}
use jubs.Definition.{JobDefinition, settings, Slot, slots_of}
use jubs.Delivery.Resolved.{resolve_delivery_without_uniqueness_total}
use jubs.Delivery.{resolve_delivery_without_uniqueness}
use jubs.Migration.{migrate_envelope, validate_payload}
use jubs.Driver.{EnqueueRequest}
use jubs.Outbox.{
  ClaimedEnvelope, RelayConfig, outbox_job_id, definition_of, request_of, known, without_slots,
}

outbox_job_id-eq-ok :
    (row : Text) {id : Text} → outbox_job_id row ≡ ok id → id ≡ codes "outbox-" ++ row
unfolding outbox_job_id
outbox_job_id-eq-ok [] h = cc
outbox_job_id-eq-ok (c ∷ row) h = ground arith

-- Two rows that are given the same job id are the same row; and on a queue with a name without a
-- colon, the id that a row is given is read back from the id of its job.
pub outbox_job_id_lem :
    (row row' queue : Text) {id : Text}
    → outbox_job_id row ≡ ok id
    → (outbox_job_id row' ≡ ok id → row ≡ row')
      × (queue ≢ []
          → includes colon queue ≡ false
          → read_job_id (compose_job_id queue id) ≡ ok (record { queue = queue; stored_id = id }))
outbox_job_id_lem row row' queue {id} h =
    let made = outbox_job_id-eq-ok row h in
    (
      λ h'. let made' = outbox_job_id-eq-ok row' h' in cc,
      λ named plain. read_job_id-compose_job_id queue id named plain (λ empty. cc),
    )

without_slots_sound :
    (row : Text) (d : JobDefinition) (slots : List Slot) {d' : JobDefinition}
    → without_slots row d slots ≡ ok d'
    → (d ≡ d') × (slots ≡ [])
without_slots_sound row d [] h = (ok-injective h, refl)
without_slots_sound row d (x ∷ slots) h = cc

known_sound :
    (claimed : ClaimedEnvelope) (o : Option JobDefinition) {d : JobDefinition}
    → known claimed o ≡ ok d
    → (o ≡ some d) × (slots_of d ≡ [])
known_sound claimed none h = cc
known_sound claimed (some d) h =
    let (same, alone) = without_slots_sound claimed.id d (slots_of d) h in
    (ap some same, rw (← same) alone)

-- A row that is made into a request goes to the queue of the definition that the client knows
-- under the name of the job, one that waits on no children, with the envelope of the row, the id
-- of the row and without uniqueness.
pub request_of_sound :
    {S : Type 0} (config : RelayConfig S) (claimed : ClaimedEnvelope) {request : EnqueueRequest}
    → request_of config claimed ≡ ok request
    → (d : JobDefinition) × (find
          (λ d. (settings d).name == claimed.envelope.name)
          (config.definitions or_else [])
        ≡ some d)
      × (slots_of d ≡ [])
      × (request.queue ≡ (settings d).queue)
      × (request.envelope ≡ claimed.envelope)
      × (request.delivery.unique ≡ none)
      × (request.job_id ≡ some (codes "outbox-" ++ claimed.id))
unfolding request_of definition_of
request_of_sound config claimed {request} h =
    let (d, defined, h1) = >>=-eq-ok (definition_of config claimed) _ h in
    let (migrated, moved, h2) = >>=-eq-ok (migrate_envelope d claimed.envelope) _ h1 in
    let (v, valid, h3) = >>=-eq-ok (validate_payload d migrated) _ h2 in
    let (delivery, resolved, h4) = >>=-eq-ok (resolve_delivery_without_uniqueness d v) _ h3 in
    let (id, named, h5) = >>=-eq-ok (outbox_job_id claimed.id) _ h4 in
    let (r, resolved', plain) = resolve_delivery_without_uniqueness_total d v in
    let same : r ≡ delivery = cc in
    let made = outbox_job_id-eq-ok claimed.id named in
    let (found, alone) = known_sound claimed _ defined in
    let handed = sym (ok-injective h5) in
    (
      d,
      found,
      alone,
      ap (λ r. r.queue) handed,
      ap (λ r. r.envelope) handed,
      ap (λ r. r.delivery.unique) handed ∙ ap (λ r. r.unique) (sym same) ∙ plain,
      ap (λ r. r.job_id) handed ∙ ap some made,
    )
