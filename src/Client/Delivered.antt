-- ===== src/Client/Delivered.antt =====
-- From an enqueue by the client to the run of the job, over the driver in memory.
use jubs.Common.{ℕ, ◌≡◌, ◌≢◌, refl, ap, arith, ◌∙◌, false, none, some, []}
use jubs.Text.{Text}
use jubs.Value.{Value, json_copy, undefined}
use jubs.Result.{ok}
use jubs.Definition.{JobDefinition, settings, slots_of, Delivery, direct}
use jubs.Delivery.{resolve_delivery}
use jubs.Migration.{validate_payload}
use jubs.Envelope.{write_envelope, read_envelope}
use jubs.Envelope.RoundTrip.{read_envelope-envelope_value}
use jubs.Handlers.{JobsConfig}
use jubs.Atomic.{InScope, hold_or_deliver}
use jubs.Driver.{EnqueueRequest}
use jubs.Memory.Jobs.{MemoryJob, first_runnable}
use jubs.Memory.Jobs.Found.{job_by-append_one}
use jubs.Memory.Driver.{memory_driver}
use jubs.Memory.Queue.Consistent.{IsConsistent}
use jubs.Memory.Queue.{MemoryState, copy_envelope, is_named, new_job, record_job, enqueue_in}
use jubs.Memory.Run.{runnable, delivery_for}
use jubs.Client.{enqueue, held_or_named}
use jubs.Client.Blocks.{ResolvesTo}
use jubs.Client.Replay.{in_memory}

-- A new job in an empty line is the one that runs next.
record_job-runnable :
    (request : EnqueueRequest) (s : MemoryState)
    → IsConsistent s
    → s.pending ≡ []
    → is_named s.paused request.queue ≡ false
    → runnable (record_job (new_job request s) s) ≡ some (new_job request s)
unfolding record_job first_runnable IsConsistent
record_job-runnable request s consistent empty open_queue =
    let new = (consistent s.created).3 (omega arith) in
    let there = job_by-append_one s.recorded (new_job request s) new in
    rw (empty, first_runnable, there, open_queue) refl

-- What the client asks of its driver.
abbrev request_for : JobDefinition → Value → Delivery → EnqueueRequest
request_for definition v delivery = record {
  queue = (settings definition).queue;
  envelope = write_envelope definition v direct;
  delivery = delivery;
  job_id = none;
}

module _ (uuid : ℕ → Text) (base : JobsConfig MemoryState) where
  enqueue-record_job :
      (definition : JobDefinition) (v : Value) (delivery : Delivery) (s : InScope MemoryState Text)
      → slots_of definition ≡ []
      → (validated : Value) → validate_payload definition v ≡ ok validated
      → resolve_delivery definition validated ≡ ok delivery
      → delivery.unique ≡ none
      → delivery.delay_ms ≡ none
      → s.scope ≡ none
      → (enqueue (in_memory uuid base) definition v undefined s).1.outer
        ≡ record_job (new_job (request_for definition v delivery) s.outer) s.outer
  unfolding enqueue held_or_named hold_or_deliver memory_driver enqueue_in
  enqueue-record_job definition v delivery s single validated valid resolves free now scope =
      rw (single, valid, resolves, scope, free, now) refl

  -- A job without slots that is enqueued outside a block, over the driver in memory, with a payload that
  -- is accepted and a delivery without uniqueness or delay, is the job that runs next where the line was
  -- empty and its queue is not paused. It runs on the queue of its definition with the attempts of its
  -- delivery, and the envelope that it is delivered with is read back as the one that the definition
  -- writes for the JSON copy of the payload. The two lists of the driver agreed, and the definition has a
  -- name.
  pub enqueue-runnable :
      (definition : JobDefinition) (v : Value) (delivery : Delivery) (s : InScope MemoryState Text)
      → ResolvesTo delivery (definition, v)
      → delivery.unique ≡ none
      → delivery.delay_ms ≡ none
      → (settings definition).name ≢ []
      → s.scope ≡ none
      → IsConsistent s.outer
      → s.outer.pending ≡ []
      → is_named s.outer.paused (settings definition).queue ≡ false
      → let s' = (enqueue (in_memory uuid base) definition v undefined s).1.outer in
        (j : MemoryJob) × (runnable s' ≡ some j)
        × (j.queue ≡ (settings definition).queue)
        × ((delivery_for j).max_attempts ≡ delivery.attempts)
        × (read_envelope (delivery_for j).envelope
            ≡ ok (write_envelope definition (json_copy v) direct))
  unfolding write_envelope
  enqueue-runnable definition v delivery s (single, validated, valid, resolves) free now called
        scope consistent empty open_queue =
      let request = request_for definition v delivery in
      (
        new_job request s.outer,
        ap runnable (
              enqueue-record_job definition v delivery s single validated valid resolves free now
                scope)
            ∙ record_job-runnable request s.outer consistent empty open_queue,
        refl,
        refl,
        read_envelope-envelope_value (copy_envelope request.envelope) called,
      )
