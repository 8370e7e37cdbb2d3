-- ===== src/Examples/Blocks.antt =====
-- Atomic blocks and relay cycles.
use jubs.Common.{ℕ, suc, ◌≡◌, refl, none, some, List, [], ◌∷◌, ◌++◌, find, length}
use jubs.Text.{Text, codes, ◌==◌, includes}
use jubs.Fault.{Thrown, refused, not_an_interval}
use jubs.Result.{ok}
use jubs.Effects.{raise, ◌>>◌}
use jubs.Definition.{JobDefinition, settings, payload_version, slots_of}
use jubs.Delivery.{delivery_defaults, resolve_delivery_without_uniqueness}
use jubs.Migration.{
  migrate_envelope, assert_version_is_known, migrate_from_version, migrate_from, validate_payload,
}
use jubs.Driver.{EnqueueRequest}
use jubs.Atomic.{
  HeldEnqueue, InScope, run_atomic_block, in_atomic_block, outside, flush, WriteEnvelopes,
}
use jubs.Atomic.Block.{run_atomic_block-flush, run_atomic_block-raise, enqueue_each}
use jubs.Atomic.Flush.{flush_lem, Flushed}
use jubs.Outbox.{
  ClaimedEnvelope, RelayConfig, request_of, definition_of, outbox_job_id, run_relay_cycle,
}
use jubs.Outbox.Cycle.{Relays, Marks, run_relay_cycle-Relays}
use jubs.Outbox.Rows.{request_of_sound}
use jubs.Examples.Samples.{mail_queue, email, email_job, email_envelope}

-- An enqueue that adds one to a count.
abbrev one : HeldEnqueue ℕ Text
one = record { deliver = λ s. (ok (codes "1"), suc s); for_outbox = ok email_envelope }

abbrev idle : InScope ℕ Text
idle = record { outer = 0; scope = none }

abbrev count_rows : WriteEnvelopes ℕ
count_rows rows s = (ok tt, length rows)

run_atomic_block-flush_example :
    run_atomic_block
      (enqueue_each (one ∷ [])
        >> run_atomic_block (enqueue_each (one ∷ [])) (some count_rows)
        >> enqueue_each (one ∷ []))
      none
      idle
    ≡ outside (flush ((one ∷ []) ++ (one ∷ []) ++ (one ∷ []))) idle
unfolding in_atomic_block
run_atomic_block-flush_example =
    run_atomic_block-flush (one ∷ []) (one ∷ []) (one ∷ []) (some count_rows) idle refl

abbrev odd : Thrown
odd = refused not_an_interval

run_atomic_block-raise_example :
    (run_atomic_block {A = Unit {0}} (enqueue_each (one ∷ []) >> raise odd) none idle).1 ≡ idle
unfolding in_atomic_block
run_atomic_block-raise_example = run_atomic_block-raise (one ∷ []) none odd idle refl

flush_lem_example : Flushed 0 2 (one ∷ one ∷ []) 0 (flush (one ∷ one ∷ []) 0)
flush_lem_example = flush_lem (one ∷ one ∷ []) 0

-- A relay over a driver that counts what it is handed.
abbrev relay_config : RelayConfig ℕ
relay_config = record {
  outbox = record { claim = λ limit s. (ok [], s); mark_delivered = λ ids s. (ok tt, s) };
  enqueue = λ request s. (ok (codes "1"), suc s);
  definitions = some (email_job ∷ []);
  limit = none;
  on_left_behind = none;
}

abbrev row_of : Text → ClaimedEnvelope
row_of id = record { id = id; envelope = email_envelope }

abbrev good : ClaimedEnvelope
good = row_of (codes "7")

abbrev nameless : ClaimedEnvelope
nameless = row_of []

-- An outbox that holds both rows.
abbrev holding : RelayConfig ℕ
holding = record relay_config {
  outbox = record {
    claim = λ limit s. (ok (good ∷ nameless ∷ []), s);
    mark_delivered = λ ids s. (ok tt, s);
  };
}

run_relay_cycle-Relays_example :
    (ids : List Text) × (u : ℕ) × Relays holding (good ∷ nameless ∷ []) 0 ids u
    × Marks holding ids u (run_relay_cycle holding 0)
run_relay_cycle-Relays_example = run_relay_cycle-Relays holding (good ∷ nameless ∷ []) 0 0 refl

abbrev handed : EnqueueRequest
handed = record {
  queue = mail_queue;
  envelope = email_envelope;
  delivery = delivery_defaults;
  job_id = some (codes "outbox-7");
}

request_of_sound_example :
    (d : JobDefinition) × (find (λ d. (settings d).name == email) (email_job ∷ []) ≡ some d)
    × (slots_of d ≡ [])
    × (mail_queue ≡ (settings d).queue)
    × (email_envelope ≡ email_envelope)
    × (handed.delivery.unique ≡ none)
    × (some (codes "outbox-7") ≡ some (codes "outbox-" ++ codes "7"))
unfolding request_of definition_of ◌==◌ outbox_job_id migrate_envelope assert_version_is_known
    payload_version migrate_from_version migrate_from validate_payload
    resolve_delivery_without_uniqueness includes
request_of_sound_example = request_of_sound relay_config good {request = handed} refl
