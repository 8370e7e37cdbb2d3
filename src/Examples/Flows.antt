-- ===== src/Examples/Flows.antt =====
-- A flow, and what its parent reads.
use jubs.Common.{◌≡◌, refl, false, none, some, [], ◌∷◌, arith}
use jubs.Text.{codes, ◌==◌}
use jubs.Value.{pos, Value, read_field, obj, field, end}
use jubs.Result.{ok}
use jubs.Definition.{JobDefinition, job, slot_of, nothing, flow}
use jubs.Envelope.{Envelope, write_envelope}
use jubs.Driver.{FlowNode, node, childless, child, FlowState}
use jubs.Flow.{children_from, children_of, arrived_in}
use jubs.Flow.Filled.{enough}
use jubs.Flow.Read.{children_from_iff, no_more, of_slot, no_slot, as_first}
use jubs.Flow.Compose.{compose_flow, assert_awaits_input}
use jubs.Flow.Compose.Counts.{IsWellFormed, compose_flow-IsWellFormed}
use jubs.Assoc.{lookup}
use jubs.Migration.{validate_result, validate_payload}
use jubs.Delivery.{delivery_defaults, resolve_delivery}
use jubs.Examples.Samples.{email_settings, email_job, mail_queue, email_envelope, payload}

-- A parent with one child.
abbrev parent : JobDefinition
parent = job email_settings (slot_of (codes "part") false email_job nothing)

abbrev arrived : FlowState
arrived = record {
  results = record { slot = codes "part"; value = payload; extra = end } ∷ [];
  failures = [];
  pending = 0;
}

abbrev counted_envelope : Envelope
counted_envelope = record email_envelope { slots = some ((codes "part", pos 1) ∷ []) }

children_from_iff_example :
    children_from parent counted_envelope arrived ≡ ok (field (codes "part") payload end)
unfolding children_of ◌==◌ lookup arrived_in validate_result
children_from_iff_example =
    (children_from_iff parent counted_envelope arrived (field (codes "part") payload end)).1 (
      refl,
      refl,
      (enough ((codes "part", pos 1) ∷ []) 1 refl refl (omega arith), tt),
      as_first (record { name = codes "part"; many = false; definition = email_job }) [] payload []
          end refl
          (of_slot (record { slot = codes "part"; value = payload; extra = end }) [] payload [] refl
            refl no_more)
          no_slot,
    )

abbrev part_input : Value
part_input = obj (field (codes "part") payload end)

abbrev composed : FlowNode
composed =
    node
      (record {
        queue = mail_queue;
        envelope = record counted_envelope { origin = flow };
        delivery = delivery_defaults;
        job_id = none;
      })
      (child (codes "part")
        (node
          (record {
            queue = mail_queue;
            envelope = record email_envelope { origin = flow };
            delivery = delivery_defaults;
            job_id = none;
          })
          childless)
        childless)

compose_flow-IsWellFormed_example : IsWellFormed composed
unfolding compose_flow assert_awaits_input read_field ◌==◌ validate_payload resolve_delivery
    write_envelope
compose_flow-IsWellFormed_example =
    compose_flow-IsWellFormed parent payload part_input composed refl
