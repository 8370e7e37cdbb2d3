-- ===== src/Flow/Compose.antt =====
-- `composeFlow` of src/Flow.ts: a definition and what fills its slots become the tree that a driver
-- enqueues. The nodes are composed in the order of the slots; where several are refused, the
-- first in that order is reported.
pub mod Counts
use jubs.Common.{
  ℕ, Bool, true, false, not, Option, none, some, List, [], ◌∷◌, ◌++◌, map, find, keep, length,
  is_some, if◌then◌else◌,
}
use jubs.Text.{Text}
use jubs.Value.{
  ℤ, pos, Value, undefined, arr, obj, Items, nil, cons, items, Fields, end, read_field, get,
  is_undefined,
}
use jubs.Text.{codes}
use jubs.Fault.{
  slots_not_given, slots_missing, one_value_for_many, many_values_for_one, array_lost,
  unique_in_flow,
}
use jubs.Result.{Result, ok, err, refuse, require, ◌>>=◌, ◌>>◌}
use jubs.Definition.{
  flow, Delivery, JobDefinition, job, Awaits, nothing, slot_of, settings, Slot, slots_in, slots_of,
  Settings,
}
use jubs.Delivery.{resolve_delivery}
use jubs.Envelope.{Envelope, write_envelope}
use jubs.Migration.{validate_payload}
use jubs.Driver.{EnqueueRequest, FlowNode, node, FlowChildren, childless, child}

abbrev pub is_array : Value → Bool
is_array (arr vs) = true
is_array _ = false

abbrev differ : Bool → Bool → Bool
differ true b = not b
differ false b = b

abbrev names_of : List Slot → List Text
names_of = map (λ s. s.name)

abbrev wrong_arity : Text → Slot → Result Fields
wrong_arity name slot =
    if slot.many
    then refuse (one_value_for_many name slot.name)
    else refuse (many_values_for_one name slot.name)

abbrev with_arity : Text → Fields → Option Slot → Result Fields
with_arity name given none = ok given
with_arity name given (some stray) = wrong_arity name stray

abbrev with_all : Text → Fields → List Slot → List Slot → Result Fields
with_all name given slots [] =
    with_arity name given (find (λ s. differ s.many (is_array (read_field s.name given))) slots)
with_all name given slots (m ∷ missing) = refuse (slots_missing name (names_of (m ∷ missing)))

abbrev given_record : Text → List Slot → Value → Result Fields
given_record name slots (obj given) =
    with_all name given slots (keep (λ s. is_undefined (read_field s.name given)) slots)
given_record name slots _ = refuse (slots_not_given name)

-- `assertAwaitsInput`
unfoldable pub assert_awaits_input : Text → List Slot → Value → Result Fields
assert_awaits_input name [] given = ok end
assert_awaits_input name (s ∷ slots) given = given_record name (s ∷ slots) given

-- The payload and the inner slots that `childInput` reads.
abbrev pub input_of : List Slot → Value → Value × Value
input_of [] given = (given, undefined)
input_of (s ∷ slots) (obj fs) = (read_field (codes "data") fs, read_field (codes "awaits") fs)
input_of (s ∷ slots) _ = (undefined, undefined)

-- The children of one slot, or of all of them.
abbrev pub Nodes : Type 0
Nodes = List (Text × FlowNode)

-- `composeChild` over the values that a slot was given, by the composition of one
compose_each : Text → (Value → Result FlowNode) → List Value → Result Nodes
compose_each slot compose [] = ok []
compose_each slot compose (v ∷ vs) = do
  one ← compose v
  rest ← compose_each slot compose vs
  ok ((slot, one) ∷ rest)

-- `composeSlot`
abbrev compose_slot : Text → Bool → (Value → Result FlowNode) → Value → Result Nodes
compose_slot slot false compose given = compose_each slot compose (given ∷ [])
compose_slot slot true compose (arr vs) = compose_each slot compose (items vs)
compose_slot slot true compose _ = refuse (array_lost slot)

abbrev pub to_children : Nodes → FlowChildren
to_children [] = childless
to_children ((slot, n) ∷ rest) = child slot n (to_children rest)

-- The slot counts and the nodes of all slots.
pub record Composed : Type 0 where
  pub counts : List (Text × ℤ)
  pub nodes : Nodes

abbrev counts_for : List Slot → Composed → Option (List (Text × ℤ))
counts_for [] c = none
counts_for (s ∷ slots) c = some c.counts

abbrev flow_node : JobDefinition → Value → Delivery → Composed → FlowNode
flow_node d payload delivery c =
    node
      (record {
        queue = (settings d).queue;
        envelope = record (write_envelope d payload flow) { slots = counts_for (slots_of d) c };
        delivery = delivery;
        job_id = none;
      })
      (to_children c.nodes)

-- The payload is validated, the delivery is resolved, and uniqueness is refused.
flow_delivery : JobDefinition → Value → Result Delivery
flow_delivery d payload = do
  validated ← validate_payload d payload
  delivery ← resolve_delivery d validated
  require (not (is_some delivery.unique)) (unique_in_flow (settings d).name)
  ok delivery

unfoldable mutual
  unfolding compose_each flow_delivery

  -- `composeFlow`
  pub compose_flow : JobDefinition → Value → Value → Result FlowNode
  compose_flow (job s a) payload awaits = do
    filled ← assert_awaits_input s.name (slots_in a) awaits
    delivery ← flow_delivery (job s a) payload
    composed ← compose_slots a filled
    ok (flow_node (job s a) payload delivery composed)

  pub compose_slots : Awaits → Fields → Result Composed
  compose_slots nothing filled = ok (record { counts = []; nodes = [] })
  compose_slots (slot_of slot many (job s a) rest) filled = do
    nodes ←
        compose_slot slot many
          (λ one.
            compose_flow (job s a) (input_of (slots_in a) one).0 (input_of (slots_in a) one).1)
          (read_field slot filled)
    later ← compose_slots rest filled
    ok (record { counts = (slot, pos (length nodes)) ∷ later.counts; nodes = nodes ++ later.nodes })
