-- ===== src/Flow.antt =====
-- src/Flow.ts: a job that waits on children. Here, what its children settled into is read before
-- its handler runs; `Flow.Compose` builds the tree that is enqueued.
pub mod Compose
pub mod Filled
pub mod Read
use jubs.Common.{
  ℕ, zero, suc, ◌-◌, Bool, true, false, not, Option, none, some, List, [], ◌∷◌, map, ltb, leb,
  length, keep, any, is_some, if◌then◌else◌,
}
use jubs.Text.{Text, codes, ◌==◌}
use jubs.Value.{
  ℤ, pos, whole, Number, not_a_number, Value, undefined, arr, obj, Items, nil, cons, Fields, end,
  field,
}
use jubs.Fault.{ChildResult, SlotCount, children_pending, child_dead, children_short, Thrown}
use jubs.Result
use jubs.Result.{Result, ok, err}
use jubs.Effects.{Exec, pure, raise, lift, ◌>>=◌}
use jubs.Definition.{JobDefinition, settings, Slot, slots_of}
use jubs.Envelope.{Envelope}
use jubs.Driver.{FlowState}
use jubs.Assoc.{Assoc, lookup}
use jubs.Migration.{validate_result}

-- the results that fill one slot
abbrev pub filling : Text → List ChildResult → List ChildResult
filling slot = keep (λ r. r.slot == slot)

-- `arrivedIn`
unfoldable pub arrived_in : FlowState → Text → ℕ
arrived_in state slot = length (filling slot state.results)

-- What every object inherits from `Object.prototype`.
abbrev pub inherited_names : List Text
inherited_names =
    codes "constructor"
    ∷ codes "__defineGetter__"
    ∷ codes "__defineSetter__"
    ∷ codes "hasOwnProperty"
    ∷ codes "__lookupGetter__"
    ∷ codes "__lookupSetter__"
    ∷ codes "isPrototypeOf"
    ∷ codes "propertyIsEnumerable"
    ∷ codes "toString"
    ∷ codes "valueOf"
    ∷ codes "__proto__"
    ∷ codes "toLocaleString"
    ∷ []

-- The number that a look-up compares as: that of a count, and `NaN` for what is inherited, which is a
-- function or an object.
abbrev pub count_or_inherited : Text → Option ℤ → Option Number
count_or_inherited slot none =
    if any (λ name. name == slot) inherited_names then some not_a_number else none
count_or_inherited slot (some n) = some (whole n)

-- `declared?.[slot]`, of a plain object
unfoldable pub declared_count : Option (List (Text × ℤ)) → Text → Option Number
declared_count none slot = none
declared_count (some counts) slot = count_or_inherited slot (lookup slot counts)

pub record Counted : Type 0 where
  pub name : Text
  pub expected : Option Number
  pub arrived : ℕ

-- The counts that `childrenShort` compares, slot by slot.
unfoldable pub counted : Option (List (Text × ℤ)) → FlowState → List Slot → List Counted
counted declared state [] = []
counted declared state (slot ∷ slots) =
    record {
      name = slot.name;
      expected = declared_count declared slot.name;
      arrived = arrived_in state slot.name;
    }
    ∷ counted declared state slots

abbrev pub is_unrecorded : Counted → Bool
is_unrecorded c = not (is_some c.expected)

-- `slot.expected !== undefined && slot.arrived < slot.expected`
abbrev pub short_of : ℕ → Option Number → Bool
short_of arrived (some (whole (pos n))) = ltb arrived n
short_of arrived _ = false

abbrev pub is_short : Counted → Bool
is_short c = short_of c.arrived c.expected

abbrev expected_number : Counted → SlotCount
expected_number c = record { name = c.name; expected = c.expected; arrived = c.arrived }

abbrev refusal_of : Text → List Counted → Option Thrown
refusal_of name [] = none
refusal_of name (c ∷ cs) = some (children_short name (map expected_number (c ∷ cs)))

-- `childrenShort`: the slots with no count are refused first, then those that are short.
unfoldable pub children_short_of :
    JobDefinition → Option (List (Text × ℤ)) → FlowState → Option Thrown
unfolding counted arrived_in
children_short_of definition declared state =
    let slots = counted declared state (slots_of definition) in
    let name = (settings definition).name in
    elim (refusal_of name (keep is_unrecorded slots)) [
      | some refusal ↦ some refusal
      | none ↦ refusal_of name (keep is_short slots)
    ]

-- `validateResult` of each value that fills a slot
validate_results : JobDefinition → List ChildResult → Result (List Value)
validate_results definition [] = ok []
validate_results definition (r ∷ rs) =
    Result.◌>>=◌ (validate_result definition r.value)
      λ v. Result.◌>>=◌ (validate_results definition rs) λ vs. ok (v ∷ vs)

abbrev pub to_items : List Value → Items
to_items [] = nil
to_items (v ∷ vs) = cons v (to_items vs)

-- `many ? values : values[0]`
abbrev pub slot_value : Bool → List Value → Value
slot_value true vs = arr (to_items vs)
slot_value false [] = undefined
slot_value false (v ∷ vs) = v

-- `childrenOf`, slot by slot.
unfoldable pub children_of : FlowState → List Slot → Result Fields
unfolding validate_results
children_of state [] = ok end
children_of state (slot ∷ slots) =
    Result.◌>>=◌ (validate_results slot.definition (filling slot.name state.results)) λ vs.
      Result.◌>>=◌ (children_of state slots)
        λ rest. ok (field slot.name (slot_value slot.many vs) rest)

abbrev or_short : Option Thrown → Result Fields → Result Fields
or_short none children = children
or_short (some short) children = err short

-- What `childrenFor` makes of the state that it has read, in the order of its refusals.
unfoldable pub children_from : JobDefinition → Envelope → FlowState → Result Fields
unfolding children_short_of
children_from definition envelope state =
    if ltb 0 state.pending
    then err (children_pending (settings definition).name state.pending)
    else if ltb 0 (length state.failures)
    then err (child_dead (settings definition).name state.failures state.results)
    else or_short (children_short_of definition envelope.slots state)
        (children_of state (slots_of definition))

-- `childrenFor`. A job that waits on nothing reads nothing.
unfoldable pub children_for :
    {S : Type 0} (read_flow : (queue id : Text) → Exec S FlowState)
    → JobDefinition
    → Envelope
    → (queue id : Text) → Exec S Fields
children_for read_flow definition envelope queue id = elim (slots_of definition) [
  | [] ↦ pure end
  | slot ∷ slots ↦ do state ← read_flow queue id; lift (children_from definition envelope state)
]
