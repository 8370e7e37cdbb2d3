-- ===== src/Flow/Read.antt =====
-- What a handler is given of its children, and when.
use jubs.Common.{
  ◌≡◌, ◌≢◌, refl, ◌↔◌, Bool, true, false, List, [], ◌∷◌, arith, All, All-weaken, inl, inr,
  Bool-cases,
}
use jubs.Text.{Text, ◌==◌}
use jubs.Text.Laws.{==_iff, ==_sound}
use jubs.Value.{undefined, arr, Value, Fields, end, field}
use jubs.Fault.{ChildResult}
use jubs.Result.{ok, >>=-eq-ok}
use jubs.Migration.{validate_result}
use jubs.Definition.{JobDefinition, Slot, slots_of}
use jubs.Envelope.{Envelope}
use jubs.Driver.{FlowState}
use jubs.Flow.{children_of, children_from, filling, to_items, slot_value, validate_results}
use jubs.Flow.Filled.{IsFull, IsFull-of_Passes, Passes-of_IsFull, children_short_of-none_iff}

-- What the schema of a slot makes of the results that fill it, in their order.
pub data Accepts (d : JobDefinition) (slot : Text) : List ChildResult → List Value → Type 0 where
  no_more : Accepts d slot [] []
  of_slot :
      (r : ChildResult) (rs : List ChildResult) (v : Value) (vs : List Value)
      → r.slot ≡ slot
      → validate_result d r.value ≡ ok v
      → Accepts d slot rs vs
      → Accepts d slot (r ∷ rs) (v ∷ vs)
  of_another :
      (r : ChildResult) (rs : List ChildResult) (vs : List Value)
      → r.slot ≢ slot
      → Accepts d slot rs vs
      → Accepts d slot (r ∷ rs) vs

-- What a handler is given for the slots: all values of a slot of many, and the first of any other.
pub data Reads (state : FlowState) : List Slot → Fields → Type 0 where
  no_slot : Reads state [] end
  as_list :
      (slot : Slot) (slots : List Slot) (vs : List Value) (rest : Fields)
      → slot.many ≡ true
      → Accepts slot.definition slot.name state.results vs
      → Reads state slots rest
      → Reads state (slot ∷ slots) (field slot.name (arr (to_items vs)) rest)
  as_first :
      (slot : Slot) (slots : List Slot) (v : Value) (vs : List Value) (rest : Fields)
      → slot.many ≡ false
      → Accepts slot.definition slot.name state.results (v ∷ vs)
      → Reads state slots rest
      → Reads state (slot ∷ slots) (field slot.name v rest)
  as_undefined :
      (slot : Slot) (slots : List Slot) (rest : Fields)
      → slot.many ≡ false
      → Accepts slot.definition slot.name state.results []
      → Reads state slots rest
      → Reads state (slot ∷ slots) (field slot.name undefined rest)

module _ (d : JobDefinition) (slot : Text) where
  Accepts-of_validate_results :
      (rs : List ChildResult) (vs : List Value)
      → validate_results d (filling slot rs) ≡ ok vs
      → Accepts d slot rs vs
  unfolding validate_results
  Accepts-of_validate_results [] vs h = let none_read : [] ≡ vs = cc in rw (← none_read) no_more
  Accepts-of_validate_results (r ∷ rs) vs h = elim (Bool-cases (r.slot == slot)) [
    | inl same ↦
        let (v, accepted, h') = >>=-eq-ok (validate_result d r.value) _ (rw same at h) in
        let (ws, later, h'') = >>=-eq-ok (validate_results d (filling slot rs)) _ h' in
        let all : v ∷ ws ≡ vs = cc in
        rw (← all) (
          of_slot r rs v ws (==_sound r.slot slot same) accepted
            (Accepts-of_validate_results rs ws later))
    | inr other ↦
        of_another r rs vs (λ same. let is = (==_iff r.slot slot).1 same in cc)
          (Accepts-of_validate_results rs vs (rw other at h))
  ]

  Accepts-to_validate_results :
      {rs : List ChildResult} {vs : List Value}
      → Accepts d slot rs vs
      → validate_results d (filling slot rs) ≡ ok vs
  unfolding validate_results
  Accepts-to_validate_results no_more = refl
  Accepts-to_validate_results (of_slot r rs v vs same accepted later) =
      rw ((==_iff r.slot slot).1 same, accepted, Accepts-to_validate_results later) refl
  Accepts-to_validate_results (of_another r rs vs other later) =
      elim (Bool-cases (r.slot == slot)) [
        | inl same ↦ absurd (other (==_sound r.slot slot same))
        | inr is ↦ rw is (Accepts-to_validate_results later)
      ]

module _ (state : FlowState) where
  Reads-slot :
      (slot : Slot) (slots : List Slot) (many : Bool) (vs : List Value) (rest : Fields)
      → slot.many ≡ many
      → Accepts slot.definition slot.name state.results vs
      → Reads state slots rest
      → Reads state (slot ∷ slots) (field slot.name (slot_value many vs) rest)
  Reads-slot slot slots true vs rest is accepted later =
      as_list slot slots vs rest is accepted later
  Reads-slot slot slots false [] rest is accepted later =
      as_undefined slot slots rest is accepted later
  Reads-slot slot slots false (v ∷ vs) rest is accepted later =
      as_first slot slots v vs rest is accepted later

  Reads-of_children_of :
      (slots : List Slot) (children : Fields)
      → children_of state slots ≡ ok children
      → Reads state slots children
  unfolding children_of
  Reads-of_children_of [] children h =
      let nothing_read : end ≡ children = cc in rw (← nothing_read) no_slot
  Reads-of_children_of (slot ∷ slots) children h =
      let (vs, accepted, h') =
        >>=-eq-ok (validate_results slot.definition (filling slot.name state.results)) _ h in
      let (rest, later, h'') = >>=-eq-ok (children_of state slots) _ h' in
      let all : field slot.name (slot_value slot.many vs) rest ≡ children = cc in
      rw (← all) (
        Reads-slot slot slots slot.many vs rest refl
          (Accepts-of_validate_results slot.definition slot.name state.results vs accepted)
          (Reads-of_children_of slots rest later))

  Reads-to_children_of :
      {slots : List Slot} {children : Fields}
      → Reads state slots children
      → children_of state slots ≡ ok children
  unfolding children_of
  Reads-to_children_of no_slot = refl
  Reads-to_children_of (as_list slot slots vs rest many accepted later) =
      rw
        (
          Accepts-to_validate_results slot.definition slot.name accepted,
          Reads-to_children_of later,
          many,
        )
        refl
  Reads-to_children_of (as_first slot slots v vs rest many accepted later) =
      rw
        (
          Accepts-to_validate_results slot.definition slot.name accepted,
          Reads-to_children_of later,
          many,
        )
        refl
  Reads-to_children_of (as_undefined slot slots rest many accepted later) =
      rw
        (
          Accepts-to_validate_results slot.definition slot.name accepted,
          Reads-to_children_of later,
          many,
        )
        refl

-- Before a handler runs, its children are read as `children` exactly when none is pending, none failed,
-- every slot that the definition declares has a count in the envelope and as many results at least (or a name that
-- every object inherits), and `children` has for each slot the values that its schema makes of the results of that
-- slot: all of them in their order where the slot takes many, and otherwise the first.
pub children_from_iff :
    (d : JobDefinition) (e : Envelope) (state : FlowState) (children : Fields)
    → (children_from d e state ≡ ok children) ↔ (
        (state.pending ≡ 0)
        × (state.failures ≡ [])
        × All (IsFull e.slots state) (slots_of d)
        × Reads state (slots_of d) children)
unfolding children_from
children_from_iff d e state children = (
  λ h. (
    ground arith,
    ground arith,
    All-weaken (IsFull-of_Passes e.slots state) (slots_of d)
        ((children_short_of-none_iff e.slots state d).0 (ground arith)),
    Reads-of_children_of state (slots_of d) children (ground arith),
  ),
  λ (settled, alive, full, read).
      let passes = All-weaken (Passes-of_IsFull e.slots state) (slots_of d) full in
      ground (
        arith,
        settled,
        alive,
        (children_short_of-none_iff e.slots state d).1 passes,
        Reads-to_children_of state read,
      ),
)
