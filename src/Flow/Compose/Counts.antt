-- ===== src/Flow/Compose/Counts.antt =====
-- What a composed flow carries at every node, at every depth.
use jubs.Common.{
  ℕ, zero, suc, ◌≡◌, refl, ap, ap₂, sym, subst, ◌∙◌, Bool, true, false, Option, none, some, List,
  [], ◌∷◌, ◌++◌, arith, length,
}
use jubs.Text.{Text}
use jubs.Value.{ℤ, pos, negsuc, Value, items, arr, Fields, read_field}
use jubs.Result.{Result, ok, >>=-eq-ok, ok-injective}
use jubs.Definition.{
  flow, Delivery, JobDefinition, job, Awaits, nothing, slot_of, Slot, slots_in, slots_of,
}
use jubs.Delivery.{resolve_delivery}
use jubs.Migration.{validate_payload}
use jubs.Envelope.{write_envelope}
use jubs.Driver.{FlowNode, node, FlowChildren, childless, child}
use jubs.Flow.Compose.{
  assert_awaits_input, input_of, Nodes, compose_each, compose_slot, to_children, Composed,
  counts_for, flow_node, flow_delivery, compose_flow, compose_slots,
}

-- The slots that the children of a node fill, in order.
abbrev pub labels : FlowChildren → List Text
labels childless = []
labels (child slot n rest) = slot ∷ labels rest

abbrev repeated : ℕ → Text → List Text
repeated zero slot = []
repeated (suc n) slot = slot ∷ repeated n slot

abbrev times : ℤ → Text → List Text
times (pos n) slot = repeated n slot
times (negsuc n) slot = []

-- The slots of some counts, each as often as its count says.
abbrev pub expanded : List (Text × ℤ) → List Text
expanded [] = []
expanded ((slot, n) ∷ rest) = times n slot ++ expanded rest

abbrev pub recorded : Option (List (Text × ℤ)) → List Text
recorded none = []
recorded (some counts) = expanded counts

-- At the node and at every node below it: the origin is `flow`, there is no uniqueness, and the
-- children fill the slots as often as the counts of the envelope say.
unfoldable mutual
  pub IsWellFormed : FlowNode → Type 0
  IsWellFormed (node r c) =
      (r.envelope.origin ≡ flow)
      × (r.delivery.unique ≡ none)
      × (labels c ≡ recorded r.envelope.slots)
      × AreWellFormed c

  pub AreWellFormed : FlowChildren → Type 0
  AreWellFormed childless = Unit
  AreWellFormed (child slot n rest) = IsWellFormed n × AreWellFormed rest

labels-append :
    (xs ys : Nodes)
    → labels (to_children (xs ++ ys)) ≡ labels (to_children xs) ++ labels (to_children ys)
labels-append [] ys = refl
labels-append ((s, n) ∷ xs) ys = ap (λ l. s ∷ l) (labels-append xs ys)

AreWellFormed-append :
    (xs ys : Nodes)
    → AreWellFormed (to_children xs)
    → AreWellFormed (to_children ys)
    → AreWellFormed (to_children (xs ++ ys))
unfolding IsWellFormed
AreWellFormed-append [] ys h k = k
AreWellFormed-append ((s, n) ∷ xs) ys (h, hs) k = (h, AreWellFormed-append xs ys hs k)

-- What the composition of one slot gives.
abbrev Fills : Text → Nodes → Type 0
Fills slot nodes =
    (labels (to_children nodes) ≡ repeated (length nodes) slot) × AreWellFormed (to_children nodes)

module _ (slot : Text) (compose : Value → Result FlowNode)
    (sound : (v : Value) (n : FlowNode) → compose v ≡ ok n → IsWellFormed n) where
  compose_each_sound :
      (vs : List Value) {nodes : Nodes} → compose_each slot compose vs ≡ ok nodes → Fills slot nodes
  unfolding compose_each IsWellFormed
  compose_each_sound [] h = ground arith
  compose_each_sound (v ∷ vs) h =
      let (n, made, h₁) = >>=-eq-ok (compose v) _ h in
      let (rest, later, h₂) = >>=-eq-ok (compose_each slot compose vs) _ h₁ in
      let (named, well) = compose_each_sound vs later in
      ground (arith, h₂, named, well, sound v n made)

  compose_slot_sound :
      (many : Bool) (given : Value) {nodes : Nodes}
      → compose_slot slot many compose given ≡ ok nodes
      → Fills slot nodes
  compose_slot_sound false given h = compose_each_sound (given ∷ []) h
  compose_slot_sound true (arr vs) h = compose_each_sound (items vs) h
  compose_slot_sound true _ h = cc

flow_delivery-plain :
    (d : JobDefinition) (payload : Value) {r : Delivery}
    → flow_delivery d payload ≡ ok r
    → r.unique ≡ none
unfolding flow_delivery
flow_delivery-plain d payload h =
    let (validated, _, h₂) = >>=-eq-ok (validate_payload d payload) _ h in
    let (delivery, _, h₃) = >>=-eq-ok (resolve_delivery d validated) _ h₂ in ground (arith, h₃)

counts_for-recorded :
    (slots : List Slot) (c : Composed)
    → (slots ≡ [] → c.counts ≡ [])
    → recorded (counts_for slots c) ≡ expanded c.counts
counts_for-recorded [] c h = rw (h refl)
counts_for-recorded (s ∷ slots) c h = refl

flow_node_wf :
    (d : JobDefinition) (payload : Value) (delivery : Delivery) (c : Composed)
    → delivery.unique ≡ none
    → (slots_of d ≡ [] → c.counts ≡ [])
    → labels (to_children c.nodes) ≡ expanded c.counts
    → AreWellFormed (to_children c.nodes)
    → IsWellFormed (flow_node d payload delivery c)
unfolding IsWellFormed write_envelope
flow_node_wf d payload delivery c plain counts named well =
    (refl, plain, named ∙ sym (counts_for-recorded (slots_of d) c counts), well)

compose_slots-counts :
    (a : Awaits) (filled : Fields) (c : Composed)
    → compose_slots a filled ≡ ok c
    → slots_in a ≡ []
    → c.counts ≡ []
unfolding compose_flow
compose_slots-counts nothing filled c h e = ground arith
compose_slots-counts (slot_of slot many d rest) filled c h e = cc

composed_slot :
    (slot : Text) (nodes : Nodes) (later c : Composed)
    → Fills slot nodes
    → (labels (to_children later.nodes) ≡ expanded later.counts)
    → AreWellFormed (to_children later.nodes)
    → c
      ≡ record { counts = (slot, pos (length nodes)) ∷ later.counts; nodes = nodes ++ later.nodes }
    → (labels (to_children c.nodes) ≡ expanded c.counts) × AreWellFormed (to_children c.nodes)
composed_slot slot nodes later c (named, well) named_later well_later same = rw same (
  labels-append nodes later.nodes ∙ ap₂ (λ xs ys. xs ++ ys) named named_later,
  AreWellFormed-append nodes later.nodes well well_later,
)

nothing_wf : AreWellFormed childless
unfolding IsWellFormed
nothing_wf = tt

mutual
  unfolding compose_flow

  compose_flow_wf :
      (d : JobDefinition) (payload awaits : Value) (n : FlowNode)
      → compose_flow d payload awaits ≡ ok n
      → IsWellFormed n
  compose_flow_wf (job s a) payload awaits n h =
      let (filled, _, h₁) = >>=-eq-ok (assert_awaits_input s.name (slots_in a) awaits) _ h in
      let (delivery, resolved, h₂) = >>=-eq-ok (flow_delivery (job s a) payload) _ h₁ in
      let (composed, made, h₃) = >>=-eq-ok (compose_slots a filled) _ h₂ in
      let (named, well) = compose_slots_wf a filled composed made in
      subst IsWellFormed (ok-injective h₃) (
        flow_node_wf (job s a) payload delivery composed
          (flow_delivery-plain (job s a) payload resolved)
          (compose_slots-counts a filled composed made) named well)

  compose_slots_wf :
      (a : Awaits) (filled : Fields) (c : Composed)
      → compose_slots a filled ≡ ok c
      → (labels (to_children c.nodes) ≡ expanded c.counts) × AreWellFormed (to_children c.nodes)
  compose_slots_wf nothing filled c h = let same = ok-injective h in rw (← same) (refl, nothing_wf)
  compose_slots_wf (slot_of slot many (job s a) rest) filled c h =
      let compose = λ (one : Value).
        compose_flow (job s a) (input_of (slots_in a) one).0 (input_of (slots_in a) one).1 in
      let (nodes, made, h₁) =
        >>=-eq-ok (compose_slot slot many compose (read_field slot filled)) _ h in
      let (later, made_later, h₂) = >>=-eq-ok (compose_slots rest filled) _ h₁ in
      let fills =
        compose_slot_sound slot compose (λ v n e. compose_flow_wf (job s a) _ _ n e) many
          (read_field slot filled) made in
      let (named_later, well_later) = compose_slots_wf rest filled later made_later in
      composed_slot slot nodes later c fills named_later well_later (sym (ok-injective h₂))

-- At every node of a flow that is composed, at every depth, the origin is `flow`, there is no
-- uniqueness, and the children fill the slots in the order and as often as the counts in the
-- envelope say.
pub compose_flow-IsWellFormed :
    (d : JobDefinition) (payload awaits : Value) (n : FlowNode)
    → compose_flow d payload awaits ≡ ok n
    → IsWellFormed n
compose_flow-IsWellFormed d payload awaits n h = compose_flow_wf d payload awaits n h
