-- ===== src/Flow/Filled.antt =====
-- When the slots of a definition are full.
use jubs.Common.{
  ℕ, ◌+◌, ◌≤◌, ◌≡◌, refl, subst, ◌↔◌, true, false, Option, none, some, List, [], ◌∷◌, arith, keep,
  any, length, All, Option-cases, inl, inr, Bool-cases, if◌then◌else◌,
}
use jubs.Text.{Text, ◌==◌}
use jubs.Value.{ℤ, pos, negsuc, Number, whole, not_a_number}
use jubs.Fault.{ChildResult}
use jubs.Assoc.{lookup}
use jubs.Definition.{JobDefinition, settings, Slot, slots_of}
use jubs.Driver.{FlowState}
use jubs.Flow.{
  Counted, counted, declared_count, count_or_inherited, inherited_names, short_of, is_unrecorded,
  is_short, refusal_of, children_short_of, arrived_in, filling,
}

-- How many results fill a slot.
abbrev pub arrivals : Text → List ChildResult → ℕ
arrivals slot [] = 0
arrivals slot (r ∷ rs) = if r.slot == slot then arrivals slot rs + 1 else arrivals slot rs

-- A slot with a count in the envelope has as many results at least. A slot named like what every
-- object inherits is taken to be full without a count.
pub data IsFull (declared : Option (List (Text × ℤ))) (state : FlowState) (slot : Slot)
    : Type 0 where
  enough :
      (counts : List (Text × ℤ)) (n : ℕ)
      → declared ≡ some counts
      → lookup slot.name counts ≡ some (pos n)
      → n ≤ arrivals slot.name state.results
      → IsFull declared state slot
  below_zero :
      (counts : List (Text × ℤ)) (n : ℕ)
      → declared ≡ some counts
      → lookup slot.name counts ≡ some (negsuc n)
      → IsFull declared state slot
  inherited :
      (counts : List (Text × ℤ))
      → declared ≡ some counts
      → lookup slot.name counts ≡ none
      → any (λ name. name == slot.name) inherited_names ≡ true
      → IsFull declared state slot

-- A count is found, and the results that arrived are not short of it.
abbrev pub Passes : Option (List (Text × ℤ)) → FlowState → Slot → Type 0
Passes declared state slot =
    (n : Number) × (declared_count declared slot.name ≡ some n)
    × (short_of (arrived_in state slot.name) (some n) ≡ false)

length-filling : (slot : Text) (rs : List ChildResult) → length (filling slot rs) ≡ arrivals slot rs
length-filling slot [] = refl
length-filling slot (r ∷ rs) = ground (arith, length-filling slot rs)

module _ (declared : Option (List (Text × ℤ))) (state : FlowState) (slot : Slot) where
  IsFull-of_found :
      (counts : List (Text × ℤ)) (found : Option ℤ) (n : Number)
      → declared ≡ some counts
      → lookup slot.name counts ≡ found
      → count_or_inherited slot.name found ≡ some n
      → short_of (arrivals slot.name state.results) (some n) ≡ false
      → IsFull declared state slot
  IsFull-of_found counts none n has is counts_as full =
      elim (Bool-cases (any (λ name. name == slot.name) inherited_names)) [
        | inl named ↦ inherited counts has is named
        | inr unnamed ↦ let missing = rw unnamed at counts_as in cc
      ]
  IsFull-of_found counts (some (negsuc k)) n has is counts_as full = below_zero counts k has is
  IsFull-of_found counts (some (pos k)) n has is counts_as full =
      let same : n ≡ whole (pos k) = cc in
      let long = rw same at full in enough counts k has is (ground arith)

  pub IsFull-of_Passes : Passes declared state slot → IsFull declared state slot
  unfolding declared_count arrived_in
  IsFull-of_Passes (n, counts_as, full) = elim (Option-cases declared) [
    | inl undeclared ↦ let missing = rw undeclared at counts_as in cc
    | inr (counts, has) ↦
        IsFull-of_found counts (lookup slot.name counts) n has refl (rw has at counts_as)
          (subst (λ k. short_of k (some n) ≡ false) (length-filling slot.name state.results) full)
  ]

  pub Passes-of_IsFull : IsFull declared state slot → Passes declared state slot
  unfolding declared_count arrived_in
  Passes-of_IsFull (enough counts n has is long) =
      (whole (pos n), rw (has, declared_count, is) refl, rw length-filling (ground arith))
  Passes-of_IsFull (below_zero counts n has is) =
      (whole (negsuc n), rw (has, declared_count, is) refl, refl)
  Passes-of_IsFull (inherited counts has is named) =
      (not_a_number, rw (has, declared_count, is, named) refl, refl)

refusal_of-none_iff : (name : Text) (cs : List Counted) → (refusal_of name cs ≡ none) ↔ (cs ≡ [])
refusal_of-none_iff name [] = (λ h. refl, λ h. refl)
refusal_of-none_iff name (c ∷ cs) = (λ h. cc, λ h. cc)

module _ (declared : Option (List (Text × ℤ))) (state : FlowState) where
  Passes-of_counted :
      (slots : List Slot)
      → keep is_unrecorded (counted declared state slots) ≡ []
      → keep is_short (counted declared state slots) ≡ []
      → All (Passes declared state) slots
  unfolding counted
  Passes-of_counted [] h k = tt
  Passes-of_counted (s ∷ slots) h k = elim (Option-cases (declared_count declared s.name)) [
    | inl missing ↦ absurd (ground arith)
    | inr (n, recorded) ↦ elim (Bool-cases (short_of (arrived_in state s.name) (some n))) [
      | inl short ↦ absurd (ground arith)
      | inr full ↦ ((n, recorded, full), Passes-of_counted slots (ground arith) (ground arith))
    ]
  ]

  Passes-to_counted :
      (slots : List Slot)
      → All (Passes declared state) slots
      → (keep is_unrecorded (counted declared state slots) ≡ [])
        × (keep is_short (counted declared state slots) ≡ [])
  unfolding counted
  Passes-to_counted [] h = (refl, refl)
  Passes-to_counted (s ∷ slots) ((n, recorded, full), later) =
      let (recorded_all, full_all) = Passes-to_counted slots later in
      (rw recorded recorded_all, rw (recorded, full) full_all)

  pub children_short_of-none_iff :
      (d : JobDefinition)
      → (children_short_of d declared state ≡ none) ↔ All (Passes declared state) (slots_of d)
  unfolding children_short_of
  children_short_of-none_iff d =
      let slots = counted declared state (slots_of d) in
      let name = (settings d).name in
      (
        λ h.
            Passes-of_counted (slots_of d)
              ((refusal_of-none_iff name (keep is_unrecorded slots)).0 (ground arith))
              ((refusal_of-none_iff name (keep is_short slots)).0 (ground arith)),
        λ all.
            let (recorded, full) = Passes-to_counted (slots_of d) all in
            ground (arith, recorded, full),
      )
