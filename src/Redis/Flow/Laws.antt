-- ===== src/Redis/Flow/Laws.antt =====
-- The keys of children, and what is read back from them.
use jubs.Common.{
  ℕ, ◌≡◌, ◌≢◌, refl, ap, true, false, List, [], ◌∷◌, ◌++◌, map, arith, eqb, Option, Bool-cases, inl,
  inr, All,
}
use jubs.Text.{Text, includes}
use jubs.Value.{Value, end}
use jubs.Fault.{ChildResult, ChildFailure}
use jubs.JobId.{
  JobAddress, colon, flow_id_marker, compose_job_id, compose_child_id, read_child_slot,
}
use jubs.JobId.Laws.{read_child_slot-compose_child_id}
use jubs.Redis.Flow.{
  split, last_two, read_child_key, hash_entries, child_value, result_of, failure_of,
  read_flow_state,
}

split-unsplit : (c : ℕ) (t : Text) → includes c t ≡ false → split c t ≡ t ∷ []
unfolding split includes
split-unsplit c [] h = refl
split-unsplit c (x ∷ t) h = elim (Bool-cases (eqb x c)) [
  | inl here ↦ let found : true ≡ false = rw here at h in cc
  | inr there ↦ rw (there, split-unsplit c t (rw there at h)) refl
]

split-before :
    (c : ℕ) (t rest : Text) → includes c t ≡ false → split c (t ++ c ∷ rest) ≡ t ∷ split c rest
unfolding split includes
split-before c [] rest h = ground arith
split-before c (x ∷ t) rest h = elim (Bool-cases (eqb x c)) [
  | inl here ↦ let found : true ≡ false = rw here at h in cc
  | inr there ↦ rw (there, split-before c t rest (rw there at h)) refl
]

split-cons : (c : ℕ) (t : Text) → (s : Text) × (segments : List Text) × (split c t ≡ s ∷ segments)
unfolding split
split-cons c [] = ([], [], refl)
split-cons c (x ∷ t) =
    let (s, segments, rest) = split-cons c t in
    elim (Bool-cases (eqb x c)) [
      | inl here ↦ ([], split c t, rw here refl)
      | inr there ↦ (x ∷ s, segments, rw (there, rest) refl)
    ]

split-append :
    (c : ℕ) (before rest : Text) → split c (before ++ c ∷ rest) ≡ split c before ++ split c rest
unfolding split
split-append c [] rest = ground arith
split-append c (x ∷ before) rest =
    let (s, segments, of_before) = split-cons c before in
    elim (Bool-cases (eqb x c)) [
      | inl here ↦ rw (here, split-append c before rest) refl
      | inr there ↦ rw (there, split-append c before rest, of_before) refl
    ]

last_two-append : (segments : List Text) (s t : Text) → last_two (segments ++ s ∷ t ∷ []) ≡ (s, t)
last_two-append [] s t = refl
last_two-append (x ∷ []) s t = refl
last_two-append (x ∷ y ∷ []) s t = refl
last_two-append (x ∷ y ∷ z ∷ segments) s t = last_two-append (y ∷ z ∷ segments) s t

last_two_of_key :
    (prefix queue stored_id : Text)
    → includes colon queue ≡ false
    → includes colon stored_id ≡ false
    → last_two (split colon (prefix ++ colon ∷ (queue ++ colon ∷ stored_id))) ≡ (queue, stored_id)
last_two_of_key prefix queue stored_id plain_queue plain_id =
    rw
      (
        split-append colon prefix (queue ++ colon ∷ stored_id),
        split-before colon queue stored_id plain_queue,
        split-unsplit colon stored_id plain_id,
      )
      (last_two-append (split colon prefix) queue stored_id)

abbrev address_of : Text × Text → JobAddress
address_of (queue, stored_id) = record { queue = queue; stored_id = stored_id }

-- The last two segments are read, whatever stands before them.
read_child_key-append :
    (prefix queue stored_id : Text)
    → includes colon queue ≡ false
    → includes colon stored_id ≡ false
    → read_child_key (prefix ++ colon ∷ (queue ++ colon ∷ stored_id))
      ≡ record { queue = queue; stored_id = stored_id }
unfolding read_child_key
read_child_key-append prefix queue stored_id plain_queue plain_id =
    ap address_of (last_two_of_key prefix queue stored_id plain_queue plain_id)

-- A child that settled: the queue and the slot that it ran in, the random half of its id, and the
-- text that Redis keeps beside its key.
pub record Settled : Type 0 where
  pub queue : Text
  pub slot : Text
  pub uuid : Text
  pub text : Text

abbrev pub IsReadable : Settled → Type 0
IsReadable child =
    (includes colon child.queue ≡ false)
    × (includes colon (compose_child_id child.uuid child.slot) ≡ false)
    × (child.slot ≢ [])
    × (includes flow_id_marker child.slot ≡ false)

abbrev pub stored_of : Settled → Text
stored_of child = compose_child_id child.uuid child.slot

-- The key that BullMQ keeps a job under, behind the prefix of its keys.
abbrev pub key_of : Text → Settled → Text
key_of prefix child = prefix ++ colon ∷ (child.queue ++ colon ∷ stored_of child)

abbrev pub flat : Text → List Settled → List Text
flat prefix [] = []
flat prefix (child ∷ children) = key_of prefix child ∷ child.text ∷ flat prefix children

module _ (parse : Text → Option Value) (prefix : Text) where
  abbrev pub result_for : Settled → ChildResult
  result_for child = record {
    slot = child.slot;
    value = child_value parse (parse child.text);
    extra = end;
  }

  abbrev pub failure_for : Settled → ChildFailure
  failure_for child = record {
    id = compose_job_id child.queue (stored_of child);
    slot = child.slot;
    reason = child.text;
  }

  reads_key :
      (child : Settled)
      → IsReadable child
      → read_child_key (key_of prefix child)
        ≡ record { queue = child.queue; stored_id = stored_of child }
  reads_key child (plain_queue, plain_id, named, unmarked) =
      read_child_key-append prefix child.queue (stored_of child) plain_queue plain_id

  reads_slot : (child : Settled) → IsReadable child → read_child_slot (stored_of child) ≡ child.slot
  reads_slot child (plain_queue, plain_id, named, unmarked) =
      read_child_slot-compose_child_id child.uuid child.slot named unmarked

  reads_results :
      (children : List Settled)
      → All IsReadable children
      → map (result_of parse) (hash_entries (flat prefix children)) ≡ map result_for children
  unfolding hash_entries
  reads_results [] readable = refl
  reads_results (child ∷ children) (one, rest) =
      rw (reads_key child one, reads_slot child one, reads_results children rest) refl

  reads_failures :
      (children : List Settled)
      → All IsReadable children
      → map (failure_of parse) (hash_entries (flat prefix children)) ≡ map failure_for children
  unfolding hash_entries
  reads_failures [] readable = refl
  reads_failures (child ∷ children) (one, rest) =
      rw (reads_key child one, reads_slot child one, reads_failures children rest) refl

  -- What is read of the two hashes that BullMQ keeps for a parent has every child under the slot that its
  -- id was composed of, in the order of the hash, with the value or the reason that stands beside its key,
  -- whatever the prefix of the keys is. Queues and ids have no colon, and slots are not empty and have no
  -- marker of such ids in their names.
  pub read_flow_state-flat :
      (completed died : List Settled) (pending : ℕ)
      → All IsReadable completed
      → All IsReadable died
      → read_flow_state parse (record {
        processed = flat prefix completed;
        failed = flat prefix died;
        pending = pending;
      })
        ≡ record {
          results = map result_for completed;
          failures = map failure_for died;
          pending = pending;
        }
  unfolding read_flow_state
  read_flow_state-flat completed died pending readable readable' =
      rw (reads_results completed readable, reads_failures died readable') refl
