-- ===== src/Client/Replay.antt =====
-- What a replay by the client does to the jobs and the dead records of the driver in memory.
use jubs.Common.{
  ℕ, ◌≡◌, refl, arith, ◌∙◌, not, Option, none, some, List, [], ◌∷◌, ◌++◌, Bool-cases, Option-cases,
  inl, inr,
}
use jubs.Text.{Text}
use jubs.Value.{Value}
use jubs.Fault.{Thrown}
use jubs.Result
use jubs.Result.{Result, ok, err}
use jubs.Effects.{Exec, continue}
use jubs.Definition.{JobDefinition, Slot, settings, slots_of}
use jubs.Delivery.{resolve_delivery_without_uniqueness}
use jubs.Migration.{migrate_envelope, validate_payload}
use jubs.JobId.{JobAddress}
use jubs.Dead.Names.{read_dead_job_id}
use jubs.Driver.{EnqueueRequest, DeadEntry}
use jubs.Idempotency.{forgotten, not_found, running, idempotency_key_for}
use jubs.Handlers.{JobsConfig}
use jubs.Atomic.{InScope, in_atomic_block}
use jubs.Memory.Keys.{MemoryKeys, memory_idempotency}
use jubs.Assoc.{Assoc, lookup, remove, has, lookup-insert, lookup-remove}
use jubs.Text.Laws.{==_refl}
use jubs.Memory.Queue.{
  MemoryState, new_job, record_job, rejected, already, read_buried, remove_buried,
}
use jubs.Memory.Queue.Ids.{enqueue_in-rejected, enqueue_in-new}
use jubs.Memory.Driver.{memory_driver}
use jubs.Client.Dead.{
  ForgetResult, not_guarded, of_key, forget_named, is_running, is_flow, forget_key,
  enqueue_and_drop, replay_validated, replay_job, replay_single, replay_known, replay_entry,
  replay_outside, replay,
}

-- A configuration over the driver in memory.
abbrev pub in_memory : (ℕ → Text) → JobsConfig MemoryState → JobsConfig MemoryState
in_memory uuid config = record config { driver = memory_driver uuid }

-- What a replay of `id` makes of the driver. One that returns has found the record, has put one new
-- job that carries its envelope at the end of both lists, and has dropped the record. One that throws
-- leaves the records and both lists as they are.
abbrev pub Replayed : Text → MemoryState → Result Text × MemoryState → Type 0
Replayed id s (err e, s') =
    (s'.buried ≡ s.buried) × (s'.recorded ≡ s.recorded) × (s'.pending ≡ s.pending)
Replayed id s (ok stored, s') =
    (address : JobAddress) × (entry : DeadEntry) × (request : EnqueueRequest) × (read_dead_job_id id
      ≡ ok address)
    × (read_buried address.queue address.stored_id s ≡ some entry)
    × (request.envelope ≡ entry.envelope)
    × (s'.recorded ≡ s.recorded ++ new_job request s ∷ [])
    × (s'.pending ≡ s.pending ++ s.created ∷ [])
    × (read_buried address.queue address.stored_id s' ≡ none)

-- Code that goes on with a result, or stops at an error.
by_result :
    {S X B : Type 0} (P : Result B × S → Type 0) (r : Result X) (f : X → Exec S B) (s : S)
    → ((e : Thrown) → P (err e, s))
    → ((x : X) → r ≡ ok x → P (f x s))
    → P (continue r f s)
by_result P (ok x) f s stop go = go x refl
by_result P (err e) f s stop go = stop e

gone : {V : Type 0} (id : Text) (map : Assoc V) → lookup id (remove id map) ≡ none
gone id map = lookup-remove id id map ∙ rw (==_refl id) refl

unburied :
    (queue id : Text) (s : MemoryState) → read_buried queue id (remove_buried queue id s).1 ≡ none
unfolding read_buried remove_buried lookup
unburied queue id s = elim (Option-cases (lookup queue s.buried)) [
  | inl nobody ↦ rw (remove_buried, nobody) (rw (read_buried, nobody) refl)
  | inr (dead, there) ↦
      rw (remove_buried, there)
        (rw (read_buried, lookup-insert queue queue _ s.buried, ==_refl queue)
          (gone id dead.entries))
]

remove_buried-recorded :
    (queue id : Text) (s : MemoryState) → (remove_buried queue id s).1.recorded ≡ s.recorded
unfolding remove_buried
remove_buried-recorded queue id s = ground arith

remove_buried-pending :
    (queue id : Text) (s : MemoryState) → (remove_buried queue id s).1.pending ≡ s.pending
unfolding remove_buried
remove_buried-pending queue id s = ground arith

module _ (uuid : ℕ → Text) (base : JobsConfig MemoryState) where
  forget_named-keys :
      (key : Option Text) (s : MemoryState)
      → (outcome : ForgetResult) × (keys : MemoryKeys) × (forget_named (in_memory uuid base) key s
          ≡ (ok outcome, record s { keys = keys }))
  unfolding memory_driver memory_idempotency
  forget_named-keys none s = (not_guarded, s.keys, refl)
  forget_named-keys (some []) s = (not_guarded, s.keys, refl)
  forget_named-keys (some (c ∷ key)) s = elim (Bool-cases (has (c ∷ key) s.keys.leased)) [
    | inl held ↦ (of_key running, s.keys, rw held refl)
    | inr free ↦ elim (Bool-cases (has (c ∷ key) s.keys.kept)) [
      | inl kept ↦ (
        of_key forgotten,
        record s.keys { kept = remove (c ∷ key) s.keys.kept },
        rw (free, kept) refl,
      )
      | inr absent ↦ (of_key not_found, s.keys, rw (free, absent) refl)
    ]
  ]

  -- Only the keys change where a key is forgotten.
  forget_key-keys :
      (definition : JobDefinition) (v : Value) (s : MemoryState)
      → (outcome : ForgetResult) × (keys : MemoryKeys) × (forget_key
            (in_memory uuid base)
            definition
            v
            s
          ≡ (ok outcome, record s { keys = keys }))
  unfolding forget_key
  forget_key-keys definition v s = forget_named-keys (idempotency_key_for definition v) s

  module _ (id : Text) (address : JobAddress) (entry : DeadEntry) (s : MemoryState)
      (named : read_dead_job_id id ≡ ok address)
      (kept : read_buried address.queue address.stored_id s ≡ some entry) where
    -- The end of a replay, from the enqueue on.
    enqueue_then_drop :
        (queue : Text) (request : EnqueueRequest) (keys : MemoryKeys)
        → request.job_id ≡ none
        → request.envelope ≡ entry.envelope
        → Replayed id s (
            enqueue_and_drop (in_memory uuid base) queue address request (record s { keys = keys }))
    unfolding memory_driver enqueue_and_drop record_job
    enqueue_then_drop queue request keys unnamed same =
        let t : MemoryState = record s { keys = keys } in
        elim (Option-cases (rejected request.delivery.unique request.delivery.delay_ms)) [
          | inl accepted ↦
              let new : already request.queue request.job_id t.recorded ≡ none = rw unnamed refl in
              let u = record_job (new_job request t) t in
              rw (enqueue_in-new request t accepted new) (
                address,
                entry,
                request,
                named,
                kept,
                same,
                remove_buried-recorded address.queue address.stored_id u,
                remove_buried-pending address.queue address.stored_id u,
                unburied address.queue address.stored_id u,
              )
          | inr (key, refusal) ↦ rw (enqueue_in-rejected request t refusal) (refl, refl, refl)
        ]

    replay_validated-Replayed :
        (definition : JobDefinition) (v : Value)
        → Replayed id s (replay_validated (in_memory uuid base) id address entry definition v s)
    unfolding replay_validated
    replay_validated-Replayed definition v =
        let (outcome, keys, forgets) = forget_key-keys definition v s in
        let t : MemoryState = record s { keys = keys } in
        rw forgets (
          by_result (Replayed id s) (Result.require (not (is_running outcome)) _) _ t
            (λ e. (refl, refl, refl))
            (λ idle i.
              by_result (Replayed id s) (resolve_delivery_without_uniqueness definition v) _ t
                (λ e. (refl, refl, refl))
                (λ delivery d. enqueue_then_drop (settings definition).queue _ keys refl refl)))

    replay_job-Replayed :
        (definition : JobDefinition)
        → Replayed id s (replay_job (in_memory uuid base) id address entry definition s)
    replay_job-Replayed definition =
        by_result (Replayed id s) (migrate_envelope definition entry.envelope) _ s
          (λ e. (refl, refl, refl))
          (λ migrated m.
            by_result (Replayed id s) (validate_payload definition migrated) _ s
              (λ e. (refl, refl, refl))
              (λ validated v. replay_validated-Replayed definition validated))

    replay_single-Replayed :
        (definition : JobDefinition) (slots : List Slot)
        → Replayed id s (replay_single (in_memory uuid base) id address entry definition slots s)
    replay_single-Replayed definition [] = replay_job-Replayed definition
    replay_single-Replayed definition (slot ∷ slots) = (refl, refl, refl)

    replay_known-Replayed :
        (definition : Option JobDefinition)
        → Replayed id s (replay_known (in_memory uuid base) id address entry definition s)
    replay_known-Replayed none = (refl, refl, refl)
    replay_known-Replayed (some definition) =
        replay_single-Replayed definition (slots_of definition)

    replay_found-Replayed :
        Replayed id s (replay_entry (in_memory uuid base) id address (some entry) s)
    replay_found-Replayed = elim (Bool-cases (is_flow entry.envelope.origin)) [
      | inl of_flow ↦ rw of_flow (refl, refl, refl)
      | inr single ↦ rw single (replay_known-Replayed _)
    ]

  replay_outside-Replayed :
      (id : Text) (s : MemoryState) → Replayed id s (replay_outside (in_memory uuid base) id s)
  unfolding replay_outside memory_driver
  replay_outside-Replayed id s =
      by_result (Replayed id s) (read_dead_job_id id) _ s (λ e. (refl, refl, refl))
        (λ address named. elim (Option-cases (read_buried address.queue address.stored_id s)) [
          | inl nothing ↦ rw nothing (refl, refl, refl)
          | inr (entry, kept) ↦ rw kept (replay_found-Replayed id address entry s named kept)
        ])

  -- A replay by a client over the driver in memory that returns has found the dead record that its id
  -- names, has put one new job with the envelope of that record at the end of both lists, and has dropped
  -- the record. One that throws leaves the dead records and both lists as they were.
  pub replay-Replayed :
      (id : Text) (s : InScope MemoryState Text)
      → let (r, s') = replay (in_memory uuid base) id s in Replayed id s.outer (r, s'.outer)
  unfolding replay
  replay-Replayed id s = elim (Bool-cases (in_atomic_block s)) [
    | inl in_block ↦ rw in_block (refl, refl, refl)
    | inr free ↦ rw free (replay_outside-Replayed id s.outer)
  ]
