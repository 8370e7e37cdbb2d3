-- ===== src/JobId/Laws.antt =====
-- Ids are read back into what they were composed of.
use jubs.Common.{
  ℕ, zero, suc, ◌<◌, ◌≡◌, ◌≢◌, refl, false, some, [], ◌∷◌, ◌++◌, arith, length, take, drop,
  length-append, take-append_length, inl, inr, Option-cases,
}
use jubs.Text.{Text, index_of, includes}
use jubs.Text.Laws.{index_of-append, index_of-cut}
use jubs.Fault.{refused, not_a_job_id}
use jubs.Result.{ok, err}
use jubs.JobId.{
  colon, flow_id_marker, compose_job_id, compose_child_id, read_child_slot, JobAddress, address_at,
  read_job_id,
}

pub length-pos : (s : Text) → s ≢ [] → 0 < length s
length-pos [] h = absurd (h refl)
length-pos (x ∷ s) h = omega arith

pub drop-append_suc : (s t : Text) (c : ℕ) → drop (suc (length s)) (s ++ c ∷ t) ≡ t
drop-append_suc [] t c = refl
drop-append_suc (x ∷ s) t c = drop-append_suc s t c

take-ne-nil : (n : ℕ) (s : Text) → 0 < n → n < length s → take n s ≢ []
take-ne-nil zero s h k = absurd (omega arith)
take-ne-nil (suc n) [] h k = absurd (omega arith)
take-ne-nil (suc n) (x ∷ s) h k = cc

drop-ne-nil : (n : ℕ) (s : Text) → suc n < length s → drop (suc n) s ≢ []
drop-ne-nil n [] h = absurd (omega arith)
drop-ne-nil zero (x ∷ []) h = absurd (omega arith)
drop-ne-nil zero (x ∷ y ∷ s) h = cc
drop-ne-nil (suc n) (x ∷ s) h = drop-ne-nil n s (omega arith)

-- An id composed of a queue name without a colon, and of an id that is not empty, is read back as
-- that queue and that id.
pub read_job_id-compose_job_id :
    (queue stored_id : Text)
    → queue ≢ []
    → includes colon queue ≡ false
    → stored_id ≢ []
    → read_job_id (compose_job_id queue stored_id)
      ≡ ok (record { queue = queue; stored_id = stored_id })
unfolding read_job_id compose_job_id
read_job_id-compose_job_id queue stored_id some_queue no_colon some_id =
    rw (index_of-append colon queue stored_id no_colon) (
      ground (
        arith,
        length-append queue (colon ∷ stored_id),
        length-pos queue some_queue,
        length-pos stored_id some_id,
        take-append_length queue (colon ∷ stored_id),
        drop-append_suc queue stored_id colon,
      ))

-- What is read from an id composes to it: the queue is not empty and has no colon, and neither is
-- the stored id empty.
pub read_job_id_sound :
    (id : Text) {a : JobAddress}
    → read_job_id id ≡ ok a
    → (id ≡ compose_job_id a.queue a.stored_id)
      × (includes colon a.queue ≡ false)
      × (a.queue ≢ [])
      × (a.stored_id ≢ [])
unfolding read_job_id compose_job_id
read_job_id_sound id {a} h = elim (Option-cases (index_of colon id)) [
  | inl missing ↦ absurd (not_ok (rw missing at h))
  | inr (cut, found) ↦
      let (whole, before, inside) = index_of-cut colon cut id found in
      let accepted : address_at id (some cut) ≡ ok a = rw found at h in
      ground (arith, whole, before, inside, accepted, take-ne-nil cut id, drop-ne-nil cut id)
]
  where
    not_ok : err (refused (not_a_job_id id)) ≡ ok a → ⊥
    not_ok e = cc

-- A slot name with no marker is read back from the id of a child that fills it.
pub read_child_slot-compose_child_id :
    (uuid slot : Text)
    → slot ≢ []
    → includes flow_id_marker slot ≡ false
    → read_child_slot (compose_child_id uuid slot) ≡ slot
unfolding read_child_slot compose_child_id
read_child_slot-compose_child_id uuid slot some_slot unmarked =
    rw (index_of-append flow_id_marker slot uuid unmarked)
      (ground (arith, length-pos slot some_slot, take-append_length slot (flow_id_marker ∷ uuid)))
