-- ===== src/Dead/Record/RoundTrip.antt =====
-- A dead record is read back as the entry that was buried.
use jubs.Common.{◌≡◌, ◌≢◌, refl, Option, none, some, List, [], ◌∷◌}
use jubs.Text.{Text, ◌==◌}
use jubs.Value.{get, items}
use jubs.Fault.{ChildResult}
use jubs.Result.{ok}
use jubs.Envelope.RoundTrip.{read_envelope-envelope_value}
use jubs.Driver.{ErrorSnapshot, SerializedError, Burial, child_died, DeadEntry}
use jubs.Dead.Record.{
  read_snapshot, snapshot_value, read_error, error_value, read_each, read_children, without,
  child_values, read_reason, read_dead_entry, dead_entry_value,
}

read_snapshot-snapshot_value :
    (name message : Text) (stack : Option Text)
    → read_snapshot (snapshot_value (record { name = name; message = message; stack = stack }))
      ≡ ok (record { name = name; message = message; stack = stack })
unfolding read_snapshot get ◌==◌
read_snapshot-snapshot_value name message none = refl
read_snapshot-snapshot_value name message (some t) = refl

-- `s` with its stack given anew
abbrev with_stack : ErrorSnapshot → Option Text → ErrorSnapshot
with_stack s stack = record s { stack = stack }

read_error-with_cause :
    (s : ErrorSnapshot) (stack : Option Text) (c : Option ErrorSnapshot)
    → read_error (error_value (record { snapshot = with_stack s stack; caused_by = c }))
      ≡ ok (record { snapshot = with_stack s stack; caused_by = c })
unfolding read_error read_snapshot get ◌==◌
read_error-with_cause s none none = refl
read_error-with_cause s (some t) none = refl
read_error-with_cause s none (some c) = rw (cause_read c)
  where
    cause_read : (c : ErrorSnapshot) → read_snapshot (snapshot_value c) ≡ ok c
    cause_read c = read_snapshot-snapshot_value c.name c.message c.stack
read_error-with_cause s (some t) (some c) = rw (cause_read c)
  where
    cause_read : (c : ErrorSnapshot) → read_snapshot (snapshot_value c) ≡ ok c
    cause_read c = read_snapshot-snapshot_value c.name c.message c.stack

read_error-error_value : (e : SerializedError) → read_error (error_value e) ≡ ok e
read_error-error_value e = read_error-with_cause e.snapshot e.stack e.caused_by

read_each-child_values : (cs : List ChildResult) → read_each (items (child_values cs)) ≡ ok cs
unfolding read_each get without ◌==◌
read_each-child_values [] = refl
read_each-child_values (c ∷ cs) = rw (read_each-child_values cs)

abbrev with_parts : DeadEntry → Text → Burial → DeadEntry
with_parts e job_id burial = record e { job_id = job_id; burial = burial }

module _ (e : DeadEntry) (some_name : e.envelope.name ≢ []) where
  read_dead_entry-with_parts :
      (job_id : Text) (burial : Burial)
      → job_id ≢ []
      → read_dead_entry (dead_entry_value (with_parts e job_id burial))
        ≡ ok (with_parts e job_id burial)
  unfolding read_dead_entry dead_entry_value read_reason read_children without get ◌==◌
  read_dead_entry-with_parts [] burial h = absurd (h refl)
  read_dead_entry-with_parts (c ∷ id) (child_died results) h = rw (
    read_envelope-envelope_value e.envelope some_name,
    read_error-error_value e.error,
    read_each-child_values results,
  )
  read_dead_entry-with_parts (c ∷ id) burial h =
      rw (read_envelope-envelope_value e.envelope some_name, read_error-error_value e.error)

-- A dead entry with a job id and an envelope with a name is read back from the object that it is
-- stored as, with its error, the cause of it, its reason and the results of its children.
pub read_dead_entry-dead_entry_value :
    (e : DeadEntry)
    → e.job_id ≢ []
    → e.envelope.name ≢ []
    → read_dead_entry (dead_entry_value e) ≡ ok e
read_dead_entry-dead_entry_value e some_id some_name =
    read_dead_entry-with_parts e some_name e.job_id e.burial some_id
