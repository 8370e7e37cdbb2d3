-- ===== src/Dead/Record.antt =====
-- `readDeadEntry` of src/Dead.ts: a dead record is read back out of the queue that keeps it.
pub mod RoundTrip
use jubs.Common.{Bool, true, false, Option, none, some, List, [], ◌∷◌, if◌then◌else◌}
use jubs.Text.{Text, ◌==◌, codes}
use jubs.Value.{
  Value, undefined, null, str, obj, arr, Items, nil, cons, items, Fields, end, field, get,
  is_object, is_undefined,
}
use jubs.Fault.{
  ChildResult, RecordFault, dead_record_error, no_object, no_job_id, no_reason, no_error_object,
  no_error_name, no_error_message, stack_not_text, children_not_a_list, child_without_slot,
  stray_children,
}
use jubs.Result.{Result, ok, err, ◌>>=◌, ◌>>◌}
use jubs.Envelope.{Envelope, read_envelope, envelope_value}
use jubs.Driver.{
  ErrorSnapshot, SerializedError, Burial, child_died, attempts_exhausted, not_recoverable,
  ahead_of_version, cancellation, short_of_children, DeadEntry,
}

abbrev refuse {ℓ} : {A : Type ℓ} → RecordFault → Result A
refuse f = err (dead_record_error f)

abbrev text_or : RecordFault → Value → Result Text
text_or f (str t) = ok t
text_or f _ = refuse f

abbrev read_stack : Value → Result (Option Text)
read_stack undefined = ok none
read_stack (str t) = ok (some t)
read_stack _ = refuse stack_not_text

read_named : Value → Result ErrorSnapshot
read_named stored = do
  name ← text_or no_error_name (get (codes "name") stored)
  message ← text_or no_error_message (get (codes "message") stored)
  stack ← read_stack (get (codes "stack") stored)
  ok (record { name = name; message = message; stack = stack })

-- `readSnapshot`
unfoldable pub read_snapshot : Value → Result ErrorSnapshot
unfolding read_named
read_snapshot stored = if is_object stored then read_named stored else refuse no_error_object

abbrev read_cause : Value → Result (Option ErrorSnapshot)
read_cause undefined = ok none
read_cause v = do c ← read_snapshot v; ok (some c)

-- `readError`
unfoldable pub read_error : Value → Result SerializedError
read_error stored = do
  read ← read_snapshot stored
  caused_by ← read_cause (get (codes "cause") stored)
  ok (record { snapshot = read; caused_by = caused_by })

-- The fields but the one of the key.
unfoldable pub without : Text → Fields → Fields
without k end = end
without k (field j v fs) = if j == k then fs else field j v (without k fs)

-- One child of `readChildren`
abbrev read_child : Value → Result ChildResult
read_child (obj fs) = do
  slot ← text_or child_without_slot (get (codes "slot") (obj fs))
  ok (record {
    slot = slot;
    value = get (codes "value") (obj fs);
    extra = without (codes "slot") (without (codes "value") fs);
  })
read_child _ = refuse child_without_slot

read_each : List Value → Result (List ChildResult)
read_each [] = ok []
read_each (v ∷ vs) = do c ← read_child v; cs ← read_each vs; ok (c ∷ cs)

-- `readChildren`
unfoldable pub read_children : Value → Result (List ChildResult)
unfolding read_each
read_children (arr vs) = read_each (items vs)
read_children _ = refuse children_not_a_list

-- A reason as it is written, and whether it carries children.
pub data DeadReason : Type 0 where
  exhausted unrecoverable_reason version_reason cancelled_reason child_reason short_reason :
      DeadReason

abbrev pub reason_name : DeadReason → Text
reason_name exhausted = codes "attempts_exhausted"
reason_name unrecoverable_reason = codes "unrecoverable"
reason_name version_reason = codes "version_ahead"
reason_name cancelled_reason = codes "cancelled"
reason_name child_reason = codes "child_dead"
reason_name short_reason = codes "children_short"

abbrev reason_in : List DeadReason → Text → Result DeadReason
reason_in [] t = refuse no_reason
reason_in (r ∷ rs) t = if reason_name r == t then ok r else reason_in rs t

-- `isDeadReason`, with the reason that is found
unfoldable pub read_reason : Value → Result DeadReason
unfolding ◌==◌
read_reason (str t) =
    reason_in
      (exhausted ∷ unrecoverable_reason ∷ version_reason ∷ cancelled_reason ∷ child_reason
        ∷ short_reason ∷ [])
      t
read_reason _ = refuse no_reason

abbrev without_children : Burial → Value → Result Burial
without_children b undefined = ok b
without_children b _ = refuse stray_children

-- The arm of the burial, by its reason.
abbrev read_burial : DeadReason → Value → Result Burial
read_burial child_reason children = do results ← read_children children; ok (child_died results)
read_burial exhausted children = without_children attempts_exhausted children
read_burial unrecoverable_reason children = without_children not_recoverable children
read_burial version_reason children = without_children ahead_of_version children
read_burial cancelled_reason children = without_children cancellation children
read_burial short_reason children = without_children short_of_children children

abbrev read_job : Value → Result Text
read_job (str (c ∷ id)) = ok (c ∷ id)
read_job _ = refuse no_job_id

-- The fields of `readDeadEntry`, in the order of its checks.
read_entry_fields : Value → Result DeadEntry
read_entry_fields stored = do
  job_id ← read_job (get (codes "jobId") stored)
  reason ← read_reason (get (codes "reason") stored)
  envelope ← read_envelope (get (codes "envelope") stored)
  error ← read_error (get (codes "error") stored)
  burial ← read_burial reason (get (codes "children") stored)
  ok (record { job_id = job_id; envelope = envelope; error = error; burial = burial })

-- `readDeadEntry`
unfoldable pub read_dead_entry : Value → Result DeadEntry
unfolding read_entry_fields
read_dead_entry stored = if is_object stored then read_entry_fields stored else refuse no_object

-- The object that a dead entry is, as `bury` stores it.
abbrev stack_field : Option Text → Fields
stack_field none = end
stack_field (some t) = field (codes "stack") (str t) end

abbrev snapshot_fields : ErrorSnapshot → Fields → Fields
snapshot_fields s rest =
    field (codes "name") (str s.name) (field (codes "message") (str s.message) rest)

abbrev snapshot_value : ErrorSnapshot → Value
snapshot_value s = obj (snapshot_fields s (stack_field s.stack))

abbrev cause_field : Option ErrorSnapshot → Fields → Fields
cause_field none rest = rest
cause_field (some s) rest = field (codes "cause") (snapshot_value s) rest

abbrev error_value : SerializedError → Value
error_value e = obj (snapshot_fields e.snapshot (cause_field e.caused_by (stack_field e.stack)))

abbrev child_value : ChildResult → Value
child_value c = obj (field (codes "slot") (str c.slot) (field (codes "value") c.value c.extra))

abbrev child_values : List ChildResult → Items
child_values [] = nil
child_values (c ∷ cs) = cons (child_value c) (child_values cs)

abbrev reason_field : DeadReason → Fields → Fields
reason_field r rest = field (codes "reason") (str (reason_name r)) rest

abbrev burial_fields : Burial → Fields
burial_fields (child_died results) =
    reason_field child_reason (field (codes "children") (arr (child_values results)) end)
burial_fields attempts_exhausted = reason_field exhausted end
burial_fields not_recoverable = reason_field unrecoverable_reason end
burial_fields ahead_of_version = reason_field version_reason end
burial_fields cancellation = reason_field cancelled_reason end
burial_fields short_of_children = reason_field short_reason end

unfoldable pub dead_entry_value : DeadEntry → Value
dead_entry_value e = obj (
    field (codes "jobId") (str e.job_id) (
      field (codes "envelope") (envelope_value e.envelope)
        (field (codes "error") (error_value e.error) (burial_fields e.burial))))
