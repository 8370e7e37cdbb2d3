-- ===== src/Envelope.antt =====
-- src/Envelope.ts: what is stored for one job, and how it is read back. A stored object is a
-- `Value`; its keys are taken to be distinct, and no slot to be named `__proto__`.
pub mod RoundTrip
use jubs.Common.{Bool, true, false, Option, none, some, List, [], ◌∷◌, if◌then◌else◌}
use jubs.Text.{Text, ◌==◌, codes}
use jubs.Value.{
  ℤ, Number, whole, Value, undefined, null, num, str, obj, arr, Fields, end, field, entries, get,
}
use jubs.Fault.{
  envelope_error, not_an_object, version_missing, name_missing, unknown_origin,
  counts_not_an_object, count_not_whole,
}
use jubs.Result.{Result, ok, err, ◌>>=◌}
use jubs.Definition.{
  Origin, direct, schedule, flow, relay, JobDefinition, settings, payload_version,
}

pub record Envelope : Type 0 where
  pub v : Number
  pub name : Text
  pub payload : Value
  pub origin : Origin
  pub slots : Option (List (Text × ℤ))

abbrev pub origin_name : Origin → Text
origin_name direct = codes "direct"
origin_name schedule = codes "schedule"
origin_name flow = codes "flow"
origin_name relay = codes "relay"

-- `ORIGINS.some((origin) => origin === value)`, with the origin that is found
abbrev origin_in : List Origin → Text → Option Origin
origin_in [] t = none
origin_in (o ∷ os) t = if origin_name o == t then some o else origin_in os t

-- `isOrigin`
unfoldable pub read_origin : Value → Option Origin
unfolding ◌==◌
read_origin (str t) = origin_in (direct ∷ schedule ∷ flow ∷ relay ∷ []) t
read_origin _ = none

abbrev read_count : Text → Value → Result ℤ
read_count slot (num (whole n)) = ok n
read_count slot _ = err (envelope_error (count_not_whole slot))

-- the loop of `readSlots`
read_counts : List (Text × Value) → Result (List (Text × ℤ))
read_counts [] = ok []
read_counts ((slot, stored) ∷ rest) = do
  count ← read_count slot stored
  counts ← read_counts rest
  ok ((slot, count) ∷ counts)

-- `readSlots`
unfoldable pub read_slots : Value → Result (Option (List (Text × ℤ)))
unfolding read_counts
read_slots undefined = ok none
read_slots (obj fs) = do counts ← read_counts (entries fs); ok (some counts)
read_slots _ = err (envelope_error counts_not_an_object)

abbrev read_version : Value → Result Number
read_version (num v) = ok v
read_version _ = err (envelope_error version_missing)

abbrev read_name : Value → Result Text
read_name (str (c ∷ name)) = ok (c ∷ name)
read_name _ = err (envelope_error name_missing)

abbrev known_origin : Option Origin → Result Origin
known_origin none = err (envelope_error unknown_origin)
known_origin (some o) = ok o

-- The fields of `readEnvelope`, in the order of its checks.
read_fields : Value → Result Envelope
unfolding get read_origin read_slots
read_fields stored = do
  v ← read_version (get (codes "v") stored)
  name ← read_name (get (codes "name") stored)
  origin ← known_origin (read_origin (get (codes "origin") stored))
  slots ← read_slots (get (codes "slots") stored)
  ok (record {
    v = v;
    name = name;
    payload = get (codes "data") stored;
    origin = origin;
    slots = slots;
  })

-- `readEnvelope`
unfoldable pub read_envelope : Value → Result Envelope
unfolding read_fields
read_envelope (obj fs) = read_fields (obj fs)
read_envelope (arr vs) = read_fields (arr vs)
read_envelope _ = err (envelope_error not_an_object)

-- `writeEnvelope`
unfoldable pub write_envelope : JobDefinition → Value → Origin → Envelope
unfolding payload_version
write_envelope definition payload origin = record {
  v = whole (ℤ.pos (payload_version definition));
  name = (settings definition).name;
  payload = payload;
  origin = origin;
  slots = none;
}

-- The object that an envelope is, as a driver stores it.
abbrev count_fields : List (Text × ℤ) → Fields
count_fields [] = end
count_fields ((slot, n) ∷ rest) = field slot (num (whole n)) (count_fields rest)

abbrev slots_field : Option (List (Text × ℤ)) → Fields
slots_field none = end
slots_field (some counts) = field (codes "slots") (obj (count_fields counts)) end

unfoldable pub envelope_value : Envelope → Value
envelope_value e = obj (
    field (codes "v") (num e.v) (
      field (codes "name") (str e.name) (
        field (codes "data") e.payload
          (field (codes "origin") (str (origin_name e.origin)) (slots_field e.slots)))))
