-- ===== src/Envelope/RoundTrip.antt =====
-- An envelope is read back as it was written, and nothing else is read as one.
use jubs.Common.{◌≡◌, ◌≢◌, refl, Option, none, some, List, [], ◌∷◌, arith, ap}
use jubs.Text.{Text, ◌==◌, codes}
use jubs.Value.{
  ℤ, Number, whole, num, Value, get, entries, str, undefined, obj, arr, Fields, end, field,
}
use jubs.Result.{ok, >>=-eq-ok}
use jubs.Text.Laws.{==_iff}
use jubs.Definition.{Origin, direct, schedule, flow, relay, JobDefinition, settings}
use jubs.Envelope.{
  Envelope, origin_name, read_origin, read_counts, read_slots, read_fields, read_envelope,
  write_envelope, read_count, read_version, read_name, origin_in, known_origin, count_fields,
  envelope_value,
}

read_origin-origin_name : (o : Origin) → read_origin (str (origin_name o)) ≡ some o
unfolding read_origin
read_origin-origin_name direct = refl
read_origin-origin_name schedule = refl
read_origin-origin_name flow = refl
read_origin-origin_name relay = refl

read_counts-count_fields :
    (counts : List (Text × ℤ)) → read_counts (entries (count_fields counts)) ≡ ok counts
unfolding read_counts
read_counts-count_fields [] = refl
read_counts-count_fields ((slot, n) ∷ rest) = rw (read_counts-count_fields rest)

abbrev with_parts : Envelope → Text → Option (List (Text × ℤ)) → Envelope
with_parts e name slots = record e { name = name; slots = slots }

read_envelope-with_parts :
    (e : Envelope) (name : Text) (slots : Option (List (Text × ℤ)))
    → name ≢ []
    → read_envelope (envelope_value (with_parts e name slots)) ≡ ok (with_parts e name slots)
unfolding read_envelope envelope_value ◌==◌
read_envelope-with_parts e [] slots h = absurd (h refl)
read_envelope-with_parts e (c ∷ name) none h = rw (read_origin-origin_name e.origin)
read_envelope-with_parts e (c ∷ name) (some counts) h =
    rw (read_origin-origin_name e.origin, read_counts-count_fields counts)

-- The object that an envelope with a name is stored as is read back as that envelope, with its
-- slot counts if it has them.
pub read_envelope-envelope_value :
    (e : Envelope) → e.name ≢ [] → read_envelope (envelope_value e) ≡ ok e
read_envelope-envelope_value e h = read_envelope-with_parts e e.name e.slots h

-- What a definition with a name writes is read back.
pub read_envelope-write_envelope :
    (d : JobDefinition) (payload : Value) (o : Origin)
    → (settings d).name ≢ []
    → read_envelope (envelope_value (write_envelope d payload o)) ≡ ok (write_envelope d payload o)
unfolding write_envelope
read_envelope-write_envelope d payload o h =
    read_envelope-envelope_value (write_envelope d payload o) h

read_count_sound : (slot : Text) (v : Value) {n : ℤ} → read_count slot v ≡ ok n → v ≡ num (whole n)
read_count_sound slot (num (whole n)) h = ground arith
read_count_sound slot _ h = cc

read_counts_sound :
    (fs : Fields) {counts : List (Text × ℤ)}
    → read_counts (entries fs) ≡ ok counts
    → fs ≡ count_fields counts
unfolding read_counts
read_counts_sound end h = ground arith
read_counts_sound (field slot v rest) {counts} h =
    let (n, whole_n, more) = >>=-eq-ok (read_count slot v) _ h in
    let (ns, read_ns, done) = >>=-eq-ok (read_counts (entries rest)) _ more in
    ground (arith, read_count_sound slot v whole_n, read_counts_sound rest read_ns, done)

abbrev slots_value : Option (List (Text × ℤ)) → Value
slots_value none = undefined
slots_value (some counts) = obj (count_fields counts)

-- What a stored value holds under its keys, where it is read as an envelope.
pub record Holds (stored : Value) (e : Envelope) : Type 0 where
  pub version : get (codes "v") stored ≡ num e.v
  pub named : get (codes "name") stored ≡ str e.name
  pub some_name : e.name ≢ []
  pub holds_payload : get (codes "data") stored ≡ e.payload
  pub from : get (codes "origin") stored ≡ str (origin_name e.origin)
  pub counts : get (codes "slots") stored ≡ slots_value e.slots

read_version_sound : (v : Value) {n : Number} → read_version v ≡ ok n → v ≡ num n
read_version_sound (num n) h = ground arith
read_version_sound _ h = cc

read_name_sound : (v : Value) {t : Text} → read_name v ≡ ok t → (v ≡ str t) × (t ≢ [])
read_name_sound (str (c ∷ t)) h = ground arith
read_name_sound _ h = cc

origin_in_sound :
    (os : List Origin) (t : Text) {o : Origin} → origin_in os t ≡ some o → t ≡ origin_name o
origin_in_sound [] t h = cc
origin_in_sound (p ∷ os) t {o} h =
    ground (arith, ==_iff (origin_name p) t, origin_in_sound os t {o = o})

known_origin_sound :
    (found : Option Origin) {o : Origin} → known_origin found ≡ ok o → found ≡ some o
known_origin_sound none h = cc
known_origin_sound (some p) h = ground arith

read_origin_sound :
    (v : Value) {o : Origin} → known_origin (read_origin v) ≡ ok o → v ≡ str (origin_name o)
unfolding read_origin
read_origin_sound (str t) {o} h =
    ap str (origin_in_sound (direct ∷ schedule ∷ flow ∷ relay ∷ []) t (known_origin_sound _ h))
read_origin_sound _ h = cc

read_slots_sound :
    (v : Value) {s : Option (List (Text × ℤ))} → read_slots v ≡ ok s → v ≡ slots_value s
unfolding read_slots
read_slots_sound undefined h = ground arith
read_slots_sound (obj fs) h =
    let (counts, read, done) = >>=-eq-ok (read_counts (entries fs)) _ h in
    ground (arith, read_counts_sound fs read, done)
read_slots_sound _ h = cc

read_fields_sound : (stored : Value) {e : Envelope} → read_fields stored ≡ ok e → Holds stored e
unfolding read_fields
read_fields_sound stored {e} h =
    let (v, read_v, h₁) = >>=-eq-ok (read_version (get (codes "v") stored)) _ h in
    let (n, read_n, h₂) = >>=-eq-ok (read_name (get (codes "name") stored)) _ h₁ in
    let (o, read_o, h₃) =
      >>=-eq-ok (known_origin (read_origin (get (codes "origin") stored))) _ h₂ in
    let (s, read_s, h₄) = >>=-eq-ok (read_slots (get (codes "slots") stored)) _ h₃ in
    let (same, some_n) = read_name_sound (get (codes "name") stored) read_n in
    ground (
      arith,
      h₄,
      read_version_sound (get (codes "v") stored) read_v,
      same,
      some_n,
      read_origin_sound (get (codes "origin") stored) read_o,
      read_slots_sound (get (codes "slots") stored) read_s,
    )

-- A stored value that is read as an envelope has the version, the name, the payload, the origin and
-- the counts of that envelope under its keys; the name is not empty.
pub read_envelope_sound :
    (stored : Value) {e : Envelope} → read_envelope stored ≡ ok e → Holds stored e
unfolding read_envelope
read_envelope_sound (obj fs) h = read_fields_sound (obj fs) h
read_envelope_sound (arr vs) h = read_fields_sound (arr vs) h
read_envelope_sound _ h = cc
