-- ===== src/Redis/Flow.antt =====
-- src/RedisDriver.ts: what the children of a flow settled into, as Redis keeps it. A reply is what
-- `READ_FLOW_LUA` returns: two hashes as flat lists, and a count. `JSON.parse` is a parameter.
pub mod Laws
use jubs.Common.{ℕ, Option, none, some, List, [], ◌∷◌, ◌++◌, map, eqb, if◌then◌else◌}
use jubs.Text.{Text, codes}
use jubs.Value.{Value, undefined, end}
use jubs.Fault.{ChildResult, ChildFailure}
use jubs.JobId.{JobAddress, colon, compose_job_id, read_child_slot}
use jubs.Driver.{FlowState}

abbrev pub prepend_to : ℕ → List Text → List Text
prepend_to c [] = (c ∷ []) ∷ []
prepend_to c (s ∷ segments) = (c ∷ s) ∷ segments

-- `key.split(separator)` for one character
unfoldable pub split : ℕ → Text → List Text
split separator [] = [] ∷ []
split separator (c ∷ cs) =
    let rest = split separator cs in if eqb c separator then [] ∷ rest else prepend_to c rest

-- `segments.at(-2) ?? ""` and `segments.at(-1) ?? ""`
abbrev pub last_two : List Text → Text × Text
last_two [] = ([], [])
last_two (s ∷ []) = ([], s)
last_two (s ∷ t ∷ []) = (s, t)
last_two (s ∷ t ∷ u ∷ segments) = last_two (t ∷ u ∷ segments)

-- `readChildKey`
unfoldable pub read_child_key : Text → JobAddress
read_child_key key =
    let (queue, stored_id) = last_two (split colon key) in
    record { queue = queue; stored_id = stored_id }

-- `hashEntries`
unfoldable pub hash_entries : List Text → List (Text × Text)
hash_entries [] = []
hash_entries (key ∷ []) = (key, codes "undefined") ∷ []
hash_entries (key ∷ value ∷ rest) = (key, value) ∷ hash_entries rest

pub record FlowReply : Type 0 where
  pub processed : List Text
  pub failed : List Text
  pub pending : ℕ

module _ (parse : Text → Option Value) where
  -- `childValue`
  abbrev pub child_value : Option Value → Value
  child_value none = undefined
  child_value (some v) = v

  abbrev pub result_of : Text × Text → ChildResult
  result_of (key, value) = record {
    slot = read_child_slot (read_child_key key).stored_id;
    value = child_value (parse value);
    extra = end;
  }

  abbrev pub failure_of : Text × Text → ChildFailure
  failure_of (key, value) =
      let address = read_child_key key in
      record {
        id = compose_job_id address.queue address.stored_id;
        slot = read_child_slot address.stored_id;
        reason = value;
      }

  -- `readFlowState`
  unfoldable pub read_flow_state : FlowReply → FlowState
  read_flow_state reply = record {
    results = map result_of (hash_entries reply.processed);
    failures = map failure_of (hash_entries reply.failed);
    pending = reply.pending;
  }
