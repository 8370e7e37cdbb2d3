-- ===== src/Migration.antt =====
-- src/Migration.ts, src/Payload.ts and src/Result.ts: a stored payload is raised to the version
-- that runs, and validated.
pub mod Steps
use jubs.Common.{
  ℕ, zero, suc, ◌+◌, ◌-◌, Bool, true, false, Option, none, some, List, [], ◌∷◌, eqb, if◌then◌else◌,
}
use jubs.Text.{Text}
use jubs.Value.{ℤ, pos, negsuc, Number, whole, Value, at_most, below}
use jubs.Fault.{
  Thrown, version_ahead, migration_threw, no_migration, payload_error, result_error, refused,
}
use jubs.Result.{Result, ok, err, refuse, ◌>>=◌, ◌>>◌}
use jubs.Definition.{Validation, valid, invalid, Schema, JobDefinition, settings, payload_version}
use jubs.Envelope.{Envelope}

-- `assertVersionIsKnown`
unfoldable pub assert_version_is_known : JobDefinition → Envelope → Result (Unit {0})
assert_version_is_known definition envelope =
    let running = payload_version definition in
    if at_most envelope.v running
    then ok tt
    else err (version_ahead (settings definition).name envelope.v running)

abbrev pub Migrations : Type 0
Migrations = List (ℕ × (Value → Result Value))

-- `definition.migrations?.[from]`
unfoldable pub step_at : ℕ → Migrations → Option (Value → Result Value)
step_at from [] = none
step_at from ((n, step) ∷ rest) = if eqb n from then some step else step_at from rest

-- the `try` around one step
abbrev stepped : Text → ℕ → Result Value → Result Value
stepped name from (ok v) = ok v
stepped name from (err e) = err (migration_threw name from e)

abbrev run_step : Text → ℕ → Option (Value → Result Value) → Value → Result Value
run_step name from none v = refuse (no_migration name (whole (pos from)))
run_step name from (some step) v = stepped name from (step v)

-- The loop of `migrateEnvelope`, over the versions that are left to raise.
unfoldable pub migrate_from : Text → Migrations → ℕ → ℕ → Value → Result Value
migrate_from name steps from zero v = ok v
migrate_from name steps from (suc left) v = do
  raised ← run_step name from (step_at from steps) v
  migrate_from name steps (suc from) left raised

-- The loop from a version that may be no count. No migration is declared from such a version, so
-- its first round refuses.
unfoldable pub migrate_from_version : JobDefinition → Number → Value → Result Value
migrate_from_version d (whole (pos from)) v =
    migrate_from (settings d).name (settings d).migrations from (payload_version d - from) v
migrate_from_version d from v =
    if below from (payload_version d) then refuse (no_migration (settings d).name from) else ok v

-- `migrateEnvelope`
unfoldable pub migrate_envelope : JobDefinition → Envelope → Result Value
migrate_envelope definition envelope = do
  assert_version_is_known definition envelope
  migrate_from_version definition envelope.v envelope.payload

abbrev or_payload_error : Text → Validation → Result Value
or_payload_error name (valid v) = ok v
or_payload_error name (invalid issues) = err (payload_error name issues)

-- `validatePayload`
unfoldable pub validate_payload : JobDefinition → Value → Result Value
validate_payload definition v =
    or_payload_error (settings definition).name ((settings definition).payload v)

abbrev or_result_error : Text → Validation → Result Value
or_result_error name (valid v) = ok v
or_result_error name (invalid issues) = err (result_error name issues)

-- `validateResult`
unfoldable pub validate_result : JobDefinition → Value → Result Value
validate_result definition v = elim (settings definition).result [
  | none ↦ ok v
  | some schema ↦ or_result_error (settings definition).name (schema v)
]
