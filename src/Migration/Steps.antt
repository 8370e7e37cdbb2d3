-- ===== src/Migration/Steps.antt =====
-- Which migrations run, in which order, and when a payload is left as it is.
use jubs.Common.{ℕ, zero, suc, ◌+◌, ◌-◌, ◌≤◌, ◌≡◌, refl, Option, none, some, arith, le→leb, ◌↔◌}
use jubs.Text.{Text}
use jubs.Value.{pos, whole, Value}
use jubs.Result.{Result, ok, >>=-eq-ok}
use jubs.Definition.{JobDefinition, settings, payload_version}
use jubs.Envelope.{Envelope}
use jubs.Migration.{
  Migrations, assert_version_is_known, step_at, run_step, migrate_from, migrate_from_version,
  migrate_envelope,
}

-- The steps from one version to another, each applied to what the one before it gave.
pub data Raises (steps : Migrations) : ℕ → ℕ → Value → Value → Type 0 where
  done : {n : ℕ} {v : Value} → Raises steps n n v v
  raise :
      {from to : ℕ} {v w x : Value} {step : Value → Result Value}
      → step_at from steps ≡ some step
      → step v ≡ ok w
      → Raises steps (suc from) to w x
      → Raises steps from to v x

run_step-eq-ok :
    (name : Text) (from : ℕ) (found : Option (Value → Result Value)) (v : Value) {w : Value}
    → run_step name from found v ≡ ok w
    → (step : Value → Result Value) × (found ≡ some step) × (step v ≡ ok w)
run_step-eq-ok name from none v h = cc
run_step-eq-ok name from (some step) v h = (step, refl, ground arith)

migrate_from_sound :
    (name : Text) (steps : Migrations) (from left : ℕ) (v : Value) {x : Value}
    → migrate_from name steps from left v ≡ ok x
    → Raises steps from (from + left) v x
unfolding migrate_from
migrate_from_sound name steps from zero v {x} h =
    let none_left : from + 0 ≡ from = omega arith in
    let same : v ≡ x = ground arith in rw (none_left, same) done
migrate_from_sound name steps from (suc left) v h =
    let (w, stepped, later) = >>=-eq-ok (run_step name from (step_at from steps) v) _ h in
    let (step, found, gives) = run_step-eq-ok name from (step_at from steps) v stepped in
    let one_more : from + suc left ≡ suc from + left = omega arith in
    rw one_more (raise found gives (migrate_from_sound name steps (suc from) left w later))

migrate_from_complete :
    (name : Text) (steps : Migrations) {from to : ℕ} {v x : Value}
    → Raises steps from to v x
    → (from ≤ to) × (migrate_from name steps from (to - from) v ≡ ok x)
unfolding migrate_from
migrate_from_complete name steps (done {n}) =
    let none_left : n - n ≡ 0 = omega arith in (omega arith, rw none_left)
migrate_from_complete name steps (raise {from} {to} {v} found gives later) =
    let (le, rest) = migrate_from_complete name steps later in
    let one_more : to - from ≡ suc (to - suc from) = omega arith in
    (omega arith, rw (one_more, found, gives) rest)

-- An envelope of a whole version gives a payload exactly when the declared migrations raise its own
-- payload to that one, each run once and in order from its version to the version that runs; from a version ahead of that, none do.
pub migrate_envelope_iff :
    (d : JobDefinition) (e : Envelope) (n : ℕ) {x : Value}
    → e.v ≡ whole (pos n)
    → (migrate_envelope d e ≡ ok x)
      ↔ Raises (settings d).migrations n (payload_version d) e.payload x
unfolding migrate_envelope migrate_from_version assert_version_is_known
migrate_envelope_iff d e n {x} at_n =
    let name = (settings d).name in
    let steps = (settings d).migrations in
    let running = payload_version d in
    (
      λ h.
          let h' = rw at_n at h in
          let (_, known, raised) =
            >>=-eq-ok (assert_version_is_known d (record e { v = whole (pos n) })) _ h' in
          let le : n ≤ running = ground (arith, known) in
          let whole_way : n + (running - n) ≡ running = omega arith in
          rw whole_way at (migrate_from_sound name steps n (running - n) e.payload raised),
      λ r.
          let (le, gives) = migrate_from_complete name steps r in
          rw (at_n, le→leb n running le) gives,
    )
