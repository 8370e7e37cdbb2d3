-- ===== src/Definition/Checks/Accepted.antt =====
-- What `defineJob` accepts, and what the rest of the program may rely on in what it gives back.
use jubs.Common.{
  ℕ, suc, ◌≤◌, ◌<◌, ◌≡◌, refl, true, false, none, some, List, [], ◌∷◌, map, arith, all, All,
  Option-cases, inl, inr, ◌⊎◌,
}
use jubs.Text.{Text, includes}
use jubs.Value.{pos, Number, whole, Value, is_positive}
use jubs.Result.{Result, ok, require, >>=-eq-ok}
use jubs.JobId.{colon, flow_id_marker}
use jubs.Definition.{JobDefinition, Slot, slots_in, slots_of, settings, payload_version}
use jubs.Definition.Checks.{
  JobDefinitionInput, is_count, to_count, runs, declared_version, assert_versioning, assert_timeout,
  fixes_unique, assert_slots, waits_on_slots, assert_awaits, defined, define_job,
}

abbrev pub Runs : ℕ → ℕ × (Value → Result Value) → Type 0
Runs version m = (1 ≤ m.0) × (m.0 < version)

abbrev pub IsPlain : Slot → Type 0
IsPlain s = (includes colon s.name ≡ false) × (includes flow_id_marker s.name ≡ false)

-- What holds of a definition that `defineJob` gives back.
pub record IsSound (d : JobDefinition) : Type 0 where
  pub version_pos : 1 ≤ payload_version d
  pub migrations_run : All (Runs (payload_version d)) (settings d).migrations
  pub timeout : (ms : Number) → (settings d).timeout_ms ≡ some ms → is_positive ms ≡ true
  pub alone :
      (slots_of d ≡ [])
      ⊎ ((fixes_unique (settings d).delivery ≡ false)
          × ((settings d).idempotency_key ≡ none)
          × ((settings d).recurring ≡ none))
  pub slot_names : All IsPlain (slots_of d)

runs_sound : (v : ℕ) (n : Number) → runs v n ≡ true → (1 ≤ to_count n) × (to_count n < v)
runs_sound v (whole (pos (suc n))) h = ground arith
runs_sound v _ h = cc

migrations_sound :
    (v : ℕ) (ms : List (Number × (Value → Result Value)))
    → all (λ m. runs v m.0) ms ≡ true
    → All (Runs v) (map (λ m. (to_count m.0, m.1)) ms)
migrations_sound v [] h = tt
migrations_sound v ((n, f) ∷ ms) h = ground (arith, runs_sound v n, migrations_sound v ms)

assert_slots_sound :
    (name : Text) (slots : List Slot) → assert_slots name slots ≡ ok tt → All IsPlain slots
unfolding assert_slots
assert_slots_sound name [] h = tt
assert_slots_sound name (s ∷ slots) h = ground (arith, assert_slots_sound name slots)

is_count_sound : (n : Number) → is_count n ≡ true → 1 ≤ to_count n
is_count_sound (whole (pos (suc n))) h = omega arith
is_count_sound _ h = cc

module _ (input : JobDefinitionInput) where
  define_job-eq-ok :
      {d : JobDefinition}
      → define_job input ≡ ok d
      → (assert_versioning input ≡ ok tt)
        × (assert_timeout input ≡ ok tt)
        × (assert_awaits input ≡ ok tt)
        × (d ≡ defined input)
  unfolding define_job
  define_job-eq-ok h =
      let (_, versioned, h₁) = >>=-eq-ok (assert_versioning input) _ h in
      let (_, timed, h₂) = >>=-eq-ok (assert_timeout input) _ h₁ in
      let (_, awaiting, h₃) = >>=-eq-ok (assert_awaits input) _ h₂ in
      (versioned, timed, awaiting, ground (arith, h₃))

  version_of : payload_version (defined input) ≡ to_count (declared_version input)
  unfolding payload_version
  version_of = elim (Option-cases input.version) [
    | inl absent ↦ rw absent
    | inr (n, given) ↦ rw given
  ]

  assert_versioning_sound :
      assert_versioning input ≡ ok tt
      → (1 ≤ to_count (declared_version input))
        × All (Runs (to_count (declared_version input))) (settings (defined input)).migrations
  unfolding assert_versioning
  assert_versioning_sound h =
      let v = declared_version input in
      let (_, counted, run) = >>=-eq-ok (require (is_count v) _) _ h in
      (
        is_count_sound v (ground (arith, counted)),
        migrations_sound (to_count v) input.migrations (ground (arith, run)),
      )

  assert_timeout_sound :
      assert_timeout input ≡ ok tt
      → (ms : Number) → input.timeout_ms ≡ some ms
      → is_positive ms ≡ true
  unfolding assert_timeout
  assert_timeout_sound h ms given = ground arith

  waits_on_slots_sound :
      (slots : List Slot)
      → waits_on_slots input slots ≡ ok tt
      → ((slots ≡ [])
          ⊎ ((fixes_unique input.delivery ≡ false)
              × (input.idempotency_key ≡ none)
              × (input.recurring ≡ none)))
        × All IsPlain slots
  unfolding waits_on_slots
  waits_on_slots_sound [] h = (inl refl, tt)
  waits_on_slots_sound (s ∷ slots) h = (
    inr (ground arith, ground arith, ground arith),
    assert_slots_sound input.name (s ∷ slots) (ground arith),
  )

  -- A definition that `defineJob` gives back has a version of 1 or more, migrations from 1 up to
  -- below that version, a timeout above 0 if it has one, slot names that an id can carry, and no fixed
  -- uniqueness, key or schedule if it has slots.
  pub define_job-IsSound : {d : JobDefinition} → define_job input ≡ ok d → IsSound d
  unfolding assert_awaits
  define_job-IsSound {d} h =
      let (versioned, timed, awaiting, same) = define_job-eq-ok h in
      let (counted, run) = assert_versioning_sound versioned in
      let (alone, plain) = waits_on_slots_sound (slots_in input.waits_on) awaiting in
      rw same (record {
        version_pos = rw version_of counted;
        migrations_run = rw version_of run;
        timeout = assert_timeout_sound timed;
        alone = alone;
        slot_names = plain;
      })
