-- ===== src/Examples/Records.antt =====
-- Envelopes and dead records, as they are stored.
use jubs.Common.{◌≡◌, refl, none, [], ◌∷◌}
use jubs.Value.{field, end}
use jubs.Text.{codes}
use jubs.Result.{ok}
use jubs.Envelope.{read_envelope, envelope_value}
use jubs.Envelope.RoundTrip.{read_envelope-envelope_value}
use jubs.Driver.{DeadEntry, child_died}
use jubs.Dead.{burial_for}
use jubs.Dead.Reasons.{burial_for-none_iff}
use jubs.Dead.Record.{read_dead_entry, dead_entry_value}
use jubs.Dead.Record.RoundTrip.{read_dead_entry-dead_entry_value}
use jubs.Examples.Samples.{email_envelope, first_of_two, failure, payload}

read_envelope-envelope_value_example :
    read_envelope (envelope_value email_envelope) ≡ ok email_envelope
read_envelope-envelope_value_example = read_envelope-envelope_value email_envelope (λ e. cc)

abbrev entry : DeadEntry
entry = record {
  job_id = codes "mail:1";
  envelope = email_envelope;
  error = record {
    snapshot = record { name = codes "Error"; message = codes "no"; stack = none };
    caused_by = none;
  };
  burial = child_died (
      record { slot = codes "part"; value = payload; extra = field (codes "size") payload end }
      ∷ []);
}

read_dead_entry-dead_entry_value_example : read_dead_entry (dead_entry_value entry) ≡ ok entry
read_dead_entry-dead_entry_value_example =
    read_dead_entry-dead_entry_value entry (λ e. cc) (λ e. cc)

burial_for-none_iff_example : burial_for first_of_two failure ≡ none
burial_for-none_iff_example = (burial_for-none_iff first_of_two failure).1 (refl, refl, refl, refl)
