-- ===== src/Schedule/Intervals.antt =====
-- Intervals: which texts are accepted, and what they count.
use jubs.Common.{
  ℕ, ◌*◌, ◌<◌, ◌≡◌, ◌≢◌, refl, true, false, some, Bool, [], ◌∷◌, ◌++◌, arith, all, ap, ◌∙◌,
}
use jubs.Text.{Text, codes}
use jubs.Text.Decimal.{is_digit, show, number_of-show, show-all_digits, show-ne-nil}
use jubs.Value.{pos, whole, not_a_number}
use jubs.Result.{ok}
use jubs.Schedule.{
  milliseconds, interval_unit, is_lower, is_nil, span, interval_form, interval_ms, scaled,
}

span-append :
    (p : ℕ → Bool) (ds rest : Text) (c : ℕ)
    → all p ds ≡ true
    → p c ≡ false
    → span p (ds ++ c ∷ rest) ≡ (ds, c ∷ rest)
unfolding span
span-append p [] rest c h k = ground arith
span-append p (d ∷ ds) rest c h k = ground (arith, span-append p ds rest c)

is_nil-false : (t : Text) → t ≢ [] → is_nil t ≡ false
is_nil-false [] h = absurd (h refl)
is_nil-false (x ∷ t) h = refl

interval_form-show :
    (n : ℕ) (name : Text)
    → all is_lower name ≡ true
    → name ≢ []
    → interval_form (show n ++ b' ' ∷ name) ≡ some (show n, name)
unfolding interval_form
interval_form-show n name lower some_name =
    rw (span-append is_digit (show n) name b' ' (show-all_digits n) refl)
      (ground (arith, is_nil-false (show n) (show-ne-nil n), is_nil-false name some_name))

interval_ms-show :
    (n : ℕ) (name : Text)
    → 0 < n
    → all is_lower name ≡ true
    → name ≢ []
    → interval_ms (show n ++ b' ' ∷ name) ≡ scaled n (interval_unit name)
unfolding interval_ms
interval_ms-show n name some_n lower some_name =
    rw (interval_form-show n name lower some_name, number_of-show n) (ground arith)

-- The units of a recurrence, one by one, and in the plural.
pub data TimeUnit : Type 0 where
  second minute hour day : TimeUnit

abbrev pub unit_name : TimeUnit → Bool → Text
unit_name second false = codes "second"
unit_name second true = codes "seconds"
unit_name minute false = codes "minute"
unit_name minute true = codes "minutes"
unit_name hour false = codes "hour"
unit_name hour true = codes "hours"
unit_name day false = codes "day"
unit_name day true = codes "days"

abbrev pub seconds_in : TimeUnit → ℕ
seconds_in second = 1
seconds_in minute = 60
seconds_in hour = 60 * 60
seconds_in day = 24 * 60 * 60

interval_unit-unit_name :
    (u : TimeUnit) (plural : Bool)
    → (interval_unit (unit_name u plural) ≡ milliseconds (seconds_in u * 1000))
      × (all is_lower (unit_name u plural) ≡ true)
      × (unit_name u plural ≢ [])
unfolding interval_unit
interval_unit-unit_name second false = (refl, refl, cc)
interval_unit-unit_name second true = (refl, refl, cc)
interval_unit-unit_name minute false = (refl, refl, cc)
interval_unit-unit_name minute true = (refl, refl, cc)
interval_unit-unit_name hour false = (refl, refl, cc)
interval_unit-unit_name hour true = (refl, refl, cc)
interval_unit-unit_name day false = (refl, refl, cc)
interval_unit-unit_name day true = (refl, refl, cc)

-- A count above 0, a space and the name of a unit, singular or plural, is read as that many units
-- in milliseconds.
pub interval_ms-unit :
    (n : ℕ) (u : TimeUnit) (plural : Bool)
    → 0 < n
    → interval_ms (show n ++ b' ' ∷ unit_name u plural)
      ≡ ok (whole (pos (n * (seconds_in u * 1000))))
interval_ms-unit n u plural some_n =
    let (found, lower, some_name) = interval_unit-unit_name u plural in
    interval_ms-show n (unit_name u plural) some_n lower some_name ∙ ap (scaled n) found

-- A count above 0 with the word `constructor` for a unit is no interval, and is not refused: it is
-- read as `NaN`.
pub interval_ms-constructor :
    (n : ℕ) → 0 < n → interval_ms (show n ++ b' ' ∷ codes "constructor") ≡ ok not_a_number
unfolding interval_unit
interval_ms-constructor n some_n = interval_ms-show n (codes "constructor") some_n refl (cc)
