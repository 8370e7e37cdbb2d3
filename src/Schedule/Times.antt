-- ===== src/Schedule/Times.antt =====
-- Times of the day: which texts are accepted, and the pattern that comes of them.
use jubs.Common.{
  ℕ, ◌+◌, ◌/◌, ◌%◌, ◌<◌, ◌≡◌, true, some, Option, Bool, [], ◌∷◌, arith, Bool-cases, inl, inr,
}
use jubs.Text.{Text, codes}
use jubs.Result.{ok, >>=-eq-ok}
use jubs.Definition.{Recurrence, pattern_of, Schedule}
use jubs.Schedule.{
  two_digits_value, is_time, ScheduleOptions, TimeFields, time_fields, at_time, assert_timezone,
  schedule_of, daily_at,
}

-- "HH:MM"
abbrev pub time_text : ℕ → ℕ → Text
time_text h m = (b'0' + h / 10) ∷ (b'0' + h % 10) ∷ b':' ∷ (b'0' + m / 10) ∷ (b'0' + m % 10) ∷ []

-- Every hour and minute of the day is read back from its text.
pub time_fields-time_text :
    (h m : ℕ) → h < 24 → m < 60 → time_fields (time_text h m) ≡ ok (record { hour = h; minute = m })
unfolding time_fields
time_fields-time_text h m p q = ground arith

module _ (a b c d e : ℕ) (h : is_time a b c d e ≡ true) where
  hour_of :
      (two_digits_value a b < 24)
      × (a ≡ b'0' + two_digits_value a b / 10)
      × (b ≡ b'0' + two_digits_value a b % 10)
  hour_of = ground arith

  minute_of :
      (two_digits_value d e < 60)
      × (d ≡ b'0' + two_digits_value d e / 10)
      × (e ≡ b'0' + two_digits_value d e % 10)
  minute_of = ground arith

  colon_of : c ≡ b':'
  colon_of = ground arith

time_fields-eq-ok :
    (a b c d e : ℕ) {f : TimeFields}
    → time_fields (a ∷ b ∷ c ∷ d ∷ e ∷ []) ≡ ok f
    → (is_time a b c d e ≡ true)
      × (f ≡ record { hour = two_digits_value a b; minute = two_digits_value d e })
unfolding time_fields
time_fields-eq-ok a b c d e h = elim (Bool-cases (is_time a b c d e)) [
  | inl fits ↦ (fits, ground arith)
  | inr strange ↦ absurd (ground arith)
]

-- A text is accepted as a time only if it is the text of the hour and the minute that are read.
pub time_fields_sound :
    (t : Text) {f : TimeFields}
    → time_fields t ≡ ok f
    → (f.hour < 24) × (f.minute < 60) × (t ≡ time_text f.hour f.minute)
unfolding time_fields
time_fields_sound (a ∷ b ∷ c ∷ d ∷ e ∷ []) h =
    let (fits, same) = time_fields-eq-ok a b c d e h in
    let (hour, a_is, b_is) = hour_of a b c d e fits in
    let (minute, d_is, e_is) = minute_of a b c d e fits in
    rw same (hour, minute, cc (a_is, b_is, colon_of a b c d e fits, d_is, e_is))
time_fields_sound _ h = cc

module _ (is_zone : Text → Bool) where
  -- The time zone of the options, if it is not empty, is one.
  abbrev pub ZoneFits : Option Text → Type 0
  ZoneFits zone = (c : ℕ) (rest : Text) → zone ≡ some (c ∷ rest) → is_zone (c ∷ rest) ≡ true

  schedule_of_sound :
      (r : Recurrence) (options : ScheduleOptions) {s : Schedule}
      → schedule_of is_zone r options ≡ ok s
      → (s.recurrence ≡ r)
        × (s.timezone ≡ options.timezone)
        × (s.payload ≡ options.payload)
        × ZoneFits options.timezone
  unfolding schedule_of assert_timezone
  schedule_of_sound r options h =
      (ground arith, ground arith, ground arith, λ c rest given. ground arith)

  -- A daily schedule that is accepted runs at an hour and a minute of the day whose text was given,
  -- in the time zone and with the payload of its options; a time zone that is not empty is one.
  pub daily_at_sound :
      (time : Text) (options : ScheduleOptions) {s : Schedule}
      → daily_at is_zone time options ≡ ok s
      → (t : TimeFields) × (t.hour < 24)
        × (t.minute < 60)
        × (time ≡ time_text t.hour t.minute)
        × (s.recurrence ≡ pattern_of (at_time t (codes "* * *")))
        × (s.timezone ≡ options.timezone)
        × (s.payload ≡ options.payload)
        × ZoneFits options.timezone
  unfolding daily_at
  daily_at_sound time options h =
      let (t, read, made) = >>=-eq-ok (time_fields time) _ h in
      let (hour, minute, same) = time_fields_sound time read in
      let (recurs, zone, given, fits) =
        schedule_of_sound (pattern_of (at_time t (codes "* * *"))) options made in
      (t, hour, minute, same, recurs, zone, given, fits)
