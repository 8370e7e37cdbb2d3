-- ===== src/Schedule.antt =====
-- src/Schedule.ts: the recurrences that a definition declares, read out of texts. Whether a text
-- names a time zone is `Intl`'s to say, so it is an argument.
pub mod Times
pub mod Intervals
use jubs.Common.{
  ℕ, zero, suc, ◌+◌, ◌-◌, ◌*◌, Bool, true, false, not, ◌&&◌, ◌||◌, Option, none, some, [], ◌∷◌,
  ◌++◌, ltb, leb, eqb, all, is_some, if◌then◌else◌,
}
use jubs.Text.{Text, ◌==◌, codes}
use jubs.Text.Decimal.{is_digit, show, number_of}
use jubs.Value.{ℤ, pos, negsuc, Number, whole, not_a_number, Value}
use jubs.Fault.{
  not_an_interval, not_a_time, not_a_timezone, not_a_day_of_month, every_with_timezone,
}
use jubs.Result.{Result, ok, refuse, require, ◌>>=◌, ◌>>◌}
use jubs.Definition.{Recurrence, every_ms, pattern_of, Schedule}

pub record ScheduleOptions : Type 0 where
  pub timezone : Option Text
  pub payload : Value

pub data Weekday : Type 0 where
  monday tuesday wednesday thursday friday saturday sunday : Weekday

-- `WEEKDAYS`
abbrev pub weekday_number : Weekday → ℕ
weekday_number sunday = 0
weekday_number monday = 1
weekday_number tuesday = 2
weekday_number wednesday = 3
weekday_number thursday = 4
weekday_number friday = 5
weekday_number saturday = 6

-- What a look-up in `INTERVAL_MS` gives: milliseconds, nothing, or what every object inherits.
pub data IntervalUnit : Type 0 where
  milliseconds : ℕ → IntervalUnit
  inherited unknown_unit : IntervalUnit

-- `INTERVAL_MS[name]`. The object is a plain one, so `constructor` names the function that it
-- inherits. No other inherited name is written in lower case alone.
unfoldable pub interval_unit : Text → IntervalUnit
unfolding ◌==◌
interval_unit name =
    if name == codes "second" || name == codes "seconds"
    then milliseconds 1000
    else if name == codes "minute" || name == codes "minutes"
    then milliseconds 60000
    else if name == codes "hour" || name == codes "hours"
    then milliseconds 3600000
    else if name == codes "day" || name == codes "days"
    then milliseconds 86400000
    else if name == codes "constructor"
    then inherited
    else unknown_unit

abbrev pub is_lower : ℕ → Bool
is_lower c = leb b'a' c && leb c b'z'

abbrev pub is_nil : Text → Bool
is_nil [] = true
is_nil (x ∷ xs) = false

-- The longest beginning whose characters pass the test, and the rest.
unfoldable pub span : (ℕ → Bool) → Text → Text × Text
span p [] = ([], [])
span p (x ∷ xs) = let later = span p xs in if p x then (x ∷ later.0, later.1) else ([], x ∷ xs)

abbrev after_count : Text → Text → Option (Text × Text)
after_count count [] = none
after_count count (c ∷ name) =
    if not (is_nil count) && eqb c b' ' && not (is_nil name) && all is_lower name
    then some (count, name)
    else none

-- `INTERVAL_FORM.exec(interval)`: the digits and the letters.
unfoldable pub interval_form : Text → Option (Text × Text)
unfolding span
interval_form interval = let cut = span is_digit interval in after_count cut.0 cut.1

abbrev scaled : ℕ → IntervalUnit → Result Number
scaled count (milliseconds ms) = ok (whole (pos (count * ms)))
scaled count inherited = ok not_a_number
scaled count unknown_unit = refuse not_an_interval

abbrev interval_of : Option (Text × Text) → Result Number
interval_of none = refuse not_an_interval
interval_of (some (count, name)) =
    if eqb (number_of count) 0
    then refuse not_an_interval
    else scaled (number_of count) (interval_unit name)

-- `intervalMs`. A count times the inherited function is `NaN`.
unfoldable pub interval_ms : Text → Result Number
interval_ms interval = interval_of (interval_form interval)

abbrev two_digits_value : ℕ → ℕ → ℕ
two_digits_value a b = (a - b'0') * 10 + (b - b'0')

-- `TIME_FORM` on its four digits
abbrev is_time : ℕ → ℕ → ℕ → ℕ → ℕ → Bool
is_time a b c d e =
    ((leb b'0' a && leb a b'1' && is_digit b) || (eqb a b'2' && leb b'0' b && leb b b'3'))
    && eqb c b':'
    && leb b'0' d
    && leb d b'5'
    && is_digit e

pub record TimeFields : Type 0 where
  pub hour : ℕ
  pub minute : ℕ

-- `timeFields`
unfoldable pub time_fields : Text → Result TimeFields
time_fields (a ∷ b ∷ c ∷ d ∷ e ∷ []) =
    if is_time a b c d e
    then ok (record { hour = two_digits_value a b; minute = two_digits_value d e })
    else refuse not_a_time
time_fields _ = refuse not_a_time

abbrev pub blank : Text
blank = b' ' ∷ []

abbrev pub at_time : TimeFields → Text → Text
at_time t rest = show t.minute ++ blank ++ show t.hour ++ blank ++ rest

module _ (is_zone : Text → Bool) where
  -- `assertTimezone`
  unfoldable pub assert_timezone : Text → Result (Unit {0})
  assert_timezone zone = require (is_zone zone) not_a_timezone

  -- `if (options.timezone)`: a text that is empty counts as none.
  abbrev checked : Option Text → Result (Unit {0})
  checked none = ok tt
  checked (some []) = ok tt
  checked (some (c ∷ zone)) = assert_timezone (c ∷ zone)

  -- `scheduleOf`
  unfoldable pub schedule_of : Recurrence → ScheduleOptions → Result Schedule
  unfolding assert_timezone
  schedule_of recurrence options = do
    checked options.timezone
    ok (record { recurrence = recurrence; timezone = options.timezone; payload = options.payload })

  -- `every`
  unfoldable pub every : Text → ScheduleOptions → Result Schedule
  unfolding schedule_of
  every interval options = do
    require (not (is_some options.timezone)) every_with_timezone
    ms ← interval_ms interval
    schedule_of (every_ms ms) options

  -- `dailyAt`
  unfoldable pub daily_at : Text → ScheduleOptions → Result Schedule
  unfolding schedule_of
  daily_at time options = do
    t ← time_fields time
    schedule_of (pattern_of (at_time t (codes "* * *"))) options

  -- `weeklyOn`
  unfoldable pub weekly_on : Weekday → Text → ScheduleOptions → Result Schedule
  unfolding schedule_of
  weekly_on day time options = do
    t ← time_fields time
    schedule_of (pattern_of (at_time t (codes "* * " ++ show (weekday_number day)))) options

  abbrev day_of : Number → Option ℕ
  day_of (whole (pos n)) = if ltb n 1 || ltb 31 n then none else some n
  day_of _ = none

  abbrev on_day : Option ℕ → Text → ScheduleOptions → Result Schedule
  on_day none time options = refuse not_a_day_of_month
  on_day (some day) time options = do
    t ← time_fields time
    schedule_of (pattern_of (at_time t (show day ++ codes " * *"))) options

  -- `monthlyOn`
  unfoldable pub monthly_on : Number → Text → ScheduleOptions → Result Schedule
  unfolding schedule_of
  monthly_on day time options = on_day (day_of day) time options

  -- `cron`
  unfoldable pub cron : Text → ScheduleOptions → Result Schedule
  unfolding schedule_of
  cron cron_pattern options = schedule_of (pattern_of cron_pattern) options
