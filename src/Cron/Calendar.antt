-- ===== src/Cron/Calendar.antt =====
-- `datetime` and `timedelta` as yasin_core/execution/scheduler.py uses them, by their documentation: a
-- date of the Gregorian calendar, kept to the minute, and the minute after it.
use yasin_core.Prelude.{
  ℕ, ◌+◌, Bool, not, Option, none, some, ◌&&◌, ◌||◌, if◌then◌else◌, ltb, eqb, ◌%◌,
}

-- A `datetime` without its seconds; `weekday` is 0 on Monday.
pub record DateTime : Type 0 where
  pub year : ℕ
  pub month : ℕ
  pub day : ℕ
  pub hour : ℕ
  pub minute : ℕ
  pub weekday : ℕ

abbrev pub is_leap : ℕ → Bool
is_leap y = eqb (y % 4) 0 && (not (eqb (y % 100) 0) || eqb (y % 400) 0)

abbrev pub days_in_month : ℕ → ℕ → ℕ
days_in_month y m =
    if eqb m 2
    then (if is_leap y then 29 else 28)
    else if eqb m 4 || eqb m 6 || eqb m 9 || eqb m 11
    then 30
    else 31

abbrev pub next_year : DateTime → DateTime
next_year t = record t { year = t.year + 1; month = 1; day = 1; hour = 0; minute = 0 }

abbrev pub next_month : DateTime → DateTime
next_month t =
    if ltb t.month 12
    then record t { month = t.month + 1; day = 1; hour = 0; minute = 0 }
    else next_year t

abbrev pub next_day : DateTime → DateTime
next_day t =
    let t' : DateTime = record t { weekday = if ltb t.weekday 6 then t.weekday + 1 else 0 } in
    if ltb t.day (days_in_month t.year t.month)
    then record t' { day = t.day + 1; hour = 0; minute = 0 }
    else next_month t'

-- The minute after 23:59 of a day; the last one is that of December 31st, 9999.
abbrev pub after_midnight : DateTime → Option DateTime
after_midnight t =
    if eqb t.year 9999 && eqb t.month 12 && eqb t.day 31 then none else some (next_day t)

-- current + timedelta(minutes=1); `none` is the OverflowError.
unfoldable pub next_minute : DateTime → Option DateTime
next_minute t =
    if ltb t.minute 59
    then some (record t { minute = t.minute + 1 })
    else if ltb t.hour 23
    then some (record t { hour = t.hour + 1; minute = 0 })
    else after_midnight t
