-- ===== src/Cron.antt =====
-- When a schedule fires: pkg/cron/cron.go. A field's values are the bits of a number, as in the
-- source. A time is a number of seconds, and a minute a number of minutes, since the 1st of March of
-- the year 0, in UTC; the calendar is that of Go's time package. Expressions are not read here.
pub mod Calendar
pub mod Search
use shipwick.Base.{
  ℕ, zero, suc, ◌+◌, ◌-◌, ◌*◌, ◌/◌, ◌%◌, ◌^◌, Bool, true, false, not, ◌&&◌, ◌||◌, Option, none,
  some, ltb, ◌==◌, if◌then◌else◌,
}
use shipwick.Cron.Calendar.{month_of, day_of_month, weekday_of, years_later}

pub record Schedule : Type 0 where
  pub minutes : ℕ
  pub hours : ℕ
  pub days : ℕ
  pub months : ℕ
  pub weekdays : ℕ
  pub any_day : Bool
  pub any_weekday : Bool

abbrev pub has : ℕ → ℕ → Bool
has s n = (s / 2 ^ n) % 2 == 1

unfoldable pub matches_day : Schedule → ℕ → Bool
unfolding month_of day_of_month weekday_of
matches_day s z =
    let day = has s.days (day_of_month z) in
    let weekday = has s.weekdays (weekday_of z) in
    has s.months (month_of z)
    && (if s.any_day && s.any_weekday
        then true
        else if s.any_day
        then weekday
        else if s.any_weekday
        then day
        else day || weekday)

unfoldable pub matches : Schedule → ℕ → Bool
unfolding matches_day
matches s t = has s.minutes (t % 60) && has s.hours (t / 60 % 24) && matches_day s (t / 1440)

-- The next minute to look at, when the schedule does not fire at `t`.
unfoldable pub advance : Schedule → ℕ → ℕ
unfolding matches_day
advance s t =
    if not (matches_day s (t / 1440))
    then (t / 1440 + 1) * 1440
    else if not (has s.hours (t / 60 % 24))
    then (t / 60 + 1) * 60
    else t + 1

-- The loop of `next`; each turn goes at least a minute on.
unfoldable pub search : ℕ → Schedule → ℕ → ℕ → Option ℕ
unfolding matches advance
search zero s t limit = none
search (suc fuel) s t limit =
    let rest = search fuel s (advance s t) limit in
    if not (ltb t limit) then none else if matches s t then some t else rest

unfoldable pub next : Schedule → ℕ → Option ℕ
unfolding search years_later
next s after =
    let t = after / 60 + 1 in
    let limit = years_later 8 (t / 1440) * 1440 + t % 1440 in search (limit - t) s t limit
