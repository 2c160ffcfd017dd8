-- ===== src/Examples/Schedules.antt =====
-- Schedules, and operations on an application.
use shipwick.Base.{
  ℕ, ◌+◌, ◌*◌, ◌≡◌, refl, true, false, some, ◌/◌, ◌%◌, [], ◌∷◌, find_row, update_rows,
}
use shipwick.Cron.{Schedule, matches_day, matches, advance, search, next}
use shipwick.Cron.Calendar.{
  year_start, year_of, day_of_year, day_of_month, month_of, weekday_of, years_later,
}
use shipwick.Cron.Search.{IsFirst, next-IsFirst}
use shipwick.Locks.{try_lock, release}
use shipwick.Locks.Exclusion.{
  World, Reach, IsExclusive, begins, releases, start, next as then, Reach-IsExclusive,
}

-- The 1st of March 2026, a Sunday.
abbrev day : ℕ
day = 739_981

day_in_month : day_of_month day ≡ 1
unfolding day_of_month day_of_year year_start year_of
day_in_month = refl

month_in_year : month_of day ≡ 3
unfolding month_of day_of_year year_start year_of
month_in_year = refl

day_in_week : weekday_of day ≡ 0
unfolding weekday_of
day_in_week = refl

-- 0 9 * * mon-fri
abbrev office : Schedule
office = record {
  minutes = 1;
  hours = 512;
  days = 4_294_967_294;
  months = 8190;
  weekdays = 62;
  any_day = true;
  any_weekday = false;
}

-- Sunday at noon; the office opens on Monday at nine.
abbrev noon : ℕ
noon = day * 86400 + 12 * 3600

opens : next office noon ≡ some ((day + 1) * 1440 + 9 * 60)
unfolding next search matches advance matches_day day_of_month month_of weekday_of day_of_year
    year_start year_of years_later
opens = refl

next-IsFirst_example :
    IsFirst office
      (noon / 60 + 1)
      (years_later 8 ((noon / 60 + 1) / 1440) * 1440 + (noon / 60 + 1) % 1440)
      (next office noon)
next-IsFirst_example = next-IsFirst office noon

-- One operation takes application 7 and releases it, and another takes it.
abbrev handed_over : World
handed_over = record {
  engine = record {
    closed = false;
    locks = record { app = 7; by_supervisor = true } ∷ [];
    ops = 2;
  };
  running = record { app = 7; holding = true } ∷ record { app = 7; holding = false } ∷ [];
}

Reach-handed_over : Reach handed_over
unfolding try_lock release find_row update_rows
Reach-handed_over =
    then (then (then start (begins 7 false _ refl)) (releases 7 refl)) (begins 7 true _ refl)

Reach-IsExclusive_example : IsExclusive handed_over
Reach-IsExclusive_example = Reach-IsExclusive Reach-handed_over
