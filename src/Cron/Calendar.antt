-- ===== src/Cron/Calendar.antt =====
-- The Gregorian calendar of Go's time package, on days counted from the 1st of March of the year 0.
-- A year begins in March here, so that the leap day is its last.
use shipwick.Base.{ℕ, ◌+◌, ◌-◌, ◌*◌, ◌/◌, ◌%◌, ltb, if◌then◌else◌}

unfoldable pub year_start : ℕ → ℕ
year_start y = 365 * y + y / 4 - y / 100 + y / 400

abbrev pub day_of_era : ℕ → ℕ
day_of_era z = z % 146097

unfoldable pub year_of : ℕ → ℕ
year_of z = let d = day_of_era z in z / 146097 * 400 + (d + d / 36524 - d / 1460 - d / 146096) / 365

unfoldable pub day_of_year : ℕ → ℕ
unfolding year_start year_of
day_of_year z = z - year_start (year_of z)

abbrev pub month_from_march : ℕ → ℕ
month_from_march doy = (5 * doy + 2) / 153

unfoldable pub day_of_month : ℕ → ℕ
unfolding day_of_year
day_of_month z = let doy = day_of_year z in doy - (153 * month_from_march doy + 2) / 5 + 1

unfoldable pub month_of : ℕ → ℕ
unfolding day_of_year
month_of z = let m = month_from_march (day_of_year z) in if ltb m 10 then m + 3 else m - 9

-- 0 is Sunday.
unfoldable pub weekday_of : ℕ → ℕ
weekday_of z = (z + 3) % 7

-- AddDate(n, 0, 0): the 29th of February becomes the 1st of March in a common year.
unfoldable pub years_later : ℕ → ℕ → ℕ
unfolding year_start year_of day_of_year
years_later n z = year_start (year_of z + n) + day_of_year z
