-- ===== src/Http/Date/Tests.antt =====
-- Dates.
use statika.Prelude.{refl, some, ◌≡◌, arith, ℕ, ◌<◌}
use statika.Prelude.Bytes.{codes}
use statika.Prelude.Int.{pos, ◌+ℤ◌, ◌-ℤ◌, ◌*ℤ◌, ◌/ℤ◌}
use statika.Http.Date.{http_date, parse_http_date, civil_from_days, days_in_month}
use statika.Http.Date.Civil.{IsDate, days_from, days_from_civil-civil_from_days}
use statika.Http.Date.Format.{parse_http_date-http_date}
use statika.Http.Date.Parse.{parse_http_date_range}

printed : http_date (pos 784111777) ≡ codes "Sun, 06 Nov 1994 08:49:37 GMT"
unfolding http_date ◌+ℤ◌ ◌-ℤ◌ ◌*ℤ◌ ◌/ℤ◌
printed = refl

leap_day_read : parse_http_date (codes "Thu, 29 Feb 2024 00:00:00 GMT") ≡ some (pos 1709164800)
unfolding parse_http_date ◌+ℤ◌ ◌-ℤ◌ ◌*ℤ◌ ◌/ℤ◌
leap_day_read = refl

parse_http_date-http_date_example :
    parse_http_date (http_date (pos 784111777)) ≡ some (pos 784111777)
parse_http_date-http_date_example = parse_http_date-http_date 784111777 (omega arith)

days_from_civil-civil_from_days_example : days_from (civil_from_days (pos 19782)) ≡ pos 19782
days_from_civil-civil_from_days_example = days_from_civil-civil_from_days 19782 (omega arith)

leap_day : IsDate (pos 2024) 2 29
unfolding days_in_month
leap_day = record {
  y = 2024;
  year_is = refl;
  year_in = (omega arith, omega arith);
  month_in = (omega arith, omega arith);
  day_in = (omega arith, omega arith);
}

parse_http_date_range_example : (n : ℕ) × (pos 1709164800 ≡ pos n) × (n < 253402300800)
parse_http_date_range_example =
    parse_http_date_range (codes "Thu, 29 Feb 2024 00:00:00 GMT") leap_day_read
