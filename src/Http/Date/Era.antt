-- ===== src/Http/Date/Era.antt =====
-- Years and days within an era of 400 years, over ℕ. Years of an era begin on the first of March,
-- and `mp` counts the months from there.
use statika.Prelude.{
  ℕ, ◌+◌, ◌-◌, ◌*◌, ◌/◌, ◌%◌, ◌≤◌, ◌<◌, ◌≡◌, ◌⊎◌, arith, if◌then◌else◌, ◌==◌, ◌||◌,
}

-- Days before a year of the era.
abbrev pub start : ℕ → ℕ
start y = 365 * y + y / 4 - y / 100

-- The year of the era that a day of the era falls in.
abbrev pub year_of : ℕ → ℕ
year_of doe = (doe - doe / 1460 + doe / 36524 - doe / 146096) / 365

-- Days before a month, and the month that a day of the year falls in.
abbrev pub month_start : ℕ → ℕ
month_start mp = (153 * mp + 2) / 5

abbrev pub month_of : ℕ → ℕ
month_of doy = (5 * doy + 2) / 153

pub year_of_bound : (doe : ℕ) → doe < 146097 → year_of doe < 400
year_of_bound doe h = omega arith

pub start-year_of : (doe : ℕ) → doe < 146097 → start (year_of doe) ≤ doe
start-year_of doe h = omega arith

pub doy_bound : (doe : ℕ) → doe < 146097 → doe - start (year_of doe) ≤ 365
doy_bound doe h = omega arith

-- Only the year before a leap day has a day 365.
pub leap_doy :
    (doe y : ℕ)
    → doe < 146097
    → y ≡ year_of doe
    → doe - start y ≡ 365
    → ((y + 1) % 4 ≡ 0) × ((y + 1) % 100 ≡ 0 → y ≡ 399)
leap_doy doe y h e d = (omega arith, λ c. omega arith)

pub month_of_bound : (doy : ℕ) → doy ≤ 365 → month_of doy ≤ 11
month_of_bound doy h = omega arith

pub month_start-month_of : (doy : ℕ) → doy ≤ 365 → month_start (month_of doy) ≤ doy
month_start-month_of doy h = omega arith

-- Days of the month that `mp` counts, but for the leap day.
abbrev pub month_length : ℕ → ℕ
month_length mp =
    if mp == 1 || mp == 3 || mp == 6 || mp == 8 then 30 else if mp == 11 then 29 else 31

pub day_of_month_bound :
    (doy : ℕ) → doy ≤ 365 → doy - month_start (month_of doy) + 1 ≤ month_length (month_of doy)
day_of_month_bound doy h = ground arith

-- Back from a year and a day of it, and from a month and a day of it.
pub year_of-start :
    (yoe doy : ℕ)
    → yoe < 400
    → start yoe + doy < start (yoe + 1) ⊎ ((yoe ≡ 399) × (doy ≤ 365))
    → year_of (start yoe + doy) ≡ yoe
year_of-start yoe doy h l = omega arith

pub month_of-start : (mp k : ℕ) → mp ≤ 11 → k < month_length mp → month_of (month_start mp + k) ≡ mp
month_of-start mp k h l = ground arith
