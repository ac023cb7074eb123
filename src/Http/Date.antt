-- ===== src/Http/Date.antt =====
-- The dates of http.rs: `http_date`, `parse_http_date` and the calendar beneath them.
-- The arithmetic on i64 and i32 is that of ℤ, without the bounds of the two types, and the casts
-- wrap.
mod Tests
pub mod Era
pub mod Civil
pub mod Format
pub mod Parse
use statika.Prelude.{
  ℕ, suc, ◌+◌, ◌-◌, ◌*◌, ◌/◌, ◌%◌, ◌^◌, min, Bool, true, false, not, ◌&&◌, ◌||◌, List, [], ◌∷◌,
  ◌++◌, Option, none, some, ◌==◌, ltb, leb, if◌then◌else◌, length, get_or, all, is_empty, take,
  drop, refl, inl, inr, ok, err, ◌>>◌, ◌≡◌, arith, zero,
}
use statika.Prelude.Int.{ℤ, pos, negsuc, pos_part, ◌+ℤ◌, ◌-ℤ◌, ◌*ℤ◌, ◌/ℤ◌, leb_ℤ, ltb_ℤ, divides_ℤ}
use statika.Prelude.Radix.{pad, to_decimal}
use statika.Prelude.Bytes.{Bytes, Text, codes, equal, is_ascii_digit}
use statika.Prelude.Utf8.{from_utf8}

-- `as u32` and `as i32`.
as_u32 : ℤ → ℕ
as_u32 (pos n) = n % 2 ^ 32
as_u32 (negsuc n) = 2 ^ 32 - 1 - n % 2 ^ 32

pub as_i32 : ℤ → ℤ
unfolding as_u32
as_i32 z = let u = as_u32 z in if ltb u (2 ^ 31) then pos u else negsuc (2 ^ 32 - 1 - u)

seconds_per_day : ℕ
seconds_per_day = 86400

-- `civil_from_days`, in its steps: the era, the year of the era, the day of the year.
era_of : ℤ → ℤ
era_of days = (if leb_ℤ (pos 0) days then days else days -ℤ pos 146096) /ℤ 146097

year_of_era : ℤ → ℤ
year_of_era doe = (doe -ℤ doe /ℤ 1460 +ℤ doe /ℤ 36524 -ℤ doe /ℤ 146096) /ℤ 365

day_of_year : ℤ → ℤ → ℤ
day_of_year doe yoe = doe -ℤ (pos 365 *ℤ yoe +ℤ yoe /ℤ 4 -ℤ yoe /ℤ 100)

-- From months counted from March to months and years of January, and back.
civil_month : ℤ → ℤ
civil_month mp = mp +ℤ (if ltb_ℤ mp (pos 10) then pos 3 else negsuc 8)

civil_year : ℤ → ℤ → ℤ
civil_year year month = year +ℤ (if leb_ℤ month (pos 2) then pos 1 else pos 0)

march_month : ℤ → ℤ
march_month month = month +ℤ (if ltb_ℤ (pos 2) month then negsuc 2 else pos 9)

pub march_year : ℤ → ℕ → ℤ
march_year year month = year -ℤ (if leb month 2 then pos 1 else pos 0)

-- The last five lines, from the year of March, and the day of that year.
civil_from_day_of_year : ℤ → ℤ → ℤ × ℕ × ℕ
unfolding civil_month civil_year as_i32 as_u32
civil_from_day_of_year year doy =
    let mp = (pos 5 *ℤ doy +ℤ pos 2) /ℤ 153 in
    let day = doy -ℤ (pos 153 *ℤ mp +ℤ pos 2) /ℤ 5 +ℤ pos 1 in
    let month = civil_month mp in (as_i32 (civil_year year month), as_u32 month, as_u32 day)

pub civil_from_days : ℤ → ℤ × ℕ × ℕ
civil_from_days days =
    let shifted = days +ℤ pos 719468 in
    let era = era_of shifted in
    let doe = shifted -ℤ era *ℤ pos 146097 in
    let yoe = year_of_era doe in
    civil_from_day_of_year (yoe +ℤ era *ℤ pos 400) (day_of_year doe yoe)

-- `days_from_civil`, in its steps: the day of the year of March, and the sum.
era_of_year : ℤ → ℤ
era_of_year year = (if leb_ℤ (pos 0) year then year else year -ℤ pos 399) /ℤ 400

pub day_from_month : ℤ → ℤ → ℤ
unfolding march_month
day_from_month month day = (pos 153 *ℤ march_month month +ℤ pos 2) /ℤ 5 +ℤ day -ℤ pos 1

pub days_from_day_of_year : ℤ → ℤ → ℤ
unfolding era_of_year
days_from_day_of_year year doy =
    let era = era_of_year year in
    let yoe = year -ℤ era *ℤ pos 400 in
    let doe = yoe *ℤ pos 365 +ℤ yoe /ℤ 4 -ℤ yoe /ℤ 100 +ℤ doy in
    era *ℤ pos 146097 +ℤ doe -ℤ pos 719468

pub days_from_civil : ℤ → ℕ → ℕ → ℤ
days_from_civil year month day =
    days_from_day_of_year (march_year year month)
      (day_from_month (as_i32 (pos month)) (as_i32 (pos day)))

infixl 5 ◌>>=◌
abbrev ◌>>=◌ : {A B : Type 0} → Option A → (A → Option B) → Option B
none >>= f = none
some a >>= f = f a

abbrev pub weekdays : List Text
weekdays =
    codes "Sun"
    ∷ codes "Mon"
    ∷ codes "Tue"
    ∷ codes "Wed"
    ∷ codes "Thu"
    ∷ codes "Fri"
    ∷ codes "Sat"
    ∷ []

abbrev pub months : List Text
months =
    codes "Jan"
    ∷ codes "Feb"
    ∷ codes "Mar"
    ∷ codes "Apr"
    ∷ codes "May"
    ∷ codes "Jun"
    ∷ codes "Jul"
    ∷ codes "Aug"
    ∷ codes "Sep"
    ∷ codes "Oct"
    ∷ codes "Nov"
    ∷ codes "Dec"
    ∷ []

-- `{:04}` of a signed year: the sign counts as one of the four places.
abbrev pub pad_year : ℤ → Text
pad_year (pos n) = pad 4 (to_decimal n)
pad_year (negsuc n) = b'-' ∷ pad 3 (to_decimal (suc n))

-- The `format!` of `http_date`, from its arguments.
unfoldable pub date_line : Text → ℕ → Text → ℤ → ℕ → ℕ → ℕ → Text
unfolding pad to_decimal
date_line weekday day month year hour minute second =
    weekday
    ++ codes ", "
    ++ pad 2 (to_decimal day)
    ++ codes " "
    ++ month
    ++ codes " "
    ++ pad_year year
    ++ codes " "
    ++ pad 2 (to_decimal hour)
    ++ codes ":"
    ++ pad 2 (to_decimal minute)
    ++ codes ":"
    ++ pad 2 (to_decimal second)
    ++ codes " GMT"

-- The indices into the two tables: the weekday's is below 7, and `month` is from 1 to 12.
unfoldable pub date_text : ℕ → ℕ → ℤ × ℕ × ℕ → Text
date_text days second_of_day (year, month, day) =
    date_line (get_or weekdays ((days + 4) % 7) []) day (get_or months (month - 1) []) year
      (second_of_day / 3600) (second_of_day % 3600 / 60) (second_of_day % 60)

-- `unix_seconds.max(0)` is the number `pos_part unix_seconds`.
unfoldable pub http_date : ℤ → Text
unfolding date_text date_line civil_from_days seconds_per_day era_of year_of_era day_of_year
    civil_from_day_of_year
http_date unix_seconds =
    let seconds = pos_part unix_seconds in
    let days = seconds / seconds_per_day in
    date_text days (seconds % seconds_per_day) (civil_from_days (pos days))

pub is_leap_year : ℤ → Bool
unfolding divides_ℤ
is_leap_year year = (divides_ℤ 4 year && not (divides_ℤ 100 year)) || divides_ℤ 400 year

unfoldable pub days_in_month : ℤ → ℕ → ℕ
unfolding is_leap_year
days_in_month year month =
    if month == 1
      || month == 3
      || month == 5
      || month == 7
      || month == 8
      || month == 10
      || month == 12
    then 31
    else if month == 4 || month == 6 || month == 9 || month == 11
    then 30
    else if month == 2
    then (if is_leap_year year then 29 else 28)
    else 0

parse_2_digits : Bytes → Option ℕ
unfolding is_ascii_digit
parse_2_digits bytes =
    if not (length bytes == 2) || not (all is_ascii_digit bytes)
    then none
    else some ((get_or bytes 0 0 - b'0') * 10 + (get_or bytes 1 0 - b'0'))

parse_4_digits : Bytes → Option ℤ
unfolding is_ascii_digit
parse_4_digits bytes =
    if not (length bytes == 4) || not (all is_ascii_digit bytes)
    then none
    else some (
        pos (
          (get_or bytes 0 0 - b'0') * 1000
          + (get_or bytes 1 0 - b'0') * 100
          + (get_or bytes 2 0 - b'0') * 10
          + (get_or bytes 3 0 - b'0')))

-- The place of a name among those that are left, counted from `i`.
find_month : ℕ → List Text → Bytes → Option ℕ
unfolding equal
find_month i [] bytes = none
find_month i (name ∷ names) bytes =
    let later = find_month (i + 1) names bytes in if equal bytes name then some i else later

parse_month : Bytes → Option ℕ
unfolding find_month
parse_month = find_month 1 months

abbrev slice : ℕ → ℕ → Bytes → Bytes
slice from to bytes = take (to - from) (drop from bytes)

has_date_layout : Bytes → Bool
unfolding equal
has_date_layout bytes =
    length bytes == 29
    && get_or bytes 3 0 == b','
    && get_or bytes 4 0 == b' '
    && get_or bytes 7 0 == b' '
    && get_or bytes 11 0 == b' '
    && get_or bytes 16 0 == b' '
    && get_or bytes 19 0 == b':'
    && get_or bytes 22 0 == b':'
    && get_or bytes 25 0 == b' '
    && equal (slice 26 29 bytes) (codes "GMT")

-- The checks on the fields, and the sum at the end.
is_out_of_range : ℤ → ℕ → ℕ → ℕ → ℕ → ℕ → Bool
is_out_of_range year month day hour minute second =
    ltb_ℤ year (pos 1970)
    || month == 0
    || ltb 12 month
    || day == 0
    || ltb (days_in_month year month) day
    || ltb 23 hour
    || ltb 59 minute
    || ltb 60 second

timestamp : ℤ → ℕ → ℕ → ℕ → ℕ → ℕ → Option ℤ
timestamp year month day hour minute second =
    if is_out_of_range year month day hour minute second
    then none
    else some (
        days_from_civil year month day *ℤ pos seconds_per_day
        +ℤ pos (hour * 3600)
        +ℤ pos (minute * 60)
        +ℤ pos (min second 59))

-- On `value.as_bytes()`.
unfoldable pub parse_http_date : Bytes → Option ℤ
unfolding parse_2_digits parse_4_digits parse_month has_date_layout timestamp is_out_of_range
    days_in_month days_from_civil seconds_per_day march_year day_from_month days_from_day_of_year
    as_i32
parse_http_date bytes = if not (has_date_layout bytes) then none else do
  day ← parse_2_digits (slice 5 7 bytes)
  month ← parse_month (slice 8 11 bytes)
  year ← parse_4_digits (slice 12 16 bytes)
  hour ← parse_2_digits (slice 17 19 bytes)
  minute ← parse_2_digits (slice 20 22 bytes)
  second ← parse_2_digits (slice 23 25 bytes)
  timestamp year month day hour minute second

unfoldable pub parse_http_date_bytes : Bytes → Option ℤ
unfolding from_utf8 parse_http_date
parse_http_date_bytes value = do _ ← from_utf8 value; parse_http_date value
