-- ===== src/Http/Date/Parse.antt =====
-- What `parse_http_date` can return.
use statika.Prelude.{
  refl, true, false, none, some, [], inl, inr, ◌∷◌, ◌≡◌, arith, if◌then◌else◌, ℕ, ◌≤◌, ◌/◌, ◌*◌,
  ◌<◌, ◌+◌, ◌%◌, ◌-◌, ◌⊎◌, ltb, Option, min, ◌∙◌, Bool-cases,
}
use statika.Http.Date.Era.{
  start, month_start, month_of, month_length, year_of, year_of-start, month_of-start,
}
use statika.Http.Date.Civil.{
  IsDate, month_ℕ, year_ℕ, day_ℕ, march_year-pos, day_from_month-pos, days_from_day_of_year-pos,
  as_i32-pos, civil_from_days-pos, days_in_month-march, days_in_month-february,
}
use statika.Http.Date.{
  days_from_civil, is_leap_year, civil_from_days, days_in_month, parse_4_digits, timestamp,
  is_out_of_range, ◌>>=◌, seconds_per_day, parse_http_date, has_date_layout, parse_2_digits, slice,
  parse_month,
}
use statika.Prelude.Int.{pos, divides_ℤ, ℤ, ltb_ℤ, ◌*ℤ◌, ◌+ℤ◌, mul-pos, add-pos}
use native.Mathlib.Decide.{dec_lt}
use statika.Prelude.Bytes.{is_ascii_digit, Bytes}

month_start_bound :
    (mp k : ℕ)
    → mp ≤ 11
    → k < month_length mp
    → (month_start mp + k ≤ 364) ⊎ ((month_start mp + k ≡ 365) × (k ≡ 28) × (mp ≡ 11))
month_start_bound mp k h l = ground arith

-- A day within its year of March: only a leap year has a day 365.
year_fits :
    (my w : ℕ)
    → (w ≤ 364) ⊎ ((w ≡ 365) × (is_leap_year (pos (my + 1)) ≡ true))
    → (start (my % 400) + w < start (my % 400 + 1)) ⊎ ((my % 400 ≡ 399) × (w ≤ 365))
unfolding is_leap_year divides_ℤ
year_fits my w (inl h) = inl (omega arith)
year_fits my w (inr (h, l)) = elim (dec_lt (my % 400) 399) [
  | yes early ↦ inl (ground arith)
  | no last ↦ inr (omega arith, omega arith)
]

-- A day number from its era, the year of the era and the day of the year.
civil_from_parts :
    (d e y w : ℕ)
    → d < 2932897
    → d + 719468 ≡ e * 146097 + (start y + w)
    → start y + w < 146097
    → year_of (start y + w) ≡ y
    → civil_from_days (pos d)
      ≡ (pos (year_ℕ (y + e * 400) (month_of w)), month_ℕ (month_of w), day_ℕ w)
civil_from_parts d e y w h total fits year =
    let era_is : (d + 719468) / 146097 ≡ e = omega arith in
    let doe_is : d + 719468 - (d + 719468) / 146097 * 146097 ≡ start y + w = omega arith in
    let doy_is : start y + w - start y ≡ w = omega arith in
    rw (doe_is, era_is, year, doy_is) at (civil_from_days-pos d h)

-- The day number of a date of the year that begins in March.
abbrev day_number : ℕ → ℕ → ℕ → ℕ
day_number my mp k = my / 400 * 146097 + (start (my % 400) + (month_start mp + k)) - 719468

module _ (my mp k : ℕ) (hm : mp ≤ 11) (hk : k < 31)
    (late : 719468 ≤ my / 400 * 146097 + (start (my % 400) + (month_start mp + k))) where
  days_from_civil-march :
      days_from_civil (pos (year_ℕ my mp)) (month_ℕ mp) (k + 1) ≡ pos (day_number my mp k)
  unfolding days_from_civil
  days_from_civil-march =
      let split : my % 400 + my / 400 * 400 ≡ my = omega arith in
      let day : month_start mp + (k + 1) - 1 ≡ month_start mp + k = omega arith in
      simp
        (
          as_i32-pos (month_ℕ mp) (ground arith),
          as_i32-pos (k + 1) (omega arith),
          march_year-pos my mp hm,
          day_from_month-pos mp (k + 1) hm (omega arith),
          day,
        )
        (rw split at
          (days_from_day_of_year-pos (my / 400) (my % 400) (month_start mp + k) (omega arith) late))

  module _ (h : day_number my mp k < 2932897) (fits : k < month_length mp)
      (leap : k ≡ 28 → mp ≡ 11 → is_leap_year (pos (my + 1)) ≡ true) where
    within_year :
        (month_start mp + k ≤ 364)
        ⊎ ((month_start mp + k ≡ 365) × (is_leap_year (pos (my + 1)) ≡ true))
    within_year = elim (month_start_bound mp k hm fits) [
      | inl w ↦ inl w
      | inr (w, d, m) ↦ inr (w, leap d m)
    ]

    civil_from_days-march :
        civil_from_days (pos (day_number my mp k)) ≡ (pos (year_ℕ my mp), month_ℕ mp, k + 1)
    civil_from_days-march =
        let month = month_of-start mp k hm fits in
        let split : my % 400 + my / 400 * 400 ≡ my = omega arith in
        let day : month_start mp + k - month_start mp + 1 ≡ k + 1 = omega arith in
        let room = year_fits my (month_start mp + k) within_year in
        rw (month, split, day) at
          (civil_from_parts (day_number my mp k) (my / 400) (my % 400) (month_start mp + k) h
            (omega arith) (omega (arith, room))
            (year_of-start (my % 400) (month_start mp + k) (omega arith) room))

abbrev march_ℕ : ℕ → ℕ
march_ℕ month = if ltb month 3 then month + 9 else month - 3

abbrev before_march : ℕ → ℕ → ℕ
before_march y month = if ltb month 3 then y - 1 else y

module _ (y month day : ℕ) (hy : (1970 ≤ y) × (y ≤ 9999)) (hm : (1 ≤ month) × (month ≤ 12))
    (hd : (1 ≤ day) × (day ≤ days_in_month (pos y) month)) where
  abbrev my : ℕ
  my = before_march y month

  abbrev mp : ℕ
  mp = march_ℕ month

  mp_bound : mp ≤ 11
  mp_bound = ground arith

  month_back : month_ℕ mp ≡ month
  month_back = ground arith

  year_back : year_ℕ my mp ≡ y
  year_back = ground arith

  day_back : day - 1 + 1 ≡ day
  day_back = omega arith

  february : mp ≡ 11 → day ≤ (if is_leap_year (pos (my + 1)) then 29 else 28)
  february e =
      let two : month ≡ 2 = ground arith in
      let next : my + 1 ≡ y = ground arith in
      rw (next, ← days_in_month-february (pos y), ← two) hd.1

  day_fits : day - 1 < month_length mp
  day_fits = elim (dec_lt mp 11) [
    | yes early ↦
        let e = rw month_back at (days_in_month-march (pos y) mp early) in
        omega (arith, rw e at hd.1)
    | no late ↦ let e : mp ≡ 11 = omega (arith, mp_bound) in rw e (ground (arith, february e))
  ]

  leap_day : day - 1 ≡ 28 → mp ≡ 11 → is_leap_year (pos (my + 1)) ≡ true
  leap_day e m = ground (arith, february m)

  day_bound : day - 1 < 31
  day_bound = ground (arith, day_fits)

  after_epoch : 719468 ≤ my / 400 * 146097 + (start (my % 400) + (month_start mp + (day - 1)))
  after_epoch = ground arith

  before_10000 : day_number my mp (day - 1) < 2932897
  before_10000 = ground (arith, day_fits)

  days_from_civil-number : days_from_civil (pos y) month day ≡ pos (day_number my mp (day - 1))
  days_from_civil-number =
      rw (year_back, month_back, day_back) at
        (days_from_civil-march my mp (day - 1) mp_bound day_bound after_epoch)

  civil_from_days-number : civil_from_days (pos (day_number my mp (day - 1))) ≡ (pos y, month, day)
  civil_from_days-number =
      rw (year_back, month_back, day_back) at
        (civil_from_days-march my mp (day - 1) mp_bound day_bound after_epoch before_10000 day_fits
          leap_day)

days_from_civil-IsDate :
    {year : ℤ} {month day : ℕ}
    → IsDate year month day
    → (d : ℕ) × (days_from_civil year month day ≡ pos d)
      × (civil_from_days (pos d) ≡ (year, month, day))
      × (d < 2932897)
days_from_civil-IsDate {year} {month} {day} c =
    let hd = rw c.year_is at c.day_in in
    rw c.year_is (
      day_number (before_march c.y month) (march_ℕ month) (day - 1),
      days_from_civil-number c.y month day c.year_in c.month_in hd,
      civil_from_days-number c.y month day c.year_in c.month_in hd,
      before_10000 c.y month day c.year_in c.month_in hd,
    )

-- `civil_from_days` undoes `days_from_civil` on every date from 1970-01-01 to 9999-12-31.
pub civil_from_days-days_from_civil :
    {year : ℤ} {month day : ℕ}
    → IsDate year month day
    → civil_from_days (days_from_civil year month day) ≡ (year, month, day)
civil_from_days-days_from_civil c = let (d, e, back, _) = days_from_civil-IsDate c in rw e back

>>=-eq-some :
    {A B : Type 0} (o : Option A) (f : A → Option B) {b : B}
    → (o >>= f) ≡ some b
    → (a : A) × (o ≡ some a) × (f a ≡ some b)
>>=-eq-some none f h = cc
>>=-eq-some (some a) f h = (a, refl, h)

-- Fields that pass the checks name a date and a second of that day, or the one after its last.
record Passes (year : ℤ) (month day hour minute second : ℕ) (z : ℤ) : Type 0 where
  lower : ltb_ℤ year (pos 1970) ≡ false
  month_in : (1 ≤ month) × (month ≤ 12)
  day_in : (1 ≤ day) × (day ≤ days_in_month year month)
  time_in : (hour ≤ 23) × (minute ≤ 59)
  value :
      z
      ≡ days_from_civil year month day *ℤ pos seconds_per_day
        +ℤ pos (hour * 3600)
        +ℤ pos (minute * 60)
        +ℤ pos (min second 59)

timestamp-Passes :
    (year : ℤ) (month day hour minute second : ℕ) {z : ℤ}
    → timestamp year month day hour minute second ≡ some z
    → Passes year month day hour minute second z
unfolding timestamp is_out_of_range
timestamp-Passes year month day hour minute second h = ground arith

parse_4_digits-bound :
    (bytes : Bytes) {z : ℤ} → parse_4_digits bytes ≡ some z → (y : ℕ) × (z ≡ pos y) × (y ≤ 9999)
unfolding parse_4_digits is_ascii_digit
parse_4_digits-bound (a ∷ b ∷ c ∷ d ∷ []) h =
    ((a - 48) * 1000 + (b - 48) * 100 + (c - 48) * 10 + (d - 48), ground arith, ground arith)
parse_4_digits-bound _ h = absurd (ground arith)

abbrev IsTimestamp : ℤ → Type 0
IsTimestamp z = (n : ℕ) × (z ≡ pos n) × (n < 253402300800)

Passes-IsTimestamp :
    {year : ℤ} {month day hour minute second : ℕ} {z : ℤ} (y : ℕ)
    → Passes year month day hour minute second z
    → year ≡ pos y
    → y ≤ 9999
    → IsTimestamp z
unfolding seconds_per_day
Passes-IsTimestamp {year} {month} {day} {hour} {minute} {second} y p e hi =
    let lo : 1970 ≤ y = ground (arith, rw e at p.lower) in
    let c : IsDate year month day = record {
      y = y;
      year_is = e;
      year_in = (lo, hi);
      month_in = p.month_in;
      day_in = p.day_in;
    } in
    let (d, days, _, bound) = days_from_civil-IsDate c in
    (
      d * 86400 + hour * 3600 + minute * 60 + min second 59,
      p.value ∙ simp (days, mul-pos, add-pos),
      omega (arith, p.time_in),
    )

-- What is accepted as a date is a second from 1970 to the end of 9999.
pub parse_http_date_range :
    (bytes : Bytes) {z : ℤ}
    → parse_http_date bytes ≡ some z
    → (n : ℕ) × (z ≡ pos n) × (n < 253402300800)
unfolding parse_http_date
parse_http_date_range bytes h = elim (Bool-cases (has_date_layout bytes)) [
  | inl l ↦
      let (day, _, h₁) = >>=-eq-some (parse_2_digits (slice 5 7 bytes)) _ (rw l at h) in
      let (month, _, h₂) = >>=-eq-some (parse_month (slice 8 11 bytes)) _ h₁ in
      let (year, digits, h₃) = >>=-eq-some (parse_4_digits (slice 12 16 bytes)) _ h₂ in
      let (hour, _, h₄) = >>=-eq-some (parse_2_digits (slice 17 19 bytes)) _ h₃ in
      let (minute, _, h₅) = >>=-eq-some (parse_2_digits (slice 20 22 bytes)) _ h₄ in
      let (second, _, h₆) = >>=-eq-some (parse_2_digits (slice 23 25 bytes)) _ h₅ in
      let (y, e, hi) = parse_4_digits-bound (slice 12 16 bytes) digits in
      Passes-IsTimestamp y (timestamp-Passes year month day hour minute second h₆) e hi
  | inr l ↦ cc (rw l at h)
]
