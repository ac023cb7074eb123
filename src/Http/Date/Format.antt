-- ===== src/Http/Date/Format.antt =====
-- The printed form of a date, against `parse_http_date`.
use statika.Http.Date.{
  weekdays, months, date_text, http_date, parse_2_digits, parse_4_digits, parse_month,
  has_date_layout, timestamp, parse_http_date, civil_from_days, days_in_month, seconds_per_day,
  date_line, is_out_of_range,
}
use statika.Http.Date.Civil.{
  IsDate, IsCivil, days_from, civil_from_days-IsCivil, days_from_civil-civil_from_days,
}
use statika.Prelude.Check.{holds_below, holds_below_lem}
use statika.Prelude.Radix.{pad-two, pad-four}
use statika.Prelude.Bytes.{Bytes, equal, Text}
use statika.Prelude.{
  ℕ, Option, length, ◌≡◌, Bool, ◌<◌, get_or, ◌∷◌, true, some, ◌/◌, false, [], ◌+◌, ==_iff, arith,
  ◌==◌, &&_true, ◌&&◌, ◌%◌, refl, none, ◌≤◌, ◌-◌, subst, ◌∙◌, ap, ◌*◌, sym, min,
}
use statika.Prelude.Int.{pos, ℤ, mul-pos, add-pos}

parse_2_digits-pad :
    (n : ℕ) → n < 100 → parse_2_digits ((n / 10 + 48) ∷ (n % 10 + 48) ∷ []) ≡ some n
unfolding parse_2_digits
parse_2_digits-pad n h = ground arith

parse_4_digits-pad :
    (n : ℕ)
    → n < 10000
    → parse_4_digits
        ((n / 1000 + 48) ∷ (n / 100 % 10 + 48) ∷ (n / 10 % 10 + 48) ∷ (n % 10 + 48) ∷ [])
      ≡ some (pos n)
unfolding parse_4_digits
parse_4_digits-pad n h = ground arith

-- A text of three characters.
three : (t : Bytes) → length t ≡ 3 → t ≡ get_or t 0 0 ∷ get_or t 1 0 ∷ get_or t 2 0 ∷ []
three [] h = absurd (omega arith)
three (a ∷ []) h = absurd (omega arith)
three (a ∷ b ∷ []) h = absurd (omega arith)
three (a ∷ b ∷ c ∷ []) h = refl
three (a ∷ b ∷ c ∷ d ∷ t) h = absurd (omega arith)

weekday_table : holds_below 7 (λ i. length (get_or weekdays i []) == 3) ≡ true
unfolding holds_below
weekday_table = refl

abbrev names_month : Option ℕ → ℕ → Bool
names_month none i = false
names_month (some m) i = m == i + 1

month_table :
    holds_below 12
      (λ i. length (get_or months i []) == 3 && names_month (parse_month (get_or months i [])) i)
    ≡ true
unfolding holds_below parse_month
month_table = refl

weekday_length : (i : ℕ) → i < 7 → length (get_or weekdays i []) ≡ 3
weekday_length i h = (==_iff _ 3).0 (holds_below_lem 7 _ i weekday_table h)

names_month-eq : (o : Option ℕ) (i : ℕ) → names_month o i ≡ true → o ≡ some (i + 1)
names_month-eq none i h = cc
names_month-eq (some m) i h = ground arith

month_entry :
    (i : ℕ)
    → i < 12
    → (length (get_or months i []) ≡ 3) × (parse_month (get_or months i []) ≡ some (i + 1))
month_entry i h =
    let (l, n) = &&_true _ _ (holds_below_lem 12 _ i month_table h) in
    ((==_iff _ 3).0 l, names_month-eq _ i n)

-- A text of the fixed layout, from its fields.
abbrev layout : (weekday month : Bytes) → (day year hour minute second : ℕ) → Bytes
layout w m day year hour minute second =
    get_or w 0 0
    ∷ get_or w 1 0
    ∷ get_or w 2 0
    ∷ b','
    ∷ b' '
    ∷ (day / 10 + 48)
    ∷ (day % 10 + 48)
    ∷ b' '
    ∷ get_or m 0 0
    ∷ get_or m 1 0
    ∷ get_or m 2 0
    ∷ b' '
    ∷ (year / 1000 + 48)
    ∷ (year / 100 % 10 + 48)
    ∷ (year / 10 % 10 + 48)
    ∷ (year % 10 + 48)
    ∷ b' '
    ∷ (hour / 10 + 48)
    ∷ (hour % 10 + 48)
    ∷ b':'
    ∷ (minute / 10 + 48)
    ∷ (minute % 10 + 48)
    ∷ b':'
    ∷ (second / 10 + 48)
    ∷ (second % 10 + 48)
    ∷ b' '
    ∷ b'G'
    ∷ b'M'
    ∷ b'T'
    ∷ []

-- The fields of a moment of a day.
record IsMoment (day year hour minute second : ℕ) : Type 0 where
  day_is : day < 100
  year_is : year < 10000
  hour_is : hour < 24
  minute_is : minute < 60
  second_is : second < 60

parse-layout :
    (w m : Bytes) (day year hour minute second : ℕ) {month : ℕ}
    → IsMoment day year hour minute second
    → length m ≡ 3
    → parse_month m ≡ some month
    → parse_http_date (layout w m day year hour minute second)
      ≡ timestamp (pos year) month day hour minute second
unfolding parse_http_date has_date_layout equal
parse-layout w m day year hour minute second v l e = simp (
  parse_2_digits-pad day v.day_is,
  rw (three m l) at e,
  parse_4_digits-pad year v.year_is,
  parse_2_digits-pad hour (omega (arith, v.hour_is)),
  parse_2_digits-pad minute (omega (arith, v.minute_is)),
  parse_2_digits-pad second (omega (arith, v.second_is)),
)

module _ {day year hour minute second : ℕ} (v : IsMoment day year hour minute second) where
  date_line-three :
      (a b c d e f : ℕ)
      → date_line (a ∷ b ∷ c ∷ []) day (d ∷ e ∷ f ∷ []) (pos year) hour minute second
        ≡ layout (a ∷ b ∷ c ∷ []) (d ∷ e ∷ f ∷ []) day year hour minute second
  unfolding date_line
  date_line-three a b c d e f = simp (
    pad-two day v.day_is,
    pad-four year v.year_is,
    pad-two hour (omega (arith, v.hour_is)),
    pad-two minute (omega (arith, v.minute_is)),
    pad-two second (omega (arith, v.second_is)),
  )

  date_line-layout :
      (w m : Text)
      → length w ≡ 3
      → length m ≡ 3
      → date_line w day m (pos year) hour minute second ≡ layout w m day year hour minute second
  date_line-layout w m hw hm =
      subst
        (λ x.
          date_line x day m (pos year) hour minute second ≡ layout x m day year hour minute second)
        (sym (three w hw))
        (subst
          (λ y.
            date_line (get_or w 0 0 ∷ get_or w 1 0 ∷ get_or w 2 0 ∷ []) day y (pos year) hour minute
              second
            ≡ layout w y day year hour minute second)
          (sym (three m hm)) (date_line-three _ _ _ _ _ _))

  parse-date_line :
      (w m : Text) {month : ℕ}
      → length w ≡ 3
      → length m ≡ 3
      → parse_month m ≡ some month
      → parse_http_date (date_line w day m (pos year) hour minute second)
        ≡ timestamp (pos year) month day hour minute second
  parse-date_line w m hw hm e =
      ap parse_http_date (date_line-layout w m hw hm)
      ∙ parse-layout w m day year hour minute second v hm e

abbrev moment_of : ℤ × ℕ × ℕ → ℕ → Option ℤ
moment_of (year, month, day) s = timestamp year month day (s / 3600) (s % 3600 / 60) (s % 60)

days_in_month_bound : (z : ℤ) (month : ℕ) → days_in_month z month ≤ 31
unfolding days_in_month
days_in_month_bound z month = ground arith

parse-date_text :
    (days s : ℕ) (c : ℤ × ℕ × ℕ)
    → s < 86400
    → IsCivil c
    → parse_http_date (date_text days s c) ≡ moment_of c s
unfolding date_text
parse-date_text days s (year, month, day) hs c =
    let v : IsMoment day c.y (s / 3600) (s % 3600 / 60) (s % 60) =
      omega (arith, c.year_in, c.day_in, days_in_month_bound year month) in
    let m = month_entry (month - 1) (omega (arith, c.month_in)) in
    let e : month - 1 + 1 ≡ month = omega (arith, c.month_in) in
    rw c.year_is (
      parse-date_line v (get_or weekdays ((days + 4) % 7) []) (get_or months (month - 1) [])
        (weekday_length ((days + 4) % 7) (omega arith)) m.0 (m.1 ∙ ap some e))

in_range :
    {year : ℤ} {month day : ℕ} (s : ℕ)
    → s < 86400
    → IsDate year month day
    → is_out_of_range year month day (s / 3600) (s % 3600 / 60) (s % 60) ≡ false
unfolding is_out_of_range
in_range s hs c = ground (arith, c.year_is, c.year_in, c.month_in, c.day_in)

moment_of-IsCivil :
    (d s : ℕ) (c : ℤ × ℕ × ℕ)
    → s < 86400
    → IsCivil c
    → days_from c ≡ pos d
    → moment_of c s ≡ some (pos (d * 86400 + s))
unfolding timestamp seconds_per_day
moment_of-IsCivil d s (year, month, day) hs c e =
    let t : d * 86400 + s / 3600 * 3600 + s % 3600 / 60 * 60 + min (s % 60) 59 ≡ d * 86400 + s =
      omega arith in
    simp (in_range s hs c, e, mul-pos, add-pos, t)

http_date-text :
    (s : ℕ)
    → http_date (pos s) ≡ date_text (s / 86400) (s % 86400) (civil_from_days (pos (s / 86400)))
unfolding http_date seconds_per_day
http_date-text s = refl

-- A date that the server prints is read back as the same second, from 1970 to the end of 9999.
pub parse_http_date-http_date :
    (s : ℕ) → s < 253402300800 → parse_http_date (http_date (pos s)) ≡ some (pos s)
parse_http_date-http_date s h =
    let d : s / 86400 < 2932897 = omega arith in
    let r : s % 86400 < 86400 = omega arith in
    let c = civil_from_days (pos (s / 86400)) in
    let v = civil_from_days-IsCivil (s / 86400) d in
    let e : s / 86400 * 86400 + s % 86400 ≡ s = omega arith in
    ap parse_http_date (http_date-text s)
    ∙ parse-date_text (s / 86400) (s % 86400) c r v
    ∙ moment_of-IsCivil (s / 86400) (s % 86400) c r v
        (days_from_civil-civil_from_days (s / 86400) d)
    ∙ ap (λ n. some (pos n)) e
