-- ===== src/Http/Date/Civil.antt =====
-- `civil_from_days` and `days_from_civil` over ℕ.
use statika.Prelude.{
  ℕ, ◌+◌, ◌-◌, ◌*◌, ◌/◌, ◌^◌, ◌≤◌, ◌<◌, ◌≡◌, refl, ap, ◌∙◌, arith, ltb, ◌==◌, if◌then◌else◌, true,
  ==_iff,
}
use statika.Prelude.Int.{ℤ, pos, ◌+ℤ◌, ◌-ℤ◌, add-pos, sub-pos, mul-pos, div-pos, divides_ℤ}
use statika.Http.Date.Era.{
  start, year_of, month_start, month_of, year_of_bound, start-year_of, doy_bound, leap_doy,
  month_of_bound, month_start-month_of, month_length, day_of_month_bound,
}
use statika.Http.Date.{
  as_u32, as_i32, era_of, year_of_era, day_of_year, civil_from_day_of_year, civil_from_days,
  days_from_civil, days_in_month, march_month, march_year, civil_month, day_from_month,
  days_from_day_of_year, civil_year, era_of_year, is_leap_year,
}
use native.Mathlib.Decide.{dec_lt}
use statika.Prelude.Check.{holds_below, holds_below_lem}

era_of-pos : (n : ℕ) → era_of (pos n) ≡ pos (n / 146097)
unfolding era_of
era_of-pos n = ground (arith, div-pos n 146097)

year_of_era-pos : (doe : ℕ) → doe < 146097 → year_of_era (pos doe) ≡ pos (year_of doe)
unfolding year_of_era
year_of_era-pos doe h = simp (
  div-pos,
  add-pos,
  sub-pos doe (doe / 1460) (omega arith),
  sub-pos (doe - doe / 1460 + doe / 36524) (doe / 146096) (omega arith),
)

day_of_year-pos :
    (doe yoe : ℕ)
    → yoe < 400
    → start yoe ≤ doe
    → day_of_year (pos doe) (pos yoe) ≡ pos (doe - start yoe)
unfolding day_of_year
day_of_year-pos doe yoe h s = simp (
  div-pos,
  mul-pos,
  add-pos,
  sub-pos (365 * yoe + yoe / 4) (yoe / 100) (omega arith),
  sub-pos doe (start yoe) s,
)

as_u32-pos : (n : ℕ) → n < 2 ^ 32 → as_u32 (pos n) ≡ n
unfolding as_u32
as_u32-pos n h = omega arith

pub as_i32-pos : (n : ℕ) → n < 2 ^ 31 → as_i32 (pos n) ≡ pos n
unfolding as_i32
as_i32-pos n h = ground arith

-- The month and the year of January, in numbers.
abbrev pub month_ℕ : ℕ → ℕ
month_ℕ mp = if ltb mp 10 then mp + 3 else mp - 9

abbrev pub year_ℕ : ℕ → ℕ → ℕ
year_ℕ year mp = if ltb mp 10 then year else year + 1

civil_month-pos : (mp : ℕ) → civil_month (pos mp) ≡ pos (month_ℕ mp)
unfolding civil_month ◌+ℤ◌
civil_month-pos mp = ground arith

civil_year-pos :
    (year mp : ℕ) → mp ≤ 11 → civil_year (pos year) (pos (month_ℕ mp)) ≡ pos (year_ℕ year mp)
unfolding civil_year ◌+ℤ◌
civil_year-pos year mp h = ground arith

march_month-pos : (mp : ℕ) → mp ≤ 11 → march_month (pos (month_ℕ mp)) ≡ pos mp
unfolding march_month ◌+ℤ◌
march_month-pos mp h = ground arith

pub march_year-pos :
    (year mp : ℕ) → mp ≤ 11 → march_year (pos (year_ℕ year mp)) (month_ℕ mp) ≡ pos year
unfolding march_year ◌-ℤ◌
march_year-pos year mp h = ground arith

abbrev pub day_ℕ : ℕ → ℕ
day_ℕ doy = doy - month_start (month_of doy) + 1

civil_from_day_of_year-pos :
    (year doy : ℕ)
    → year < 1000000
    → doy ≤ 365
    → civil_from_day_of_year (pos year) (pos doy)
      ≡ (pos (year_ℕ year (month_of doy)), month_ℕ (month_of doy), day_ℕ doy)
unfolding civil_from_day_of_year
civil_from_day_of_year-pos year doy hy hd =
    let m = month_of_bound doy hd in
    simp (
      mul-pos,
      add-pos,
      div-pos,
      sub-pos doy (month_start (month_of doy)) (month_start-month_of doy hd),
      civil_month-pos,
      civil_year-pos year (month_of doy) m,
      as_u32-pos (month_ℕ (month_of doy)) (ground arith),
      as_u32-pos (day_ℕ doy) (omega arith),
      as_i32-pos (year_ℕ year (month_of doy)) (ground arith),
    )

pub day_from_month-pos :
    (mp day : ℕ)
    → mp ≤ 11
    → 1 ≤ day
    → day_from_month (pos (month_ℕ mp)) (pos day) ≡ pos (month_start mp + day - 1)
unfolding day_from_month
day_from_month-pos mp day h d = simp (
  march_month-pos mp h,
  mul-pos,
  add-pos,
  div-pos,
  sub-pos (month_start mp + day) 1 (omega arith),
)

era_of_year-div : (year : ℕ) → era_of_year (pos year) ≡ pos (year / 400)
unfolding era_of_year
era_of_year-div year = ground (arith, div-pos year 400)

era_of_year-pos : (yoe era : ℕ) → yoe < 400 → era_of_year (pos (yoe + era * 400)) ≡ pos era
era_of_year-pos yoe era h =
    let e : (yoe + era * 400) / 400 ≡ era = omega arith in
    era_of_year-div (yoe + era * 400) ∙ ap pos e

pub days_from_day_of_year-pos :
    (era yoe doy : ℕ)
    → yoe < 400
    → 719468 ≤ era * 146097 + (start yoe + doy)
    → days_from_day_of_year (pos (yoe + era * 400)) (pos doy)
      ≡ pos (era * 146097 + (start yoe + doy) - 719468)
unfolding days_from_day_of_year
days_from_day_of_year-pos era yoe doy h l =
    let year : yoe + era * 400 - era * 400 ≡ yoe = omega arith in
    simp
      (
        era_of_year-pos yoe era h,
        mul-pos,
        add-pos,
        div-pos,
        sub-pos (yoe + era * 400) (era * 400) (omega arith),
        year,
        sub-pos (yoe * 365 + yoe / 4) (yoe / 100) (omega arith),
        sub-pos (era * 146097 + (yoe * 365 + yoe / 4 - yoe / 100 + doy)) 719468 (omega arith),
      )
      (ap pos (omega arith))

month_table :
    (z : ℤ) → holds_below 11 (λ mp. days_in_month z (month_ℕ mp) == month_length mp) ≡ true
unfolding holds_below days_in_month
month_table z = refl

pub days_in_month-march :
    (z : ℤ) (mp : ℕ) → mp < 11 → days_in_month z (month_ℕ mp) ≡ month_length mp
days_in_month-march z mp h =
    (==_iff (days_in_month z (month_ℕ mp)) (month_length mp)).0
      (holds_below_lem 11 (λ m. days_in_month z (month_ℕ m) == month_length m) mp (month_table z) h)

pub days_in_month-february : (z : ℤ) → days_in_month z 2 ≡ (if is_leap_year z then 29 else 28)
unfolding days_in_month
days_in_month-february z = refl

-- A day number from 1970-01-01 to 9999-12-31, taken apart: its era, year of the era and day of the year.
module _ (d : ℕ) (h : d < 2932897) where
  abbrev pub era : ℕ
  era = (d + 719468) / 146097

  abbrev pub doe : ℕ
  doe = d + 719468 - (d + 719468) / 146097 * 146097

  abbrev pub yoe : ℕ
  yoe = year_of doe

  abbrev pub doy : ℕ
  doy = doe - start yoe

  doe_bound : doe < 146097
  doe_bound = omega arith

  yoe_bound : yoe < 400
  yoe_bound = year_of_bound doe doe_bound

  doy_in : doy ≤ 365
  doy_in = doy_bound doe doe_bound

  pub civil_from_days-pos :
      civil_from_days (pos d)
      ≡ (pos (year_ℕ (yoe + era * 400) (month_of doy)), month_ℕ (month_of doy), day_ℕ doy)
  unfolding civil_from_days
  civil_from_days-pos = simp (
    add-pos,
    era_of-pos,
    mul-pos,
    sub-pos (d + 719468) (era * 146097) (omega arith),
    year_of_era-pos doe doe_bound,
    day_of_year-pos doe yoe yoe_bound (start-year_of doe doe_bound),
    civil_from_day_of_year-pos (yoe + era * 400) doy (omega (arith, yoe_bound)) doy_in,
  )

  month_in : month_of doy ≤ 11
  month_in = month_of_bound doy doy_in

  month_ℕ_bound : (1 ≤ month_ℕ (month_of doy)) × (month_ℕ (month_of doy) ≤ 12)
  month_ℕ_bound = ground (arith, month_in)

  day_ℕ_bound : day_ℕ doy ≤ 31
  day_ℕ_bound = omega (arith, doy_in)

  days_from_civil-pos :
      days_from_civil
        (pos (year_ℕ (yoe + era * 400) (month_of doy)))
        (month_ℕ (month_of doy))
        (day_ℕ doy)
      ≡ pos d
  unfolding days_from_civil
  days_from_civil-pos =
      let back : month_start (month_of doy) + day_ℕ doy - 1 ≡ doy =
        omega (arith, month_start-month_of doy doy_in) in
      let total : era * 146097 + (start yoe + doy) ≡ d + 719468 =
        omega (arith, start-year_of doe doe_bound) in
      let sum : d + 719468 - 719468 ≡ d = omega arith in
      simp (
        as_i32-pos (month_ℕ (month_of doy)) (omega (arith, month_ℕ_bound)),
        as_i32-pos (day_ℕ doy) (omega (arith, day_ℕ_bound)),
        march_year-pos (yoe + era * 400) (month_of doy) month_in,
        day_from_month-pos (month_of doy) (day_ℕ doy) month_in (omega arith),
        back,
        days_from_day_of_year-pos era yoe doy yoe_bound (omega (arith, total)),
        total,
        sum,
      )

  -- A twenty-ninth of February stands in a leap year.
  leap_day : day_ℕ doy ≡ 29 → month_of doy ≡ 11 → is_leap_year (pos (yoe + era * 400 + 1)) ≡ true
  unfolding is_leap_year divides_ℤ
  leap_day e m = let l = leap_doy doe yoe doe_bound refl (omega arith) in ground (arith, l.0, l.1)

  civil_IsDay :
      day_ℕ doy
      ≤ days_in_month (pos (year_ℕ (yoe + era * 400) (month_of doy))) (month_ℕ (month_of doy))
  civil_IsDay = elim (dec_lt (month_of doy) 11) [
    | yes early ↦
        rw
          (days_in_month-march (pos (year_ℕ (yoe + era * 400) (month_of doy))) (month_of doy) early)
          (day_of_month_bound doy doy_in)
    | no late ↦
        let february : month_of doy ≡ 11 = omega (arith, month_in) in
        let e = days_in_month-february (pos (yoe + era * 400 + 1)) in
        rw february (ground (arith, e, leap_day, february, day_of_month_bound doy doy_in))
  ]

  pub year_from : 1970 ≤ year_ℕ (yoe + era * 400) (month_of doy)
  year_from = ground arith

  pub year_to : year_ℕ (yoe + era * 400) (month_of doy) ≤ 9999
  year_to = ground arith

-- What a calendar date of the four-digit years is.
pub record IsDate (year : ℤ) (month day : ℕ) : Type 0 where
  pub y : ℕ
  pub year_is : year ≡ pos y
  pub year_in : (1970 ≤ y) × (y ≤ 9999)
  pub month_in : (1 ≤ month) × (month ≤ 12)
  pub day_in : (1 ≤ day) × (day ≤ days_in_month year month)

abbrev pub IsCivil : ℤ × ℕ × ℕ → Type 0
IsCivil (year, month, day) = IsDate year month day

abbrev pub days_from : ℤ × ℕ × ℕ → ℤ
days_from (year, month, day) = days_from_civil year month day

-- Every day from 1970-01-01 to 9999-12-31 has a date of the Gregorian calendar: a month from 1 to
-- 12, and a day that the month has in that year.
pub civil_from_days-IsCivil : (d : ℕ) → d < 2932897 → IsCivil (civil_from_days (pos d))
civil_from_days-IsCivil d h = rw (civil_from_days-pos d h) (record {
  y = _;
  year_is = refl;
  year_in = (year_from d h, year_to d h);
  month_in = month_ℕ_bound d h;
  day_in = (omega arith, civil_IsDay d h);
})

-- `days_from_civil` undoes `civil_from_days` on the days from 1970-01-01 to 9999-12-31.
pub days_from_civil-civil_from_days :
    (d : ℕ) → d < 2932897 → days_from (civil_from_days (pos d)) ≡ pos d
days_from_civil-civil_from_days d h = rw (civil_from_days-pos d h) (days_from_civil-pos d h)
