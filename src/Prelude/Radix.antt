-- ===== src/Prelude/Radix.antt =====
-- Numbers as text: what `{}`, `{:x}`, `{:02}` and `{:04}` print, and what `parse` reads.
use Prim.Native.Nat.{ℕ, zero, suc, ◌+◌, ◌-◌, ◌*◌, ◌/◌, ◌%◌, ◌^◌, ◌<◌, ◌≤◌}
use mathlib.Core.Path.{◌≡◌, refl, ap, ◌∙◌}
use mathlib.Core.List.{[], ◌∷◌}
use native.Mathlib.Omega.{arith}
use native.Mathlib.Nat.{pow-suc}
use native.Mathlib.Decide.{dec_lt}
use mathlib.Core.Logic.{inl, inr}
use statika.Prelude.Tests.{ltb, if◌then◌else◌, Bool-cases}
use statika.Prelude.Lists.{length}
use statika.Prelude.Bytes.{Bytes, Text}

abbrev pub digit : ℕ → ℕ
digit n = if ltb n 10 then n + 48 else n + 87

-- The digits of `n` in front of `out`. Each round takes a digit.
unfoldable pub write_radix : ℕ → ℕ → ℕ → Text → Text
write_radix radix zero n out = out
write_radix radix (suc fuel) n out =
    let rest = write_radix radix fuel (n / radix) (digit (n % radix) ∷ out) in
    if ltb n radix then digit n ∷ out else rest

-- A number of 64 bits has at most 64 digits, whatever the radix.
unfoldable pub to_decimal : ℕ → Text
unfolding write_radix
to_decimal n = write_radix 10 64 n []

unfoldable pub to_hex : ℕ → Text
unfolding write_radix
to_hex n = write_radix 16 64 n []

-- Zeros in front, up to a width.
unfoldable pub zeros : ℕ → Text → Text
zeros zero t = t
zeros (suc n) t = b'0' ∷ zeros n t

unfoldable pub pad : ℕ → Text → Text
unfolding zeros
pad width t = zeros (width - length t) t

-- The value that decimal digits stand for, from what was read before them.
unfoldable pub value_from : ℕ → Bytes → ℕ
value_from v [] = v
value_from v (c ∷ cs) = value_from (v * 10 + (c - b'0')) cs

write_radix-value :
    (fuel n v : ℕ) (out : Text)
    → n < 10 ^ fuel
    → v ≡ n
    → value_from 0 (write_radix 10 fuel n out) ≡ value_from v out
unfolding write_radix value_from
write_radix-value zero n v out h e = ap (λ x. value_from x out) (omega arith)
write_radix-value (suc fuel) n v out h e = elim (Bool-cases (ltb n 10)) [
  | inl small ↦ rw small (ap (λ x. value_from x out) (ground arith))
  | inr large ↦ rw large (
      write_radix-value fuel (n / 10) (n / 10) (digit (n % 10) ∷ out)
        (omega (arith, pow-suc 10 fuel)) refl
      ∙ ap (λ x. value_from x out) (ground arith))
]

-- What is printed reads back as the number, for every number of 64 bits.
pub value-to_decimal : (n : ℕ) → n < 2 ^ 64 → value_from 0 (to_decimal n) ≡ n
unfolding to_decimal value_from
value-to_decimal n h = write_radix-value 64 n n [] (omega arith) refl

module _ (fuel n : ℕ) (out : Text) where
  write_last : n < 10 → write_radix 10 (suc fuel) n out ≡ digit n ∷ out
  unfolding write_radix
  write_last h = ground arith

  write_more :
      10 ≤ n → write_radix 10 (suc fuel) n out ≡ write_radix 10 fuel (n / 10) (digit (n % 10) ∷ out)
  unfolding write_radix
  write_more h = ground arith

module _ (n : ℕ) where
  decimal_one : n < 10 → to_decimal n ≡ digit n ∷ []
  unfolding to_decimal
  decimal_one h = write_last 63 n [] h

  decimal_two : 10 ≤ n → n < 100 → to_decimal n ≡ digit (n / 10) ∷ digit (n % 10) ∷ []
  unfolding to_decimal
  decimal_two l h = write_more 63 n [] l ∙ write_last 62 (n / 10) _ (omega arith)

  decimal_three :
      100 ≤ n
      → n < 1000
      → to_decimal n ≡ digit (n / 10 / 10) ∷ digit (n / 10 % 10) ∷ digit (n % 10) ∷ []
  unfolding to_decimal
  decimal_three l h =
      write_more 63 n [] (omega arith)
      ∙ write_more 62 (n / 10) _ (omega arith)
      ∙ write_last 61 (n / 10 / 10) _ (omega arith)

  decimal_four :
      1000 ≤ n
      → n < 10000
      → to_decimal n
        ≡ digit (n / 10 / 10 / 10)
          ∷ digit (n / 10 / 10 % 10)
          ∷ digit (n / 10 % 10)
          ∷ digit (n % 10)
          ∷ []
  unfolding to_decimal
  decimal_four l h =
      write_more 63 n [] (omega arith)
      ∙ write_more 62 (n / 10) _ (omega arith)
      ∙ write_more 61 (n / 10 / 10) _ (omega arith)
      ∙ write_last 60 (n / 10 / 10 / 10) _ (omega arith)

  -- Two and four digits, with zeros in front.
  pub pad-two : n < 100 → pad 2 (to_decimal n) ≡ (n / 10 + 48) ∷ (n % 10 + 48) ∷ []
  unfolding pad
  pad-two h = elim (dec_lt n 10) [
    | yes a ↦ rw (decimal_one a) (ground arith)
    | no a ↦ rw (decimal_two (omega arith) h) (ground arith)
  ]

  pub pad-four :
      n < 10000
      → pad 4 (to_decimal n)
        ≡ (n / 1000 + 48) ∷ (n / 100 % 10 + 48) ∷ (n / 10 % 10 + 48) ∷ (n % 10 + 48) ∷ []
  unfolding pad
  pad-four h = elim (dec_lt n 10) [
    | yes a ↦ rw (decimal_one a) (ground arith)
    | no a ↦ elim (dec_lt n 100) [
      | yes b ↦ rw (decimal_two (omega arith) b) (ground arith)
      | no b ↦ elim (dec_lt n 1000) [
        | yes c ↦ rw (decimal_three (omega arith) c) (ground arith)
        | no c ↦ rw (decimal_four (omega arith) h) (ground arith)
      ]
    ]
  ]
