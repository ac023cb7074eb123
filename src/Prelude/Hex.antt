-- ===== src/Prelude/Hex.antt =====
-- Hexadecimal numbers read back.
use Prim.Native.Nat.{ℕ, zero, suc, ◌+◌, ◌-◌, ◌*◌, ◌/◌, ◌%◌, ◌^◌, ◌<◌}
use mathlib.Core.Path.{◌≡◌, refl, ap, ◌∙◌}
use mathlib.Core.Bool.{false}
use mathlib.Core.List.{[], ◌∷◌, ◌++◌}
use mathlib.Core.Logic.{inl, inr}
use native.Mathlib.Omega.{arith}
use native.Mathlib.Nat.{pow-suc}
use statika.Prelude.Tests.{ltb, ◌==◌, if◌then◌else◌, Bool-cases}
use statika.Prelude.Lists.{any}
use statika.Prelude.Bytes.{Text}
use statika.Prelude.Radix.{digit, write_radix, to_hex}

abbrev pub from_digit : ℕ → ℕ
from_digit c = if ltb c 58 then c - 48 else c - 87

-- The value of the digits, from what was read before them; quotes are passed over.
unfoldable pub hex_value : ℕ → Text → ℕ
hex_value v [] = v
hex_value v (c ∷ cs) =
    let rest = hex_value (v * 16 + from_digit c) cs in if c == 34 then hex_value v cs else rest

from_digit-digit : (d : ℕ) → d < 16 → from_digit (digit d) ≡ d
from_digit-digit d h = ground arith

digit-ne-quote : (d : ℕ) → d < 16 → (digit d == 34) ≡ false
digit-ne-quote d h = ground arith

hex_value-digit :
    (v d : ℕ) (cs : Text) → d < 16 → hex_value v (digit d ∷ cs) ≡ hex_value (v * 16 + d) cs
unfolding hex_value
hex_value-digit v d cs h = rw (hex_value, digit-ne-quote d h, from_digit-digit d h) refl

write_hex-value :
    (fuel n : ℕ) (out : Text)
    → n < 16 ^ fuel
    → hex_value 0 (write_radix 16 fuel n out) ≡ hex_value n out
unfolding write_radix
write_hex-value zero n out h = ap (λ x. hex_value x out) (omega arith)
write_hex-value (suc fuel) n out h = elim (Bool-cases (ltb n 16)) [
  | inl small ↦
      rw small (hex_value-digit 0 n out (ground arith) ∙ ap (λ x. hex_value x out) (omega arith))
  | inr large ↦ rw large (
      write_hex-value fuel (n / 16) (digit (n % 16) ∷ out) (omega (arith, pow-suc 16 fuel))
      ∙ hex_value-digit (n / 16) (n % 16) out (omega arith)
      ∙ ap (λ x. hex_value x out) (omega arith))
]

write_radix-append :
    (fuel n : ℕ) (out more : Text)
    → write_radix 16 fuel n out ++ more ≡ write_radix 16 fuel n (out ++ more)
unfolding write_radix
write_radix-append zero n out more = refl
write_radix-append (suc fuel) n out more = elim (Bool-cases (ltb n 16)) [
  | inl small ↦ rw small refl
  | inr large ↦ rw large (write_radix-append fuel (n / 16) (digit (n % 16) ∷ out) more)
]

-- A number of 64 bits reads back, with what follows it.
pub hex_value-to_hex :
    (n : ℕ) (more : Text) → n < 2 ^ 64 → hex_value 0 (to_hex n ++ more) ≡ hex_value n more
unfolding to_hex
hex_value-to_hex n more h =
    ap (hex_value 0) (write_radix-append 64 n [] more) ∙ write_hex-value 64 n more (omega arith)

-- The digits hold no character outside `0` to `9` and `a` to `f`.
write_hex-free :
    (b fuel n : ℕ) (out : Text)
    → b < 48
    → any (λ c. c == b) out ≡ false
    → any (λ c. c == b) (write_radix 16 fuel n out) ≡ false
unfolding write_radix
write_hex-free b zero n out l h = h
write_hex-free b (suc fuel) n out l h = elim (Bool-cases (ltb n 16)) [
  | inl small ↦ rw small (ground arith)
  | inr large ↦ rw large (write_hex-free b fuel (n / 16) (digit (n % 16) ∷ out) l (ground arith))
]

pub to_hex-free : (b n : ℕ) → b < 48 → any (λ c. c == b) (to_hex n) ≡ false
unfolding to_hex
to_hex-free b n l = write_hex-free b 64 n [] l refl
