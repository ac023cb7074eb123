-- ===== src/Prelude/Utf8.antt =====
-- UTF-8 as the standard library reads it: `str::from_utf8` and `String::from_utf8_lossy`.
use Prim.Native.Nat.{ℕ, zero, suc, ◌+◌, ◌*◌, ◌%◌, ◌≤◌, ◌<◌}
use mathlib.Core.Path.{◌≡◌, refl, ap}
use mathlib.Core.Bool.{Bool, ◌&&◌, ◌||◌}
use mathlib.Core.List.{List, [], ◌∷◌}
use mathlib.Core.Option.{Option, none, some}
use native.Mathlib.Omega.{arith}
use statika.Prelude.Tests.{◌==◌, ltb, within, if◌then◌else◌}
use statika.Prelude.Lists.{All, length}
use statika.Prelude.Bytes.{Bytes, Text}

-- The front of an input: a character, or a longest piece that no character begins with, and
-- what comes after it.
pub data Front : Type 0 where
  char : ℕ → Bytes → Front
  invalid : Bytes → Front

abbrev is_tail : ℕ → Bool
is_tail c = within 0x80 0xbf c

-- The second byte that may follow the first byte of a sequence of three, or of four.
second_of_three : ℕ → ℕ → Bool
second_of_three b c =
    (b == 0xe0 && within 0xa0 0xbf c)
    || (within 0xe1 0xec b && is_tail c)
    || (b == 0xed && within 0x80 0x9f c)
    || (within 0xee 0xef b && is_tail c)

second_of_four : ℕ → ℕ → Bool
second_of_four b c =
    (b == 0xf0 && within 0x90 0xbf c)
    || (within 0xf1 0xf3 b && is_tail c)
    || (b == 0xf4 && within 0x80 0x8f c)

two : ℕ → Bytes → Front
two b [] = invalid []
two b (c ∷ cs) = if is_tail c then char (b % 32 * 64 + c % 64) cs else invalid (c ∷ cs)

three : ℕ → Bytes → Front
unfolding second_of_three
three b [] = invalid []
three b (c ∷ []) = if second_of_three b c then invalid [] else invalid (c ∷ [])
three b (c ∷ d ∷ cs) =
    if second_of_three b c
    then (if is_tail d then char (b % 16 * 4096 + c % 64 * 64 + d % 64) cs else invalid (d ∷ cs))
    else invalid (c ∷ d ∷ cs)

four : ℕ → Bytes → Front
unfolding second_of_four
four b [] = invalid []
four b (c ∷ []) = if second_of_four b c then invalid [] else invalid (c ∷ [])
four b (c ∷ d ∷ []) =
    if second_of_four b c
    then (if is_tail d then invalid [] else invalid (d ∷ []))
    else invalid (c ∷ d ∷ [])
four b (c ∷ d ∷ e ∷ cs) =
    if second_of_four b c
    then (if is_tail d
        then (if is_tail e
            then char (b % 8 * 262144 + c % 64 * 4096 + d % 64 * 64 + e % 64) cs
            else invalid (e ∷ cs))
        else invalid (d ∷ e ∷ cs))
    else invalid (c ∷ d ∷ e ∷ cs)

pub front : ℕ → Bytes → Front
unfolding two three four
front b bs =
    if ltb b 0x80
    then char b bs
    else if within 0xc2 0xdf b
    then two b bs
    else if within 0xe0 0xef b
    then three b bs
    else if within 0xf0 0xf4 b
    then four b bs
    else invalid bs

-- The characters in turn, `none` for a piece that is not valid.
decode : ℕ → Bytes → List (Option ℕ)
decode zero bs = []
decode (suc n) [] = []
decode (suc n) (b ∷ bs) = elim (front b bs) [
  | char c rest ↦ some c ∷ decode n rest
  | invalid rest ↦ none ∷ decode n rest
]

collect : List (Option ℕ) → Option Text
collect [] = some []
collect (none ∷ cs) = none
collect (some c ∷ cs) = elim (collect cs) [ none ↦ none | some t ↦ some (c ∷ t) ]

replace : List (Option ℕ) → Text
replace [] = []
replace (none ∷ cs) = 0xfffd ∷ replace cs
replace (some c ∷ cs) = c ∷ replace cs

-- Every step takes a byte at least, so the length is fuel enough.
unfoldable pub from_utf8 : Bytes → Option Text
unfolding front decode collect
from_utf8 bs = collect (decode (length bs) bs)

unfoldable pub from_utf8_lossy : Bytes → Text
unfolding front decode replace
from_utf8_lossy bs = replace (decode (length bs) bs)

abbrev rest_of : Front → Bytes
rest_of (char c rest) = rest
rest_of (invalid rest) = rest

two-shrinks : (b : ℕ) (bs : Bytes) → length (rest_of (two b bs)) ≤ length bs
unfolding two
two-shrinks b [] = omega arith
two-shrinks b (c ∷ cs) = ground arith

three-shrinks : (b : ℕ) (bs : Bytes) → length (rest_of (three b bs)) ≤ length bs
unfolding three
three-shrinks b [] = omega arith
three-shrinks b (c ∷ []) = ground arith
three-shrinks b (c ∷ d ∷ cs) = ground arith

four-shrinks : (b : ℕ) (bs : Bytes) → length (rest_of (four b bs)) ≤ length bs
unfolding four
four-shrinks b [] = omega arith
four-shrinks b (c ∷ []) = ground arith
four-shrinks b (c ∷ d ∷ []) = ground arith
four-shrinks b (c ∷ d ∷ e ∷ cs) = ground arith

front-shrinks : (b : ℕ) (bs : Bytes) → length (rest_of (front b bs)) ≤ length bs
front-shrinks b bs =
    unfold front in ground (arith, two-shrinks b bs, three-shrinks b bs, four-shrinks b bs)

abbrev decode_front : ℕ → Front → List (Option ℕ)
decode_front n (char c rest) = some c ∷ decode n rest
decode_front n (invalid rest) = none ∷ decode n rest

decode_front_fuel :
    (n m : ℕ)
    → ((bs : Bytes) → length bs ≤ n → length bs ≤ m → decode n bs ≡ decode m bs)
    → (r : Front) → length (rest_of r) ≤ n
    → length (rest_of r) ≤ m
    → decode_front n r ≡ decode_front m r
decode_front_fuel n m ih (char c rest) hn hm = ap (◌∷◌ (some c)) (ih rest hn hm)
decode_front_fuel n m ih (invalid rest) hn hm = ap (◌∷◌ none) (ih rest hn hm)

decode-front : (n b : ℕ) (bs : Bytes) → decode (suc n) (b ∷ bs) ≡ decode_front n (front b bs)
unfolding decode
decode-front n b bs = ground arith

-- Two amounts of fuel that reach the length give one result.
decode_enough : (n m : ℕ) (bs : Bytes) → length bs ≤ n → length bs ≤ m → decode n bs ≡ decode m bs
decode_enough zero zero bs hn hm = refl
decode_enough zero (suc m) [] hn hm = unfold decode in refl
decode_enough (suc n) zero [] hn hm = unfold decode in refl
decode_enough (suc n) (suc m) [] hn hm = unfold decode in refl
decode_enough zero (suc m) (b ∷ bs) hn hm = elim hn [ ]
decode_enough (suc n) zero (b ∷ bs) hn hm = elim hm [ ]
decode_enough (suc n) (suc m) (b ∷ bs) hn hm =
    let s = front-shrinks b bs in
    rw (decode-front n b bs, decode-front m b bs)
      (decode_front_fuel n m (decode_enough n m) (front b bs) (omega arith) (omega arith))

abbrev pub IsAscii : Bytes → Type 0
IsAscii = All (λ c. c < 128)

decode_ascii : (bs : Bytes) → IsAscii bs → collect (decode (length bs) bs) ≡ some bs
unfolding decode collect front
decode_ascii [] h = refl
decode_ascii (b ∷ bs) h = ground (arith, decode_ascii bs h.1)

-- An ASCII text is read as it stands.
pub from_utf8_ascii : (bs : Bytes) → IsAscii bs → from_utf8 bs ≡ some bs
unfolding from_utf8
from_utf8_ascii bs h = decode_ascii bs h

lossy_ascii : (bs : Bytes) → IsAscii bs → replace (decode (length bs) bs) ≡ bs
unfolding decode replace front
lossy_ascii [] h = refl
lossy_ascii (b ∷ bs) h = ground (arith, lossy_ascii bs h.1)

pub from_utf8_lossy_ascii : (bs : Bytes) → IsAscii bs → from_utf8_lossy bs ≡ bs
unfolding from_utf8_lossy
from_utf8_lossy_ascii bs h = lossy_ascii bs h
