-- ===== src/Http/Encodings.antt =====
-- `accepted_encodings` and `parse_quality`: the weights of an Accept-Encoding header. The header's
-- values are joined by commas in front of this. A quality, a u16, is a number without its bound.
mod Tests
pub mod Bounds
pub mod Preferences
pub mod Spelling
pub mod Items
use statika.Prelude.{
  refl, true, false, none, some, [], inl, inr, ok, err, ◌∷◌, ◌≡◌, arith, if◌then◌else◌, ℕ, zero,
  suc, is_empty, ◌*◌, List, Option, ◌+◌, Bool, ◌||◌, leb, ◌-◌, length, any, ltb, ◌&&◌, not, all,
  take, drop,
}
use statika.Prelude.Bytes
use statika.Prelude.Bytes.{
  Bytes, codes, equal, strip_prefix, split_on, eq_ignore_ascii_case, is_ascii_digit,
}
use statika.Http.Types.{AcceptedEncodings}
use statika.Http.Bytes.{trim_ascii}

abbrev pub is_one_of : List Bytes → Bytes → Bool
is_one_of names value = any (λ name. equal value name) names

-- The loop over the digits of the fraction.
digits_value : ℕ → Bytes → ℕ
digits_value quality [] = quality
digits_value quality (digit ∷ digits) = digits_value (quality * 10 + (digit - b'0')) digits

-- `for _ in fraction.len()..3`
scale : ℕ → ℕ → ℕ
scale zero quality = quality
scale (suc rounds) quality = scale rounds (quality * 10)

parse_fraction : Bytes → Option ℕ
unfolding is_ascii_digit digits_value scale
parse_fraction fraction =
    if is_empty fraction || ltb 3 (length fraction) || not (all is_ascii_digit fraction)
    then none
    else some (scale (3 - length fraction) (digits_value 0 fraction))

unfoldable pub parse_quality : Bytes → Option ℕ
unfolding equal strip_prefix parse_fraction
parse_quality value =
    if is_one_of (codes "0" ∷ codes "0." ∷ codes "0.0" ∷ codes "0.00" ∷ codes "0.000" ∷ []) value
    then some 0
    else if is_one_of (codes "1" ∷ codes "1." ∷ codes "1.0" ∷ codes "1.00" ∷ codes "1.000" ∷ [])
        value
    then some 1000
    else elim (strip_prefix (codes "0.") value) [
      | none ↦ none
      | some fraction ↦ parse_fraction fraction
    ]

abbrev or_zero : Option ℕ → ℕ
or_zero none = 0
or_zero (some q) = q

-- A round of the loop over the parameters of an item: the last `q` counts, and a bad one is 0.
next_quality : ℕ → Bytes → ℕ
unfolding parse_quality trim_ascii eq_ignore_ascii_case
next_quality quality raw =
    let field = trim_ascii raw in
    if leb 2 (length field) && eq_ignore_ascii_case (take 2 field) (codes "q=")
    then or_zero (parse_quality (drop 2 field))
    else quality

item_quality : ℕ → List Bytes → ℕ
unfolding next_quality
item_quality quality [] = quality
item_quality quality (raw ∷ fields) = item_quality (next_quality quality raw) fields

-- The three variables of the loop over the items.
pub record Weights : Type 0 where
  pub br : Option ℕ
  pub gzip : Option ℕ
  pub wildcard : Option ℕ

-- An item's token and quality.
pub read_item : Bytes → Bytes × ℕ
unfolding item_quality trim_ascii Bytes.split
read_item raw_item = elim (split_on b';' raw_item) [
  | [] ↦ ([], 1000)
  | token ∷ fields ↦ (trim_ascii token, item_quality 1000 fields)
]

assign : Weights → Bytes × ℕ → Weights
unfolding eq_ignore_ascii_case equal
assign w (token, quality) =
    if is_empty token
    then w
    else if eq_ignore_ascii_case token (codes "br")
    then record w { br = some quality }
    else if eq_ignore_ascii_case token (codes "gzip")
    then record w { gzip = some quality }
    else if equal token (codes "*")
    then record w { wildcard = some quality }
    else w

weigh : Weights → List Bytes → Weights
weigh w [] = w
weigh w (raw_item ∷ items) = weigh (assign w (read_item raw_item)) items

-- `explicit.or(wildcard).unwrap_or(0)`
abbrev weight : Option ℕ → Option ℕ → ℕ
weight none wildcard = or_zero wildcard
weight (some q) wildcard = q

abbrev no_weights : Weights
no_weights = record { br = none; gzip = none; wildcard = none }

abbrev total : Weights → AcceptedEncodings
total w = record { br_q = weight w.br w.wildcard; gzip_q = weight w.gzip w.wildcard }

unfoldable pub accepted_encodings : Bytes → AcceptedEncodings
unfolding weigh assign read_item Bytes.split
accepted_encodings value = total (weigh no_weights (split_on b',' value))
