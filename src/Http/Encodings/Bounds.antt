-- ===== src/Http/Encodings/Bounds.antt =====
-- The range of qualities and weights.
use statika.Prelude.{
  true, false, none, some, [], inl, inr, ◌∷◌, arith, if◌then◌else◌, ℕ, ◌≤◌, Option, List, Bool,
  drop, Bool-cases, leb, length, ◌&&◌, take,
}
use statika.Http.Encodings.{
  digits_value, scale, parse_fraction, parse_quality, or_zero, item_quality, Weights, read_item,
  assign, weigh, weight, no_weights, accepted_encodings, is_one_of, next_quality,
}
use statika.Prelude.Bytes.{
  is_ascii_digit, Bytes, split_on, codes, strip_prefix, eq_ignore_ascii_case,
}
use statika.Http.Bytes.{trim_ascii}

abbrev AtMost : Option ℕ → Type 0
AtMost none = Unit {0}
AtMost (some q) = q ≤ 1000

parse_fraction-AtMost : (fraction : Bytes) → AtMost (parse_fraction fraction)
unfolding parse_fraction is_ascii_digit digits_value scale
parse_fraction-AtMost [] = tt
parse_fraction-AtMost (a ∷ []) = ground arith
parse_fraction-AtMost (a ∷ b ∷ []) = ground arith
parse_fraction-AtMost (a ∷ b ∷ c ∷ []) = ground arith
parse_fraction-AtMost (a ∷ b ∷ c ∷ d ∷ rest) = ground arith

strip_fraction-AtMost :
    (o : Option Bytes) → AtMost (elim o [ none ↦ none | some fraction ↦ parse_fraction fraction ])
strip_fraction-AtMost none = tt
strip_fraction-AtMost (some fraction) = parse_fraction-AtMost fraction

choose-AtMost :
    (a b : Bool) (o : Option ℕ)
    → AtMost o
    → AtMost (if a then some 0 else if b then some 1000 else o)
choose-AtMost true b o h = omega arith
choose-AtMost false true o h = omega arith
choose-AtMost false false o h = h

parse_quality-AtMost : (value : Bytes) → AtMost (parse_quality value)
unfolding parse_quality
parse_quality-AtMost value =
    choose-AtMost
      (is_one_of (codes "0" ∷ codes "0." ∷ codes "0.0" ∷ codes "0.00" ∷ codes "0.000" ∷ []) value)
      (is_one_of (codes "1" ∷ codes "1." ∷ codes "1.0" ∷ codes "1.00" ∷ codes "1.000" ∷ []) value) _
      (strip_fraction-AtMost (strip_prefix (codes "0.") value))

or_zero-le : (o : Option ℕ) → AtMost o → or_zero o ≤ 1000
or_zero-le none h = omega arith
or_zero-le (some q) h = h

next_quality-le : (q : ℕ) (raw : Bytes) → q ≤ 1000 → next_quality q raw ≤ 1000
unfolding next_quality
next_quality-le q raw h =
    let value = drop 2 (trim_ascii raw) in
    let good = or_zero-le (parse_quality value) (parse_quality-AtMost value) in
    elim (Bool-cases (
      leb 2 (length (trim_ascii raw))
      && eq_ignore_ascii_case (take 2 (trim_ascii raw)) (codes "q="))) [
        | inl e ↦ rw e good
        | inr e ↦ rw e h
      ]

item_quality-le : (q : ℕ) (fields : List Bytes) → q ≤ 1000 → item_quality q fields ≤ 1000
unfolding item_quality
item_quality-le q [] h = h
item_quality-le q (raw ∷ fields) h =
    item_quality-le (next_quality q raw) fields (next_quality-le q raw h)

read_item-le : (raw_item : Bytes) → (read_item raw_item).1 ≤ 1000
unfolding read_item
read_item-le raw_item = go (split_on b';' raw_item)
  where
    go :
        (pieces : List Bytes)
        → (elim pieces as (λ _. Bytes × ℕ) [
          | [] ↦ ([], 1000)
          | token ∷ fields ↦ (trim_ascii token, item_quality 1000 fields)
        ]).1
          ≤ 1000
    go [] = omega arith
    go (token ∷ fields) = item_quality-le 1000 fields (omega arith)

record AreBounded (w : Weights) : Type 0 where
  br_bound : AtMost w.br
  gzip_bound : AtMost w.gzip
  wildcard_bound : AtMost w.wildcard

assign-AreBounded :
    (w : Weights) (item : Bytes × ℕ) → item.1 ≤ 1000 → AreBounded w → AreBounded (assign w item)
unfolding assign
assign-AreBounded w (token, quality) h b = ground arith

weigh-AreBounded : (w : Weights) (items : List Bytes) → AreBounded w → AreBounded (weigh w items)
unfolding weigh
weigh-AreBounded w [] b = b
weigh-AreBounded w (raw_item ∷ items) b =
    weigh-AreBounded (assign w (read_item raw_item)) items
      (assign-AreBounded w (read_item raw_item) (read_item-le raw_item) b)

weight-le :
    (explicit wildcard : Option ℕ)
    → AtMost explicit
    → AtMost wildcard
    → weight explicit wildcard ≤ 1000
weight-le none wildcard a b = or_zero-le wildcard b
weight-le (some q) wildcard a b = a

-- Whatever a client sends, each weight is between 0 and 1000.
pub accepted_encodings-le :
    (value : Bytes)
    → ((accepted_encodings value).br_q ≤ 1000) × ((accepted_encodings value).gzip_q ≤ 1000)
unfolding accepted_encodings
accepted_encodings-le value =
    let b =
      weigh-AreBounded no_weights (split_on b',' value)
        (record { br_bound = tt; gzip_bound = tt; wildcard_bound = tt }) in
    (weight-le _ _ b.br_bound b.wildcard_bound, weight-le _ _ b.gzip_bound b.wildcard_bound)
