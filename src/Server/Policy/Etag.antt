-- ===== src/Server/Policy/Etag.antt =====
-- What an entity tag says of a file, and when a client that sends one back gets no body.
use statika.Prelude.Int.{pos, negsuc}
use statika.Prelude.{
  refl, false, [], ◌∷◌, ◌≡◌, arith, ℕ, suc, any, ap, List, get_or, ◌<◌, sym, ◌==◌, ◌++◌, ◌^◌, ◌∙◌,
  any-append, ◌-◌,
}
use statika.Prelude.Hex.{hex_value, hex_value-to_hex, to_hex-free}
use statika.Prelude.Int.{ℤ}
use statika.Server.Policy.{Metadata, hex_i64, etag}
use statika.Prelude.Bytes.{Text, split_on}
use statika.Prelude.Split.{join, split-join}
use statika.Prelude.Radix.{to_hex}
use mathlib.Core.List.{append_assoc, append-nil}

-- The 64-bit word of an integer in two's complement.
abbrev pub word : ℤ → ℕ
word (pos n) = n
word (negsuc n) = 2 ^ 64 - suc n

-- The range of an i64.
abbrev pub IsI64 : ℤ → Type 0
IsI64 (pos n) = n < 2 ^ 63
IsI64 (negsuc n) = n < 2 ^ 63

-- What `fstat` can return.
pub record IsStat (metadata : Metadata) : Type 0 where
  pub ino_bound : metadata.ino < 2 ^ 64
  pub len_bound : metadata.len < 2 ^ 64
  pub mtime_bound : IsI64 metadata.mtime
  pub nsec_bound : IsI64 metadata.mtime_nsec

word-lt : (z : ℤ) → IsI64 z → word z < 2 ^ 64
word-lt (pos n) h = omega arith
word-lt (negsuc n) h = omega arith

word-injective : (y z : ℤ) → IsI64 y → IsI64 z → word y ≡ word z → y ≡ z
word-injective (pos m) (pos n) g h e = ap pos e
word-injective (pos m) (negsuc n) g h e = absurd (omega arith)
word-injective (negsuc m) (pos n) g h e = absurd (omega arith)
word-injective (negsuc m) (negsuc n) g h e = ap negsuc (omega arith)

hex_i64-word : (z : ℤ) → hex_i64 z ≡ to_hex (word z)
unfolding hex_i64
hex_i64-word (pos n) = refl
hex_i64-word (negsuc n) = refl

-- The parts of a tag between its dashes, the quotes included.
abbrev pub parts : Metadata → List Text
parts metadata =
    (34 ∷ to_hex metadata.ino)
    ∷ to_hex metadata.len
    ∷ to_hex (word metadata.mtime)
    ∷ (to_hex (word metadata.mtime_nsec) ++ 34 ∷ [])
    ∷ []

pub etag-join : (metadata : Metadata) → etag metadata ≡ join b'-' (parts metadata)
unfolding etag join
etag-join metadata =
    rw (hex_i64-word metadata.mtime, hex_i64-word metadata.mtime_nsec) (simp append_assoc refl)

pub free-append :
    (b : ℕ) (w v : Text)
    → any (λ c. c == b) w ≡ false
    → any (λ c. c == b) v ≡ false
    → any (λ c. c == b) (w ++ v) ≡ false
free-append b w v g h = cc (any-append (λ c. c == b) w v, g, h)

split-etag : (metadata : Metadata) → split_on b'-' (etag metadata) ≡ parts metadata
split-etag metadata =
    ap (split_on b'-') (etag-join metadata)
    ∙ split-join b'-' (34 ∷ to_hex metadata.ino)
        (to_hex metadata.len
          ∷ to_hex (word metadata.mtime)
          ∷ (to_hex (word metadata.mtime_nsec) ++ 34 ∷ [])
          ∷ [])
        (to_hex-free b'-' metadata.ino (omega arith))
        (
          to_hex-free b'-' metadata.len (omega arith),
          (
            to_hex-free b'-' (word metadata.mtime) (omega arith),
            (
              free-append b'-' (to_hex (word metadata.mtime_nsec)) (34 ∷ [])
                  (to_hex-free b'-' (word metadata.mtime_nsec) (omega arith)) refl,
              tt,
            ),
          ),
        )

-- The number in a part of a tag.
abbrev number_at : ℕ → Text → ℕ
number_at i tag = hex_value 0 (get_or (split_on b'-' tag) i [])

read_hex : (n : ℕ) → n < 2 ^ 64 → hex_value 0 (to_hex n) ≡ n
unfolding hex_value
read_hex n h = ap (hex_value 0) (sym (append-nil (to_hex n))) ∙ hex_value-to_hex n [] h

module _ (metadata : Metadata) (stat : IsStat metadata) where
  ino-number_at : number_at 0 (etag metadata) ≡ metadata.ino
  unfolding hex_value
  ino-number_at =
      ap (λ ws. hex_value 0 (get_or ws 0 [])) (split-etag metadata)
      ∙ read_hex metadata.ino stat.ino_bound

  len-number_at : number_at 1 (etag metadata) ≡ metadata.len
  len-number_at =
      ap (λ ws. hex_value 0 (get_or ws 1 [])) (split-etag metadata)
      ∙ read_hex metadata.len stat.len_bound

  mtime-number_at : number_at 2 (etag metadata) ≡ word metadata.mtime
  mtime-number_at =
      ap (λ ws. hex_value 0 (get_or ws 2 [])) (split-etag metadata)
      ∙ read_hex (word metadata.mtime) (word-lt metadata.mtime stat.mtime_bound)

  nsec-number_at : number_at 3 (etag metadata) ≡ word metadata.mtime_nsec
  unfolding hex_value
  nsec-number_at =
      ap (λ ws. hex_value 0 (get_or ws 3 [])) (split-etag metadata)
      ∙ hex_value-to_hex (word metadata.mtime_nsec) (34 ∷ [])
          (word-lt metadata.mtime_nsec stat.nsec_bound)

metadata_eq :
    (a b : Metadata)
    → a.ino ≡ b.ino
    → a.len ≡ b.len
    → a.mtime ≡ b.mtime
    → a.mtime_nsec ≡ b.mtime_nsec
    → a ≡ b
metadata_eq a b i l m n = cc

pub etag-injective : (a b : Metadata) → IsStat a → IsStat b → etag a ≡ etag b → a ≡ b
etag-injective a b g h e =
    metadata_eq a b (sym (ino-number_at a g) ∙ ap (number_at 0) e ∙ ino-number_at b h)
      (sym (len-number_at a g) ∙ ap (number_at 1) e ∙ len-number_at b h)
      (word-injective a.mtime b.mtime g.mtime_bound h.mtime_bound
        (sym (mtime-number_at a g) ∙ ap (number_at 2) e ∙ mtime-number_at b h))
      (word-injective a.mtime_nsec b.mtime_nsec g.nsec_bound h.nsec_bound
        (sym (nsec-number_at a g) ∙ ap (number_at 3) e ∙ nsec-number_at b h))
