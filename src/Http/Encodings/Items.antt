-- ===== src/Http/Encodings/Items.antt =====
-- The text of an item, and what is read from it.
use statika.Prelude.{
  refl, true, false, none, some, [], inl, inr, ◌∷◌, ◌≡◌, arith, if◌then◌else◌, ℕ, List, Bool, ◌++◌,
  ◌&&◌, map, Option, ◌∙◌, ap, all, drop, All, suc, within, ◌⊎◌, leb, length, take, is_empty,
}
use statika.Prelude.Split.{Free, join, split-join}
use statika.Prelude.Bytes.{
  Bytes, codes, equal, is_ascii_whitespace, to_ascii_lowercase, eq_ignore_ascii_case,
}
use statika.Http.Encodings.{parse_quality, or_zero, next_quality, item_quality, read_item}
use statika.Http.Encodings.Spelling.{
  Quality, quality_text, in_thousandths, IsQuality, is_plain, parse_quality-quality_text, cased,
  with_case, blanks, padded, trim_ascii-padded,
}

pub data Coding : Type 0 where
  brotli gzip wildcard identity : Coding

abbrev pub token : Coding → Bytes
token brotli = codes "br"
token gzip = codes "gzip"
token wildcard = codes "*"
token identity = codes "identity"

-- The parameter `q`, in either case, with blanks around it.
pub record Parameter : Type 0 where
  pub between : List Bool
  pub upper : Bool
  pub quality : Quality
  pub behind : List Bool

-- A coding in any letter case, with blanks around it, and its parameter, if any.
pub record Item : Type 0 where
  pub before : List Bool
  pub coding : Coding
  pub flags : List Bool
  pub after : List Bool
  pub parameter : Option Parameter

abbrev field_text : Parameter → Bytes
field_text p = cased p.upper b'q' ∷ b'=' ∷ quality_text p.quality

abbrev name_text : Item → Bytes
name_text item = with_case item.flags (token item.coding)

abbrev fields : Option Parameter → List Bytes
fields none = []
fields (some p) = padded p.between (field_text p) p.behind ∷ []

abbrev pub item_text : Item → Bytes
item_text item = join b';' (padded item.before (name_text item) item.after ∷ fields item.parameter)

abbrev pub weight_of : Option Parameter → ℕ
weight_of none = 1000
weight_of (some p) = in_thousandths p.quality

abbrev IsParameter : Option Parameter → Type 0
IsParameter none = Unit {0}
IsParameter (some p) = IsQuality p.quality

-- The weight has at most three digits.
abbrev pub IsItem : Item → Type 0
IsItem item = IsParameter item.parameter

-- A separator.
abbrev IsSeparator : ℕ → Type 0
IsSeparator b = (b ≡ b',') ⊎ (b ≡ b';')

blanks-Free : (b : ℕ) → IsSeparator b → (flags : List Bool) → Free b (blanks flags)
blanks-Free b s [] = refl
blanks-Free b s (true ∷ flags) = ground (arith, blanks-Free b s flags)
blanks-Free b s (false ∷ flags) = ground (arith, blanks-Free b s flags)

plain_Free : (b : ℕ) → IsSeparator b → (w : Bytes) → all is_plain w ≡ true → Free b w
plain_Free b s [] h = refl
plain_Free b s (c ∷ cs) h = ground (arith, plain_Free b s cs)

Free-append : (b : ℕ) (v w : Bytes) → Free b v → Free b w → Free b (v ++ w)
Free-append b [] w h k = k
Free-append b (c ∷ cs) w h k = ground (arith, Free-append b cs w)

padded-Free :
    (b : ℕ)
    → IsSeparator b
    → (before : List Bool) (w : Bytes) (after : List Bool) → all is_plain w ≡ true
    → Free b (padded before w after)
padded-Free b s before w after h =
    Free-append b (blanks before) (w ++ blanks after) (blanks-Free b s before)
      (Free-append b w (blanks after) (plain_Free b s w h) (blanks-Free b s after))

cased_plain : (upper : Bool) (c : ℕ) → is_plain c ≡ true → is_plain (cased upper c) ≡ true
unfolding is_ascii_whitespace
cased_plain true c h = ground arith
cased_plain false c h = h

with_case_plain :
    (flags : List Bool) (w : Bytes)
    → all is_plain w ≡ true
    → all is_plain (with_case flags w) ≡ true
with_case_plain flags [] h = refl
with_case_plain [] (c ∷ cs) h = ground (arith, with_case_plain [] cs)
with_case_plain (upper ∷ flags) (c ∷ cs) h =
    ground (arith, cased_plain upper c, with_case_plain flags cs)

token_plain : (c : Coding) → all is_plain (token c) ≡ true
unfolding is_ascii_whitespace
token_plain brotli = refl
token_plain gzip = refl
token_plain wildcard = refl
token_plain identity = refl

name_plain : (item : Item) → all is_plain (name_text item) ≡ true
name_plain item = with_case_plain item.flags (token item.coding) (token_plain item.coding)

field_plain : (p : Parameter) → IsQuality p.quality → all is_plain (field_text p) ≡ true
unfolding is_ascii_whitespace
field_plain p h = go p.upper (parse_quality-quality_text p.quality h).1
  where
    go :
        (upper : Bool)
        → all is_plain (quality_text p.quality) ≡ true
        → all is_plain (cased upper b'q' ∷ b'=' ∷ quality_text p.quality) ≡ true
    go true q = q
    go false q = q

fields_Free :
    (b : ℕ) → IsSeparator b → (o : Option Parameter) → IsParameter o → All (Free b) (fields o)
fields_Free b s none h = tt
fields_Free b s (some p) h =
    (padded-Free b s p.between (field_text p) p.behind (field_plain p h), tt)

taken : (n x y : ℕ) → (if leb 2 (suc (suc n)) && true then x else y) ≡ x
taken n x y = ground arith

-- A field `q=` gives the weight.
next_quality-field :
    (quality : ℕ) (p : Parameter)
    → IsQuality p.quality
    → next_quality quality (padded p.between (field_text p) p.behind) ≡ in_thousandths p.quality
unfolding next_quality
next_quality-field quality p h =
    rw (trim_ascii-padded p.between (field_text p) p.behind (field_plain p h)) (go p.upper)
  where
    reads : or_zero (parse_quality (quality_text p.quality)) ≡ in_thousandths p.quality
    reads = ap or_zero (parse_quality-quality_text p.quality h).0

    go :
        (upper : Bool)
        → (if leb 2 (length (cased upper b'q' ∷ b'=' ∷ quality_text p.quality))
              && eq_ignore_ascii_case
                  (take 2 (cased upper b'q' ∷ b'=' ∷ quality_text p.quality))
                  (codes "q=")
            then or_zero (parse_quality (drop 2 (cased upper b'q' ∷ b'=' ∷ quality_text p.quality)))
            else quality)
          ≡ in_thousandths p.quality
    go true = taken (length (quality_text p.quality)) _ _ ∙ reads
    go false = taken (length (quality_text p.quality)) _ _ ∙ reads

fields_quality : (o : Option Parameter) → IsParameter o → item_quality 1000 (fields o) ≡ weight_of o
unfolding item_quality
fields_quality none h = refl
fields_quality (some p) h = next_quality-field 1000 p h

pub read_item-item_text :
    (item : Item)
    → IsItem item
    → read_item (item_text item) ≡ (name_text item, weight_of item.parameter)
unfolding read_item
read_item-item_text item h =
    rw
      (
        read_item,
        split-join b';' (padded item.before (name_text item) item.after) (fields item.parameter)
            (padded-Free b';' (inr refl) item.before (name_text item) item.after (name_plain item))
            (fields_Free b';' (inr refl) item.parameter h),
      )
      (λ i. (
        trim_ascii-padded item.before (name_text item) item.after (name_plain item) i,
        fields_quality item.parameter h i,
      ))

-- An item holds no comma.
pub item_text-Free : (item : Item) → IsItem item → Free b',' (item_text item)
unfolding join
item_text-Free item h = go item.parameter h
  where
    name : Bytes
    name = padded item.before (name_text item) item.after

    go : (o : Option Parameter) → IsParameter o → Free b',' (join b';' (name ∷ fields o))
    go none k =
        padded-Free b',' (inl refl) item.before (name_text item) item.after (name_plain item)
    go (some p) k =
        Free-append b',' name (b';' ∷ padded p.between (field_text p) p.behind)
          (padded-Free b',' (inl refl) item.before (name_text item) item.after (name_plain item))
          (fields_Free b',' (inl refl) (some p) k).0

-- The letter case of a name does not matter.
lower-cased :
    (upper : Bool) (c : ℕ) → within b'A' b'Z' c ≡ false → to_ascii_lowercase (cased upper c) ≡ c
unfolding to_ascii_lowercase
lower-cased true c h = ground arith
lower-cased false c h = ground arith

pub lower-with_case :
    (flags : List Bool) (w : Bytes)
    → All (λ c. within b'A' b'Z' c ≡ false) w
    → map to_ascii_lowercase (with_case flags w) ≡ w
lower-with_case flags [] h = refl
lower-with_case [] (c ∷ cs) h = (λ i. lower-cased false c h.0 i ∷ lower-with_case [] cs h.1 i)
lower-with_case (upper ∷ flags) (c ∷ cs) h =
    (λ i. lower-cased upper c h.0 i ∷ lower-with_case flags cs h.1 i)

token_lower : (c : Coding) → All (λ b. within b'A' b'Z' b ≡ false) (token c)
token_lower brotli = ground arith
token_lower gzip = ground arith
token_lower wildcard = ground arith
token_lower identity = ground arith

pub eq_ignore_ascii_case-with_case :
    (flags : List Bool) (c : Coding) (name : Bytes)
    → eq_ignore_ascii_case (with_case flags (token c)) name
      ≡ equal (token c) (map to_ascii_lowercase name)
unfolding eq_ignore_ascii_case
eq_ignore_ascii_case-with_case flags c name =
    ap (λ t. equal t (map to_ascii_lowercase name))
      (lower-with_case flags (token c) (token_lower c))

pub is_empty-with_case :
    (flags : List Bool) (c : Coding) → is_empty (with_case flags (token c)) ≡ false
is_empty-with_case [] brotli = refl
is_empty-with_case [] gzip = refl
is_empty-with_case [] wildcard = refl
is_empty-with_case [] identity = refl
is_empty-with_case (upper ∷ flags) brotli = refl
is_empty-with_case (upper ∷ flags) gzip = refl
is_empty-with_case (upper ∷ flags) wildcard = refl
is_empty-with_case (upper ∷ flags) identity = refl

-- The wildcard has no letters.
pub with_case_wildcard :
    (flags : List Bool) → equal (with_case flags (token wildcard)) (codes "*") ≡ true
unfolding equal
with_case_wildcard [] = refl
with_case_wildcard (true ∷ flags) = refl
with_case_wildcard (false ∷ flags) = refl

pub with_case_identity :
    (flags : List Bool) → equal (with_case flags (token identity)) (codes "*") ≡ false
unfolding equal
with_case_identity [] = refl
with_case_identity (true ∷ flags) = refl
with_case_identity (false ∷ flags) = refl
