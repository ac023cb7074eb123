-- ===== src/Http/Encodings/Spelling.antt =====
-- The texts of a quality, of the name of a coding in any letter case, and of blanks.
use statika.Prelude.{
  refl, true, false, none, some, [], ◌∷◌, ◌≡◌, arith, if◌then◌else◌, ℕ, List, Bool, ◌<◌, ◌*◌, ◌&&◌,
  ◌||◌, ◌++◌, map, ◌==◌, ◌/◌, ◌-◌, ◌+◌, ◌%◌, Option, ◌∙◌, ==_iff, ap, all, zero, suc, &&_true,
  within, not,
}
use statika.Prelude.Check.{holds_below, holds_below_lem}
use statika.Prelude.Bytes.{Bytes, codes, trim_start, trim_end, trim_by, is_ascii_whitespace}
use statika.Http.Encodings.{parse_quality}
use statika.Http.Bytes.{trim_ascii}

-- A quality as RFC 9110 writes it: up to three digits stand behind the point.
pub data Quality : Type 0 where
  zero_alone zero_point one_alone : Quality
  one_point : ℕ → Quality
  tenths hundredths thousandths : ℕ → Quality

abbrev pub zeros : ℕ → Bytes
zeros zero = []
zeros (suc n) = b'0' ∷ zeros n

abbrev pub quality_text : Quality → Bytes
quality_text zero_alone = codes "0"
quality_text zero_point = codes "0."
quality_text one_alone = codes "1"
quality_text (one_point k) = codes "1." ++ zeros k
quality_text (tenths n) = codes "0." ++ (n + 48) ∷ []
quality_text (hundredths n) = codes "0." ++ (n / 10 + 48) ∷ (n % 10 + 48) ∷ []
quality_text (thousandths n) =
    codes "0." ++ (n / 100 + 48) ∷ (n / 10 % 10 + 48) ∷ (n % 10 + 48) ∷ []

abbrev pub in_thousandths : Quality → ℕ
in_thousandths zero_alone = 0
in_thousandths zero_point = 0
in_thousandths one_alone = 1000
in_thousandths (one_point k) = 1000
in_thousandths (tenths n) = n * 100
in_thousandths (hundredths n) = n * 10
in_thousandths (thousandths n) = n

-- No more digits than three, and each is one.
abbrev pub IsQuality : Quality → Type 0
IsQuality (one_point k) = k < 4
IsQuality (tenths n) = n < 10
IsQuality (hundredths n) = n < 100
IsQuality (thousandths n) = n < 1000
IsQuality _ = Unit {0}

-- A byte that is neither a blank nor a separator.
abbrev pub is_plain : ℕ → Bool
is_plain c = not (is_ascii_whitespace c || c == b',' || c == b';')

abbrev quality_reads : Quality → Bool
quality_reads q = elim (parse_quality (quality_text q)) [
  | none ↦ false
  | some value ↦ value == in_thousandths q && all is_plain (quality_text q)
]

quality_table :
    (holds_below 4 (λ k. quality_reads (one_point k)) ≡ true)
    × (holds_below 10 (λ n. quality_reads (tenths n)) ≡ true)
    × (holds_below 100 (λ n. quality_reads (hundredths n)) ≡ true)
    × (holds_below 1000 (λ n. quality_reads (thousandths n)) ≡ true)
unfolding holds_below parse_quality is_ascii_whitespace
quality_table = (refl, refl, refl, refl)

quality_entry : (q : Quality) → IsQuality q → quality_reads q ≡ true
unfolding parse_quality is_ascii_whitespace
quality_entry zero_alone h = refl
quality_entry zero_point h = refl
quality_entry one_alone h = refl
quality_entry (one_point k) h =
    let (t, _, _, _) = quality_table in holds_below_lem 4 (λ k. quality_reads (one_point k)) k t h
quality_entry (tenths n) h =
    let (_, t, _, _) = quality_table in holds_below_lem 10 (λ n. quality_reads (tenths n)) n t h
quality_entry (hundredths n) h =
    let (_, _, t, _) = quality_table in
    holds_below_lem 100 (λ n. quality_reads (hundredths n)) n t h
quality_entry (thousandths n) h =
    let (_, _, _, t) = quality_table in
    holds_below_lem 1000 (λ n. quality_reads (thousandths n)) n t h

pub parse_quality-quality_text :
    (q : Quality)
    → IsQuality q
    → (parse_quality (quality_text q) ≡ some (in_thousandths q))
      × (all is_plain (quality_text q) ≡ true)
parse_quality-quality_text q h = go (parse_quality (quality_text q)) refl (quality_entry q h)
  where
    go :
        (o : Option ℕ)
        → parse_quality (quality_text q) ≡ o
        → (elim o [
          | none ↦ false
          | some value ↦ value == in_thousandths q && all is_plain (quality_text q)
        ])
          ≡ true
        → (parse_quality (quality_text q) ≡ some (in_thousandths q))
          × (all is_plain (quality_text q) ≡ true)
    go none e t = absurd (cc)
    go (some value) e t =
        let (v, p) = &&_true (value == in_thousandths q) (all is_plain (quality_text q)) t in
        (e ∙ ap some ((==_iff value (in_thousandths q)).0 v), p)

-- Letters in upper case where the flag says so.
abbrev pub cased : Bool → ℕ → ℕ
cased upper c = if upper && within b'a' b'z' c then c - 32 else c

abbrev pub with_case : List Bool → Bytes → Bytes
with_case flags [] = []
with_case [] (c ∷ cs) = c ∷ with_case [] cs
with_case (upper ∷ flags) (c ∷ cs) = cased upper c ∷ with_case flags cs

-- Spaces and tabs.
abbrev pub blanks : List Bool → Bytes
blanks = map (λ tab. if tab then 9 else 32)

abbrev pub padded : List Bool → Bytes → List Bool → Bytes
padded before w after = blanks before ++ (w ++ blanks after)

trim_start-blanks :
    (before : List Bool) (w : Bytes)
    → trim_start is_ascii_whitespace (blanks before ++ w) ≡ trim_start is_ascii_whitespace w
unfolding trim_start is_ascii_whitespace
trim_start-blanks [] w = refl
trim_start-blanks (true ∷ before) w = trim_start-blanks before w
trim_start-blanks (false ∷ before) w = trim_start-blanks before w

trim_end-blanks : (after : List Bool) → trim_end is_ascii_whitespace (blanks after) ≡ []
unfolding trim_end is_ascii_whitespace
trim_end-blanks [] = refl
trim_end-blanks (true ∷ after) = rw (trim_end-blanks after) refl
trim_end-blanks (false ∷ after) = rw (trim_end-blanks after) refl

plain_not_blank : (c : ℕ) → is_plain c ≡ true → is_ascii_whitespace c ≡ false
plain_not_blank c h = ground arith

trim_end-word :
    (w : Bytes) (after : List Bool)
    → all is_plain w ≡ true
    → trim_end is_ascii_whitespace (w ++ blanks after) ≡ w
unfolding trim_end
trim_end-word [] after h = trim_end-blanks after
trim_end-word (c ∷ cs) after h =
    let (first, later) = &&_true (is_plain c) (all is_plain cs) h in
    rw (plain_not_blank c first) (ap (◌∷◌ c) (trim_end-word cs after later))

trim_start_all : (after : List Bool) → trim_start is_ascii_whitespace (blanks after) ≡ []
unfolding trim_start is_ascii_whitespace
trim_start_all [] = refl
trim_start_all (true ∷ after) = trim_start_all after
trim_start_all (false ∷ after) = trim_start_all after

trim_word :
    (w : Bytes) (after : List Bool)
    → all is_plain w ≡ true
    → trim_end is_ascii_whitespace (trim_start is_ascii_whitespace (w ++ blanks after)) ≡ w
unfolding trim_start
trim_word [] after h =
    ap (trim_end is_ascii_whitespace) (trim_start_all after) ∙ unfold trim_end in refl
trim_word (c ∷ cs) after h =
    rw (plain_not_blank c (&&_true (is_plain c) (all is_plain cs) h).0)
      (trim_end-word (c ∷ cs) after h)

-- Blanks around a word are trimmed.
pub trim_ascii-padded :
    (before : List Bool) (w : Bytes) (after : List Bool)
    → all is_plain w ≡ true
    → trim_ascii (padded before w after) ≡ w
unfolding trim_ascii trim_by
trim_ascii-padded before w after h =
    ap (trim_end is_ascii_whitespace) (trim_start-blanks before (w ++ blanks after))
    ∙ trim_word w after h
