-- ===== src/Prelude/Encode.antt =====
-- The UTF-8 encoding of a text, and the lines of one.
use statika.Prelude.{none, some, [], ◌∷◌, if◌then◌else◌, ℕ}
use Prim.Native.Nat.{ℕ, ◌+◌, ◌/◌, ◌%◌}
use mathlib.Core.Option.{none, some}
use mathlib.Core.List.{List, [], ◌∷◌, ◌++◌}
use statika.Prelude.Tests.{ltb, if◌then◌else◌}
use statika.Prelude.Lists.{is_empty}
use statika.Prelude.Bytes
use statika.Prelude.Bytes.{Bytes, Text, strip_last, split_on}

unfoldable pub encode_char : ℕ → Bytes
encode_char c =
    if ltb c 0x80
    then c ∷ []
    else if ltb c 0x800
    then (192 + c / 64) ∷ (128 + c % 64) ∷ []
    else if ltb c 0x10000
    then (224 + c / 4096) ∷ (128 + c / 64 % 64) ∷ (128 + c % 64) ∷ []
    else (240 + c / 262144) ∷ (128 + c / 4096 % 64) ∷ (128 + c / 64 % 64) ∷ (128 + c % 64) ∷ []

-- `str::as_bytes`
unfoldable pub encode : Text → Bytes
unfolding encode_char
encode [] = []
encode (c ∷ cs) = encode_char c ++ encode cs

strip_line_end : Text → Text
strip_line_end line = elim (strip_last 13 line) [ none ↦ line | some stripped ↦ stripped ]

line_pieces : List Text → List Text
line_pieces [] = []
line_pieces (line ∷ []) = if is_empty line then [] else line ∷ []
line_pieces (line ∷ next ∷ pieces) = strip_line_end line ∷ line_pieces (next ∷ pieces)

-- `str::lines`: what stands behind the last line feed is a line if it is not empty, and keeps a
-- carriage return.
unfoldable pub lines : Text → List Text
unfolding Bytes.split strip_last strip_line_end line_pieces
lines text = line_pieces (split_on 10 text)
