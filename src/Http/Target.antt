-- ===== src/Http/Target.antt =====
-- `decode_target`: from the target of a request line to the components of a path.
mod Tests
pub mod Safe
pub mod RoundTrip
use statika.Prelude.{
  ℕ, ◌+◌, ◌*◌, Bool, true, false, not, ◌&&◌, ◌||◌, List, [], ◌∷◌, Option, none, some, ◌==◌,
  if◌then◌else◌, Result, ok, err, ◌>>=◌, ◌>>◌, fail_if, ok_or, is_empty,
}
use statika.Prelude.Bytes.{Bytes, codes, equal, contains, starts_with, ends_with, split_on}
use statika.Prelude.Bytes
use statika.Http.Types.{RequestError, DecodedPath}
use statika.Http.Bytes.{contains_ctl, hex}

-- The loop over the cursor, on the bytes that are left. The two digits are below 16, so
-- `(high << 4) | low` is `high * 16 + low`.
percent_decode : Bytes → Result RequestError Bytes
percent_decode [] = ok []
percent_decode (c ∷ []) = if c == b'%' then err RequestError.bad_request else ok (c ∷ [])
percent_decode (c ∷ d ∷ []) =
    let later = percent_decode (d ∷ []) in
    if c == b'%' then err RequestError.bad_request else (do rest ← later; ok (c ∷ rest))
percent_decode (c ∷ d ∷ e ∷ cs) =
    let later = percent_decode (d ∷ e ∷ cs) in
    let skipped = percent_decode cs in
    if c == b'%'
    then (do
      high ← ok_or (hex d) RequestError.bad_request
      low ← ok_or (hex e) RequestError.bad_request
      rest ← skipped
      ok ((high * 16 + low) ∷ rest))
    else (do rest ← later; ok (c ∷ rest))

is_dots : Bytes → Bool
unfolding equal
is_dots component = equal component (codes ".") || equal component (codes "..")

-- The loop over the pieces between slashes.
path_components : List Bytes → Result RequestError (List Bytes)
unfolding is_dots
path_components [] = ok []
path_components (component ∷ later) =
    let rest = path_components later in
    if is_empty component
    then rest
    else if is_dots component
    then err RequestError.bad_request
    else (do components ← rest; ok (component ∷ components))

-- `target.split(|byte| *byte == b'?').next().unwrap_or(target)`
unfoldable pub path_of : Bytes → Bytes
unfolding Bytes.split
path_of target = elim (split_on b'?' target) [ [] ↦ target | path ∷ _ ↦ path ]

has_bad_byte : Bytes → Bool
unfolding contains contains_ctl
has_bad_byte decoded = contains 0 decoded || contains 92 decoded || contains_ctl decoded

unfoldable pub decode_target : Bytes → Result RequestError DecodedPath
unfolding path_of starts_with ends_with percent_decode path_components has_bad_byte
decode_target target = do
  let path = path_of target
  fail_if (not (starts_with (codes "/") path)) RequestError.bad_request
  let trailing_slash = ends_with b'/' path
  decoded ← percent_decode path
  fail_if (has_bad_byte decoded) RequestError.bad_request
  components ← path_components (split_on b'/' decoded)
  ok (record { components = components; trailing_slash = trailing_slash })
