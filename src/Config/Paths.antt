-- ===== src/Config/Paths.antt =====
-- The parsers of paths of config.rs, which make lists of components.
use statika.Prelude.{
  none, some, [], ok, err, ◌>>=◌, ◌>>◌, ◌∷◌, if◌then◌else◌, Result, List, Bool, fail_if, is_empty,
  not, ◌||◌,
}
use statika.Prelude.Bytes
use statika.Prelude.Bytes.{
  Bytes, Text, codes, equal, contains, starts_with, ends_with, strip_last, split_on, split_once,
  trim, trim_start, trim_end, trim_by, is_whitespace, to_ascii_lowercase, is_ascii_digit,
}
use statika.Prelude.Utf8.{from_utf8_lossy}
use statika.Config.{ConfigError}

-- The loop over the pieces; `whole` is for the message.
unfoldable pub components_from : Text → Bytes → List Bytes → Result ConfigError (List Bytes)
components_from key whole [] = ok []
components_from key whole (component ∷ pieces) =
    let rest = components_from key whole pieces in
    if is_empty component || equal component (codes ".") || equal component (codes "..")
    then err (ConfigError.invalid key (from_utf8_lossy whole))
    else (do components ← rest; ok (component ∷ components))

unfoldable pub is_bad_path : Bytes → Bool
is_bad_path bytes = is_empty bytes || contains 0 bytes || contains 92 bytes

unfoldable pub parse_components : Text → Bytes → Result ConfigError (List Bytes)
unfolding components_from is_bad_path equal contains Bytes.split
parse_components key bytes = do
  fail_if (is_bad_path bytes) (ConfigError.invalid key (from_utf8_lossy bytes))
  components_from key bytes (split_on b'/' bytes)

-- `strip_prefix(b"/")` is behind a test for it.
abbrev pub without_slashes : Bytes → Bytes
without_slashes [] = []
without_slashes (c ∷ cs) = elim (strip_last b'/' cs) [ none ↦ cs | some stripped ↦ stripped ]

unfoldable pub parse_url_prefix : Text → Bytes → Result ConfigError (List Bytes)
unfolding parse_components starts_with strip_last
parse_url_prefix key bytes = do
  fail_if (not (starts_with (codes "/") bytes)) (ConfigError.invalid key (from_utf8_lossy bytes))
  parse_components key (without_slashes bytes)

unfoldable pub parse_relative_path : Text → Bytes → Result ConfigError (List Bytes)
unfolding parse_components starts_with
parse_relative_path key bytes = do
  fail_if (starts_with (codes "/") bytes) (ConfigError.invalid key (from_utf8_lossy bytes))
  parse_components key bytes
