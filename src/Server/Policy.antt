-- ===== src/Server/Policy.antt =====
-- The choices of server.rs that are made from the path, the settings and the file alone: what is
-- denied, how long an answer may be kept, what counts as not modified, and what is logged.
mod Tests
pub mod Dotfiles
pub mod Json
pub mod Etag
pub mod Revalidate
use statika.Prelude.{
  refl, true, false, none, some, [], inl, inr, ok, err, ◌>>=◌, ◌>>◌, ◌∷◌, ◌≡◌, arith, if◌then◌else◌,
  ℕ, zero, suc, ◌++◌, ◌==◌, List, Option, Bool, ◌^◌, ◌-◌, ◌&&◌, within, ◌||◌, not,
}
use statika.Prelude.Bytes
use statika.Prelude.Bytes.{Bytes, Text, codes, equal, starts_with, split_on}
use statika.Prelude.Utf8.{from_utf8_lossy}
use statika.Prelude.Radix.{to_hex, pad}
use statika.Prelude.Int.{ℤ, pos, negsuc, leb_ℤ}
use statika.Config.{Config}
use statika.Http.Types.{Request}
use statika.Http.Response.{has_fingerprint, if_none_match_matches}

-- `==` and `starts_with` on slices of components.
equal_components : List Bytes → List Bytes → Bool
unfolding equal
equal_components [] [] = true
equal_components (a ∷ left) (b ∷ right) = equal a b && equal_components left right
equal_components _ _ = false

unfoldable pub starts_with_components : List Bytes → List Bytes → Bool
unfolding equal
starts_with_components path [] = true
starts_with_components [] (p ∷ prefix) = false
starts_with_components (component ∷ path) (p ∷ prefix) =
    equal component p && starts_with_components path prefix

-- The closure over the position and the component.
is_denied : ℕ → Bytes → Bool
unfolding equal starts_with
is_denied index component =
    starts_with (codes ".") component && not (index == 0 && equal component (codes ".well-known"))

denied_from : ℕ → List Bytes → Bool
denied_from index [] = false
denied_from index (component ∷ components) =
    is_denied index component || denied_from (suc index) components

unfoldable pub contains_denied_dotfile : List Bytes → Bool
unfolding is_denied denied_from
contains_denied_dotfile components = denied_from 0 components

unfoldable pub is_health_path : List Bytes → Bool
unfolding equal
is_health_path (component ∷ []) =
    equal component (codes "health") || equal component (codes "healthz")
is_health_path _ = false

unfoldable pub cache_control : {A : Type 0} → List Bytes → Bool → Config A → Text
unfolding equal_components starts_with_components has_fingerprint
cache_control components fallback config =
    if fallback || equal_components components config.index
    then codes "no-cache"
    else if starts_with_components components config.assets_prefix && has_fingerprint components
    then codes "public, max-age=31536000, immutable"
    else if starts_with_components components config.assets_prefix
    then codes "public, max-age=3600"
    else codes "no-cache"

-- What is read of a file's metadata.
pub record Metadata : Type 0 where
  pub ino : ℕ
  pub len : ℕ
  pub mtime : ℤ
  pub mtime_nsec : ℤ

-- `{:x}` of an i64 prints its two's complement.
hex_i64 : ℤ → Text
unfolding to_hex
hex_i64 (pos n) = to_hex n
hex_i64 (negsuc n) = to_hex (2 ^ 64 - suc n)

unfoldable pub etag : Metadata → Text
unfolding to_hex hex_i64
etag metadata =
    codes "\""
    ++ to_hex metadata.ino
    ++ codes "-"
    ++ to_hex metadata.len
    ++ codes "-"
    ++ hex_i64 metadata.mtime
    ++ codes "-"
    ++ hex_i64 metadata.mtime_nsec
    ++ codes "\""

is_unmodified_since : Option ℤ → ℤ → Bool
is_unmodified_since none mtime = false
is_unmodified_since (some since) mtime = leb_ℤ (pos 0) mtime && leb_ℤ mtime since

-- A header If-None-Match decides alone.
not_modified_by : Option Text → Option ℤ → Text → ℤ → Bool
not_modified_by none since tag mtime = is_unmodified_since since mtime
not_modified_by (some value) since tag mtime = if_none_match_matches (some value) tag

unfoldable pub is_not_modified : Request → Text → ℤ → Bool
unfolding is_unmodified_since not_modified_by if_none_match_matches
is_not_modified request tag mtime =
    not_modified_by request.if_none_match request.if_modified_since tag mtime

unfoldable pub request_path_for_log : Bytes → Text
unfolding Bytes.split from_utf8_lossy
request_path_for_log target = elim (split_on b'?' target) [
  | [] ↦ from_utf8_lossy target
  | path ∷ _ ↦ from_utf8_lossy path
]

-- `char::is_control`
is_control : ℕ → Bool
is_control c = within 0 31 c || within 127 159 c

-- The match on one character.
escape_char : ℕ → Text
escape_char c =
    if c == 34
    then 92 ∷ 34 ∷ []
    else if c == 92
    then 92 ∷ 92 ∷ []
    else if c == 10
    then 92 ∷ b'n' ∷ []
    else if c == 13
    then 92 ∷ b'r' ∷ []
    else if c == 9
    then 92 ∷ b't' ∷ []
    else if is_control c
    then 92 ∷ b'u' ∷ pad 4 (to_hex c)
    else c ∷ []

unfoldable pub escape_json : Text → Text
unfolding is_control escape_char pad to_hex
escape_json [] = []
escape_json (c ∷ cs) = escape_char c ++ escape_json cs
