-- ===== src/Config/Components.antt =====
-- What the components of an accepted path are.
use statika.Prelude.{
  refl, false, [], inl, inr, ok, ◌∷◌, ◌≡◌, arith, ◌≢◌, List, All, subst, >>=-eq-ok, ok-injective,
  fail_if, Bool-cases, not, fail_if-eq-ok, is_empty, ◌||◌, ◌==◌, ap,
}
use statika.Prelude.Bytes.{equal_iff, contains, Bytes, Text, codes, starts_with, split_on, equal}
use statika.Prelude.Split.{Free, split_pieces, split_bytes}
use statika.Config.{ConfigError}
use statika.Config.Paths.{
  parse_components, components_from, is_bad_path, parse_url_prefix, parse_relative_path,
  without_slashes,
}
use statika.Prelude.Utf8.{from_utf8_lossy}

-- A name that does not leave the directory that it is opened in.
pub record IsEntryName (component : Bytes) : Type 0 where
  pub some_byte : component ≢ []
  pub not_dot : component ≢ codes "."
  pub not_dot_dot : component ≢ codes ".."
  pub bytes : All (λ b. (b ≢ 0) × (b ≢ 92)) component
  pub no_slash : Free b'/' component

path_bytes : (bytes : Bytes) → is_bad_path bytes ≡ false → All (λ b. (b ≢ 0) × (b ≢ 92)) bytes
unfolding is_bad_path contains
path_bytes [] h = tt
path_bytes (c ∷ []) h = ground arith
path_bytes (c ∷ d ∷ cs) h = ground (arith, path_bytes (d ∷ cs))

entry_name :
    (piece : Bytes)
    → (is_empty piece || equal piece (codes ".") || equal piece (codes "..")) ≡ false
    → All (λ b. (b ≢ 0) × (b ≢ 92)) piece
    → Free b'/' piece
    → IsEntryName piece
entry_name [] d a h = absurd (cc)
entry_name (c ∷ cs) d a h = record {
  some_byte = λ x. cc;
  not_dot = λ x. ground (arith, equal_iff (c ∷ cs) (codes "."));
  not_dot_dot = λ x. ground (arith, equal_iff (c ∷ cs) (codes ".."));
  bytes = a;
  no_slash = h;
}

components_from-IsEntryName :
    (key : Text) (whole : Bytes) (pieces : List Bytes) {components : List Bytes}
    → components_from key whole pieces ≡ ok components
    → All (All (λ b. (b ≢ 0) × (b ≢ 92))) pieces
    → All (Free b'/') pieces
    → (components ≡ pieces) × All IsEntryName components
unfolding components_from
components_from-IsEntryName key whole [] e a h =
    subst (λ cs. (cs ≡ []) × All IsEntryName cs) (ok-injective e) (refl, tt)
components_from-IsEntryName key whole (piece ∷ pieces) e a h =
    elim (Bool-cases (is_empty piece || equal piece (codes ".") || equal piece (codes ".."))) [
      | inl d ↦ cc (rw d at e)
      | inr d ↦
          let (rest, later, found) =
            >>=-eq-ok (components_from key whole pieces) (λ cs. ok (piece ∷ cs)) (rw d at e) in
          let (same, good) = components_from-IsEntryName key whole pieces later a.1 h.1 in
          let name = entry_name piece d a.0 h.0 in
          subst (λ cs. (cs ≡ piece ∷ pieces) × All IsEntryName cs) (ok-injective found)
            (ap (λ cs. piece ∷ cs) same, (name, good))
    ]

pub parse_components-IsEntryName :
    (key : Text) (bytes : Bytes) {components : List Bytes}
    → parse_components key bytes ≡ ok components
    → All IsEntryName components
unfolding parse_components
parse_components-IsEntryName key bytes e =
    let (_, good, found) =
      >>=-eq-ok (fail_if (is_bad_path bytes) (ConfigError.invalid key (from_utf8_lossy bytes))) _
        e in
    let clean =
      path_bytes bytes (fail_if-eq-ok _ (ConfigError.invalid key (from_utf8_lossy bytes)) good) in
    (components_from-IsEntryName key bytes (split_on b'/' bytes) found
      (split_bytes _ (λ c. c == b'/') bytes clean) (split_pieces (λ c. c == b'/') bytes)).1

pub parse_url_prefix-IsEntryName :
    (key : Text) (bytes : Bytes) {components : List Bytes}
    → parse_url_prefix key bytes ≡ ok components
    → All IsEntryName components
unfolding parse_url_prefix
parse_url_prefix-IsEntryName key bytes e =
    let (_, _, found) =
      >>=-eq-ok
        (fail_if (not (starts_with (codes "/") bytes))
          (ConfigError.invalid key (from_utf8_lossy bytes)))
        _ e in
    parse_components-IsEntryName key (without_slashes bytes) found

pub parse_relative_path-IsEntryName :
    (key : Text) (bytes : Bytes) {components : List Bytes}
    → parse_relative_path key bytes ≡ ok components
    → All IsEntryName components
unfolding parse_relative_path
parse_relative_path-IsEntryName key bytes e =
    let (_, _, found) =
      >>=-eq-ok
        (fail_if (starts_with (codes "/") bytes) (ConfigError.invalid key (from_utf8_lossy bytes)))
        _ e in
    parse_components-IsEntryName key bytes found
