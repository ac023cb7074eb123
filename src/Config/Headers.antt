-- ===== src/Config/Headers.antt =====
-- The extra headers of the settings.
use statika.Prelude.{
  true, false, [], inl, inr, ok, ◌∷◌, ◌≡◌, arith, ℕ, suc, ◌≢◌, ◌≤◌, ◌<◌, All, List, ◌⊎◌, >>=-eq-ok,
  length, ◌+◌, is_empty, ok_or, subst, ok-injective, All-mono, Bool-cases, fail_if, all-All,
  any-All, fail_if-eq-ok,
}
use statika.Prelude.Encode.{encode, lines}
use statika.Config.{Header, ConfigError, Env, var, Var, set, not_present, not_unicode}
use statika.Config.ExtraHeaders.{
  extra_headers, parse_extra_headers, extra_header, is_refused_header, is_header_name_byte,
  is_invalid_header_value_byte, is_reserved_response_header, headers_of,
}
use statika.Prelude.Bytes.{Text, split_once, trim, codes, eq_ignore_ascii_case}

abbrev pub IsTokenByte : ℕ → Type 0
IsTokenByte b = (33 ≤ b) × (b < 127) × (b ≢ b':')

-- A tab, or no control byte.
abbrev pub IsTextByte : ℕ → Type 0
IsTextByte b = ((32 ≤ b) ⊎ (b ≡ 9)) × (b ≢ 127)

-- The names that an extra header cannot have.
abbrev owned_names : List Text
owned_names =
    codes "Cache-Control"
    ∷ codes "Connection"
    ∷ codes "Content-Encoding"
    ∷ codes "Content-Length"
    ∷ codes "Content-Type"
    ∷ codes "Date"
    ∷ codes "ETag"
    ∷ codes "Last-Modified"
    ∷ codes "Server"
    ∷ codes "Transfer-Encoding"
    ∷ codes "Vary"
    ∷ []

-- A header that is one line of a response, with none of these names in whatever case.
pub record IsExtraHeader (header : Header) : Type 0 where
  pub named : header.name ≢ []
  pub name_bytes : All IsTokenByte (encode header.name)
  pub value_bytes : All IsTextByte (encode header.value)
  pub name_length : length (encode header.name) ≤ 64
  pub value_length : length (encode header.value) ≤ 1024
  pub not_owned : All (λ owned. eq_ignore_ascii_case header.name owned ≡ false) owned_names

token_byte : (b : ℕ) → is_header_name_byte b ≡ true → IsTokenByte b
unfolding is_header_name_byte
token_byte b h = ground arith

text_byte : (b : ℕ) → is_invalid_header_value_byte b ≡ false → IsTextByte b
unfolding is_invalid_header_value_byte
text_byte b h = ground arith

not_reserved :
    (name : Text)
    → is_reserved_response_header name ≡ false
    → All (λ owned. eq_ignore_ascii_case name owned ≡ false) owned_names
unfolding is_reserved_response_header eq_ignore_ascii_case
not_reserved name h = ground arith

name_not_empty : (name : Text) → is_empty name ≡ false → name ≢ []
name_not_empty [] h x = cc
name_not_empty (c ∷ cs) h x = cc

accepted :
    (count : ℕ) (name value : Text)
    → is_refused_header count name value ≡ false
    → (count < 32) × IsExtraHeader (record { name = name; value = value })
unfolding is_refused_header
accepted count name value h = (
  ground arith,
  record {
    named = name_not_empty name (ground arith);
    name_bytes =
        All-mono _ IsTokenByte token_byte (encode name)
          (all-All is_header_name_byte (encode name) (ground (arith)));
    value_bytes =
        All-mono _ IsTextByte text_byte (encode value)
          (any-All is_invalid_header_value_byte (encode value) (ground (arith)));
    name_length = ground arith;
    value_length = ground arith;
    not_owned = not_reserved name (ground arith);
  },
)

extra_header-IsExtraHeader :
    (key : Text) (count : ℕ) (line : Text) {header : Header}
    → extra_header key count line ≡ ok header
    → (count < 32) × IsExtraHeader header
unfolding extra_header
extra_header-IsExtraHeader key count line e =
    let (parts, _, e₁) =
      >>=-eq-ok (ok_or (split_once b':' line) (ConfigError.invalid key line)) _ e in
    let (_, good, e₂) =
      >>=-eq-ok
        (fail_if (is_refused_header count (trim parts.0) (trim parts.1))
          (ConfigError.invalid key line))
        _ e₁ in
    subst (λ (h : Header). (count < 32) × IsExtraHeader h) (ok-injective e₂)
      (accepted count (trim parts.0) (trim parts.1)
        (fail_if-eq-ok _ (ConfigError.invalid key line) good))

extra_headers-IsExtraHeader :
    (key : Text) (count : ℕ) (pieces : List Text) {headers : List Header}
    → extra_headers key count pieces ≡ ok headers
    → count ≤ 32
    → (count + length headers ≤ 32) × All IsExtraHeader headers
unfolding extra_headers
extra_headers-IsExtraHeader key count [] e h =
    subst (λ (hs : List Header). (count + length hs ≤ 32) × All IsExtraHeader hs) (ok-injective e)
      (omega arith, tt)
extra_headers-IsExtraHeader key count (raw ∷ later) e h = elim (Bool-cases (is_empty (trim raw))) [
  | inl d ↦ extra_headers-IsExtraHeader key count later (rw d at e) h
  | inr d ↦
      let (header, one, e₁) = >>=-eq-ok (extra_header key count (trim raw)) _ (rw d at e) in
      let (headers, rest, e₂) =
        >>=-eq-ok (extra_headers key (suc count) later) (λ hs. ok (header ∷ hs)) e₁ in
      let (room, good) = extra_header-IsExtraHeader key count (trim raw) one in
      let (fits, all_good) = extra_headers-IsExtraHeader key (suc count) later rest (omega arith) in
      subst (λ (hs : List Header). (count + length hs ≤ 32) × All IsExtraHeader hs)
        (ok-injective e₂) (omega arith, (good, all_good))
]

headers_of-IsExtraHeader :
    (key : Text) (v : Var) {headers : List Header}
    → headers_of key v ≡ ok headers
    → (length headers ≤ 32) × All IsExtraHeader headers
unfolding headers_of
headers_of-IsExtraHeader key (set raw) e =
    let (fits, good) = extra_headers-IsExtraHeader key 0 (lines raw) e (omega arith) in
    (omega arith, good)
headers_of-IsExtraHeader key not_present e =
    subst (λ (hs : List Header). (length hs ≤ 32) × All IsExtraHeader hs) (ok-injective e)
      (omega arith, tt)
headers_of-IsExtraHeader key not_unicode e = cc

-- The extra headers that are accepted are at most 32; each has a name of 1 to 64 bytes without a
-- colon, a space or a control byte, and a value of at most 1024 bytes without a control byte but the
-- tab. Its name is, in whatever case, none of Cache-Control, Connection, Content-Encoding,
-- Content-Length, Content-Type, Date, ETag, Last-Modified, Server, Transfer-Encoding and Vary.
pub parse_extra_headers-IsExtraHeader :
    (env : Env) (key : Text) {headers : List Header}
    → parse_extra_headers env key ≡ ok headers
    → (length headers ≤ 32) × All IsExtraHeader headers
unfolding parse_extra_headers
parse_extra_headers-IsExtraHeader env key e = headers_of-IsExtraHeader key (var env key) e
