-- ===== src/Config/ExtraHeaders.antt =====
-- `parse_extra_headers` of config.rs, and the tests on a header's name and value.
use statika.Prelude.{
  [], ok, err, ◌>>=◌, ◌>>◌, ◌∷◌, if◌then◌else◌, ℕ, suc, Result, List, Bool, ok_or, map, any, within,
  fail_if, is_empty, leb, ◌==◌, not, ◌||◌, ltb, all, length,
}
use statika.Prelude.Bytes.{
  Text, codes, equal, split_once, trim, trim_by, is_whitespace, to_ascii_lowercase,
}
use statika.Prelude.Encode.{encode, lines}
use statika.Config.{
  set, not_present, not_unicode, max_extra_headers, max_header_name_bytes, max_header_value_bytes,
  Header, ConfigError, Var, Env, value, var, non_utf8,
}
use statika.Config.Values.{is_one_of}

unfoldable pub is_header_name_byte : ℕ → Bool
is_header_name_byte byte =
    byte == b'!'
    || byte == b'#'
    || byte == b'$'
    || byte == b'%'
    || byte == b'&'
    || byte == 39
    || byte == b'*'
    || byte == b'+'
    || byte == b'-'
    || byte == b'.'
    || byte == b'^'
    || byte == b'_'
    || byte == b'`'
    || byte == b'|'
    || byte == b'~'
    || within b'0' b'9' byte
    || within b'a' b'z' byte
    || within b'A' b'Z' byte

unfoldable pub is_invalid_header_value_byte : ℕ → Bool
is_invalid_header_value_byte byte = within 0 8 byte || within 10 31 byte || byte == 127

abbrev pub reserved_headers : List Text
reserved_headers =
    codes "cache-control"
    ∷ codes "connection"
    ∷ codes "content-encoding"
    ∷ codes "content-length"
    ∷ codes "content-type"
    ∷ codes "date"
    ∷ codes "etag"
    ∷ codes "last-modified"
    ∷ codes "server"
    ∷ codes "transfer-encoding"
    ∷ codes "vary"
    ∷ []

unfoldable pub is_reserved_response_header : Text → Bool
unfolding equal to_ascii_lowercase
is_reserved_response_header name = is_one_of reserved_headers (map to_ascii_lowercase name)

-- The test on the name and the value of the header that would be number `count`, from 0.
unfoldable pub is_refused_header : ℕ → Text → Text → Bool
is_refused_header count name value =
    leb max_extra_headers count
    || is_empty name
    || ltb max_header_value_bytes (length (encode value))
    || ltb max_header_name_bytes (length (encode name))
    || not (all is_header_name_byte (encode name))
    || any is_invalid_header_value_byte (encode value)
    || is_reserved_response_header name

-- One line that is not blank, once `count` headers are read.
unfoldable pub extra_header : Text → ℕ → Text → Result ConfigError Header
extra_header key count line = do
  parts ← ok_or (split_once b':' line) (ConfigError.invalid key line)
  let name = trim parts.0
  let value = trim parts.1
  fail_if (is_refused_header count name value) (ConfigError.invalid key line)
  ok (record { name = name; value = value })

unfoldable pub extra_headers : Text → ℕ → List Text → Result ConfigError (List Header)
extra_headers key count [] = ok []
extra_headers key count (raw ∷ later) =
    let line = trim raw in
    let skipped = extra_headers key count later in
    let rest = extra_headers key (suc count) later in
    if is_empty line
    then skipped
    else (do header ← extra_header key count line; headers ← rest; ok (header ∷ headers))

-- The match on the variable's value.
unfoldable pub headers_of : Text → Var → Result ConfigError (List Header)
headers_of key (set raw) = extra_headers key 0 (lines raw)
headers_of key not_present = ok []
headers_of key not_unicode = err (ConfigError.invalid key non_utf8)

unfoldable pub parse_extra_headers : Env → Text → Result ConfigError (List Header)
unfolding var headers_of extra_headers extra_header is_refused_header encode lines split_once trim
    trim_by is_whitespace is_header_name_byte is_invalid_header_value_byte
    is_reserved_response_header
parse_extra_headers env key = headers_of key (var env key)
