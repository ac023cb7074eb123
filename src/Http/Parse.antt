-- ===== src/Http/Parse.antt =====
-- `parse_request`: the request line, the header lines, and the checks over both.
mod Tests
pub mod Host
pub mod Line
use statika.Prelude.{
  ◌>>◌, refl, true, false, none, some, [], inl, inr, ok, err, ◌∷◌, ◌≡◌, arith, if◌then◌else◌, ℕ,
  zero, suc, List, Result, ◌*◌, Bool, Option, ok_or, ◌>>=◌, fail_if, ◌&&◌, is_empty, ltb, ◌+◌, ◌||◌,
  not, length, ◌==◌, all, ◌++◌,
}
use statika.Prelude.Bytes.{
  Bytes, codes, equal, starts_with, strip_last, split, split_on, split_once, eq_ignore_ascii_case,
  is_ascii_whitespace, Text,
}
use statika.Prelude.Utf8.{from_utf8_lossy}
use statika.Http.Types.{Method, Request, RequestError}
use statika.Http.Bytes.{
  trim_ascii, contains_ctl, value_contains_invalid_ctl, is_request_target_safe, is_header_name_byte,
}
use statika.Http.Date.{parse_http_date_bytes}
use statika.Http.Encodings.{accepted_encodings}
use statika.Prelude.Int.{ℤ}

abbrev max_header_line_bytes : ℕ
max_header_line_bytes = 8 * 1024

pub record RequestLine : Type 0 where
  pub method_raw : Bytes
  pub target : Bytes
  pub version : Bytes

-- `strip_suffix(b"\r").ok_or(RequestError::BadRequest)`
abbrev strip_return : Bytes → Result RequestError Bytes
strip_return line = ok_or (strip_last 13 line) RequestError.bad_request

-- Exactly three fields, the second a target that is safe.
request_fields : List Bytes → Result RequestError RequestLine
request_fields (method_raw ∷ target ∷ version ∷ []) = do
  fail_if
      (is_empty target
        || not (starts_with (codes "/") target)
        || not (is_request_target_safe target))
      RequestError.bad_request
  ok (record { method_raw = method_raw; target = target; version = version })
request_fields _ = err RequestError.bad_request

abbrev http_1_1 : Bytes
http_1_1 = codes "HTTP/1.1"

abbrev http_1_0 : Bytes
http_1_0 = codes "HTTP/1.0"

pub parse_request_line : Bytes → Result RequestError RequestLine
parse_request_line raw = do
  line ← strip_return raw
  fail_if (ltb max_header_line_bytes (length line) || contains_ctl line) RequestError.bad_request
  fields ← request_fields (split_on b' ' line)
  fail_if (not (equal fields.version http_1_1) && not (equal fields.version http_1_0))
      RequestError.bad_request
  ok fields

parse_method : Bytes → Result RequestError Method
parse_method method_raw =
    if equal method_raw (codes "GET")
    then ok Method.get
    else if equal method_raw (codes "HEAD")
    then ok Method.head
    else err (RequestError.method_not_allowed (from_utf8_lossy method_raw))

-- The variables of the loop over the header lines.
pub record Headers : Type 0 where
  pub accept_encoding : Bytes
  pub if_none_match : Option Text
  pub if_modified_since : Option ℤ
  pub host_count : ℕ

abbrev no_headers : Headers
no_headers = record {
  accept_encoding = [];
  if_none_match = none;
  if_modified_since = none;
  host_count = 0;
}

-- The chain over the names that count.
header_field : Headers → Bytes → Bytes → Result RequestError Headers
header_field h name value =
    if eq_ignore_ascii_case name (codes "host")
    then (do
      fail_if (is_empty value) RequestError.bad_request
      ok (record h { host_count = h.host_count + 1 }))
    else if eq_ignore_ascii_case name (codes "accept-encoding")
    then ok (record h { accept_encoding = h.accept_encoding ++ (value ++ b',' ∷ []) })
    else if eq_ignore_ascii_case name (codes "if-none-match")
    then ok (record h { if_none_match = some (from_utf8_lossy value) })
    else if eq_ignore_ascii_case name (codes "if-modified-since")
    then ok (record h { if_modified_since = parse_http_date_bytes value })
    else ok h

starts_blank : Bytes → Bool
starts_blank [] = false
starts_blank (c ∷ cs) = is_ascii_whitespace c

-- One round of the loop, on a line that is not empty.
header_line : Headers → Bytes → Result RequestError Headers
header_line h line = do
  fail_if
      (ltb max_header_line_bytes (length line)
        || starts_blank line
        || value_contains_invalid_ctl line)
      RequestError.bad_request
  (before, after) ← ok_or (split_once b':' line) RequestError.bad_request
  let name = trim_ascii before
  fail_if (is_empty name || not (all is_header_name_byte name)) RequestError.bad_request
  header_field h name (trim_ascii after)

header_lines : Headers → List Bytes → Result RequestError Headers
header_lines h [] = ok h
header_lines h (raw ∷ lines) = do
  line ← strip_return raw
  elim line [ [] ↦ ok h | c ∷ cs ↦ header_line h (c ∷ cs) >>= λ h'. header_lines h' lines ]

-- What follows the request line.
pub parse_headers : RequestLine → List Bytes → Result RequestError Request
parse_headers fields lines = do
  method ← parse_method fields.method_raw
  h ← header_lines no_headers lines
  fail_if (equal fields.version http_1_1 && not (h.host_count == 1)) RequestError.bad_request
  ok (record {
    method = method;
    target = fields.target;
    accepted_encodings = accepted_encodings h.accept_encoding;
    if_none_match = h.if_none_match;
    if_modified_since = h.if_modified_since;
  })

unfoldable pub parse_request : Bytes → Result RequestError Request
unfolding starts_with is_request_target_safe strip_last split contains_ctl request_fields equal
    from_utf8_lossy eq_ignore_ascii_case parse_http_date_bytes is_ascii_whitespace starts_blank
    value_contains_invalid_ctl split_once trim_ascii is_header_name_byte header_field header_line
    parse_method header_lines accepted_encodings parse_request_line parse_headers
parse_request header = elim (split_on b'\n' header) [
  | [] ↦ err RequestError.bad_request
  | request_line ∷ lines ↦ parse_request_line request_line >>= λ fields. parse_headers fields lines
]
