-- ===== src/Http/Parse/Host.antt =====
-- The Host lines of a request head.
use statika.Prelude.{
  refl, none, some, [], ok, err, ◌>>=◌, ◌∷◌, ◌≡◌, arith, if◌then◌else◌, ℕ, Option, List, ◌+◌,
  is_empty, >>=-eq-ok, fail_if, ltb, length, ◌||◌, ok_or, not, all, ok_or-eq-ok, ok-injective,
  Result, ◌&&◌, ◌==◌, fail_if-eq-ok, sym, ◌∙◌,
}
use statika.Http.Parse.{
  Headers, RequestLine, no_headers, header_field, header_line, header_lines, parse_request_line,
  parse_headers, parse_request, http_1_1, max_header_line_bytes, starts_blank, parse_method,
}
use statika.Prelude.Bytes.{
  Bytes, strip_last, eq_ignore_ascii_case, codes, split_once, split_on, equal, equal_iff,
}
use statika.Http.Bytes.{trim_ascii, value_contains_invalid_ctl, is_header_name_byte}
use statika.Http.Types.{RequestError, Request}

-- The name of a line, where it has a colon, names the host.
abbrev pub is_host : Option (Bytes × Bytes) → ℕ
is_host none = 0
is_host (some (before, after)) =
    if eq_ignore_ascii_case (trim_ascii before) (codes "host") then 1 else 0

-- The Host lines among those before the blank one; a line ends in a return.
abbrev pub host_lines : List Bytes → ℕ
host_lines [] = 0
host_lines (raw ∷ lines) = elim (strip_last 13 raw) [
  | none ↦ 0
  | some line ↦ if is_empty line then 0 else is_host (split_once b':' line) + host_lines lines
]

header_field-host :
    (h : Headers) (name value : Bytes) {h' : Headers}
    → header_field h name value ≡ ok h'
    → h'.host_count ≡ h.host_count + (if eq_ignore_ascii_case name (codes "host") then 1 else 0)
unfolding header_field
header_field-host h name value e = ground arith

header_line-host :
    (h : Headers) (line : Bytes) {h' : Headers}
    → header_line h line ≡ ok h'
    → h'.host_count ≡ h.host_count + is_host (split_once b':' line)
unfolding header_line
header_line-host h line e =
    let (_, _, e₁) =
      >>=-eq-ok
        (fail_if
          (ltb max_header_line_bytes (length line)
            || starts_blank line
            || value_contains_invalid_ctl line)
          RequestError.bad_request)
        _ e in
    let ((before, after), s, e₂) =
      >>=-eq-ok (ok_or (split_once b':' line) RequestError.bad_request) _ e₁ in
    let name = trim_ascii before in
    let (_, _, e₃) =
      >>=-eq-ok
        (fail_if (is_empty name || not (all is_header_name_byte name)) RequestError.bad_request) _
        e₂ in
    rw (ok_or-eq-ok (split_once b':' line) RequestError.bad_request s)
      (header_field-host h name (trim_ascii after) e₃)

-- The host lines from a line with its return stripped, and the lines after it.
abbrev from_line : Option Bytes → List Bytes → ℕ
from_line o lines = elim o [
  | none ↦ 0
  | some line ↦ if is_empty line then 0 else is_host (split_once b':' line) + host_lines lines
]

abbrev read_line : Headers → Option Bytes → List Bytes → Result RequestError Headers
read_line h o lines = ok_or o RequestError.bad_request >>= λ line. elim line [
  | [] ↦ ok h
  | c ∷ cs ↦ header_line h (c ∷ cs) >>= λ h'. header_lines h' lines
]

read_line-host :
    (o : Option Bytes) (lines : List Bytes) (h : Headers) {h' : Headers}
    → ((h₁ : Headers)
        → header_lines h₁ lines ≡ ok h'
        → h'.host_count ≡ h₁.host_count + host_lines lines)
    → read_line h o lines ≡ ok h'
    → h'.host_count ≡ h.host_count + from_line o lines
read_line-host none lines h later e = cc
read_line-host (some []) lines h later e = let e' = ok-injective e in ground arith
read_line-host (some (c ∷ cs)) lines h later e =
    let (h₁, first, rest) = >>=-eq-ok (header_line h (c ∷ cs)) (λ h'. header_lines h' lines) e in
    omega (arith, header_line-host h (c ∷ cs) first, later h₁ rest)

header_lines-host :
    (lines : List Bytes) (h : Headers) {h' : Headers}
    → header_lines h lines ≡ ok h'
    → h'.host_count ≡ h.host_count + host_lines lines
unfolding header_lines
header_lines-host [] h e = let e' = ok-injective e in ground arith
header_lines-host (raw ∷ lines) h e =
    read_line-host (strip_last 13 raw) lines h (λ h₁. header_lines-host lines h₁) e

parse_headers-host :
    (fields : RequestLine) (lines : List Bytes) {r : Request}
    → parse_headers fields lines ≡ ok r
    → fields.version ≡ http_1_1
    → host_lines lines ≡ 1
unfolding parse_headers
parse_headers-host fields lines e v =
    let (method, _, e₁) = >>=-eq-ok (parse_method fields.method_raw) _ e in
    let (h, counted, e₂) = >>=-eq-ok (header_lines no_headers lines) _ e₁ in
    let (_, checked, _) =
      >>=-eq-ok
        (fail_if (equal fields.version http_1_1 && not (h.host_count == 1))
          RequestError.bad_request)
        _ e₂ in
    ground (
      arith,
      fail_if-eq-ok _ RequestError.bad_request checked,
      (equal_iff fields.version http_1_1).1 v,
      header_lines-host lines no_headers counted,
    )

-- The pieces of a header that `parse_request` accepts: its first line, and the lines after it.
pub record Accepted (header : Bytes) (r : Request) : Type 0 where
  pub request_line : Bytes
  pub lines : List Bytes
  pub fields : RequestLine
  pub split_is : split_on b'\n' header ≡ request_line ∷ lines
  pub line_is : parse_request_line request_line ≡ ok fields
  pub headers_are : parse_headers fields lines ≡ ok r

abbrev from_pieces : List Bytes → Result RequestError Request
from_pieces [] = err RequestError.bad_request
from_pieces (request_line ∷ lines) =
    parse_request_line request_line >>= λ fields. parse_headers fields lines

Accepted-pieces :
    (header : Bytes) (pieces : List Bytes) {r : Request}
    → split_on b'\n' header ≡ pieces
    → from_pieces pieces ≡ ok r
    → Accepted header r
Accepted-pieces header [] s h = cc
Accepted-pieces header (request_line ∷ lines) s h =
    let (fields, first, rest) =
      >>=-eq-ok (parse_request_line request_line) (λ fields. parse_headers fields lines) h in
    record {
      request_line = request_line;
      lines = lines;
      fields = fields;
      split_is = s;
      line_is = first;
      headers_are = rest;
    }

from_pieces-parse_request :
    (header : Bytes) → parse_request header ≡ from_pieces (split_on b'\n' header)
unfolding parse_request
from_pieces-parse_request header = ground arith

-- What `parse_request` accepts has a first line and lines after it that its parts accept.
pub parse_request-Accepted :
    (header : Bytes) {r : Request} → parse_request header ≡ ok r → Accepted header r
parse_request-Accepted header e =
    Accepted-pieces header (split_on b'\n' header) refl (sym (from_pieces-parse_request header) ∙ e)

-- A request whose first line asks for HTTP/1.1 is accepted only with exactly one Host line before
-- the blank line, however its name is spelled.
pub parse_request-host :
    (header request_line : Bytes) (lines : List Bytes) {fields : RequestLine} {r : Request}
    → split_on b'\n' header ≡ request_line ∷ lines
    → parse_request_line request_line ≡ ok fields
    → fields.version ≡ http_1_1
    → parse_request header ≡ ok r
    → host_lines lines ≡ 1
parse_request-host header request_line lines {fields} s p v e =
    let pieces = sym (from_pieces-parse_request header) ∙ e in
    let parts = rw (s, p) at pieces in parse_headers-host fields lines parts v
