-- ===== src/Http/Response.antt =====
-- `response_head` and what it is filled with: `content_type`, `has_fingerprint`, and
-- `if_none_match_matches`. The clock that `response_head` reads is an argument.
mod Tests
pub mod Lines
use statika.Prelude.{
  refl, true, false, none, some, [], inl, inr, ok, err, ◌>>=◌, ◌>>◌, ◌∷◌, ◌≡◌, arith, if◌then◌else◌,
  ℕ, zero, suc, Bool, Option, List, ◌++◌, ◌||◌, any, ◌==◌, leb, length, ◌&&◌, all,
}
use statika.Prelude.Bytes
use statika.Prelude.Bytes.{
  Bytes, Text, codes, equal, trim, split_on, split, strip_prefix, eq_ignore_ascii_case,
  is_ascii_hexdigit,
}
use statika.Prelude.Encode.{encode}
use statika.Prelude.Radix.{to_decimal}
use statika.Prelude.Int.{ℤ}
use statika.Http.Types.{Status, code, reason}
use statika.Http.Date.{http_date}

-- `candidate == "*" || candidate == etag || candidate.strip_prefix("W/") == Some(etag)`
unfoldable pub is_match : Text → Text → Bool
is_match etag candidate =
    equal candidate (codes "*")
    || equal candidate etag
    || elim (strip_prefix (codes "W/") candidate) [ none ↦ false | some tag ↦ equal tag etag ]

unfoldable pub if_none_match_matches : Option Text → Text → Bool
unfolding is_match equal strip_prefix trim Bytes.split
if_none_match_matches none etag = false
if_none_match_matches (some header) etag =
    any (λ candidate. is_match etag (trim candidate)) (split_on b',' header)

-- A line is written with its end, and the rest behind it.
abbrev pub push_line : Text → Text → Text
push_line line rest = line ++ 13 ∷ 10 ∷ rest

push_headers : List (Text × Text) → Text → Text
push_headers [] rest = rest
push_headers ((name, value) ∷ headers) rest =
    push_line (name ++ codes ": " ++ value) (push_headers headers rest)

push_content_type : Option Text → Text → Text
push_content_type none rest = rest
push_content_type (some content_type) rest = push_line (codes "Content-Type: " ++ content_type) rest

-- The text that `response_head` writes.
head_text : ℤ → Status → ℕ → Option Text → List (Text × Text) → Text
head_text now status content_length content_type headers =
    push_line (codes "HTTP/1.1 " ++ to_decimal (code status) ++ codes " " ++ reason status) (
      push_line (codes "Server: statika") (
        push_line (codes "Connection: close") (
          push_line (codes "X-Content-Type-Options: nosniff") (
            push_line (codes "Date: " ++ http_date now) (
              push_line (codes "Content-Length: " ++ to_decimal content_length)
                (push_content_type content_type (push_headers headers (push_line [] []))))))))

unfoldable pub response_head : ℤ → Status → ℕ → Option Text → List (Text × Text) → Bytes
unfolding head_text encode to_decimal http_date code reason push_headers push_content_type
response_head now status content_length content_type headers =
    encode (head_text now status content_length content_type headers)

last : List Bytes → Option Bytes
last [] = none
last (component ∷ []) = some component
last (component ∷ next ∷ components) = last (next ∷ components)

last_or : Bytes → List Bytes → Bytes
last_or piece [] = piece
last_or piece (next ∷ pieces) = last_or next pieces

-- `rsplit(|byte| *byte == b'.').next()`: the last of the pieces between dots.
extension_of : Bytes → Bytes
extension_of name = last_or [] (split_on b'.' name)

extension_or : Option Bytes → Bytes
extension_or none = []
extension_or (some name) = extension_of name

unfoldable pub content_type : List Bytes → Text
unfolding last extension_or extension_of last_or eq_ignore_ascii_case Bytes.split
content_type components =
    let extension = extension_or (last components) in
    if eq_ignore_ascii_case extension (codes "html") || eq_ignore_ascii_case extension (codes "htm")
    then codes "text/html; charset=utf-8"
    else if eq_ignore_ascii_case extension (codes "css")
    then codes "text/css; charset=utf-8"
    else if eq_ignore_ascii_case extension (codes "js")
        || eq_ignore_ascii_case extension (codes "mjs")
    then codes "text/javascript; charset=utf-8"
    else if eq_ignore_ascii_case extension (codes "json")
        || eq_ignore_ascii_case extension (codes "map")
    then codes "application/json; charset=utf-8"
    else if eq_ignore_ascii_case extension (codes "webmanifest")
    then codes "application/manifest+json; charset=utf-8"
    else if eq_ignore_ascii_case extension (codes "svg")
    then codes "image/svg+xml"
    else if eq_ignore_ascii_case extension (codes "png")
    then codes "image/png"
    else if eq_ignore_ascii_case extension (codes "jpg")
        || eq_ignore_ascii_case extension (codes "jpeg")
    then codes "image/jpeg"
    else if eq_ignore_ascii_case extension (codes "gif")
    then codes "image/gif"
    else if eq_ignore_ascii_case extension (codes "webp")
    then codes "image/webp"
    else if eq_ignore_ascii_case extension (codes "avif")
    then codes "image/avif"
    else if eq_ignore_ascii_case extension (codes "ico")
    then codes "image/x-icon"
    else if eq_ignore_ascii_case extension (codes "woff")
    then codes "font/woff"
    else if eq_ignore_ascii_case extension (codes "woff2")
    then codes "font/woff2"
    else if eq_ignore_ascii_case extension (codes "txt")
    then codes "text/plain; charset=utf-8"
    else if eq_ignore_ascii_case extension (codes "csv")
    then codes "text/csv; charset=utf-8"
    else if eq_ignore_ascii_case extension (codes "xml")
    then codes "application/xml; charset=utf-8"
    else if eq_ignore_ascii_case extension (codes "wasm")
    then codes "application/wasm"
    else if eq_ignore_ascii_case extension (codes "pdf")
    then codes "application/pdf"
    else if eq_ignore_ascii_case extension (codes "mp4")
    then codes "video/mp4"
    else codes "application/octet-stream"

is_separator : ℕ → Bool
is_separator byte = byte == b'.' || byte == b'-' || byte == b'_'

is_fingerprint : Bytes → Bool
is_fingerprint part = leb 8 (length part) && all is_ascii_hexdigit part

unfoldable pub has_fingerprint : List Bytes → Bool
unfolding last is_separator is_fingerprint is_ascii_hexdigit Bytes.split
has_fingerprint components = elim (last components) [
  | none ↦ false
  | some name ↦ any is_fingerprint (split is_separator name)
]
