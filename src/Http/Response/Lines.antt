-- ===== src/Http/Response/Lines.antt =====
-- The lines of a response head.
use statika.Prelude.{
  refl, false, none, some, [], inl, inr, ◌∷◌, ◌≡◌, arith, ℕ, zero, suc, ap, ◌++◌, get_or, List,
  ◌==◌, Option, ◌/◌, map, ◌%◌, ◌∙◌, ◌+◌, All, Bool-cases, sym, ◌-◌, ltb, length, any,
}
use statika.Prelude.Bytes
use statika.Prelude.Bytes.{Bytes, Text, codes, split_on}
use statika.Prelude.Split.{Free, split-append}
use statika.Prelude.Encode.{encode, encode_char}
use statika.Prelude.Radix.{to_decimal, write_radix, zeros, pad, digit}
use statika.Prelude.Int.{ℤ, pos, negsuc, pos_part}
use statika.Http.Types.{Status, code, reason}
use statika.Http.Date.{http_date, date_text, date_line, pad_year, weekdays, months, civil_from_days}
use statika.Http.Response.{response_head, head_text, push_line, push_headers, push_content_type}
use mathlib.Core.List.{append_assoc}

-- No line feed.
pub record IsLine (t : Text) : Type 0 where
  pub no_line_feed : Free 10 t

line : (t : Text) → Free 10 t → IsLine t
line t h = record { no_line_feed = h }

Free-append : (a b : Text) → Free 10 a → Free 10 b → Free 10 (a ++ b)
Free-append [] b h k = k
Free-append (c ∷ cs) b h k = ground (arith, Free-append cs b)

IsLine-append : (a b : Text) → IsLine a → IsLine b → IsLine (a ++ b)
IsLine-append a b h k = line (a ++ b) (Free-append a b h.no_line_feed k.no_line_feed)

write_radix-Free : (fuel n : ℕ) (out : Text) → Free 10 out → Free 10 (write_radix 10 fuel n out)
unfolding write_radix
write_radix-Free zero n out h = h
write_radix-Free (suc fuel) n out h =
    let rest = write_radix-Free fuel (n / 10) (digit (n % 10) ∷ out) (ground arith) in
    elim (Bool-cases (ltb n 10)) [ inl e ↦ rw e (ground arith) | inr e ↦ rw e rest ]

to_decimal-IsLine : (n : ℕ) → IsLine (to_decimal n)
unfolding to_decimal
to_decimal-IsLine n = line (to_decimal n) (write_radix-Free 64 n [] refl)

zeros-Free : (n : ℕ) (t : Text) → Free 10 t → Free 10 (zeros n t)
unfolding zeros
zeros-Free zero t h = h
zeros-Free (suc n) t h = ground (arith, zeros-Free n t h)

pad-IsLine : (width n : ℕ) → IsLine (pad width (to_decimal n))
unfolding pad
pad-IsLine width n =
    line (pad width (to_decimal n))
      (zeros-Free (width - length (to_decimal n)) (to_decimal n) (to_decimal-IsLine n).no_line_feed)

pad_year-IsLine : (z : ℤ) → IsLine (pad_year z)
pad_year-IsLine (pos n) = pad-IsLine 4 n
pad_year-IsLine (negsuc n) =
    IsLine-append (b'-' ∷ []) (pad 3 (to_decimal (suc n))) (line (b'-' ∷ []) refl)
      (pad-IsLine 3 (suc n))

get_or-IsLine : (names : List Text) (i : ℕ) → All IsLine names → IsLine (get_or names i [])
get_or-IsLine [] i h = line [] refl
get_or-IsLine (w ∷ names) zero h = h.0
get_or-IsLine (w ∷ names) (suc i) h = get_or-IsLine names i h.1

table_lines : (names : List Text) → any (any (λ c. c == 10)) names ≡ false → All IsLine names
table_lines [] h = tt
table_lines (w ∷ names) h = (line w (ground arith), table_lines names (ground arith))

infixl 4 ◌also◌
◌also◌ : {a b : Text} → IsLine a → IsLine b → IsLine (a ++ b)
◌also◌ {a} {b} h k = IsLine-append a b h k

date_text-IsLine : (days s : ℕ) (c : ℤ × ℕ × ℕ) → IsLine (date_text days s c)
unfolding date_text date_line
date_text-IsLine days s (year, month, day) =
    get_or-IsLine weekdays ((days + 4) % 7) (table_lines weekdays refl)
    also line (codes ", ") refl
    also pad-IsLine 2 day
    also line (codes " ") refl
    also get_or-IsLine months (month - 1) (table_lines months refl)
    also line (codes " ") refl
    also pad_year-IsLine year
    also line (codes " ") refl
    also pad-IsLine 2 (s / 3600)
    also line (codes ":") refl
    also pad-IsLine 2 (s % 3600 / 60)
    also line (codes ":") refl
    also pad-IsLine 2 (s % 60)
    also line (codes " GMT") refl

http_date-IsLine : (now : ℤ) → IsLine (http_date now)
unfolding http_date
http_date-IsLine now =
    let seconds = pos_part now in
    date_text-IsLine (seconds / 86400) (seconds % 86400) (civil_from_days (pos (seconds / 86400)))

encode_char-Free : (c : ℕ) → (c == 10) ≡ false → Free 10 (encode_char c)
unfolding encode_char
encode_char-Free c h = ground arith

encode-Free : (t : Text) → Free 10 t → Free 10 (encode t)
unfolding encode
encode-Free [] h = refl
encode-Free (c ∷ cs) h =
    Free-append (encode_char c) (encode cs) (encode_char-Free c (ground arith))
      (encode-Free cs (ground arith))

encode-append : (a b : Text) → encode (a ++ b) ≡ encode a ++ encode b
unfolding encode
encode-append [] b = refl
encode-append (c ∷ cs) b =
    ap (λ t. encode_char c ++ t) (encode-append cs b)
    ∙ sym (append_assoc (encode_char c) (encode cs) (encode b))

-- The bytes of a line, with the carriage return.
abbrev pub line_bytes : Text → Bytes
line_bytes line = encode line ++ 13 ∷ []

push_line-split :
    (text rest : Text)
    → IsLine text
    → split_on 10 (encode (push_line text rest)) ≡ line_bytes text ∷ split_on 10 (encode rest)
unfolding encode encode_char
push_line-split text rest h =
    ap (split_on 10) (
      encode-append text (13 ∷ 10 ∷ rest)
      ∙ sym (append_assoc (encode text) (13 ∷ []) (10 ∷ encode rest)))
    ∙ split-append (λ c. c == 10) (line_bytes text) 10 (encode rest)
        (Free-append (encode text) (13 ∷ []) (encode-Free text h.no_line_feed) refl) refl

-- The lines that a header list and a content type stand for.
abbrev pub header_line_of : Text × Text → Text
header_line_of (name, value) = name ++ codes ": " ++ value

abbrev pub content_type_lines : Option Text → List Text
content_type_lines none = []
content_type_lines (some content_type) = (codes "Content-Type: " ++ content_type) ∷ []

abbrev pub response_lines : ℤ → Status → ℕ → Option Text → List (Text × Text) → List Text
response_lines now status content_length content_type headers =
    (codes "HTTP/1.1 " ++ to_decimal (code status) ++ codes " " ++ reason status)
    ∷ codes "Server: statika"
    ∷ codes "Connection: close"
    ∷ codes "X-Content-Type-Options: nosniff"
    ∷ (codes "Date: " ++ http_date now)
    ∷ (codes "Content-Length: " ++ to_decimal content_length)
    ∷ (content_type_lines content_type ++ (map header_line_of headers ++ [] ∷ []))

abbrev pub IsHeaderLine : Text × Text → Type 0
IsHeaderLine (name, value) = IsLine name × IsLine value

abbrev pub IsOptionalLine : Option Text → Type 0
IsOptionalLine none = Unit {0}
IsOptionalLine (some t) = IsLine t

end_lines : split_on 10 (encode (push_line [] [])) ≡ line_bytes [] ∷ [] ∷ []
unfolding encode encode_char Bytes.split
end_lines = refl

push_headers-split :
    (headers : List (Text × Text))
    → All IsHeaderLine headers
    → split_on 10 (encode (push_headers headers (push_line [] [])))
      ≡ map line_bytes (map header_line_of headers ++ [] ∷ []) ++ [] ∷ []
unfolding push_headers
push_headers-split [] h = end_lines
push_headers-split ((name, value) ∷ headers) h =
    push_line-split (name ++ codes ": " ++ value) _ (h.0.0 also line (codes ": ") refl also h.0.1)
    ∙ ap (λ t. line_bytes (name ++ codes ": " ++ value) ∷ t) (push_headers-split headers h.1)

push_content_type-split :
    (content_type : Option Text) (headers : List (Text × Text))
    → IsOptionalLine content_type
    → All IsHeaderLine headers
    → split_on 10 (encode (push_content_type content_type (push_headers headers (push_line [] []))))
      ≡ map line_bytes (content_type_lines content_type ++ (map header_line_of headers ++ [] ∷ []))
        ++ [] ∷ []
unfolding push_content_type
push_content_type-split none headers o h = push_headers-split headers h
push_content_type-split (some t) headers o h =
    push_line-split (codes "Content-Type: " ++ t) _
      (IsLine-append (codes "Content-Type: ") t (line (codes "Content-Type: ") refl) o)
    ∙ ap (λ ls. line_bytes (codes "Content-Type: " ++ t) ∷ ls) (push_headers-split headers h)

reason-IsLine : (status : Status) → IsLine (reason status)
unfolding reason
reason-IsLine Status.ok = line _ refl
reason-IsLine Status.not_modified = line _ refl
reason-IsLine Status.bad_request = line _ refl
reason-IsLine Status.not_found = line _ refl
reason-IsLine Status.method_not_allowed = line _ refl
reason-IsLine Status.request_timeout = line _ refl
reason-IsLine Status.header_too_large = line _ refl
reason-IsLine Status.internal_server_error = line _ refl

status_line-IsLine :
    (status : Status)
    → IsLine (codes "HTTP/1.1 " ++ to_decimal (code status) ++ codes " " ++ reason status)
status_line-IsLine status =
    line (codes "HTTP/1.1 ") refl
    also to_decimal-IsLine (code status)
    also line (codes " ") refl
    also reason-IsLine status

push_line-then :
    (text rest : Text) {more : List Bytes}
    → IsLine text
    → split_on 10 (encode rest) ≡ more
    → split_on 10 (encode (push_line text rest)) ≡ line_bytes text ∷ more
push_line-then text rest h e =
    push_line-split text rest h ∙ ap (λ pieces. line_bytes text ∷ pieces) e

head_text-lines :
    (now : ℤ) (status : Status) (content_length : ℕ) (content_type : Option Text)
    (headers : List (Text × Text))
    → IsOptionalLine content_type
    → All IsHeaderLine headers
    → split_on 10 (encode (head_text now status content_length content_type headers))
      ≡ map line_bytes (response_lines now status content_length content_type headers) ++ [] ∷ []
unfolding head_text
head_text-lines now status content_length content_type headers o h =
    push_line-then _ _ (status_line-IsLine status) (
      push_line-then _ _ (line (codes "Server: statika") refl) (
        push_line-then _ _ (line (codes "Connection: close") refl) (
          push_line-then _ _ (line (codes "X-Content-Type-Options: nosniff") refl) (
            push_line-then _ _ (line (codes "Date: ") refl also http_date-IsLine now) (
              push_line-then _ _
                (line (codes "Content-Length: ") refl also to_decimal-IsLine content_length)
                (push_content_type-split content_type headers o h))))))

-- When the content type, the names and the values of the headers have no line feed, the bytes of
-- a response head are exactly its lines, each with a carriage return and a line feed, and then one
-- empty line: no header can add a line, whatever the time, status and length.
pub response_head-lines :
    (now : ℤ) (status : Status) (content_length : ℕ) (content_type : Option Text)
    (headers : List (Text × Text))
    → IsOptionalLine content_type
    → All IsHeaderLine headers
    → split_on 10 (response_head now status content_length content_type headers)
      ≡ map line_bytes (response_lines now status content_length content_type headers) ++ [] ∷ []
unfolding response_head
response_head-lines now status content_length content_type headers o h =
    head_text-lines now status content_length content_type headers o h
