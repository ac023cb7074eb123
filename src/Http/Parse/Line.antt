-- ===== src/Http/Parse/Line.antt =====
-- The request line of an accepted request.
use statika.Prelude.{
  true, [], ok, ◌∷◌, ◌≡◌, arith, List, All, ◌<◌, ◌≢◌, >>=-eq-ok, fail_if, ltb, ◌&&◌, length, ◌||◌,
  not, ◌==◌, ap, sym, subst, ok-injective,
}
use statika.Http.Parse.{
  RequestLine, request_fields, parse_request_line, parse_method, parse_headers, header_lines,
  no_headers, strip_return, parse_request, max_header_line_bytes, http_1_1, http_1_0,
}
use statika.Http.Parse.Host.{parse_request-Accepted}
use statika.Prelude.Bytes.{Bytes, starts_with, codes, equal, split_on}
use statika.Http.Bytes.{is_request_target_safe, contains_ctl}
use statika.Http.Types.{Request, RequestError}

-- An origin-form target: it begins with a slash, and holds no control byte, space, DEL or `#`.
pub record IsTarget (target : Bytes) : Type 0 where
  pub rooted : starts_with (codes "/") target ≡ true
  pub bytes : All (λ b. (32 < b) × (b ≢ 127) × (b ≢ b'#')) target

safe_bytes :
    (target : Bytes)
    → is_request_target_safe target ≡ true
    → All (λ b. (32 < b) × (b ≢ 127) × (b ≢ b'#')) target
unfolding is_request_target_safe
safe_bytes [] h = tt
safe_bytes (c ∷ cs) h = ground (arith, safe_bytes cs)

request_fields-IsTarget :
    (pieces : List Bytes) {fields : RequestLine}
    → request_fields pieces ≡ ok fields
    → IsTarget fields.target
unfolding request_fields
request_fields-IsTarget (m ∷ t ∷ v ∷ []) e = ground (arith, safe_bytes t)
request_fields-IsTarget _ e = absurd (cc)

parse_request_line-IsTarget :
    (raw : Bytes) {fields : RequestLine}
    → parse_request_line raw ≡ ok fields
    → IsTarget fields.target
unfolding parse_request_line
parse_request_line-IsTarget raw e =
    let (line, _, e₁) = >>=-eq-ok (strip_return raw) _ e in
    let (_, _, e₂) =
      >>=-eq-ok
        (fail_if (ltb max_header_line_bytes (length line) || contains_ctl line)
          RequestError.bad_request)
        _ e₁ in
    let (found, parsed, e₃) = >>=-eq-ok (request_fields (split_on b' ' line)) _ e₂ in
    let (_, _, e₄) =
      >>=-eq-ok
        (fail_if (not (equal found.version http_1_1) && not (equal found.version http_1_0))
          RequestError.bad_request)
        _ e₃ in
    subst (λ (f : RequestLine). IsTarget f.target) (ok-injective e₄)
      (request_fields-IsTarget (split_on b' ' line) parsed)

parse_headers-target :
    (fields : RequestLine) (lines : List Bytes) {r : Request}
    → parse_headers fields lines ≡ ok r
    → r.target ≡ fields.target
unfolding parse_headers
parse_headers-target fields lines e =
    let (method, _, e₁) = >>=-eq-ok (parse_method fields.method_raw) _ e in
    let (h, counted, e₂) = >>=-eq-ok (header_lines no_headers lines) _ e₁ in
    let (_, checked, e₃) =
      >>=-eq-ok
        (fail_if (equal fields.version http_1_1 && not (h.host_count == 1))
          RequestError.bad_request)
        _ e₂ in
    ap (λ (r : Request). r.target) (sym (ok-injective e₃))

-- The target of an accepted request is in origin form, with no byte that could end or split the
-- request line.
pub parse_request-IsTarget :
    (header : Bytes) {r : Request} → parse_request header ≡ ok r → IsTarget r.target
parse_request-IsTarget header e =
    let a = parse_request-Accepted header e in
    rw (parse_headers-target a.fields a.lines a.headers_are)
      (parse_request_line-IsTarget a.request_line a.line_is)
