-- ===== src/Http/Parse/Tests.antt =====
-- A request.
use statika.Prelude.{refl, none, [], ok, err, ◌∷◌, ◌≡◌, ◌++◌, List}
use statika.Prelude.Bytes
use statika.Prelude.Bytes.{Bytes, codes, split_on}
use statika.Http.Types.{Method, Request, RequestError}
use statika.Http.Parse.{RequestLine, parse_request, parse_request_line, http_1_1}
use statika.Http.Parse.Host.{host_lines, parse_request-host}
use statika.Http.Parse.Line.{IsTarget, parse_request-IsTarget}

abbrev first_line : Bytes
first_line = codes "GET /a HTTP/1.1" ++ 13 ∷ []

abbrev other_lines : List Bytes
other_lines = (codes "HOST: x" ++ 13 ∷ []) ∷ (13 ∷ []) ∷ [] ∷ []

abbrev example_header : Bytes
example_header = codes "GET /a HTTP/1.1" ++ 13 ∷ 10 ∷ codes "HOST: x" ++ 13 ∷ 10 ∷ 13 ∷ 10 ∷ []

abbrev example_fields : RequestLine
example_fields = record { method_raw = codes "GET"; target = codes "/a"; version = http_1_1 }

abbrev example_request : Request
example_request = record {
  method = Method.get;
  target = codes "/a";
  accepted_encodings = record { br_q = 0; gzip_q = 0 };
  if_none_match = none;
  if_modified_since = none;
}

example_parsed : parse_request example_header ≡ ok example_request
unfolding parse_request
example_parsed = refl

example_split : split_on 10 example_header ≡ first_line ∷ other_lines
unfolding Bytes.split
example_split = refl

example_fields_read : parse_request_line first_line ≡ ok example_fields
unfolding parse_request
example_fields_read = refl

-- Without a Host line the request is refused.
no_host_refused : parse_request (first_line ++ 10 ∷ 13 ∷ 10 ∷ []) ≡ err RequestError.bad_request
unfolding parse_request
no_host_refused = refl

parse_request-host_example : host_lines other_lines ≡ 1
parse_request-host_example =
    parse_request-host example_header first_line other_lines example_split example_fields_read refl
      example_parsed

parse_request-IsTarget_example : IsTarget (codes "/a")
parse_request-IsTarget_example = parse_request-IsTarget example_header example_parsed
