-- ===== src/Http/Types.antt =====
-- The types of http.rs.
use statika.Prelude.{ℕ, Bool, List, Option, ltb, leb}
use statika.Prelude.Bytes.{Bytes, Text, codes}
use statika.Prelude.Int.{ℤ}

pub data Method : Type 0 where
  get head : Method

unfoldable pub as_str : Method → Text
as_str get = codes "GET"
as_str head = codes "HEAD"

pub data Status : Type 0 where
  ok not_modified bad_request not_found : Status
  method_not_allowed request_timeout header_too_large internal_server_error : Status

unfoldable pub code : Status → ℕ
code ok = 200
code not_modified = 304
code bad_request = 400
code not_found = 404
code method_not_allowed = 405
code request_timeout = 408
code header_too_large = 431
code internal_server_error = 500

unfoldable pub reason : Status → Text
reason ok = codes "OK"
reason not_modified = codes "Not Modified"
reason bad_request = codes "Bad Request"
reason not_found = codes "Not Found"
reason method_not_allowed = codes "Method Not Allowed"
reason request_timeout = codes "Request Timeout"
reason header_too_large = codes "Request Header Fields Too Large"
reason internal_server_error = codes "Internal Server Error"

pub record AcceptedEncodings : Type 0 where
  pub br_q : ℕ
  pub gzip_q : ℕ

unfoldable pub accepts_br : AcceptedEncodings → Bool
accepts_br a = ltb 0 a.br_q

unfoldable pub accepts_gzip : AcceptedEncodings → Bool
accepts_gzip a = ltb 0 a.gzip_q

unfoldable pub prefer_br : AcceptedEncodings → Bool
prefer_br a = leb a.gzip_q a.br_q

pub record Request : Type 0 where
  pub method : Method
  pub target : Bytes
  pub accepted_encodings : AcceptedEncodings
  pub if_none_match : Option Text
  pub if_modified_since : Option ℤ

pub data RequestError : Type 0 where
  bad_request header_too_large : RequestError
  method_not_allowed : Text → RequestError
  timeout io : RequestError

pub record DecodedPath : Type 0 where
  pub components : List Bytes
  pub trailing_slash : Bool
