-- ===== src/Server/Connection.antt =====
-- `simple_error`, `simple_response` and the last step of `serve_static` of server.rs: what is sent on
-- a connection, and what is logged of it. `none` is a write that still waits. What
-- `read_request` answers, the clocks, and what the root directory and its files answer are given.
pub mod Locate
pub mod Named
pub mod Answer
pub mod Written
pub mod Handle
pub mod Sent
mod Tests
pub mod Responses
pub mod Located
pub mod Rooted
use statika.Prelude.{
  refl, true, false, none, some, [], inl, inr, ok, err, ◌>>=◌, ◌>>◌, ◌∷◌, ◌≡◌, arith, if◌then◌else◌,
  ℕ, zero, suc, Option, List, Result, ◌++◌, leb, max, is_empty, map, ◌||◌, length, ◌&&◌, Bool, ◌+◌,
  not,
}
use statika.Prelude.Bytes.{Bytes, Text, codes, equal}
use statika.Prelude.Int.{ℤ}
use statika.Io.{IoError}
use statika.Config.{Config, Header}
use statika.Http.Types.{Method, as_str, Status, Request, RequestError, DecodedPath}
use statika.Http.Target.{decode_target}
use statika.Http.Date.{http_date}
use statika.Http.Response.{response_head, content_type}
use statika.Net.{Socket, FileAnswers, IoResult, write_all, send_file, after_write}
use statika.Server.Policy.{
  Metadata, etag, is_not_modified, cache_control, contains_denied_dotfile, starts_with_components,
  is_health_path, request_path_for_log,
}
use statika.Server.Representation.{RepresentationEncoding, open_representation, is_not_found}

-- 250 milliseconds, in nanoseconds.
abbrev error_response_timeout : ℕ
error_response_timeout = 250000000

pub record RequestOutcome : Type 0 where
  pub method : Text
  pub path : Text
  pub status : Status
  pub bytes : ℕ
  pub error : Option Text

abbrev outcome_new : Text → Text → Status → ℕ → RequestOutcome
outcome_new method path status bytes = record {
  method = method;
  path = path;
  status = status;
  bytes = bytes;
  error = none;
}

abbrev outcome_error_with_bytes : Text → Text → Status → ℕ → Text → RequestOutcome
outcome_error_with_bytes method path status bytes error = record {
  method = method;
  path = path;
  status = status;
  bytes = bytes;
  error = some error;
}

abbrev outcome_error : Text → Text → Status → Text → RequestOutcome
outcome_error method path status error = outcome_error_with_bytes method path status 0 error

-- The readings of the clocks: as the connection is taken up, as an error is sent, and the time of
-- day as a head is written.
pub record Clock : Type 0 where
  pub taken_up : ℕ
  pub instant : ℕ
  pub unix_seconds : ℤ

pub record ResponseContext : Type 0 where
  pub deadline : ℕ
  pub method : Method
  pub path : Text
  pub extra_headers : List Header

abbrev append_extra_headers : List (Text × Text) → List Header → List (Text × Text)
append_extra_headers headers extra_headers =
    headers ++ map (λ (h : Header). (h.name, h.value)) extra_headers

abbrev error_body : Status → Bytes
error_body Status.bad_request = codes "bad request" ++ 10 ∷ []
error_body Status.not_found = codes "not found" ++ 10 ∷ []
error_body Status.method_not_allowed = codes "method not allowed" ++ 10 ∷ []
error_body Status.request_timeout = codes "request timeout" ++ 10 ∷ []
error_body Status.header_too_large = codes "request headers too large" ++ 10 ∷ []
error_body _ = codes "internal server error" ++ 10 ∷ []

abbrev error_headers : Status → List (Text × Text)
error_headers Status.method_not_allowed =
    (codes "Cache-Control", codes "no-store") ∷ (codes "Allow", codes "GET, HEAD") ∷ []
error_headers _ = (codes "Cache-Control", codes "no-store") ∷ []

abbrev pub Outcome : Type 0
Outcome = Option (RequestOutcome × Socket)

module _ (clock : Clock) where
  unfoldable pub simple_error : Socket → ℕ → Text → Text → Status → Text → List Header → Outcome
  simple_error stream deadline method path status error extra_headers =
      let error_deadline = max deadline (clock.instant + error_response_timeout) in
      let body = error_body status in
      let headers = append_extra_headers (error_headers status) extra_headers in
      let head =
        response_head clock.unix_seconds status (length body)
          (some (codes "text/plain; charset=utf-8")) headers in
      after_write (write_all stream head error_deadline)
        (λ s.
          if equal method (codes "HEAD")
          then some (outcome_error method path status error, s)
          else after_write (write_all s body error_deadline)
              (λ s'. some (outcome_error_with_bytes method path status (length body) error, s'))
              (λ e s'. some (outcome_error method path status (codes "write_body"), s')))
        (λ e s. some (outcome_error method path status (codes "write_header"), s))

  unfoldable pub simple_response :
      Socket → ResponseContext → Status → Bytes → Text → List (Text × Text) → Outcome
  simple_response stream response status body content_type headers =
      let method = as_str response.method in
      let head =
        response_head clock.unix_seconds status (length body) (some content_type)
          (append_extra_headers headers response.extra_headers) in
      after_write (write_all stream head response.deadline)
        (λ s. elim response.method [
          | Method.head ↦ some (outcome_new method response.path status 0, s)
          | Method.get ↦
              after_write (write_all s body response.deadline)
                (λ s'. some (outcome_new method response.path status (length body), s'))
                (λ e s'. some (outcome_error method response.path status (codes "write_body"), s'))
        ])
        (λ e s. some (outcome_error method response.path status (codes "write_header"), s))

-- The last match of `serve_static`.
unfoldable pub after_send : Text → Text → Option (IoResult ℕ × Socket) → Outcome
after_send method path none = none
after_send method path (some (ok bytes, s)) = some (outcome_new method path Status.ok bytes, s)
after_send method path (some (err e, s)) =
    some (outcome_error method path Status.ok (codes "send_file"), s)
