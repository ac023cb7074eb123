-- ===== src/Server/Connection/Handle.antt =====
-- `serve_static` and `handle_connection`: which response a connection gets.
use statika.Prelude.{none, some, [], ok, err, ◌∷◌, if◌then◌else◌, ℕ, Result, ◌++◌, leb}
use statika.Prelude.Bytes.{codes}
use statika.Config.{Config}
use statika.Http.Types.{Method, as_str, Status, Request, RequestError, DecodedPath}
use statika.Http.Target.{decode_target}
use statika.Http.Response.{response_head, content_type}
use statika.Net.{Socket, write_all, send_file, after_write}
use statika.Server.Policy.{Metadata, etag, is_not_modified, is_health_path, request_path_for_log}
use statika.Server.Connection.{
  outcome_new, outcome_error, Clock, ResponseContext, Outcome, simple_error, simple_response,
  after_send,
}
use statika.Server.Connection.Locate.{
  Root, Found, open_at, locate_index, locate_file, locate, file_headers,
}

module _ {A File : Type 0} (root : Root File) (config : Config A) (clock : Clock) where
  unfoldable pub serve_file : Socket → Request → ResponseContext → Found File → Metadata → Outcome
  serve_file stream request response found metadata =
      let method = as_str request.method in
      let headers = file_headers root config found metadata response.extra_headers in
      if is_not_modified request (etag metadata) metadata.mtime
      then after_write
          (write_all stream
            (response_head clock.unix_seconds Status.not_modified metadata.len none headers)
            response.deadline)
          (λ s. some (outcome_new method response.path Status.not_modified 0, s))
          (λ e s.
            some (outcome_error method response.path Status.not_modified (codes "write_header"), s))
      else after_write
          (write_all stream
            (response_head clock.unix_seconds Status.ok metadata.len
              (some (content_type found.served_components)) headers)
            response.deadline)
          (λ s. elim request.method [
            | Method.head ↦ some (outcome_new method response.path Status.ok 0, s)
            | Method.get ↦
                after_send method response.path
                  (send_file s (root.answers found.file) metadata.len response.deadline)
          ])
          (λ e s. some (outcome_error method response.path Status.ok (codes "write_header"), s))

  unfoldable pub serve_static : Socket → Request → DecodedPath → ResponseContext → Outcome
  serve_static stream request decoded response =
      let method = as_str request.method in
      elim (locate root config request decoded) [
        | err (status, error) ↦
            simple_error clock stream response.deadline method response.path status error
              response.extra_headers
        | ok found ↦ elim (root.metadata found.file) [
          | err e ↦
              simple_error clock stream response.deadline method response.path
                Status.internal_server_error (codes "metadata") response.extra_headers
          | ok metadata ↦ serve_file stream request response found metadata
        ]
      ]

  -- The match on the error of `read_request`.
  unfoldable pub answer_error : Socket → ℕ → RequestError → Outcome
  answer_error stream deadline RequestError.bad_request =
      simple_error clock stream deadline (codes "UNKNOWN") [] Status.bad_request
        (codes "bad_request") config.extra_headers
  answer_error stream deadline RequestError.header_too_large =
      simple_error clock stream deadline (codes "UNKNOWN") [] Status.header_too_large
        (codes "header_too_large") config.extra_headers
  answer_error stream deadline (RequestError.method_not_allowed method) =
      simple_error clock stream deadline method [] Status.method_not_allowed
        (codes "method_not_allowed") config.extra_headers
  answer_error stream deadline RequestError.timeout =
      simple_error clock stream deadline (codes "UNKNOWN") [] Status.request_timeout
        (codes "timeout") config.extra_headers
  answer_error stream deadline RequestError.io =
      some
        (outcome_error (codes "UNKNOWN") [] Status.internal_server_error (codes "read_io"), stream)

  -- What follows once a request is read.
  unfoldable pub answer_request : Socket → ℕ → Request → Outcome
  answer_request stream deadline request =
      let path_for_log = request_path_for_log request.target in
      elim (decode_target request.target) [
        | err e ↦
            simple_error clock stream deadline (as_str request.method) path_for_log
              Status.bad_request (codes "bad_target") config.extra_headers
        | ok decoded ↦
            let response : ResponseContext = record {
              deadline = deadline;
              method = request.method;
              path = path_for_log;
              extra_headers = config.extra_headers;
            } in
            if is_health_path decoded.components
            then simple_response clock stream response Status.ok (codes "ok" ++ 10 ∷ [])
                (codes "text/plain; charset=utf-8") ((codes "Cache-Control", codes "no-store") ∷ [])
            else serve_static stream request decoded response
      ]

  unfoldable pub handle_connection : Socket → ℕ → Result RequestError Request → Outcome
  unfolding answer_error answer_request serve_static serve_file locate locate_file locate_index
      open_at file_headers after_send simple_error simple_response
  handle_connection stream deadline read =
      if leb deadline clock.taken_up
      then simple_error clock stream deadline (codes "UNKNOWN") [] Status.request_timeout
          (codes "queue_timeout") config.extra_headers
      else elim read [
        | ok request ↦ answer_request stream deadline request
        | err error ↦ answer_error stream deadline error
      ]
