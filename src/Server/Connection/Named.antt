-- ===== src/Server/Connection/Named.antt =====
-- Which method an outcome is logged with.
use statika.Prelude.{
  refl, none, some, [], inl, inr, ok, err, ◌≡◌, if◌then◌else◌, ℕ, Option, List, Bool-cases, Result,
  ◌∷◌, length, max, ◌++◌, ◌+◌,
}
use statika.Prelude.Bytes.{Bytes, Text, codes, equal}
use statika.Io.{IoError}
use statika.Config.{Config, Header}
use statika.Http.Types.{Method, Status, Request, RequestError, DecodedPath, as_str}
use statika.Http.Target.{decode_target}
use statika.Net.{Socket, IoResult, send_file, after_write, write_all}
use statika.Server.Connection.{
  Clock, ResponseContext, RequestOutcome, Outcome, simple_error, simple_response, after_send,
  outcome_new, outcome_error, error_body, error_response_timeout, outcome_error_with_bytes,
}
use statika.Server.Connection.Locate.{Root, Found, locate}
use statika.Server.Connection.Handle.{serve_file, serve_static, answer_request}
use statika.Server.Policy.{Metadata, is_not_modified, etag, is_health_path, request_path_for_log}

-- The outcome is logged with this method.
pub data IsNamed (method : Text) : Outcome → Type 0 where
  stuck : IsNamed method none
  named :
      {outcome : RequestOutcome} {s : Socket}
      → outcome.method ≡ method
      → IsNamed method (some (outcome, s))

after_write-IsNamed :
    (method : Text) (written : Option (IoResult (Unit {0}) × Socket)) (go : Socket → Outcome)
    (fail : IoError → Socket → Outcome)
    → ((s : Socket) → IsNamed method (go s))
    → ((e : IoError) (s : Socket) → IsNamed method (fail e s))
    → IsNamed method (after_write written go fail)
after_write-IsNamed method none go fail g f = stuck
after_write-IsNamed method (some (ok _, s)) go fail g f = g s
after_write-IsNamed method (some (err e, s)) go fail g f = f e s

simple_error-IsNamed :
    (clock : Clock) (stream : Socket) (deadline : ℕ) (method path : Text) (status : Status)
    (error : Text) (extra_headers : List Header)
    → IsNamed method (simple_error clock stream deadline method path status error extra_headers)
unfolding simple_error
simple_error-IsNamed clock stream deadline method path status error extra_headers =
    after_write-IsNamed method _ _ _ by_method (λ _ _. named refl)
  where
    by_method :
        (s : Socket)
        → IsNamed method (
            if equal method (codes "HEAD")
            then some (outcome_error method path status error, s)
            else after_write
                (write_all s
                  (error_body status)
                  (max deadline (clock.instant + error_response_timeout)))
                (λ s'. some (
                  outcome_error_with_bytes method path status (length (error_body status)) error,
                  s',
                ))
                (λ e s'. some (outcome_error method path status (codes "write_body"), s')))
    by_method s = elim (Bool-cases (equal method (codes "HEAD"))) [
      | inl is_head ↦ simp is_head (named refl)
      | inr other ↦
          simp other (after_write-IsNamed method _ _ _ (λ _. named refl) (λ _ _. named refl))
    ]

simple_response-IsNamed :
    (clock : Clock) (stream : Socket) (context : ResponseContext) (status : Status) (body : Bytes)
    (content_type : Text) (headers : List (Text × Text))
    → IsNamed
        (as_str context.method)
        (simple_response clock stream context status body content_type headers)
unfolding simple_response
simple_response-IsNamed clock stream context status body content_type headers =
    after_write-IsNamed _ _ _ _ (by_method context.method) (λ _ _. named refl)
  where
    by_method :
        (m : Method) (s : Socket)
        → IsNamed (as_str context.method) (elim m [
          | Method.head ↦ some (outcome_new (as_str context.method) context.path status 0, s)
          | Method.get ↦
              after_write
                (write_all s body context.deadline)
                (λ s'.
                  some (outcome_new (as_str context.method) context.path status (length body), s'))
                (λ e s'. some (
                  outcome_error (as_str context.method) context.path status (codes "write_body"),
                  s',
                ))
        ])
    by_method Method.head s = named refl
    by_method Method.get s =
        after_write-IsNamed (as_str context.method) _ _ _ (λ _. named refl) (λ _ _. named refl)

after_send-IsNamed :
    (method path : Text) (r : Option (IoResult ℕ × Socket))
    → IsNamed method (after_send method path r)
unfolding after_send
after_send-IsNamed method path none = stuck
after_send-IsNamed method path (some (ok n, s)) = named refl
after_send-IsNamed method path (some (err x, s)) = named refl

-- The context of a request's response.
abbrev pub context_of : {A : Type 0} → Config A → ℕ → Request → ResponseContext
context_of config deadline request = record {
  deadline = deadline;
  method = request.method;
  path = request_path_for_log request.target;
  extra_headers = config.extra_headers;
}

module _ {A File : Type 0} (root : Root File) (config : Config A) (clock : Clock) where
  serve_file-IsNamed :
      (stream : Socket) (request : Request) (context : ResponseContext) (found : Found File)
      (metadata : Metadata)
      → IsNamed
          (as_str request.method)
          (serve_file root config clock stream request context found metadata)
  unfolding serve_file
  serve_file-IsNamed stream request context found metadata =
      elim (Bool-cases (is_not_modified request (etag metadata) metadata.mtime)) [
        | inl unmodified ↦
            simp unmodified (after_write-IsNamed _ _ _ _ (λ _. named refl) (λ _ _. named refl))
        | inr changed ↦
            simp changed
              (after_write-IsNamed _ _ _ _ (by_method request.method) (λ _ _. named refl))
      ]
    where
      by_method :
          (m : Method) (s : Socket)
          → IsNamed (as_str request.method) (elim m [
            | Method.head ↦ some (outcome_new (as_str request.method) context.path Status.ok 0, s)
            | Method.get ↦
                after_send
                  (as_str request.method)
                  context.path
                  (send_file s (root.answers found.file) metadata.len context.deadline)
          ])
      by_method Method.head s = named refl
      by_method Method.get s = after_send-IsNamed (as_str request.method) context.path _

  matched_metadata-IsNamed :
      (stream : Socket) (request : Request) (context : ResponseContext) (found : Found File)
      (m : Result IoError Metadata)
      → IsNamed (as_str request.method) (elim m [
        | err e ↦
            simple_error clock stream context.deadline
              (as_str request.method)
              context.path
              Status.internal_server_error
              (codes "metadata")
              context.extra_headers
        | ok metadata ↦ serve_file root config clock stream request context found metadata
      ])
  matched_metadata-IsNamed stream request context found (err e) =
      simple_error-IsNamed clock stream _ _ _ _ _ _
  matched_metadata-IsNamed stream request context found (ok metadata) =
      serve_file-IsNamed stream request context found metadata

  matched_location-IsNamed :
      (stream : Socket) (request : Request) (context : ResponseContext)
      (l : Result (Status × Text) (Found File))
      → IsNamed (as_str request.method) (elim l [
        | err (status, error) ↦
            simple_error clock stream context.deadline
              (as_str request.method)
              context.path
              status
              error
              context.extra_headers
        | ok found ↦ elim (root.metadata found.file) [
          | err e ↦
              simple_error clock stream context.deadline
                (as_str request.method)
                context.path
                Status.internal_server_error
                (codes "metadata")
                context.extra_headers
          | ok metadata ↦ serve_file root config clock stream request context found metadata
        ]
      ])
  matched_location-IsNamed stream request context (err (status, error)) =
      simple_error-IsNamed clock stream _ _ _ _ _ _
  matched_location-IsNamed stream request context (ok found) =
      matched_metadata-IsNamed stream request context found (root.metadata found.file)

  serve_static-IsNamed :
      (stream : Socket) (request : Request) (decoded : DecodedPath) (context : ResponseContext)
      → IsNamed
          (as_str request.method)
          (serve_static root config clock stream request decoded context)
  unfolding serve_static
  serve_static-IsNamed stream request decoded context =
      matched_location-IsNamed stream request context (locate root config request decoded)

  pub answer_request-IsNamed :
      (stream : Socket) (deadline : ℕ) (request : Request)
      → IsNamed (as_str request.method) (answer_request root config clock stream deadline request)
  unfolding answer_request
  answer_request-IsNamed stream deadline request = by_target (decode_target request.target)
    where
      by_target :
          (d : Result RequestError DecodedPath)
          → IsNamed (as_str request.method) (elim d [
            | err e ↦
                simple_error clock stream deadline
                  (as_str request.method)
                  (request_path_for_log request.target)
                  Status.bad_request
                  (codes "bad_target")
                  config.extra_headers
            | ok decoded ↦
                if is_health_path decoded.components
                then simple_response clock stream
                    (context_of config deadline request)
                    Status.ok
                    (codes "ok" ++ 10 ∷ [])
                    (codes "text/plain; charset=utf-8")
                    ((codes "Cache-Control", codes "no-store") ∷ [])
                else serve_static root config clock stream request decoded
                    (context_of config deadline request)
          ])
      by_target (err e) = simple_error-IsNamed clock stream _ _ _ _ _ _
      by_target (ok decoded) = elim (Bool-cases (is_health_path decoded.components)) [
        | inl health ↦
            simp health
              (simple_response-IsNamed clock stream (context_of config deadline request) _ _ _ _)
        | inr other ↦
            simp other
              (serve_static-IsNamed stream request decoded (context_of config deadline request))
      ]
