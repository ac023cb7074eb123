-- ===== src/Server/Log/Objects.antt =====
-- The lines of the log as JSON objects.
use statika.Http.Types.{code}
use statika.Prelude.{
  refl, false, none, some, [], ◌∷◌, ◌≡◌, arith, ℕ, List, Option, Bool, ◌++◌, any, ltb, ◌||◌, ◌==◌,
  ◌/◌,
}
use statika.Server.Log.{
  error_field, log_request, peer_text, eprintln, print_bool, log_accept_error, log_stopped,
  log_queue_discarded, log_started,
}
use statika.Prelude.Bytes.{Text, codes}
use statika.Server.Policy.Json.{Reads, escape_json-Reads}
use statika.Server.Connection.{RequestOutcome}
use statika.Prelude.Radix.{to_decimal}
use mathlib.Core.List.{append_assoc}
use statika.Server.Policy.{escape_json}
use statika.Config.{Config}
use statika.Prelude.Utf8.{from_utf8_lossy}

pub data Value : Type 0 where
  string : Text → Value
  number : ℕ → Value
  boolean : Bool → Value

abbrev quoted : Text → Text → Text
quoted name rest = 34 ∷ (name ++ 34 ∷ 58 ∷ rest)

-- `Fields lead fields text`: behind a value, or at the start, the text goes on with the character
-- `lead` and these fields, and ends the object and the line.
pub data Fields : ℕ → List (Text × Value) → Text → Type 0 where
  closed : Fields b',' [] (b'}' ∷ 10 ∷ [])
  string_field :
      {lead : ℕ} {fields : List (Text × Value)} {rest body t : Text} (name : Text)
      → Reads body t
      → Fields b',' fields rest
      → Fields lead ((name, string t) ∷ fields) (lead ∷ quoted name (34 ∷ (body ++ 34 ∷ rest)))
  number_field :
      {lead : ℕ} {fields : List (Text × Value)} {rest : Text} (name : Text) (n : ℕ)
      → Fields b',' fields rest
      → Fields lead ((name, number n) ∷ fields) (lead ∷ quoted name (to_decimal n ++ rest))
  boolean_field :
      {lead : ℕ} {fields : List (Text × Value)} {rest : Text} (name : Text) (b : Bool)
      → Fields b',' fields rest
      → Fields lead ((name, boolean b) ∷ fields) (lead ∷ quoted name (print_bool b ++ rest))

-- A line that is one object.
abbrev pub IsObject : List (Text × Value) → Text → Type 0
IsObject fields line = Fields b'{' fields line

literal_Reads : (w : Text) → any (λ c. ltb c 32 || c == 34 || c == 92) w ≡ false → Reads w w
literal_Reads [] h = Reads.end
literal_Reads (c ∷ cs) h =
    Reads.plain c (ground arith) (ground arith) (ground arith) (literal_Reads cs (ground arith))

abbrev error_fields : Option Text → List (Text × Value)
error_fields none = []
error_fields (some error) = (codes "error", string error) ∷ []

abbrev pub request_fields : Option Text → RequestOutcome → ℕ → List (Text × Value)
request_fields peer outcome elapsed =
    (codes "event", string (codes "request"))
    ∷ (codes "remote", string (peer_text peer))
    ∷ (codes "method", string outcome.method)
    ∷ (codes "path", string outcome.path)
    ∷ (codes "status", number (code outcome.status))
    ∷ (codes "bytes", number outcome.bytes)
    ∷ (codes "duration_ms", number (elapsed / 1000000))
    ∷ error_fields outcome.error

error_field-Fields :
    (error : Option Text)
    → Fields b',' (error_fields error) (error_field error ++ eprintln (codes "}" ∷ []))
unfolding error_field
error_field-Fields none = closed
error_field-Fields (some error) =
    rw (append_assoc (escape_json error) (codes "\"") (b'}' ∷ 10 ∷ []))
      (string_field (codes "error") (escape_json-Reads error) closed)

log_request-IsObject :
    (peer : Option Text) (outcome : RequestOutcome) (elapsed : ℕ)
    → IsObject (request_fields peer outcome elapsed) (log_request peer outcome elapsed)
unfolding log_request
log_request-IsObject peer outcome elapsed =
    string_field (codes "event") (literal_Reads (codes "request") refl) (
      string_field (codes "remote") (escape_json-Reads (peer_text peer)) (
        string_field (codes "method") (escape_json-Reads outcome.method) (
          string_field (codes "path") (escape_json-Reads outcome.path) (
            number_field (codes "status") (code outcome.status) (
              number_field (codes "bytes") outcome.bytes (
                number_field (codes "duration_ms") (elapsed / 1000000)
                  (error_field-Fields outcome.error)))))))

-- The lines that are no request's.
abbrev pub started_fields :
    {SocketAddr : Type 0} → (SocketAddr → Text) → Config SocketAddr → List (Text × Value)
started_fields to_string config =
    (codes "event", string (codes "started"))
    ∷ (codes "listen", string (to_string config.listen_addr))
    ∷ (codes "root", string (from_utf8_lossy config.root))
    ∷ (codes "threads", number config.threads)
    ∷ (codes "queue_size", number config.queue_size)
    ∷ (codes "gzip", boolean config.gzip_enabled)
    ∷ (codes "brotli", boolean config.brotli_enabled)
    ∷ (codes "deny_dotfiles", boolean config.deny_dotfiles)
    ∷ []

log_started-IsObject :
    {SocketAddr : Type 0} (to_string : SocketAddr → Text) (config : Config SocketAddr)
    → IsObject (started_fields to_string config) (log_started to_string config)
unfolding log_started
log_started-IsObject to_string config =
    string_field (codes "event") (literal_Reads (codes "started") refl) (
      string_field (codes "listen") (escape_json-Reads (to_string config.listen_addr)) (
        string_field (codes "root") (escape_json-Reads (from_utf8_lossy config.root)) (
          number_field (codes "threads") config.threads (
            number_field (codes "queue_size") config.queue_size (
              boolean_field (codes "gzip") config.gzip_enabled (
                boolean_field (codes "brotli") config.brotli_enabled
                  (boolean_field (codes "deny_dotfiles") config.deny_dotfiles closed)))))))

log_stopped-IsObject :
    (clean : Bool)
    → IsObject
        ((codes "event", string (codes "stopped")) ∷ (codes "clean", boolean clean) ∷ [])
        (log_stopped clean)
unfolding log_stopped
log_stopped-IsObject clean =
    string_field (codes "event") (literal_Reads (codes "stopped") refl)
      (boolean_field (codes "clean") clean closed)

log_accept_error-IsObject :
    (error : Text)
    → IsObject
        ((codes "event", string (codes "accept_error")) ∷ (codes "error", string error) ∷ [])
        (log_accept_error error)
unfolding log_accept_error
log_accept_error-IsObject error =
    string_field (codes "event") (literal_Reads (codes "accept_error") refl)
      (string_field (codes "error") (escape_json-Reads error) closed)

log_queue_discarded-IsObject :
    (count : ℕ)
    → IsObject
        ((codes "event", string (codes "queue_discarded")) ∷ (codes "count", number count) ∷ [])
        (log_queue_discarded count)
unfolding log_queue_discarded
log_queue_discarded-IsObject count =
    string_field (codes "event") (literal_Reads (codes "queue_discarded") refl)
      (number_field (codes "count") count closed)

-- What a line of the log says.
pub data Event (SocketAddr : Type 0) : Type 0 where
  started : Config SocketAddr → Event SocketAddr
  stopped : Bool → Event SocketAddr
  accept_error : Text → Event SocketAddr
  queue_discarded : ℕ → Event SocketAddr
  request : Option Text → RequestOutcome → ℕ → Event SocketAddr

module _ {SocketAddr : Type 0} (to_string : SocketAddr → Text) where
  abbrev pub line_of : Event SocketAddr → Text
  line_of (started config) = log_started to_string config
  line_of (stopped clean) = log_stopped clean
  line_of (accept_error error) = log_accept_error error
  line_of (queue_discarded count) = log_queue_discarded count
  line_of (request peer outcome elapsed) = log_request peer outcome elapsed

  abbrev pub fields_of : Event SocketAddr → List (Text × Value)
  fields_of (started config) = started_fields to_string config
  fields_of (stopped clean) =
      (codes "event", string (codes "stopped")) ∷ (codes "clean", boolean clean) ∷ []
  fields_of (accept_error error) =
      (codes "event", string (codes "accept_error")) ∷ (codes "error", string error) ∷ []
  fields_of (queue_discarded count) =
      (codes "event", string (codes "queue_discarded")) ∷ (codes "count", number count) ∷ []
  fields_of (request peer outcome elapsed) = request_fields peer outcome elapsed

  -- Each line of the log, of whichever of the five functions, is one JSON object and a line feed:
  -- its fields are those of the event in their order, numbers stand in decimal, and each string
  -- reads back as the text that was logged, whatever characters a client, a path or an error brings.
  pub line_of-IsObject : (event : Event SocketAddr) → IsObject (fields_of event) (line_of event)
  line_of-IsObject (started config) = log_started-IsObject to_string config
  line_of-IsObject (stopped clean) = log_stopped-IsObject clean
  line_of-IsObject (accept_error error) = log_accept_error-IsObject error
  line_of-IsObject (queue_discarded count) = log_queue_discarded-IsObject count
  line_of-IsObject (request peer outcome elapsed) = log_request-IsObject peer outcome elapsed
