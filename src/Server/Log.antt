-- ===== src/Server/Log.antt =====
-- The lines of the log of server.rs: `log_started`, `log_stopped`, `log_accept_error`,
-- `log_queue_discarded` and `log_request`. Each is the text that `eprintln!` writes, as its pieces;
-- addresses and errors come as they print.
mod Tests
pub mod Objects
use statika.Http.Types.{code}
use statika.Prelude.{
  refl, true, false, none, some, [], inl, inr, ok, err, ◌>>=◌, ◌>>◌, ◌∷◌, ◌≡◌, arith, if◌then◌else◌,
  ℕ, zero, suc, Option, List, Bool, ◌++◌, ◌/◌,
}
use statika.Prelude.Bytes.{Text, codes}
use statika.Config.{Config}
use statika.Server.Connection.{RequestOutcome}
use statika.Prelude.Radix.{to_decimal}
use statika.Server.Policy.{escape_json}
use statika.Prelude.Utf8.{from_utf8_lossy}

-- The pieces of a line, and its end.
abbrev pub eprintln : List Text → Text
eprintln [] = 10 ∷ []
eprintln (piece ∷ pieces) = piece ++ eprintln pieces

abbrev print_bool : Bool → Text
print_bool true = codes "true"
print_bool false = codes "false"

unfoldable pub log_started : {SocketAddr : Type 0} → (SocketAddr → Text) → Config SocketAddr → Text
log_started to_string config = eprintln (
    codes "{\"event\":\"started\",\"listen\":\""
    ∷ escape_json (to_string config.listen_addr)
    ∷ codes "\",\"root\":\""
    ∷ escape_json (from_utf8_lossy config.root)
    ∷ codes "\",\"threads\":"
    ∷ to_decimal config.threads
    ∷ codes ",\"queue_size\":"
    ∷ to_decimal config.queue_size
    ∷ codes ",\"gzip\":"
    ∷ print_bool config.gzip_enabled
    ∷ codes ",\"brotli\":"
    ∷ print_bool config.brotli_enabled
    ∷ codes ",\"deny_dotfiles\":"
    ∷ print_bool config.deny_dotfiles
    ∷ codes "}"
    ∷ [])

unfoldable pub log_stopped : Bool → Text
log_stopped clean =
    eprintln (codes "{\"event\":\"stopped\",\"clean\":" ∷ print_bool clean ∷ codes "}" ∷ [])

unfoldable pub log_accept_error : Text → Text
log_accept_error error =
    eprintln
      (codes "{\"event\":\"accept_error\",\"error\":\"" ∷ escape_json error ∷ codes "\"}" ∷ [])

unfoldable pub log_queue_discarded : ℕ → Text
log_queue_discarded count =
    eprintln (codes "{\"event\":\"queue_discarded\",\"count\":" ∷ to_decimal count ∷ codes "}" ∷ [])

-- The last field of a request's line, where there was an error.
error_field : Option Text → Text
error_field none = []
error_field (some error) = codes ",\"error\":\"" ++ (escape_json error ++ codes "\"")

abbrev peer_text : Option Text → Text
peer_text none = []
peer_text (some peer) = peer

-- `elapsed` is in nanoseconds; the line has whole milliseconds.
unfoldable pub log_request : Option Text → RequestOutcome → ℕ → Text
unfolding error_field
log_request peer outcome elapsed = eprintln (
    codes "{\"event\":\"request\",\"remote\":\""
    ∷ escape_json (peer_text peer)
    ∷ codes "\",\"method\":\""
    ∷ escape_json outcome.method
    ∷ codes "\",\"path\":\""
    ∷ escape_json outcome.path
    ∷ codes "\",\"status\":"
    ∷ to_decimal (code outcome.status)
    ∷ codes ",\"bytes\":"
    ∷ to_decimal outcome.bytes
    ∷ codes ",\"duration_ms\":"
    ∷ to_decimal (elapsed / 1000000)
    ∷ error_field outcome.error
    ∷ codes "}"
    ∷ [])
