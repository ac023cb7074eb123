-- ===== src/Config.antt =====
-- config.rs: the settings, read from the environment. What the operating system and the standard
-- library say is given: the environment as a function from a variable's name to its bytes, the
-- reader of socket addresses, and the number of processors. A duration is in seconds.
pub mod Values
pub mod Paths
pub mod ExtraHeaders
pub mod FromEnv
mod Tests
pub mod Components
pub mod Headers
pub mod Bounds
pub mod Display
use statika.Prelude.{
  refl, true, false, none, some, [], inl, inr, ok, err, ◌>>=◌, ◌>>◌, ◌∷◌, ◌≡◌, arith, if◌then◌else◌,
  ℕ, zero, suc, Result, max, List, Bool, min, Option, ok_or, map, ◌*◌, any, within, fail_if,
  is_empty, leb, ◌==◌, not, ◌^◌, ◌||◌, ltb, all, ◌-◌, length,
}
use statika.Prelude.Bytes
use statika.Prelude.Bytes.{
  Bytes, Text, codes, equal, contains, starts_with, ends_with, strip_last, split_on, split_once,
  trim, trim_start, trim_end, trim_by, is_whitespace, to_ascii_lowercase, is_ascii_digit,
}
use statika.Prelude.Utf8.{from_utf8, from_utf8_lossy}
use statika.Prelude.Encode.{encode, lines}
use statika.Prelude.Radix.{value_from}

abbrev max_threads : ℕ
max_threads = 256

abbrev max_queue_size : ℕ
max_queue_size = 65536

abbrev max_timeout_secs : ℕ
max_timeout_secs = 300

abbrev max_extra_headers : ℕ
max_extra_headers = 32

abbrev max_header_name_bytes : ℕ
max_header_name_bytes = 64

abbrev max_header_value_bytes : ℕ
max_header_value_bytes = 1024

pub record Header : Type 0 where
  pub name : Text
  pub value : Text

pub data ConfigError : Type 0 where
  missing : Text → ConfigError
  invalid : Text → Text → ConfigError

pub record Config (SocketAddr : Type 0) : Type 0 where
  pub listen_addr : SocketAddr
  pub root : Bytes
  pub index : List Bytes
  pub assets_prefix : List Bytes
  pub threads : ℕ
  pub queue_size : ℕ
  pub gzip_enabled : Bool
  pub brotli_enabled : Bool
  pub deny_dotfiles : Bool
  pub request_timeout : ℕ
  pub shutdown_timeout : ℕ
  pub extra_headers : List Header

-- `env::var`
pub data Var : Type 0 where
  set : Text → Var
  not_present not_unicode : Var

abbrev pub Env : Type 0
Env = Text → Option Bytes

unfoldable pub var : Env → Text → Var
unfolding from_utf8
var env key = elim (env key) [
  | none ↦ not_present
  | some bytes ↦ elim (from_utf8 bytes) [ none ↦ not_unicode | some text ↦ set text ]
]

abbrev non_utf8 : Text
non_utf8 = codes "<non-UTF-8>"

unfoldable pub value : Env → Text → Text
value env key = elim (var env key) [
  | set text ↦ text
  | not_present ↦ non_utf8
  | not_unicode ↦ non_utf8
]
