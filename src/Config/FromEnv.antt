-- ===== src/Config/FromEnv.antt =====
-- `Config::from_env` of config.rs: the settings one by one.
use statika.Prelude.{
  true, none, some, ok, ◌>>=◌, ◌>>◌, ℕ, Result, List, Bool, min, Option, ok_or, ◌*◌, fail_if, not,
  ◌^◌, ◌-◌,
}
use statika.Prelude.Bytes.{Bytes, Text, codes, starts_with}
use statika.Prelude.Utf8.{from_utf8_lossy}
use statika.Config.{
  set, not_present, not_unicode, max_threads, max_queue_size, max_timeout_secs, ConfigError, Config,
  Var, Env, value, var,
}
use statika.Config.Values.{
  clamp, default_threads, parse_digits, parse_unsigned, parse_in_range, range_of, parse_usize,
  parse_u64, parse_bool_text, parse_bool,
}
use statika.Config.Paths.{parse_url_prefix, parse_relative_path}
use statika.Config.ExtraHeaders.{parse_extra_headers}

abbrev pub or_default : Option Bytes → Bytes → Bytes
or_default none default = default
or_default (some bytes) default = bytes

abbrev var_text : Var → Text → Text
var_text (set text) default = text
var_text not_present default = default
var_text not_unicode default = default

abbrev pub saturating_mul : ℕ → ℕ → ℕ
saturating_mul a b = min (a * b) (2 ^ 64 - 1)

pub read_address :
    {SocketAddr : Type 0} → (Text → Option SocketAddr) → Env → Result ConfigError SocketAddr
read_address parse_addr env =
    ok_or (parse_addr (var_text (var env (codes "STATIKA_LISTEN_ADDR")) (codes "0.0.0.0:8080")))
      (ConfigError.invalid (codes "STATIKA_LISTEN_ADDR") (value env (codes "STATIKA_LISTEN_ADDR")))

unfoldable pub read_root : Env → Result ConfigError Bytes
read_root env = do
  root ← ok_or (env (codes "STATIKA_ROOT")) (ConfigError.missing (codes "STATIKA_ROOT"))
  fail_if (not (starts_with (codes "/") root))
      (ConfigError.invalid (codes "STATIKA_ROOT") (from_utf8_lossy root))
  ok root

-- The index and the assets prefix.
unfoldable pub read_paths : Env → Result ConfigError (List Bytes × List Bytes)
read_paths env = do
  let index_raw = or_default (env (codes "STATIKA_INDEX")) (codes "index.html")
  index ← parse_relative_path (codes "STATIKA_INDEX") index_raw
  let assets_raw = or_default (env (codes "STATIKA_ASSETS_PATH")) (codes "/assets")
  assets_prefix ← parse_url_prefix (codes "STATIKA_ASSETS_PATH") assets_raw
  ok (index, assets_prefix)

-- The number of threads and the size of the queue.
unfoldable pub read_sizes : Option ℕ → Env → Result ConfigError (ℕ × ℕ)
read_sizes parallelism env = do
  threads ← parse_usize env (codes "STATIKA_THREADS") (default_threads parallelism) 1 max_threads
  queue_size ←
      parse_usize env (codes "STATIKA_QUEUE_SIZE")
        (clamp 1 max_queue_size (saturating_mul threads 64)) 1 max_queue_size
  ok (threads, queue_size)

pub read_switches : Env → Result ConfigError (Bool × Bool × Bool)
read_switches env = do
  gzip_enabled ← parse_bool env (codes "STATIKA_GZIP") true
  brotli_enabled ← parse_bool env (codes "STATIKA_BROTLI") true
  deny_dotfiles ← parse_bool env (codes "STATIKA_DENY_DOTFILES") true
  ok (gzip_enabled, brotli_enabled, deny_dotfiles)

unfoldable pub read_timeouts : Env → Result ConfigError (ℕ × ℕ)
read_timeouts env = do
  request_timeout ← parse_u64 env (codes "STATIKA_REQUEST_TIMEOUT_SECS") 5 1 max_timeout_secs
  shutdown_timeout ← parse_u64 env (codes "STATIKA_SHUTDOWN_TIMEOUT_SECS") 10 1 max_timeout_secs
  ok (request_timeout, shutdown_timeout)

unfoldable pub from_env :
    {SocketAddr : Type 0}
    → (Text → Option SocketAddr)
    → Option ℕ
    → Env
    → Result ConfigError (Config SocketAddr)
unfolding var value default_threads parse_digits parse_unsigned parse_in_range range_of parse_usize
    parse_u64 parse_bool_text parse_bool parse_url_prefix parse_relative_path parse_extra_headers
    read_address read_root read_paths read_sizes read_switches read_timeouts
from_env parse_addr parallelism env = do
  listen_addr ← read_address parse_addr env
  root ← read_root env
  paths ← read_paths env
  sizes ← read_sizes parallelism env
  switches ← read_switches env
  timeouts ← read_timeouts env
  extra_headers ← parse_extra_headers env (codes "STATIKA_EXTRA_HEADERS")
  ok (record {
    listen_addr = listen_addr;
    root = root;
    index = paths.0;
    assets_prefix = paths.1;
    threads = sizes.0;
    queue_size = sizes.1;
    gzip_enabled = switches.0;
    brotli_enabled = switches.1;
    deny_dotfiles = switches.2;
    request_timeout = timeouts.0;
    shutdown_timeout = timeouts.1;
    extra_headers = extra_headers;
  })
