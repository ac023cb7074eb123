-- ===== src/Config/Bounds.antt =====
-- The settings that `from_env` accepts.
use statika.Prelude.{
  true, none, some, inl, inr, ok, err, ◌≡◌, arith, if◌then◌else◌, ℕ, ◌≤◌, Option, Result, subst,
  within, All, ok-injective, Bool-cases, length, >>=-eq-ok, ok_or, fail_if, not, fail_if-eq-ok,
  List,
}
use statika.Config.{
  Config, ConfigError, Env, Var, max_threads, max_queue_size, max_timeout_secs, set, not_present,
  not_unicode,
}
use statika.Config.Values.{
  range_of, parse_in_range, parse_unsigned, parse_usize, parse_u64, default_threads, clamp,
}
use statika.Config.Paths.{parse_relative_path, parse_url_prefix}
use statika.Config.ExtraHeaders.{parse_extra_headers}
use statika.Config.FromEnv.{
  read_address, read_root, read_paths, read_sizes, read_switches, read_timeouts, or_default,
  saturating_mul, from_env,
}
use statika.Config.Components.{
  IsEntryName, parse_url_prefix-IsEntryName, parse_relative_path-IsEntryName,
}
use statika.Config.Headers.{IsExtraHeader, parse_extra_headers-IsExtraHeader}
use statika.Prelude.Bytes.{starts_with, Text, codes, Bytes}
use statika.Prelude.Utf8.{from_utf8_lossy}

abbrev pub IsWithin : ℕ → ℕ → ℕ → Type 0
IsWithin lo hi n = (lo ≤ n) × (n ≤ hi)

parse_in_range-IsWithin :
    (key raw : Text) (lo hi : ℕ) {n : ℕ} → parse_in_range key raw lo hi ≡ ok n → IsWithin lo hi n
unfolding parse_in_range
parse_in_range-IsWithin key raw lo hi {n} e = go (parse_unsigned raw) e
  where
    ranged : Option ℕ → Result ConfigError ℕ
    ranged none = err (ConfigError.invalid key raw)
    ranged (some parsed) =
        if within lo hi parsed then ok parsed else err (ConfigError.invalid key raw)

    go : (o : Option ℕ) → ranged o ≡ ok n → IsWithin lo hi n
    go none h = cc
    go (some parsed) h = elim (Bool-cases (within lo hi parsed)) [
      | inl w ↦ subst (IsWithin lo hi) (ok-injective (rw w at h)) (ground arith)
      | inr w ↦ cc (rw w at h)
    ]

range_of-IsWithin :
    (key : Text) (default lo hi : ℕ) (v : Var) {n : ℕ}
    → range_of key default lo hi v ≡ ok n
    → IsWithin lo hi default
    → IsWithin lo hi n
unfolding range_of
range_of-IsWithin key default lo hi (set raw) e h = parse_in_range-IsWithin key raw lo hi e
range_of-IsWithin key default lo hi not_present e h = subst (IsWithin lo hi) (ok-injective e) h
range_of-IsWithin key default lo hi not_unicode e h = cc

default_threads-IsWithin : (parallelism : Option ℕ) → IsWithin 1 256 (default_threads parallelism)
unfolding default_threads
default_threads-IsWithin none = (omega arith, omega arith)
default_threads-IsWithin (some n) = (omega arith, omega arith)

-- What the rest of the server takes for granted of its settings.
pub record IsValid {SocketAddr : Type 0} (config : Config SocketAddr) : Type 0 where
  pub root_is_absolute : starts_with (codes "/") config.root ≡ true
  pub index_names : All IsEntryName config.index
  pub assets_names : All IsEntryName config.assets_prefix
  pub threads_range : IsWithin 1 256 config.threads
  pub queue_size_range : IsWithin 1 65536 config.queue_size
  pub request_timeout_range : IsWithin 1 300 config.request_timeout
  pub shutdown_timeout_range : IsWithin 1 300 config.shutdown_timeout
  pub headers_count : length config.extra_headers ≤ 32
  pub headers_good : All IsExtraHeader config.extra_headers

read_root-IsAbsolute :
    (env : Env) {root : Bytes} → read_root env ≡ ok root → starts_with (codes "/") root ≡ true
unfolding read_root
read_root-IsAbsolute env e =
    let (root, _, e₁) =
      >>=-eq-ok (ok_or (env (codes "STATIKA_ROOT")) (ConfigError.missing (codes "STATIKA_ROOT"))) _
        e in
    let refusal = ConfigError.invalid (codes "STATIKA_ROOT") (from_utf8_lossy root) in
    let (_, good, e₂) = >>=-eq-ok (fail_if (not (starts_with (codes "/") root)) refusal) _ e₁ in
    let absolute = fail_if-eq-ok (not (starts_with (codes "/") root)) refusal good in
    subst (λ r. starts_with (codes "/") r ≡ true) (ok-injective e₂) (ground arith)

read_paths-IsEntryName :
    (env : Env) {paths : List Bytes × List Bytes}
    → read_paths env ≡ ok paths
    → All IsEntryName paths.0 × All IsEntryName paths.1
unfolding read_paths
read_paths-IsEntryName env e =
    let index_raw = or_default (env (codes "STATIKA_INDEX")) (codes "index.html") in
    let (index, index_is, e₁) =
      >>=-eq-ok (parse_relative_path (codes "STATIKA_INDEX") index_raw) _ e in
    let assets_raw = or_default (env (codes "STATIKA_ASSETS_PATH")) (codes "/assets") in
    let (assets, assets_is, e₂) =
      >>=-eq-ok (parse_url_prefix (codes "STATIKA_ASSETS_PATH") assets_raw) _ e₁ in
    subst (λ (p : List Bytes × List Bytes). All IsEntryName p.0 × All IsEntryName p.1)
      (ok-injective e₂)
      (
        parse_relative_path-IsEntryName (codes "STATIKA_INDEX") index_raw index_is,
        parse_url_prefix-IsEntryName (codes "STATIKA_ASSETS_PATH") assets_raw assets_is,
      )

read_sizes-IsWithin :
    (parallelism : Option ℕ) (env : Env) {sizes : ℕ × ℕ}
    → read_sizes parallelism env ≡ ok sizes
    → IsWithin 1 256 sizes.0 × IsWithin 1 65536 sizes.1
unfolding read_sizes parse_usize
read_sizes-IsWithin parallelism env e =
    let default = default_threads parallelism in
    let (threads, threads_is, e₁) =
      >>=-eq-ok (parse_usize env (codes "STATIKA_THREADS") default 1 max_threads) _ e in
    let size = clamp 1 max_queue_size (saturating_mul threads 64) in
    let (queue_size, size_is, e₂) =
      >>=-eq-ok (parse_usize env (codes "STATIKA_QUEUE_SIZE") size 1 max_queue_size) _ e₁ in
    subst (λ (p : ℕ × ℕ). IsWithin 1 256 p.0 × IsWithin 1 65536 p.1) (ok-injective e₂)
      (
        range_of-IsWithin (codes "STATIKA_THREADS") default 1 256 _ threads_is
            (default_threads-IsWithin parallelism),
        range_of-IsWithin (codes "STATIKA_QUEUE_SIZE") size 1 65536 _ size_is
            (omega arith, omega arith),
      )

read_timeouts-IsWithin :
    (env : Env) {timeouts : ℕ × ℕ}
    → read_timeouts env ≡ ok timeouts
    → IsWithin 1 300 timeouts.0 × IsWithin 1 300 timeouts.1
unfolding read_timeouts parse_u64
read_timeouts-IsWithin env e =
    let (_, request_is, e₁) =
      >>=-eq-ok (parse_u64 env (codes "STATIKA_REQUEST_TIMEOUT_SECS") 5 1 max_timeout_secs) _ e in
    let (_, shutdown_is, e₂) =
      >>=-eq-ok (parse_u64 env (codes "STATIKA_SHUTDOWN_TIMEOUT_SECS") 10 1 max_timeout_secs) _
        e₁ in
    subst (λ (p : ℕ × ℕ). IsWithin 1 300 p.0 × IsWithin 1 300 p.1) (ok-injective e₂)
      (
        range_of-IsWithin (codes "STATIKA_REQUEST_TIMEOUT_SECS") 5 1 300 _ request_is
            (omega arith, omega arith),
        range_of-IsWithin (codes "STATIKA_SHUTDOWN_TIMEOUT_SECS") 10 1 300 _ shutdown_is
            (omega arith, omega arith),
      )

-- Settings that `from_env` accepts have an absolute root, an index and an assets prefix of entry
-- names that do not leave their directory, threads, queue and timeouts in their ranges, and at
-- most 32 extra headers that each are one line and named, in whatever case, none of Cache-Control,
-- Connection, Content-Encoding, Content-Length, Content-Type, Date, ETag, Last-Modified, Server,
-- Transfer-Encoding and Vary.
pub from_env-IsValid :
    {SocketAddr : Type 0} (parse_addr : Text → Option SocketAddr) (parallelism : Option ℕ)
    (env : Env) {config : Config SocketAddr}
    → from_env parse_addr parallelism env ≡ ok config
    → IsValid config
unfolding from_env
from_env-IsValid parse_addr parallelism env e =
    let (_, _, e₁) = >>=-eq-ok (read_address parse_addr env) _ e in
    let (_, root_is, e₂) = >>=-eq-ok (read_root env) _ e₁ in
    let (_, paths_is, e₃) = >>=-eq-ok (read_paths env) _ e₂ in
    let (_, sizes_is, e₄) = >>=-eq-ok (read_sizes parallelism env) _ e₃ in
    let (_, _, e₅) = >>=-eq-ok (read_switches env) _ e₄ in
    let (_, timeouts_is, e₆) = >>=-eq-ok (read_timeouts env) _ e₅ in
    let (_, headers_is, e₇) =
      >>=-eq-ok (parse_extra_headers env (codes "STATIKA_EXTRA_HEADERS")) _ e₆ in
    let (index, assets) = read_paths-IsEntryName env paths_is in
    let (threads, queue_size) = read_sizes-IsWithin parallelism env sizes_is in
    let (request, shutdown) = read_timeouts-IsWithin env timeouts_is in
    let (count, good) =
      parse_extra_headers-IsExtraHeader env (codes "STATIKA_EXTRA_HEADERS") headers_is in
    subst (λ c. IsValid c) (ok-injective e₇)
      (record {
        root_is_absolute = read_root-IsAbsolute env root_is;
        index_names = index;
        assets_names = assets;
        threads_range = threads;
        queue_size_range = queue_size;
        request_timeout_range = request;
        shutdown_timeout_range = shutdown;
        headers_count = count;
        headers_good = good;
      })
