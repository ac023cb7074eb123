-- ===== src/Config/Tests.antt =====
-- An environment.
use statika.Prelude.{
  refl, true, false, none, some, [], ok, ◌∷◌, ◌≡◌, if◌then◌else◌, List, length, ◌≤◌, All,
}
use statika.Prelude.Bytes.{Text, codes, equal, is_ascii_digit}
use statika.Config.{Config, Header, Env}
use statika.Config.ExtraHeaders.{parse_extra_headers}
use statika.Config.FromEnv.{from_env}
use statika.Config.Headers.{IsExtraHeader, parse_extra_headers-IsExtraHeader}
use statika.Config.Bounds.{IsValid, from_env-IsValid}
use statika.Prelude.Radix.{value_from}

abbrev example_env : Env
example_env key =
    if equal key (codes "STATIKA_ROOT")
    then some (codes "/srv")
    else if equal key (codes "STATIKA_THREADS")
    then some (codes "+4")
    else if equal key (codes "STATIKA_GZIP")
    then some (codes " Off ")
    else if equal key (codes "STATIKA_EXTRA_HEADERS")
    then some (codes "X-Frame-Options: DENY")
    else none

abbrev frame_options : List Header
frame_options = record { name = codes "X-Frame-Options"; value = codes "DENY" } ∷ []

abbrev example_config : Config Text
example_config = record {
  listen_addr = codes "0.0.0.0:8080";
  root = codes "/srv";
  index = codes "index.html" ∷ [];
  assets_prefix = codes "assets" ∷ [];
  threads = 4;
  queue_size = 256;
  gzip_enabled = false;
  brotli_enabled = true;
  deny_dotfiles = true;
  request_timeout = 5;
  shutdown_timeout = 10;
  extra_headers = frame_options;
}

example_read : from_env some (some 8) example_env ≡ ok example_config
unfolding from_env equal is_ascii_digit value_from
example_read = refl

from_env-IsValid_example : IsValid example_config
from_env-IsValid_example = from_env-IsValid some (some 8) example_env example_read

headers_read : parse_extra_headers example_env (codes "STATIKA_EXTRA_HEADERS") ≡ ok frame_options
unfolding from_env equal is_ascii_digit value_from
headers_read = refl

parse_extra_headers-IsExtraHeader_example :
    (length frame_options ≤ 32) × All IsExtraHeader frame_options
parse_extra_headers-IsExtraHeader_example =
    parse_extra_headers-IsExtraHeader example_env (codes "STATIKA_EXTRA_HEADERS") headers_read

-- Two names that a response can have from the server itself are accepted.
abbrev allow_headers : Env
allow_headers key = some (codes "X-Content-Type-Options: nosniff\nAllow: GET")

allow_read :
    parse_extra_headers allow_headers (codes "STATIKA_EXTRA_HEADERS")
    ≡ ok (
        record { name = codes "X-Content-Type-Options"; value = codes "nosniff" }
        ∷ record { name = codes "Allow"; value = codes "GET" }
        ∷ [])
unfolding from_env equal is_ascii_digit value_from
allow_read = refl
