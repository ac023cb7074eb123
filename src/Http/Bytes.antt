-- ===== src/Http/Bytes.antt =====
-- The byte tests and the trim of http.rs.
use statika.Prelude.{
  ℕ, ◌+◌, ◌-◌, Bool, not, ◌||◌, Option, none, some, ◌==◌, within, if◌then◌else◌, any,
}
use statika.Prelude.Bytes.{Bytes, trim_by, is_ascii_whitespace}

unfoldable pub trim_ascii : Bytes → Bytes
unfolding trim_by is_ascii_whitespace
trim_ascii bytes = trim_by is_ascii_whitespace bytes

unfoldable pub is_ctl : ℕ → Bool
is_ctl byte = within 0 31 byte || byte == 127

unfoldable pub contains_ctl : Bytes → Bool
unfolding is_ctl
contains_ctl bytes = any is_ctl bytes

unfoldable pub is_invalid_ctl : ℕ → Bool
is_invalid_ctl byte = within 0 8 byte || within 10 31 byte || byte == 127

unfoldable pub value_contains_invalid_ctl : Bytes → Bool
unfolding is_invalid_ctl
value_contains_invalid_ctl bytes = any is_invalid_ctl bytes

unfoldable pub is_unsafe_in_target : ℕ → Bool
is_unsafe_in_target byte = (within 0 32 byte || byte == 127) || byte == b'#'

unfoldable pub is_request_target_safe : Bytes → Bool
unfolding is_unsafe_in_target
is_request_target_safe bytes = not (any is_unsafe_in_target bytes)

unfoldable pub is_header_name_byte : ℕ → Bool
is_header_name_byte byte =
    byte == b'!'
    || byte == b'#'
    || byte == b'$'
    || byte == b'%'
    || byte == b'&'
    || byte == 39
    || byte == b'*'
    || byte == b'+'
    || byte == b'-'
    || byte == b'.'
    || byte == b'^'
    || byte == b'_'
    || byte == b'`'
    || byte == b'|'
    || byte == b'~'
    || within b'0' b'9' byte
    || within b'a' b'z' byte
    || within b'A' b'Z' byte

unfoldable pub hex : ℕ → Option ℕ
hex byte =
    if within b'0' b'9' byte
    then some (byte - b'0')
    else if within b'a' b'f' byte
    then some (byte - b'a' + 10)
    else if within b'A' b'F' byte
    then some (byte - b'A' + 10)
    else none
