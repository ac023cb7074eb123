-- ===== src/Config/Values.antt =====
-- The parsers of numbers and switches of config.rs, with the default number of threads.
use statika.Prelude.{
  true, false, none, some, [], ok, err, ◌∷◌, if◌then◌else◌, ℕ, Result, max, List, Bool, min, Option,
  map, any, within, is_empty, leb, ◌==◌, not, ◌^◌, ◌||◌, all,
}
use statika.Prelude.Bytes.{Text, codes, equal, trim, to_ascii_lowercase, is_ascii_digit}
use statika.Prelude.Radix.{value_from}
use statika.Config.{set, not_present, not_unicode, ConfigError, Var, Env, var, non_utf8}

-- `clamp`
abbrev pub clamp : ℕ → ℕ → ℕ → ℕ
clamp lo hi n = max lo (min hi n)

-- `available_parallelism` is `none` where it fails.
unfoldable pub default_threads : Option ℕ → ℕ
default_threads parallelism = clamp 1 32 (elim parallelism [ none ↦ 1 | some n ↦ n ])

-- The digits of `str::parse` at an unsigned 64-bit type: one at least, a value in range.
unfoldable pub parse_digits : Text → Option ℕ
parse_digits digits =
    if is_empty digits || not (all is_ascii_digit digits) || leb (2 ^ 64) (value_from 0 digits)
    then none
    else some (value_from 0 digits)

-- `str::parse`, at u64 and at usize, which has 64 bits: a plus sign may stand in front.
unfoldable pub parse_unsigned : Text → Option ℕ
parse_unsigned [] = none
parse_unsigned (c ∷ cs) = if c == b'+' then parse_digits cs else parse_digits (c ∷ cs)

unfoldable pub parse_in_range : Text → Text → ℕ → ℕ → Result ConfigError ℕ
parse_in_range key raw lo hi = elim (parse_unsigned raw) [
  | none ↦ err (ConfigError.invalid key raw)
  | some parsed ↦ if within lo hi parsed then ok parsed else err (ConfigError.invalid key raw)
]

-- The match on the variable's value.
unfoldable pub range_of : Text → ℕ → ℕ → ℕ → Var → Result ConfigError ℕ
range_of key default lo hi (set raw) = parse_in_range key raw lo hi
range_of key default lo hi not_present = ok default
range_of key default lo hi not_unicode = err (ConfigError.invalid key non_utf8)

unfoldable pub parse_usize : Env → Text → ℕ → ℕ → ℕ → Result ConfigError ℕ
parse_usize env key default lo hi = range_of key default lo hi (var env key)

unfoldable pub parse_u64 : Env → Text → ℕ → ℕ → ℕ → Result ConfigError ℕ
parse_u64 env key default lo hi = range_of key default lo hi (var env key)

abbrev pub is_one_of : List Text → Text → Bool
is_one_of names text = any (λ name. equal text name) names

unfoldable pub parse_bool_text : Text → Text → Text → Result ConfigError Bool
parse_bool_text key raw text =
    if is_one_of (codes "1" ∷ codes "true" ∷ codes "yes" ∷ codes "on" ∷ []) text
    then ok true
    else if is_one_of (codes "0" ∷ codes "false" ∷ codes "no" ∷ codes "off" ∷ []) text
    then ok false
    else err (ConfigError.invalid key raw)

unfoldable pub parse_bool : Env → Text → Bool → Result ConfigError Bool
parse_bool env key default = elim (var env key) [
  | set raw ↦ parse_bool_text key raw (map to_ascii_lowercase (trim raw))
  | not_present ↦ ok default
  | not_unicode ↦ err (ConfigError.invalid key non_utf8)
]
