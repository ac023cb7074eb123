-- ===== src/Http/Read.antt =====
-- `read_request`: the bytes of the socket up to the first blank line. The answers of `read` and the
-- rounds of the waits are lists, as in net.rs; `none` is a loop that still waits.
mod Tests
pub mod Head
pub mod Returns
use statika.Prelude.{
  refl, true, false, none, some, [], inl, inr, ok, err, ◌>>=◌, ◌>>◌, ◌∷◌, ◌≡◌, arith, if◌then◌else◌,
  ℕ, zero, suc, List, Option, take, Result, leb, ◌++◌, length, is_empty, ltb, ◌+◌, ◌*◌,
}
use statika.Prelude.Bytes.{Bytes, starts_with}
use statika.Io.{IoError, is_interrupted, is_would_block, is_timed_out}
use statika.Net.{Round, IoResult, wait_fd, after_wait}
use statika.Http.Types.{Request, RequestError}
use statika.Http.Parse.{parse_request}

abbrev pub max_header_bytes : ℕ
max_header_bytes = 16 * 1024

abbrev blank_line : Bytes
blank_line = 13 ∷ 10 ∷ 13 ∷ 10 ∷ []

-- `windows(4).position(..)`, and 4 more.
pub find_end : Bytes → Option ℕ
unfolding starts_with
find_end [] = none
find_end (c ∷ cs) =
    let later = find_end cs in
    if starts_with blank_line (c ∷ cs)
    then some 4
    else elim later [ none ↦ none | some n ↦ some (suc n) ]

map_io : IoError → RequestError
map_io error = if is_timed_out error then RequestError.timeout else RequestError.io

-- An answer of `read`, which takes at most the 1024 bytes of the buffer.
pub data Read : Type 0 where
  received : Bytes → Read
  failed : IoError → Read

abbrev pub chunk_of : Bytes → Bytes
chunk_of bytes = take 1024 bytes

-- The tests ahead of a read: the head that is complete, or the refusal of one that is too large.
before_read : Bytes → Option (Result RequestError Bytes)
before_read request = elim (find_end request) [
  | some header_end ↦ some (ok (take header_end request))
  | none ↦
      if leb max_header_bytes (length request)
      then some (err RequestError.header_too_large)
      else none
]

-- A complete answer stands before what would follow.
or_else :
    Option (Result RequestError Bytes)
    → Option (Result RequestError Bytes)
    → Option (Result RequestError Bytes)
or_else (some r) later = some r
or_else none later = later

read_loop : ℕ → List Read → Bytes → List Round → Option (Result RequestError Bytes)
read_loop deadline [] request rounds = before_read request
read_loop deadline (received bytes ∷ reads) request rounds =
    let chunk = chunk_of bytes in
    let later = read_loop deadline reads (request ++ chunk) rounds in
    or_else (before_read request) (
      if is_empty chunk
      then some (err RequestError.bad_request)
      else if ltb max_header_bytes (length request + length chunk)
      then some (err RequestError.header_too_large)
      else later)
read_loop deadline (failed e ∷ reads) request rounds =
    let again = read_loop deadline reads request rounds in
    let waited =
      after_wait (wait_fd deadline rounds) (read_loop deadline reads request)
        (λ e' later. some (err (map_io e'))) in
    or_else (before_read request) (
      if is_interrupted e
      then again
      else if is_would_block e
      then waited
      else some (err (map_io e)))

parsed : Option (Result RequestError Bytes) → Option (Result RequestError Request)
parsed none = none
parsed (some (err e)) = some (err e)
parsed (some (ok head)) = some (parse_request head)

unfoldable pub read_request : ℕ → List Read → List Round → Option (Result RequestError Request)
unfolding parsed read_loop before_read or_else find_end map_io wait_fd is_interrupted is_would_block
    is_timed_out parse_request
read_request deadline reads rounds = parsed (read_loop deadline reads [] rounds)
