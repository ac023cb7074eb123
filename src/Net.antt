-- ===== src/Net.antt =====
-- net.rs: waiting for a socket, and writing bytes and files to it.
-- The system answers from lists: the clock readings and answers of `poll`, of `write`, of
-- `sendfile` and of `read_at`, in the order in which they are asked for. `none` means that such a
-- list has ended, which is that the program still waits. The system keeps its word where Linux
-- does: a call takes no more than it is given (`min`). Times are in nanoseconds.
mod Tests
pub mod Returns
pub mod WriteAll
pub mod WaitFd
pub mod SendFile
use statika.Prelude.{
  refl, true, false, none, some, [], inl, inr, ok, err, ◌>>=◌, ◌>>◌, ◌∷◌, ◌≡◌, arith, if◌then◌else◌,
  ℕ, zero, suc, ◌+◌, Bool, ◌*◌, ◌-◌, List, Option, Result, ◌/◌, ◌++◌, ◌==◌, take, min, drop, ltb,
  length, is_empty,
}
use statika.Io.{ErrorKind, Errno, IoError, io_error, is_interrupted, is_would_block}
use statika.Prelude.Bytes.{Bytes}

abbrev max_sendfile_chunk : ℕ
max_sendfile_chunk = 1073741824

abbrev fallback_buffer_size : ℕ
fallback_buffer_size = 64 * 1024

abbrev c_int_max : ℕ
c_int_max = 2147483647

-- What `poll` answers: the two tests on `revents`, no event in time, or an error.
pub data Poll : Type 0 where
  ready : (has_events has_error : Bool) → Poll
  no_event : Poll
  failed : IoError → Poll

-- A round of `wait_fd`: the clock, and the answer of `poll` if it comes to be asked.
pub record Round : Type 0 where
  pub now : ℕ
  pub poll : Poll

abbrev pub IoResult : Type 0 → Type 0
IoResult A = Result IoError A

-- `Duration::as_nanos().div_ceil(1_000_000)`
duration_ms_ceil : ℕ → ℕ
duration_ms_ceil nanos = (nanos + 999999) / 1000000

pub timeout_ms : ℕ → ℕ → IoResult ℕ
timeout_ms deadline now =
    let remaining = deadline - now in
    if remaining == 0
    then err (io_error ErrorKind.timed_out)
    else ok (min (duration_ms_ceil remaining) c_int_max)

-- One answer of `poll`: the loop goes on at `none`.
pub wait_answer : Poll → Option (IoResult (Unit {0}))
wait_answer (ready true has_error) = some (ok tt)
wait_answer (ready false true) = some (err (io_error ErrorKind.broken_pipe))
wait_answer (ready false false) = none
wait_answer no_event = some (err (io_error ErrorKind.timed_out))
wait_answer (failed e) = if is_interrupted e then none else some (err e)

pub wait_round : ℕ → Round → Option (IoResult (Unit {0}))
wait_round deadline r = elim (timeout_ms deadline r.now) [
  | err e ↦ some (err e)
  | ok timeout ↦ wait_answer r.poll
]

unfoldable pub wait_fd : ℕ → List Round → Option (IoResult (Unit {0}) × List Round)
unfolding wait_round wait_answer timeout_ms duration_ms_ceil is_interrupted
wait_fd deadline [] = none
wait_fd deadline (r ∷ rounds) = elim (wait_round deadline r) [
  | some answer ↦ some (answer, rounds)
  | none ↦ wait_fd deadline rounds
]

-- An answer of `write`, with the rounds of a wait behind it.
pub data Write : Type 0 where
  wrote : ℕ → Write
  failed : IoError → Write

-- A socket: what it has been sent, and the answers to come.
pub record Socket : Type 0 where
  pub sent : Bytes
  pub writes : List Write
  pub rounds : List Round

-- What follows a wait, on its success and on its error.
abbrev pub after_wait :
    {R : Type 0}
    → Option (IoResult (Unit {0}) × List Round)
    → (List Round → Option R)
    → (IoError → List Round → Option R)
    → Option R
after_wait none go fail = none
after_wait (some (ok _, later)) go fail = go later
after_wait (some (err e, later)) go fail = fail e later

abbrev io_write_zero : IoError
io_write_zero = io_error ErrorKind.write_zero

-- The loop of `write_all_shared`, by recursion on the answers of `write`.
write_loop : ℕ → List Write → Bytes → Bytes → List Round → Option (IoResult (Unit {0}) × Socket)
write_loop deadline writes sent [] rounds =
    some (ok tt, record { sent = sent; writes = writes; rounds = rounds })
write_loop deadline [] sent (b ∷ bytes) rounds = none
write_loop deadline (wrote zero ∷ writes) sent (b ∷ bytes) rounds =
    some (err io_write_zero, record { sent = sent; writes = writes; rounds = rounds })
write_loop deadline (wrote (suc n) ∷ writes) sent (b ∷ bytes) rounds =
    write_loop deadline writes (sent ++ take (suc n) (b ∷ bytes)) (drop (suc n) (b ∷ bytes)) rounds
write_loop deadline (failed e ∷ writes) sent (b ∷ bytes) rounds =
    let again = write_loop deadline writes sent (b ∷ bytes) rounds in
    let waited =
      after_wait (wait_fd deadline rounds) (write_loop deadline writes sent (b ∷ bytes))
        (λ e' later. some (err e', record { sent = sent; writes = writes; rounds = later })) in
    if is_interrupted e
    then again
    else if is_would_block e
    then waited
    else some (err e, record { sent = sent; writes = writes; rounds = rounds })

unfoldable pub write_all : Socket → Bytes → ℕ → Option (IoResult (Unit {0}) × Socket)
unfolding write_loop wait_fd is_interrupted is_would_block
write_all stream bytes deadline = write_loop deadline stream.writes stream.sent bytes stream.rounds

-- What follows a write, on its success and on its error.
abbrev pub after_write :
    {R : Type 0}
    → Option (IoResult (Unit {0}) × Socket)
    → (Socket → Option R)
    → (IoError → Socket → Option R)
    → Option R
after_write none go fail = none
after_write (some (ok _, later)) go fail = go later
after_write (some (err e, later)) go fail = fail e later

pub sendfile_can_fallback : IoError → Bool
sendfile_can_fallback e = elim e.raw_os_error [
  | some Errno.einval ↦ true
  | some Errno.enosys ↦ true
  | _ ↦ false
]

abbrev io_unexpected_eof : IoError
io_unexpected_eof = io_error ErrorKind.unexpected_eof

-- An answer of `sendfile`, or of `read_at`: the bytes that were moved, or an error.
pub data Moved : Type 0 where
  moved : Bytes → Moved
  failed : IoError → Moved

-- The loop of `send_file_fallback`, by recursion on the answers of `read_at`.
fallback_loop : ℕ → ℕ → List Moved → Socket → ℕ → Option (IoResult ℕ × Socket)
fallback_loop deadline length_ [] stream sent =
    if ltb sent length_ then none else some (ok sent, stream)
fallback_loop deadline length_ (failed e ∷ reads) stream sent =
    if ltb sent length_ then some (err e, stream) else some (ok sent, stream)
fallback_loop deadline length_ (moved bytes ∷ reads) stream sent =
    let buffer = take (min (length_ - sent) fallback_buffer_size) bytes in
    let round =
      after_write (write_all stream buffer deadline)
        (λ later. fallback_loop deadline length_ reads later (sent + length buffer))
        (λ e later. some (err e, later)) in
    if ltb sent length_
    then (if is_empty buffer then some (err io_unexpected_eof, stream) else round)
    else some (ok sent, stream)

-- The loop of `send_file`, by recursion on the answers of `sendfile`.
send_loop : ℕ → ℕ → List Moved → List Moved → Socket → ℕ → Option (IoResult ℕ × Socket)
send_loop deadline length_ [] reads stream sent =
    if ltb sent length_ then none else some (ok sent, stream)
send_loop deadline length_ (moved bytes ∷ transfers) reads stream sent =
    let chunk = take (min (length_ - sent) max_sendfile_chunk) bytes in
    let again =
      send_loop deadline length_ transfers reads (record stream { sent = stream.sent ++ chunk })
        (sent + length chunk) in
    if ltb sent length_
    then (if is_empty chunk then some (err io_unexpected_eof, stream) else again)
    else some (ok sent, stream)
send_loop deadline length_ (failed e ∷ transfers) reads stream sent =
    let again = send_loop deadline length_ transfers reads stream sent in
    let waited =
      after_wait (wait_fd deadline stream.rounds)
        (λ later.
          send_loop deadline length_ transfers reads (record stream { rounds = later }) sent)
        (λ e' later. some (err e', record stream { rounds = later })) in
    if ltb sent length_
    then (if is_interrupted e
        then again
        else if is_would_block e
        then waited
        else if sendfile_can_fallback e
        then fallback_loop deadline length_ reads stream sent
        else some (err e, stream))
    else some (ok sent, stream)

-- What the system answers for a file: to `sendfile`, and to `read_at`.
pub record FileAnswers : Type 0 where
  pub transfers : List Moved
  pub reads : List Moved

unfoldable pub send_file : Socket → FileAnswers → ℕ → ℕ → Option (IoResult ℕ × Socket)
unfolding send_loop fallback_loop sendfile_can_fallback write_all
send_file stream file length_ deadline =
    send_loop deadline length_ file.transfers file.reads stream 0
