-- ===== src/Net/Tests.antt =====
-- A socket that blocks once.
use statika.Prelude.{
  refl, true, false, some, [], ok, ◌∷◌, ◌≡◌, arith, ℕ, List, ◌≤◌, ◌+◌, ◌-◌, ◌*◌, ◌<◌, ◌⊎◌, All,
}
use statika.Prelude.Bytes.{codes}
use statika.Io.{io_error, ErrorKind, is_interrupted, is_would_block}
use statika.Net.{
  Round, Poll, Socket, Write, wrote, Moved, moved, FileAnswers, IoResult, wait_fd, write_all,
  send_file, timeout_ms, c_int_max,
}
use statika.Net.WaitFd.{Ready, wait_fd-Ready, timeout_ms_range}
use statika.Net.Returns.{IsSettled, IsSupported, write_all_returns, send_file_returns}
use statika.Net.WriteAll.{Sends, write_all-Sends}
use statika.Net.SendFile.{Delivers, send_file-Delivers}

abbrev two_rounds : List Round
two_rounds =
    record { now = 5; poll = Poll.failed (io_error ErrorKind.interrupted) }
    ∷ record { now = 7; poll = Poll.ready true false }
    ∷ []

abbrev blocking_socket : Socket
blocking_socket = record {
  sent = codes "x";
  writes = wrote 2 ∷ Write.failed (io_error ErrorKind.would_block) ∷ wrote 9 ∷ [];
  rounds = two_rounds;
}

all_written :
    write_all blocking_socket (codes "abcd") 10
    ≡ some (ok tt, record { sent = codes "xabcd"; writes = []; rounds = [] })
unfolding write_all
all_written = refl

waited : wait_fd 10 two_rounds ≡ some (ok tt, [])
unfolding wait_fd
waited = refl

wait_fd-Ready_example : Ready 10 two_rounds []
wait_fd-Ready_example = wait_fd-Ready 10 two_rounds [] waited

one_millisecond : timeout_ms 1500000 1000000 ≡ ok 1
unfolding wait_fd
one_millisecond = refl

timeout_ms_range_example :
    (1 ≤ 1)
    × (1 ≤ c_int_max)
    × (1000000 + (1 - 1) * 1000000 < 1500000)
    × ((1500000 ≤ 1000000 + 1 * 1000000) ⊎ (1 ≡ c_int_max))
timeout_ms_range_example = timeout_ms_range 1500000 1000000 one_millisecond

write_all-Sends_example :
    Sends (codes "x") (codes "abcd") (write_all blocking_socket (codes "abcd") 10)
write_all-Sends_example = write_all-Sends blocking_socket (codes "abcd") 10

abbrev three_bytes : FileAnswers
three_bytes = record { transfers = moved (codes "ab") ∷ moved (codes "cd") ∷ []; reads = [] }

send_file-Delivers_example : Delivers (codes "x") 3 0 (send_file blocking_socket three_bytes 3 10)
send_file-Delivers_example = send_file-Delivers blocking_socket three_bytes 3 10

abbrev blocking_rounds : List Round
blocking_rounds = record { now = 7; poll = Poll.ready true false } ∷ []

settled : All (IsSettled 10) blocking_rounds
unfolding wait_fd
settled = ((ok tt, refl), tt)

abbrev slow_socket : Socket
slow_socket = record {
  sent = codes "x";
  writes = wrote 1 ∷ Write.failed (io_error ErrorKind.would_block) ∷ wrote 1 ∷ [];
  rounds = blocking_rounds;
}

write_all_returns_example :
    (answer : IoResult (Unit {0}) × Socket) × (write_all slow_socket (codes "ab") 10 ≡ some answer)
unfolding is_interrupted is_would_block
write_all_returns_example =
    write_all_returns slow_socket (codes "ab") 10 (omega arith) (omega arith) settled

abbrev slow_file : FileAnswers
slow_file = record {
  transfers =
      moved (codes "a") ∷ Moved.failed (io_error ErrorKind.would_block) ∷ moved (codes "b") ∷ [];
  reads = [];
}

slow_file-IsSupported : All IsSupported slow_file.transfers
unfolding send_file
slow_file-IsSupported = (tt, (refl, (tt, tt)))

send_file_returns_example :
    (answer : IoResult ℕ × Socket) × (send_file slow_socket slow_file 2 10 ≡ some answer)
unfolding is_interrupted is_would_block
send_file_returns_example =
    send_file_returns slow_socket slow_file 2 10 (omega arith) (omega arith) settled
      slow_file-IsSupported
