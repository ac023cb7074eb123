-- ===== src/Server/Accept/Tests.antt =====
-- A listener that is accepted from.
use statika.Prelude.{refl, true, false, some, [], inl, inr, ok, err, ◌∷◌, ◌≡◌, arith, ℕ, Result}
use statika.Server.Accept.System.{
  then_moves, accepts, pushes_once, stays, Runs, System, Simulated, Runs-Simulated, started,
  after_push,
}
use statika.Net.{Poll, wait_fd}
use statika.Server.Queue.{PushReads, WorkItem, push_round, new}
use statika.Server.Accept.{
  accept_turn, Options, accept_loop, Stopped, Turn, ServerError, sleep_until_shutdown, Next, gave,
}
use statika.Server.Accept.Stops.{Stops, accept_loop-Stops}
use statika.Io.{IoError, io_error, ErrorKind, Errno, is_timed_out}
use statika.Server.Accept.Returns.{accept_loop_returns, Settles}

abbrev set_up : Options
set_up = record { set_nonblocking = ok tt; set_nodelay = ok tt }

-- A connection, an error that is over in a moment, nothing to accept, and the flag.
abbrev connected : Turn
connected = record {
  shutdown = false;
  answer = ok 7;
  now = 5;
  options = set_up;
  pushed = true;
  discarded = 2 ∷ [];
  polls = record { now = 100000005; poll = Poll.no_event } ∷ [];
  naps = record { shutdown = true; now = 5 } ∷ [];
}

abbrev aborted : Turn
aborted = record connected {
  answer = err (record { kind = ErrorKind.other; raw_os_error = some Errno.econnaborted });
}

abbrev nothing_there : Turn
nothing_there = record connected { answer = err (io_error ErrorKind.would_block) }

abbrev told : Turn
told = record connected { shutdown = true }

abbrev broken : Turn
broken = record connected {
  answer = err (record { kind = ErrorKind.other; raw_os_error = some Errno.einval });
}

accepted_one :
    accept_loop 30 (connected ∷ aborted ∷ nothing_there ∷ told ∷ [])
    ≡ some (ok tt, gave (record { stream = 7; accepted_at = 5; deadline = 35 }) (2 ∷ []) ∷ [])
unfolding accept_loop sleep_until_shutdown wait_fd is_timed_out
accepted_one = refl

broken_stops :
    accept_loop 30 (aborted ∷ broken ∷ [])
    ≡ some (
      err (ServerError.io (record { kind = ErrorKind.other; raw_os_error = some Errno.einval })),
      [],
    )
unfolding accept_loop sleep_until_shutdown wait_fd is_timed_out
broken_stops = refl

accept_loop-Stops_example :
    Stops
      (aborted ∷ broken ∷ [])
      (err (ServerError.io (record { kind = ErrorKind.other; raw_os_error = some Errno.einval })))
accept_loop-Stops_example = accept_loop-Stops 30 (aborted ∷ broken ∷ []) broken_stops

connected-Settles : (answer : Result IoError ℕ) → Settles (record connected { answer = answer })
connected-Settles answer = record {
  polls_end = inl (omega arith);
  naps_end = λ duration short. inl (inl refl);
}

accept_loop_returns_example :
    (s : Stopped) × (accept_loop 30 (connected ∷ nothing_there ∷ told ∷ []) ≡ some s)
accept_loop_returns_example =
    accept_loop_returns 30 (connected ∷ nothing_there ∷ told ∷ [])
      (inr (connected-Settles _, inr (connected-Settles _, inl refl)))

abbrev seven : WorkItem
seven = record { stream = 7; accepted_at = 5; deadline = 35 }

seven_planned : (accept_turn 30 5 set_up (ok 7)).0 ≡ Next.pushes seven
unfolding accept_turn
seven_planned = refl

abbrev seven_reads : PushReads
seven_reads = record { now = 6; shutdown_in_loop = false; shutdown_after = false; now_after = 6 }

-- The queue with the one connection.
abbrev seven_pushed : System
seven_pushed = record {
  queue = (push_round seven_reads seven (new 2)).0;
  clock = 6;
  shutdown = false;
  acceptor = after_push seven (push_round seven_reads seven (new 2)).1;
}

seven-Runs : Runs 30 (started 2 5) seven_pushed
seven-Runs = then_moves (then_moves stays (accepts set_up 7 seven refl refl seven_planned)) (
    pushes_once seven_reads seven refl (record {
      now_is = omega arith;
      later = omega arith;
      flag_in_loop = λ e. absurd (cc);
      flag_after = λ e. absurd (cc);
    }))

Runs-Simulated_example : Simulated 2 30 seven_pushed
Runs-Simulated_example = Runs-Simulated 2 30 5 seven-Runs
