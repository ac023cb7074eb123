-- ===== src/Server/Run.antt =====
-- `run` of server.rs, with `install_signal_handlers`, and the texts of `ServerError`. What the
-- system calls, the turns of the accept loop, the channel and the threads answer is given; the
-- events are those of the thread of `run`, so what the workers log is left out. Settings are in
-- seconds, times in nanoseconds.
pub mod Ran
use statika.Prelude.{
  refl, true, false, none, some, [], inl, inr, ok, err, ◌>>=◌, ◌>>◌, ◌∷◌, ◌≡◌, arith, if◌then◌else◌,
  ℕ, zero, suc, Option, Result, ◌*◌, Bool, List, ◌++◌, ◌&&◌, map,
}
use statika.Server.Accept.{gave, logged, ServerError, Turn, Effect, Stopped, accept_loop}
use statika.Prelude.Bytes.{Text, codes}
use statika.Io.{IoError}
use statika.Fs.{Kernel, RootDir, open_root}
use statika.Config.{Config}
use statika.Server.Workers.{join_workers, Reception}
use statika.Server.Queue
use statika.Server.Queue.{WorkQueue, close}
use statika.Server.Log.{log_queue_discarded, log_started, log_accept_error, log_stopped}

abbrev pub nanos : ℕ → ℕ
nanos seconds = seconds * 1000000000

-- The answers of `sigaction` for the two signals, of the calls on the listener, the turns of the
-- accept loop, the queue as it stands behind them, the clock as the workers are waited for, the
-- channel, and which threads panic.
pub record Calls : Type 0 where
  pub sigint : Result IoError (Unit {0})
  pub sigterm : Result IoError (Unit {0})
  pub bind : Result IoError (Unit {0})
  pub set_nonblocking : Result IoError (Unit {0})
  pub turns : List Turn
  pub queue : WorkQueue
  pub closed_at : ℕ
  pub receptions : List Reception
  pub panics : ℕ → Bool

abbrev pub install_signal_handlers : Calls → Result IoError (Unit {0})
install_signal_handlers calls = do calls.sigint; calls.sigterm; ok tt

-- The threads that are started, by whether each will panic.
abbrev pub spawn : (ℕ → Bool) → ℕ → List Bool
spawn panics zero = []
spawn panics (suc worker_id) = spawn panics worker_id ++ panics worker_id ∷ []

abbrev pub is_ok : {E A : Type 0} → Result E A → Bool
is_ok (ok a) = true
is_ok (err e) = false

-- How an error of the server prints, by how one of `std::io` does.
unfoldable pub display : (IoError → Text) → ServerError → Text
display show (ServerError.io error) = show error
display show ServerError.shutdown_timeout = codes "workers did not stop before shutdown timeout"
display show ServerError.worker_panic = codes "worker thread panicked"

-- The lines of the accept loop, with those of `push`.
abbrev pub accept_lines : (IoError → Text) → List Effect → List Text
accept_lines show [] = []
accept_lines show (gave work discarded ∷ effects) =
    map log_queue_discarded discarded ++ accept_lines show effects
accept_lines show (logged error ∷ effects) =
    log_accept_error (show error) ∷ accept_lines show effects

-- What `run` does: it writes a line, or leaves the queue closed, with the waits that this wakes.
pub data RunEvent : Type 0 where
  writes : Text → RunEvent
  closes : WorkQueue → List Queue.Effect → RunEvent

abbrev pub closing : WorkQueue → RunEvent
closing queue = let (closed, wakes) = close queue in closes closed wakes

-- The lines among the events.
abbrev pub written : List RunEvent → List Text
written [] = []
written (writes line ∷ events) = line ∷ written events
written (closes queue wakes ∷ events) = written events

abbrev pub RunResult : Type 0
RunResult = Option (Result ServerError (Unit {0}) × List RunEvent)

-- What follows the accept loop: the queue is closed, and the workers are waited for.
run_end :
    Text
    → List Text
    → WorkQueue
    → Result ServerError (Unit {0})
    → Option (Result ServerError (Unit {0}))
    → RunResult
run_end started lines queue accept_result none = none
run_end started lines queue accept_result (some shutdown_result) = some (
  accept_result >> shutdown_result,
  map writes (started ∷ lines)
      ++ closing queue ∷ writes (log_stopped (is_ok accept_result && is_ok shutdown_result)) ∷ [],
)

module _ {A Fd : Type 0} (kernel : Kernel Fd) (to_string : A → Text) (show : IoError → Text)
    (config : Config A) (calls : Calls) where
  pub set_up : Result IoError (RootDir Fd)
  set_up = do
    install_signal_handlers calls
    root ← open_root kernel config.root
    calls.bind
    calls.set_nonblocking
    ok root

  abbrev pub joined : Option (Result ServerError (Unit {0}))
  joined =
      join_workers calls.closed_at (nanos config.shutdown_timeout)
        (spawn calls.panics config.threads) calls.receptions

  serve : Option Stopped → RunResult
  serve none = none
  serve (some (accept_result, effects)) =
      run_end (log_started to_string config) (accept_lines show effects) calls.queue accept_result
        joined

  run_from : Result IoError (RootDir Fd) → RunResult
  run_from (err error) = some (err (ServerError.io error), [])
  run_from (ok root) = serve (accept_loop (nanos config.request_timeout) calls.turns)

  unfoldable pub run : RunResult
  unfolding run_end set_up serve run_from
  run = run_from set_up
