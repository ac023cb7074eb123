-- ===== src/Server/Accept.antt =====
-- `accept_loop` of server.rs, with `configure_stream`, `sleep_until_shutdown` and the tests on the
-- errors of `accept`. The system answers from lists: a turn of a loop gets what it reads of the
-- shutdown flag and of the clock, and what its calls answer. `none` means that such a list has
-- ended, which is that the program is still in the loop. Times are in nanoseconds.
mod Tests
pub mod Stops
pub mod Sleep
pub mod Returns
pub mod System
use mathlib.Core.Option
use statika.Prelude.{
  refl, true, false, none, some, [], inl, inr, ok, err, ◌>>=◌, ◌>>◌, ◌∷◌, ◌≡◌, arith, if◌then◌else◌,
  ℕ, zero, suc, Bool, Option, List, Result, map, ◌-◌, ◌+◌, ◌||◌, ◌==◌, min, ◌++◌,
}
use statika.Server.Queue.{WorkItem}
use statika.Net.{wait_fd, Round, IoResult}
use statika.Io.{Errno, is_interrupted, IoError, is_would_block, is_timed_out}

abbrev pub accept_poll_interval : ℕ
accept_poll_interval = 100000000

abbrev pub accept_transient_backoff : ℕ
accept_transient_backoff = 10000000

abbrev pub accept_resource_backoff : ℕ
accept_resource_backoff = 100000000

pub data ServerError : Type 0 where
  io : IoError → ServerError
  shutdown_timeout worker_panic : ServerError

-- What the two calls of `configure_stream` answer; the second is not made where the first fails.
pub record Options : Type 0 where
  pub set_nonblocking : Result IoError (Unit {0})
  pub set_nodelay : Result IoError (Unit {0})

abbrev pub configure_stream : Options → Result IoError (Unit {0})
configure_stream stream = do stream.set_nonblocking; stream.set_nodelay; ok tt

unfoldable pub is_transient_accept_error : IoError → Bool
is_transient_accept_error error = elim error.raw_os_error [
  | some Errno.enetdown ↦ true
  | some Errno.eproto ↦ true
  | some Errno.enoprotoopt ↦ true
  | some Errno.ehostdown ↦ true
  | some Errno.enonet ↦ true
  | some Errno.ehostunreach ↦ true
  | some Errno.eopnotsupp ↦ true
  | some Errno.enetunreach ↦ true
  | some Errno.econnaborted ↦ true
  | _ ↦ false
]

unfoldable pub is_accept_resource_exhaustion : IoError → Bool
is_accept_resource_exhaustion error = elim error.raw_os_error [
  | some Errno.emfile ↦ true
  | some Errno.enfile ↦ true
  | _ ↦ false
]

-- A turn of the loop of `sleep_until_shutdown`.
pub record Nap : Type 0 where
  pub shutdown : Bool
  pub now : ℕ

-- The loop up to a deadline: how long it has slept, sleep by sleep.
pub sleep_loop : ℕ → List Nap → Option (List ℕ)
sleep_loop deadline [] = none
sleep_loop deadline (nap ∷ naps) =
    let rest = sleep_loop deadline naps in
    let remaining = deadline - nap.now in
    if nap.shutdown || remaining == 0
    then some []
    else Option.map (λ slept. min remaining accept_poll_interval ∷ slept) rest

unfoldable pub sleep_until_shutdown : ℕ → ℕ → List Nap → Option (List ℕ)
unfolding sleep_loop
sleep_until_shutdown now duration naps = sleep_loop (now + duration) naps

-- A turn of `accept_loop`: what it may read and be answered. `pushed` is what `queue.push` returns,
-- and `discarded` the counts of discarded items that it logs.
pub record Turn : Type 0 where
  pub shutdown : Bool
  pub answer : Result IoError ℕ
  pub now : ℕ
  pub options : Options
  pub pushed : Bool
  pub discarded : List ℕ
  pub polls : List Round
  pub naps : List Nap

-- What a turn does next, once `accept` has answered.
pub data Next : Type 0 where
  pushes : WorkItem → Next
  goes_on : Next
  waits : ℕ → Next
  sleeps : ℕ → Next
  fails : IoError → Next

-- The stream is set up and handed to the queue; the error that is logged, if any, stands beside.
accepted : ℕ → ℕ → ℕ → Result IoError (Unit {0}) → Next × List IoError
accepted timeout now stream (err error) = (goes_on, error ∷ [])
accepted timeout now stream (ok _) =
    (pushes (record { stream = stream; accepted_at = now; deadline = now + timeout }), [])

pub not_accepted : ℕ → IoError → Next × List IoError
not_accepted now error =
    if is_interrupted error
    then (goes_on, [])
    else if is_would_block error
    then (waits (now + accept_poll_interval), [])
    else if is_transient_accept_error error
    then (sleeps accept_transient_backoff, [])
    else if is_accept_resource_exhaustion error
    then (sleeps accept_resource_backoff, error ∷ [])
    else (fails error, [])

unfoldable pub accept_turn : ℕ → ℕ → Options → Result IoError ℕ → Next × List IoError
unfolding accepted not_accepted is_interrupted is_would_block is_transient_accept_error
    is_accept_resource_exhaustion
accept_turn timeout now options (ok stream) = accepted timeout now stream (configure_stream options)
accept_turn timeout now options (err error) = not_accepted now error

-- How a turn ends: with the next one, with the loop, with an error, or not yet.
pub data End : Type 0 where
  continues breaks blocks : End
  returns : IoError → End

-- What a wait for the listener answers: only an error of `poll` itself ends the loop.
pub after_poll : Option (IoResult (Unit {0}) × List Round) → End
after_poll none = blocks
after_poll (some (ok _, later)) = continues
after_poll (some (err error, later)) =
    if is_timed_out error || is_interrupted error then continues else returns error

after_nap : Option (List ℕ) → End
after_nap none = blocks
after_nap (some slept) = continues

pub turn_end : Turn → Next → End
unfolding after_poll after_nap
turn_end t goes_on = continues
turn_end t (pushes work) = if t.pushed then continues else breaks
turn_end t (waits deadline) = after_poll (wait_fd deadline t.polls)
turn_end t (sleeps duration) = after_nap (sleep_until_shutdown t.now duration t.naps)
turn_end t (fails error) = returns error

-- What the loop has done: the items it has given to the queue, each with the counts of discarded
-- items that `push` logs, and the errors that it has logged.
pub data Effect : Type 0 where
  gave : WorkItem → List ℕ → Effect
  logged : IoError → Effect

abbrev pub Stopped : Type 0
Stopped = Result ServerError (Unit {0}) × List Effect

pub turn_effects : Turn → Next × List IoError → List Effect
turn_effects t (pushes work, errors) = gave work t.discarded ∷ map logged errors
turn_effects t (_, errors) = map logged errors

pub then_rest : End → List Effect → Option Stopped → Option Stopped
then_rest continues effects rest = Option.map (λ (s : Stopped). (s.0, effects ++ s.1)) rest
then_rest breaks effects rest = some (ok tt, effects)
then_rest blocks effects rest = none
then_rest (returns error) effects rest = some (err (ServerError.io error), effects)

unfoldable pub accept_loop : ℕ → List Turn → Option Stopped
unfolding accept_turn turn_end turn_effects then_rest
accept_loop timeout [] = none
accept_loop timeout (t ∷ turns) =
    let rest = accept_loop timeout turns in
    let did = accept_turn timeout t.now t.options t.answer in
    if t.shutdown then some (ok tt, []) else then_rest (turn_end t did.0) (turn_effects t did) rest
