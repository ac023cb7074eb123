-- ===== src/Server/Run/Ran.antt =====
-- How `run` ends.
use statika.Prelude.{
  refl, none, some, [], ok, err, ◌>>◌, ◌∷◌, ◌≡◌, Result, List, Option, ◌+◌, ◌++◌, ◌&&◌, Bool, map,
}
use statika.Fs.{Kernel, RootDir}
use statika.Prelude.Bytes.{Text}
use statika.Io.{IoError}
use statika.Config.{Config}
use statika.Server.Run.{
  Calls, run, RunResult, serve, run_end, run_from, set_up, nanos, spawn, accept_lines, is_ok,
  RunEvent, writes, closing,
}
use statika.Server.Accept.{ServerError, Stopped, accept_loop}
use statika.Server.Accept.Stops.{Stops, accept_loop-Stops}
use statika.Server.Accept.Returns.{IsToldToStop, accept_loop_returns}
use statika.Server.Log.{log_started, log_stopped}
use statika.Server.Workers.Joined.{Joined, EndsBy, join_workers-Joined}

module _ {A Fd : Type 0} (kernel : Kernel Fd) (to_string : A → Text) (show : IoError → Text)
    (config : Config A) (calls : Calls) where
  -- What the accept loop and the wait for the workers came to.
  pub data Served : Result ServerError (Unit {0}) → Type 0 where
    cleanly :
        Stops calls.turns (ok tt)
        → Joined calls.closed_at
            (nanos config.shutdown_timeout)
            (spawn calls.panics config.threads)
            calls.receptions
            (ok tt)
        → Served (ok tt)
    not_accepting : {error : ServerError} → Stops calls.turns (err error) → Served (err error)
    not_joined :
        {error : ServerError}
        → Stops calls.turns (ok tt)
        → Joined calls.closed_at
            (nanos config.shutdown_timeout)
            (spawn calls.panics config.threads)
            calls.receptions
            (err error)
        → Served (err error)

  -- What a run that has started does: the first line, those of the accept loop, the closing of the
  -- queue, and the last line.
  abbrev run_events : List Text → Bool → List RunEvent
  run_events lines clean =
      map writes (log_started to_string config ∷ lines)
      ++ closing calls.queue ∷ writes (log_stopped clean) ∷ []

  -- The result of `run`, and what it does.
  pub data Ran : Result ServerError (Unit {0}) → List RunEvent → Type 0 where
    not_started :
        {error : IoError}
        → set_up kernel to_string show config calls ≡ err error
        → Ran (err (ServerError.io error)) []
    ran :
        {result : Result ServerError (Unit {0})} (root : RootDir Fd) (lines : List Text)
        → set_up kernel to_string show config calls ≡ ok root
        → Served result
        → Ran result (run_events lines (is_ok result))

  ended_Ran :
      (root : RootDir Fd) (lines : List Text) (accepted joined : Result ServerError (Unit {0}))
      → set_up kernel to_string show config calls ≡ ok root
      → Stops calls.turns accepted
      → Joined calls.closed_at
          (nanos config.shutdown_timeout)
          (spawn calls.panics config.threads)
          calls.receptions
          joined
      → Ran (accepted >> joined) (run_events lines (is_ok accepted && is_ok joined))
  ended_Ran root lines (ok _) (ok _) s a j = ran root lines s (cleanly a j)
  ended_Ran root lines (ok _) (err error) s a j = ran root lines s (not_joined a j)
  ended_Ran root lines (err error) joined s a j = ran root lines s (not_accepting a)

  abbrev RunsTo : RunResult → Type 0
  RunsTo outcome =
      (result : Result ServerError (Unit {0})) × (events : List RunEvent) × (outcome
        ≡ some (result, events))
      × Ran result events

  served_Ran :
      (root : RootDir Fd) (stopped : Option Stopped)
      → set_up kernel to_string show config calls ≡ ok root
      → accept_loop (nanos config.request_timeout) calls.turns ≡ stopped
      → (s : Stopped) × (stopped ≡ some s)
      → EndsBy (calls.closed_at + nanos config.shutdown_timeout) calls.receptions
      → RunsTo (serve kernel to_string show config calls stopped)
  unfolding serve run_end
  served_Ran root none s a (x, e) h = absurd (cc)
  served_Ran root (some (accepted, effects)) s a e h =
      let (result, j, joins) =
        join_workers-Joined calls.closed_at (nanos config.shutdown_timeout)
          (spawn calls.panics config.threads) calls.receptions h in
      rw j (
        _,
        _,
        refl,
        ended_Ran root (accept_lines show effects) accepted result s
            (accept_loop-Stops (nanos config.request_timeout) calls.turns a) joins,
      )

  -- `run` returns once the shutdown flag is set and the wait for the workers comes to its end. An
  -- error of the set-up comes before anything is logged or accepted. Otherwise the first line
  -- says that the server has started, the queue is closed behind the lines of the accept loop,
  -- and the last line says whether the server stopped cleanly, which it says exactly when `run` returns without an error: then the loop ended by the flag or a refused
  -- push and every worker was joined. An error of the accept loop goes before one of the
  -- shutdown.
  pub run-Ran :
      IsToldToStop calls.turns
      → EndsBy (calls.closed_at + nanos config.shutdown_timeout) calls.receptions
      → RunsTo (run kernel to_string show config calls)
  unfolding run run_from
  run-Ran told h = go (set_up kernel to_string show config calls) refl
    where
      go :
          (root : Result IoError (RootDir Fd))
          → set_up kernel to_string show config calls ≡ root
          → RunsTo (run_from kernel to_string show config calls root)
      go (err error) s = (_, _, refl, not_started s)
      go (ok root) s =
          served_Ran root (accept_loop (nanos config.request_timeout) calls.turns) s refl
            (accept_loop_returns (nanos config.request_timeout) calls.turns told) h
