-- ===== src/Main/Exits.antt =====
-- What the exit status says.
use statika.Prelude.{
  refl, true, some, inl, inr, ok, err, ◌≡◌, ℕ, List, Option, Result, ◌+◌, Bool-cases,
}
use statika.Fs.{Kernel}
use statika.Prelude.Bytes.{Text}
use statika.Io.{IoError}
use statika.Server.Run.{Calls, nanos, run, RunEvent}
use statika.Config.{ConfigError, Config}
use statika.Main.{Exit, after_run, after_config, is_version_request, main}
use statika.Server.Accept.{ServerError}
use statika.Server.Accept.Returns.{IsToldToStop}
use statika.Server.Workers.Joined.{EndsBy}
use statika.Server.Run.Ran.{Ran, run-Ran}

module _ {A Fd : Type 0} (kernel : Kernel Fd) (to_string : A → Text) (show : IoError → Text)
    (calls : Calls) (args : List (Option Text)) (settings : Result ConfigError (Config A)) where
  pub data Exits : ℕ → Type 0 where
    version_printed : is_version_request args ≡ true → Exits 0
    bad_settings : {error : ConfigError} → settings ≡ err error → Exits 2
    server_failed :
        {config : Config A} {error : ServerError} {events : List RunEvent}
        → settings ≡ ok config
        → Ran kernel to_string show config calls (err error) events
        → Exits 1
    server_stopped :
        {config : Config A} {events : List RunEvent}
        → settings ≡ ok config
        → Ran kernel to_string show config calls (ok tt) events
        → Exits 0

  abbrev EndsWith : Option Exit → Type 0
  EndsWith outcome = (exit : Exit) × (outcome ≡ some exit) × Exits exit.status

  after_run-Exits :
      (config : Config A) (result : Result ServerError (Unit {0})) (events : List RunEvent)
      → settings ≡ ok config
      → Ran kernel to_string show config calls result events
      → EndsWith (after_run show (some (result, events)))
  unfolding after_run
  after_run-Exits config (ok _) events s r = (_, refl, server_stopped s r)
  after_run-Exits config (err error) events s r = (_, refl, server_failed s r)

  after_config-Exits :
      (parsed : Result ConfigError (Config A))
      → settings ≡ parsed
      → IsToldToStop calls.turns
      → ((config : Config A)
          → settings ≡ ok config
          → EndsBy (calls.closed_at + nanos config.shutdown_timeout) calls.receptions)
      → EndsWith (after_config show (λ config. run kernel to_string show config calls) parsed)
  unfolding after_config
  after_config-Exits (err error) s told h = (_, refl, bad_settings s)
  after_config-Exits (ok config) s told h =
      let (result, events, e, r) = run-Ran kernel to_string show config calls told (h config s) in
      rw e (after_run-Exits config result events s r)

  -- The program exits once the shutdown flag is set and the wait for the workers comes to its
  -- end: with 2 only for settings that are refused, with 1 only where `run` returned an error,
  -- and with 0 only on a request for the version or where `run` returned without one, so that the
  -- accept loop ended by the flag or a refused push and every worker was joined.
  pub main-Exits :
      (version : Text)
      → IsToldToStop calls.turns
      → ((config : Config A)
          → settings ≡ ok config
          → EndsBy (calls.closed_at + nanos config.shutdown_timeout) calls.receptions)
      → EndsWith
          (main show version args settings (λ config. run kernel to_string show config calls))
  unfolding main
  main-Exits version told h = elim (Bool-cases (is_version_request args)) [
    | inl v ↦ rw (main, v) (_, refl, version_printed v)
    | inr v ↦ rw (main, v) (after_config-Exits settings refl told h)
  ]
