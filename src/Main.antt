-- ===== src/Main.antt =====
-- main.rs: the arguments, the settings, the server, and the status that the program exits with.
-- An argument is its text where it is Unicode; `version` is that of the package.
mod Tests
pub mod Exits
use statika.Prelude.{
  refl, true, false, none, some, [], inl, inr, ok, err, ◌>>=◌, ◌>>◌, ◌∷◌, ◌≡◌, arith, if◌then◌else◌,
  ℕ, zero, suc, List, Option, ◌++◌, Bool, Result, ◌||◌,
}
use statika.Config.Display
use statika.Server.Run
use statika.Prelude.Bytes.{Text, equal, codes}
use statika.Io.{IoError}
use statika.Server.Run.{RunResult, written}
use statika.Config.{Config, ConfigError}
use statika.Server.Log.{eprintln}

-- `args_os`, the name of the program first.
unfoldable pub is_version_request : List (Option Text) → Bool
is_version_request (program ∷ some first ∷ []) =
    equal first (codes "--version") || equal first (codes "-V")
is_version_request _ = false

-- The status, what is printed, and the lines on the standard error.
pub record Exit : Type 0 where
  pub status : ℕ
  pub printed : Text
  pub lines : List Text

after_run : (IoError → Text) → RunResult → Option Exit
after_run show none = none
after_run show (some (ok _, events)) =
    some (record { status = 0; printed = []; lines = written events })
after_run show (some (err error, events)) = some (record {
  status = 1;
  printed = [];
  lines = written events ++ eprintln (codes "server error: " ∷ Run.display show error ∷ []) ∷ [];
})

after_config :
    {A : Type 0}
    → (IoError → Text)
    → (Config A → RunResult)
    → Result ConfigError (Config A)
    → Option Exit
unfolding after_run
after_config show run (err error) = some (record {
  status = 2;
  printed = [];
  lines = eprintln (codes "configuration error: " ∷ Display.display error ∷ []) ∷ [];
})
after_config show run (ok config) = after_run show (run config)

-- `from_env` is `Config::from_env` and `run` is `server::run`; both are called only where the code
-- comes to them.
unfoldable pub main :
    {A : Type 0}
    → (IoError → Text)
    → Text
    → List (Option Text)
    → Result ConfigError (Config A)
    → (Config A → RunResult)
    → Option Exit
unfolding is_version_request after_config
main show version args from_env run =
    if is_version_request args
    then some (record { status = 0; printed = codes "statika " ++ version ++ 10 ∷ []; lines = [] })
    else after_config show run from_env
