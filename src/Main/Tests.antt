-- ===== src/Main/Tests.antt =====
-- Runs of the program.
use statika.Prelude.{refl, true, false, none, some, [], inl, inr, ok, err, ◌∷◌, ◌≡◌, ◌++◌}
use statika.Server.Workers.{finished, disconnected, join_workers}
use statika.Config.Display
use statika.Config.{Config, ConfigError}
use statika.Main.{main, Exit}
use statika.Server.Run.{Calls, run}
use statika.Prelude.Bytes.{codes, Text, equal}
use statika.Fs.Memory.{memory_kernel}
use statika.Main.Exits.{Exits, main-Exits}
use statika.Server.Accept.{accept_loop}
use statika.Fs.{open_root}
use statika.Server.Log.{log_started, log_stopped}
use statika.Server.Queue.{new}

version_run :
    main {A = Text}
      (λ e. [])
      (codes "0.3.5")
      (some (codes "statika") ∷ some (codes "-V") ∷ [])
      (err (ConfigError.missing (codes "STATIKA_ROOT")))
      (λ config. none)
    ≡ some (record { status = 0; printed = codes "statika 0.3.5" ++ 10 ∷ []; lines = [] })
unfolding main equal
version_run = refl

refused_run :
    main {A = Text}
      (λ e. [])
      (codes "0.3.5")
      (some (codes "statika") ∷ [])
      (err (ConfigError.missing (codes "STATIKA_ROOT")))
      (λ config. none)
    ≡ some (record {
      status = 2;
      printed = [];
      lines =
          (codes "configuration error: missing required environment variable STATIKA_ROOT"
            ++ 10 ∷ [])
          ∷ [];
    })
unfolding main equal Display.display
refused_run = refl

abbrev example_config : Config Text
example_config = record {
  listen_addr = codes "0.0.0.0:8080";
  root = codes "/srv";
  index = codes "index.html" ∷ [];
  assets_prefix = codes "assets" ∷ [];
  threads = 2;
  queue_size = 256;
  gzip_enabled = true;
  brotli_enabled = true;
  deny_dotfiles = true;
  request_timeout = 5;
  shutdown_timeout = 10;
  extra_headers = [];
}

-- The flag is set at the first turn, and both workers report their ends.
abbrev example_calls : Calls
example_calls = record {
  sigint = ok tt;
  sigterm = ok tt;
  bind = ok tt;
  set_nonblocking = ok tt;
  turns =
      record {
        shutdown = true;
        answer = ok 1;
        now = 5;
        options = record { set_nonblocking = ok tt; set_nodelay = ok tt };
        pushed = true;
        discarded = [];
        polls = [];
        naps = [];
      }
      ∷ [];
  queue = new 256;
  closed_at = 6;
  receptions =
      record { now = 7; received = finished 1 }
      ∷ record { now = 8; received = finished 0 }
      ∷ record { now = 9; received = disconnected }
      ∷ [];
  panics = λ worker_id. false;
}

stopped_run :
    main
      (λ e. [])
      (codes "0.3.5")
      (some (codes "statika") ∷ [])
      (ok example_config)
      (λ config. run memory_kernel (λ addr. addr) (λ e. []) config example_calls)
    ≡ some (record {
      status = 0;
      printed = [];
      lines = log_started (λ addr. addr) example_config ∷ log_stopped true ∷ [];
    })
unfolding main run join_workers accept_loop open_root memory_kernel equal
stopped_run = refl

main-Exits_example :
    (exit : Exit) × (main
        (λ e. [])
        (codes "0.3.5")
        (some (codes "statika") ∷ [])
        (ok example_config)
        (λ config. run memory_kernel (λ addr. addr) (λ e. []) config example_calls)
      ≡ some exit)
    × Exits memory_kernel
        (λ addr. addr)
        (λ e. [])
        example_calls
        (some (codes "statika") ∷ [])
        (ok example_config)
        exit.status
main-Exits_example =
    main-Exits memory_kernel (λ addr. addr) (λ e. []) example_calls (some (codes "statika") ∷ [])
      (ok example_config) (codes "0.3.5") (inl refl) (λ config e. inr (inr (inl (inr refl))))
