-- ===== src/Server/Workers/Tests.antt =====
-- Two workers.
use statika.Net.{wrote}
use statika.Http.Read.{received}
use statika.Prelude.Int.{pos}
use statika.Prelude.{
  refl, false, none, some, [], inl, inr, ok, err, ◌∷◌, ◌≡◌, List, Result, true, ℕ, Option, ◌++◌,
}
use statika.Server.Workers.{
  finished, timed_out, join_workers, worker_loop, Reception, Visit, WorkerEffect,
}
use statika.Server.Accept.{ServerError}
use statika.Server.Workers.Joined.{Joined, join_workers-Joined}
use statika.Server.Queue.{WorkItem}
use statika.Server.Connection.Locate.{Root}
use statika.Server.Workers.Handled.{Handled}
use statika.Config.{Config}
use statika.Prelude.Bytes.{Text, codes}
use statika.Io.{io_error, ErrorKind}

abbrev both_done : List Reception
both_done =
    record { now = 4; received = finished 1 }
    ∷ record { now = 5; received = finished 1 }
    ∷ record { now = 6; received = finished 0 }
    ∷ record { now = 20; received = timed_out }
    ∷ []

two_joined : join_workers 3 10 (false ∷ false ∷ []) both_done ≡ some (ok tt)
unfolding join_workers
two_joined = refl

one_missing :
    join_workers 3 10
      (false ∷ false ∷ [])
      (record { now = 4; received = finished 1 } ∷ record { now = 13; received = finished 0 } ∷ [])
    ≡ some (err ServerError.shutdown_timeout)
unfolding join_workers
one_missing = refl

join_workers-Joined_example :
    (result : Result ServerError (Unit {0})) × (join_workers 3 10 (false ∷ false ∷ []) both_done
      ≡ some result)
    × Joined 3 10 (false ∷ false ∷ []) both_done result
join_workers-Joined_example =
    join_workers-Joined 3 10 (false ∷ false ∷ []) both_done (inr (inr (inr (inl (inl (inr refl))))))

abbrev no_files : Root ℕ
no_files = record {
  open_file = λ components. err (io_error ErrorKind.not_found);
  metadata = λ file. err (io_error ErrorKind.not_found);
  answers = λ file. record { transfers = []; reads = [] };
}

abbrev example_settings : Config Text
example_settings = record {
  listen_addr = codes "0.0.0.0:8080";
  root = codes "/srv";
  index = codes "index.html" ∷ [];
  assets_prefix = codes "assets" ∷ [];
  threads = 2;
  queue_size = 256;
  gzip_enabled = true;
  brotli_enabled = true;
  deny_dotfiles = true;
  request_timeout = 5;
  shutdown_timeout = 10;
  extra_headers = [];
}

abbrev asked : WorkItem
asked = record { stream = 7; accepted_at = 1; deadline = 100 }

-- The health path, over HTTP/1.0.
abbrev health_visit : Visit
health_visit = record {
  clock = record { taken_up = 1; instant = 1; unix_seconds = pos 0 };
  socket = record { sent = []; writes = wrote 4096 ∷ wrote 4096 ∷ []; rounds = [] };
  reads = received (codes "GET /health HTTP/1.0" ++ 13 ∷ 10 ∷ 13 ∷ 10 ∷ []) ∷ [];
  rounds = [];
  peer = none;
  elapsed = 0;
}

abbrev effects_of : Option (List WorkerEffect) → List WorkerEffect
effects_of none = []
effects_of (some effects) = effects

abbrev health_effects : List WorkerEffect
health_effects =
    effects_of (worker_loop no_files example_settings (some (asked, health_visit) ∷ none ∷ []))
