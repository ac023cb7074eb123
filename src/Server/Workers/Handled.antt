-- ===== src/Server/Workers/Handled.antt =====
-- What a worker has done by the time it stops.
use mathlib.Core.Option
use statika.Prelude.{none, some, [], ◌∷◌, List, Option}
use statika.Server.Workers.{shut_down, logs, Visit, WorkerEffect}
use statika.Server.Connection.Locate.{Root}
use statika.Config.{Config}
use statika.Server.Queue.{WorkItem}
use statika.Server.Connection.{RequestOutcome}
use statika.Server.Connection.Sent.{Sent}
use statika.Prelude.Bytes.{Bytes}
use statika.Net.{Socket}
use statika.Server.Log.{log_request}

-- Each item that was taken, in order: its connection was sent what the outcome says of it, was shut
-- down, and the outcome was logged. The worker stops at the first `none`.
pub data Handled : List (Option (WorkItem × Visit)) → List WorkerEffect → Type 0 where
  stopped : {pops : List (Option (WorkItem × Visit))} → Handled (none ∷ pops) []
  served :
      {pops : List (Option (WorkItem × Visit))} {effects : List WorkerEffect} {sent : Bytes}
      (work : WorkItem) (visit : Visit) (outcome : RequestOutcome)
      → Sent visit.socket.sent outcome sent
      → Handled pops effects
      → Handled (some (work, visit) ∷ pops) (
          shut_down work.stream sent
          ∷ logs (log_request visit.peer outcome visit.elapsed)
          ∷ effects)

module _ {A File : Type 0} (root : Root File) (config : Config A) where
  abbrev logged_item :
      WorkItem → Visit → RequestOutcome → Socket → List WorkerEffect → List WorkerEffect
  logged_item work visit outcome stream effects =
      shut_down work.stream stream.sent
      ∷ logs (log_request visit.peer outcome visit.elapsed)
      ∷ effects
