-- ===== src/Server/Workers.antt =====
-- `worker_loop` and `join_workers` of server.rs: what a worker does with the items that it takes,
-- and how the workers are waited for. What `pop`, the channel and the threads answer comes from
-- lists, in the order of the calls; `none` means that such a list has ended, which is that the
-- program still waits. Times are in nanoseconds.
pub mod Heard
pub mod Handled
mod Tests
pub mod Joined
use statika.Prelude.{
  refl, true, false, none, some, [], inl, inr, ok, err, ◌>>=◌, ◌>>◌, ◌∷◌, ◌≡◌, arith, if◌then◌else◌,
  ℕ, zero, suc, List, Bool, Result, ltb, Option, map, length, ◌&&◌, ◌+◌, ◌-◌, not, ◌==◌, get_or,
  leb,
}
use mathlib.Core.Option
use statika.Prelude.Bytes.{Text, Bytes}
use statika.Http.Types.{RequestError}
use statika.Server.Queue.{WorkItem}
use statika.Server.Connection.{Outcome, Clock}
use statika.Server.Log.{log_request}
use statika.Server.Accept.{ServerError}
use statika.Server.Connection.Locate.{Root}
use statika.Net.{Socket, Round}
use statika.Config.{Config}
use statika.Http.Read.{Read, read_request}
use statika.Server.Connection.Handle.{handle_connection}

pub data WorkerEffect : Type 0 where
  shut_down : ℕ → Bytes → WorkerEffect
  logs : Text → WorkerEffect

-- What a worker finds at an item that it takes: the clock, the socket with what `write` and its
-- waits answer, the answers of `read` and the rounds of its waits, the peer, and the time from the
-- accept to the line of the log.
pub record Visit : Type 0 where
  pub clock : Clock
  pub socket : Socket
  pub reads : List Read
  pub rounds : List Round
  pub peer : Option Text
  pub elapsed : ℕ

module _ {A File : Type 0} (root : Root File) (config : Config A) where
  -- `handle_connection` with the read that it makes; an item that is late is not read at all.
  unfoldable pub handle_work : WorkItem → Visit → Outcome
  handle_work work visit =
      if leb work.deadline visit.clock.taken_up
      then handle_connection root config visit.clock visit.socket work.deadline
          (err RequestError.timeout)
      else elim (read_request work.deadline visit.reads visit.rounds) [
        | none ↦ none
        | some read ↦ handle_connection root config visit.clock visit.socket work.deadline read
      ]

  -- The stream is shut down before the line is logged, whatever the outcome.
  unfoldable pub worker_loop : List (Option (WorkItem × Visit)) → Option (List WorkerEffect)
  unfolding handle_work
  worker_loop [] = none
  worker_loop (none ∷ pops) = some []
  worker_loop (some (work, visit) ∷ pops) = elim (handle_work work visit) [
    | none ↦ none
    | some (outcome, stream) ↦
        Option.map
          (λ effects.
            shut_down work.stream stream.sent
            ∷ logs (log_request visit.peer outcome visit.elapsed)
            ∷ effects)
          (worker_loop pops)
  ]

-- What `recv_timeout` answers.
pub data Received : Type 0 where
  finished : ℕ → Received
  timed_out disconnected : Received

-- A turn of the loop of `join_workers`: the clock, and the answer if the channel comes to be asked.
pub record Reception : Type 0 where
  pub now : ℕ
  pub received : Received

-- `completed[worker_id] = true`
unfoldable pub set_completed : List Bool → ℕ → List Bool
set_completed [] worker_id = []
set_completed (c ∷ completed) zero = true ∷ completed
set_completed (c ∷ completed) (suc worker_id) = c ∷ set_completed completed worker_id

-- A number of a worker that has not been heard of.
unfoldable pub is_new : List Bool → ℕ → Bool
is_new completed worker_id =
    ltb worker_id (length completed) && not (get_or completed worker_id false)

unfoldable pub wait_loop :
    ℕ → List Bool → ℕ → List Reception → Option (Result ServerError (Unit {0}))
unfolding set_completed is_new
wait_loop deadline completed zero receptions = some (ok tt)
wait_loop deadline completed (suc remaining) [] = none
wait_loop deadline completed (suc remaining) (r ∷ receptions) =
    let again = wait_loop deadline completed (suc remaining) receptions in
    if (deadline - r.now) == 0 then some (err ServerError.shutdown_timeout) else elim r.received [
      | finished worker_id ↦
          let counted =
            wait_loop deadline (set_completed completed worker_id) remaining receptions in
          if is_new completed worker_id then counted else again
      | timed_out ↦ some (err ServerError.shutdown_timeout)
      | disconnected ↦ some (ok tt)
    ]

-- The loop over the threads, by whether each has panicked.
unfoldable pub join_all : List Bool → Result ServerError (Unit {0})
join_all [] = ok tt
join_all (panicked ∷ workers) =
    let rest = join_all workers in if panicked then err ServerError.worker_panic else rest

abbrev none_completed : List Bool → List Bool
none_completed workers = map (λ panicked. false) workers

unfoldable pub join_workers :
    ℕ → ℕ → List Bool → List Reception → Option (Result ServerError (Unit {0}))
unfolding wait_loop join_all
join_workers now timeout workers receptions =
    Option.map (λ waited. waited >> join_all workers)
      (wait_loop (now + timeout) (none_completed workers) (length workers) receptions)
