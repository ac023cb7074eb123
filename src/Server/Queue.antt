-- ===== src/Server/Queue.antt =====
-- `WorkQueue`: the bounded queue between the accept loop and the workers.
-- A call of `push` or `pop` is a sequence of rounds, each with the mutex held from one wait on a
-- condition variable (or the start) to the next (or the return). What other threads do stands
-- between the rounds. A round gets the clock readings and the values of the shutdown flag that it
-- reads, and says what it logs and whom it wakes. A stream is known by its number, times are in
-- nanoseconds; a poisoned mutex is entered as any other.
mod Tests
pub mod Round
pub mod Discard
pub mod Reach
use statika.Prelude.{
  ℕ, refl, true, false, none, some, [], inl, inr, ok, err, ◌>>=◌, ◌>>◌, ◌∷◌, ◌≡◌, arith,
  if◌then◌else◌, zero, suc, List, Bool, Option, length, ◌-◌, leb, ◌++◌, ◌||◌, ltb,
}

pub record WorkItem : Type 0 where
  pub stream : ℕ
  pub accepted_at : ℕ
  pub deadline : ℕ

pub record WorkQueue : Type 0 where
  pub capacity : ℕ
  pub streams : List WorkItem
  pub closed : Bool

unfoldable pub new : ℕ → WorkQueue
new capacity = record { capacity = capacity; streams = []; closed = false }

-- The loop of `discard_expired`, at its one reading of the clock.
pub discard_loop : ℕ → List WorkItem → List WorkItem
discard_loop now [] = []
discard_loop now (work ∷ streams) =
    let rest = discard_loop now streams in if leb work.deadline now then rest else work ∷ streams

pub discard_expired : ℕ → WorkQueue → WorkQueue × ℕ
unfolding discard_loop
discard_expired now state =
    let streams = discard_loop now state.streams in
    (record state { streams = streams }, length state.streams - length streams)

-- What a round does besides its change of the state.
pub data Effect : Type 0 where
  log_queue_discarded : ℕ → Effect
  notify_all_not_full notify_one_not_full : Effect
  notify_all_not_empty notify_one_not_empty : Effect

abbrev pub discard_effects : ℕ → List Effect
discard_effects n = if ltb 0 n then log_queue_discarded n ∷ notify_all_not_full ∷ [] else []

pub data Pushed : Type 0 where
  returned : Bool → Pushed
  waits : Pushed

-- What `push` reads in a round: the clock in `discard_expired`, the flag in the loop, the flag
-- behind it, the clock again.
pub record PushReads : Type 0 where
  pub now : ℕ
  pub shutdown_in_loop : Bool
  pub shutdown_after : Bool
  pub now_after : ℕ

-- The return of `push`, once the loop is left.
push_end : PushReads → WorkItem → WorkQueue → List Effect → WorkQueue × Pushed × List Effect
push_end r work state effects =
    if state.closed || r.shutdown_after
    then (state, returned false, effects)
    else if leb work.deadline r.now_after
    then (state, returned true, effects ++ log_queue_discarded 1 ∷ [])
    else (
      record state { streams = state.streams ++ work ∷ [] },
      returned true,
      effects ++ notify_one_not_empty ∷ [],
    )

pub push_round : PushReads → WorkItem → WorkQueue → WorkQueue × Pushed × List Effect
unfolding push_end discard_expired
push_round r work state =
    let (state', discarded) = discard_expired r.now state in
    let effects = discard_effects discarded in
    if ltb (length state'.streams) state'.capacity || state'.closed || r.shutdown_in_loop
    then push_end r work state' effects
    else (state', waits, effects)

pub data Popped : Type 0 where
  returned : Option WorkItem → Popped
  waits : Popped

pop_front : List WorkItem → WorkQueue → List Effect → WorkQueue × Popped × List Effect
pop_front [] state effects =
    if state.closed then (state, Popped.returned none, effects) else (state, Popped.waits, effects)
pop_front (work ∷ rest) state effects = (
  record state { streams = rest },
  Popped.returned (some work),
  effects ++ notify_one_not_full ∷ [],
)

pub pop_round : ℕ → WorkQueue → WorkQueue × Popped × List Effect
unfolding pop_front discard_expired
pop_round now state =
    let (state', discarded) = discard_expired now state in
    pop_front state'.streams state' (discard_effects discarded)

pub close : WorkQueue → WorkQueue × List Effect
close state =
    (record state { closed = true; streams = [] }, notify_all_not_empty ∷ notify_all_not_full ∷ [])
