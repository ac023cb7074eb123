-- ===== src/Server/Workers/Joined.antt =====
-- What the result of `join_workers` says of the workers.
use statika.Server.Workers.Heard.{
  Reports, Disconnects, IsLate, RunsLate, open_workers, set_completed-open, all_completed, HeardOf,
  heard_later, heard_now,
}
use statika.Prelude.{
  refl, true, false, some, [], inl, inr, ok, err, ◌>>◌, ◌∷◌, ◌≡◌, arith, ℕ, zero, suc, List, ◌⊎◌,
  Bool, Result, ap, get_or, length, ◌<◌, All, ◌+◌, any, sym, ◌-◌, ◌==◌, Bool-cases,
}
use statika.Server.Workers.{
  finished, disconnected, Reception, set_completed, is_new, wait_loop, join_workers, join_all,
  none_completed, Received,
}
use statika.Server.Accept.{shutdown_timeout, ServerError}

-- How the wait for the workers ends.
data Waited (deadline : ℕ) (completed : List Bool) (receptions : List Reception)
    : Result ServerError (Unit {0}) → Type 0 where
  heard :
      Disconnects receptions ⊎ HeardOf completed receptions
      → Waited deadline completed receptions (ok tt)
  late : RunsLate deadline receptions → Waited deadline completed receptions (err shutdown_timeout)

Waited-later :
    (deadline : ℕ) (completed : List Bool) (r : Reception) (receptions : List Reception)
    {result : Result ServerError (Unit {0})}
    → Waited deadline completed receptions result
    → Waited deadline completed (r ∷ receptions) result
Waited-later deadline completed r receptions (heard h) =
    heard (heard_later completed r receptions h)
Waited-later deadline completed r receptions (late l) = late (inr l)

Waited-set_completed :
    (deadline : ℕ) (completed : List Bool) (i : ℕ) (r : Reception) (receptions : List Reception)
    {result : Result ServerError (Unit {0})}
    → r.received ≡ finished i
    → Waited deadline (set_completed completed i) receptions result
    → Waited deadline completed (r ∷ receptions) result
Waited-set_completed deadline completed i r receptions e (heard h) =
    heard (heard_now completed i r receptions e h)
Waited-set_completed deadline completed i r receptions e (late l) = late (inr l)

-- The wait for a worker's word comes to its end.
abbrev pub EndsBy : ℕ → List Reception → Type 0
EndsBy deadline [] = ⊥
EndsBy deadline (r ∷ receptions) =
    (IsLate deadline r ⊎ (r.received ≡ disconnected)) ⊎ EndsBy deadline receptions

abbrev Ended : ℕ → List Bool → ℕ → List Reception → Type 0
Ended deadline completed remaining receptions =
    (result : Result ServerError (Unit {0})) × (wait_loop deadline completed remaining receptions
      ≡ some result)
    × Waited deadline completed receptions result

module _ (deadline : ℕ) (completed : List Bool) (remaining : ℕ) (r : Reception)
    (receptions : List Reception) (n : suc remaining ≡ open_workers completed) where
  -- The step at an answer of the channel, from the rest of the loop.
  received_Ended :
      (received : Received)
      → r.received ≡ received
      → ((deadline - r.now) == 0) ≡ false
      → ((later : List Bool) (left : ℕ)
          → left ≡ open_workers later
          → EndsBy deadline receptions
          → Ended deadline later left receptions)
      → EndsBy deadline (r ∷ receptions)
      → Ended deadline completed (suc remaining) (r ∷ receptions)
  unfolding wait_loop
  received_Ended Received.timed_out e on k h =
      (err ServerError.shutdown_timeout, rw (wait_loop, on, e) refl, late (inl (inr e)))
  received_Ended Received.disconnected e on k h =
      (ok tt, rw (wait_loop, on, e) refl, heard (inl (inl e)))
  received_Ended (Received.finished i) e on k (inl (inr d)) = absurd (cc)
  received_Ended (Received.finished i) e on k (inl (inl (inl l))) = absurd (ground arith)
  received_Ended (Received.finished i) e on k (inl (inl (inr t))) = absurd (cc)
  received_Ended (Received.finished i) e on k (inr later) = elim (Bool-cases (is_new completed i)) [
    | inl new ↦
        let open_is = set_completed-open completed i new in
        let (result, w, waited) = k (set_completed completed i) remaining (omega arith) later in
        (
          result,
          rw (wait_loop, on, e, new, w) refl,
          Waited-set_completed deadline completed i r receptions e waited,
        )
    | inr old ↦
        let (result, w, waited) = k completed (suc remaining) n later in
        (
          result,
          rw (wait_loop, on, e, old, w) refl,
          Waited-later deadline completed r receptions waited,
        )
  ]

wait_loop-Ended :
    (deadline : ℕ) (receptions : List Reception) (completed : List Bool) (remaining : ℕ)
    → remaining ≡ open_workers completed
    → EndsBy deadline receptions
    → Ended deadline completed remaining receptions
unfolding wait_loop
wait_loop-Ended deadline receptions completed zero n h =
    (ok tt, refl, heard (inr (λ i l. inl (all_completed completed i (sym n) l))))
wait_loop-Ended deadline [] completed (suc remaining) n h = absurd h
wait_loop-Ended deadline (r ∷ receptions) completed (suc remaining) n h =
    elim (Bool-cases ((deadline - r.now) == 0)) [
      | inl over ↦ (
        err ServerError.shutdown_timeout,
        rw (wait_loop, over) refl,
        late (inl (inl (ground arith))),
      )
      | inr on ↦
          received_Ended deadline completed remaining r receptions n r.received refl on
            (wait_loop-Ended deadline receptions) h
    ]

-- What the result says: without an error, no thread has panicked, and each worker has reported its
-- end or all of them have dropped the channel; a timeout is reported only once the time is over or
-- nothing came in time.
pub data Joined (now timeout : ℕ) (workers : List Bool) (receptions : List Reception)
    : Result ServerError (Unit {0}) → Type 0 where
  all_joined :
      All (λ panicked. panicked ≡ false) workers
      → Disconnects receptions ⊎ ((i : ℕ) → i < length workers → Reports i receptions)
      → Joined now timeout workers receptions (ok tt)
  one_panicked :
      any (λ panicked. panicked) workers ≡ true
      → Joined now timeout workers receptions (err ServerError.worker_panic)
  too_late :
      RunsLate (now + timeout) receptions
      → Joined now timeout workers receptions (err ServerError.shutdown_timeout)

open_workers-none_completed :
    (workers : List Bool) → open_workers (none_completed workers) ≡ length workers
open_workers-none_completed [] = refl
open_workers-none_completed (w ∷ workers) = ap suc (open_workers-none_completed workers)

length-none_completed : (workers : List Bool) → length (none_completed workers) ≡ length workers
length-none_completed [] = refl
length-none_completed (w ∷ workers) = ap suc (length-none_completed workers)

get_or-none_completed :
    (workers : List Bool) (i : ℕ) → get_or (none_completed workers) i false ≡ false
get_or-none_completed [] i = refl
get_or-none_completed (w ∷ workers) zero = refl
get_or-none_completed (w ∷ workers) (suc i) = get_or-none_completed workers i

join_all-cases :
    (workers : List Bool)
    → ((join_all workers ≡ ok tt) × All (λ panicked. panicked ≡ false) workers)
      ⊎ ((join_all workers ≡ err ServerError.worker_panic)
          × (any (λ panicked. panicked) workers ≡ true))
unfolding join_all
join_all-cases [] = inl (refl, tt)
join_all-cases (true ∷ workers) = inr (refl, refl)
join_all-cases (false ∷ workers) = elim (join_all-cases workers) [
  | inl (e, a) ↦ inl (e, (refl, a))
  | inr (e, a) ↦ inr (e, a)
]

module _ (now timeout : ℕ) (workers : List Bool) (receptions : List Reception) where
  all_heard :
      Disconnects receptions ⊎ HeardOf (none_completed workers) receptions
      → Disconnects receptions ⊎ ((i : ℕ) → i < length workers → Reports i receptions)
  all_heard (inl d) = inl d
  all_heard (inr h) = inr (λ i l. elim (h i (omega (arith, length-none_completed workers))) [
    | inl c ↦ absurd (cc (c, get_or-none_completed workers i))
    | inr later ↦ later
  ])

  Waited-Joined :
      (waited : Result ServerError (Unit {0}))
      → Waited (now + timeout) (none_completed workers) receptions waited
      → Joined now timeout workers receptions (waited >> join_all workers)
  Waited-Joined _ (late l) = too_late l
  Waited-Joined _ (heard h) = elim (join_all-cases workers) [
    | inl (e, a) ↦ rw e (all_joined a (all_heard h))
    | inr (e, p) ↦ rw e (one_panicked p)
  ]

  -- `join_workers` returns at the latest when the clock has reached the shutdown timeout, a wait for
  -- the channel has run out or the channel is gone. Without an error it has joined every worker,
  -- none of which panicked, after each has reported its end or the channel was gone; it reports a
  -- panic only for a thread that panicked, and a timeout only when the time was over.
  pub join_workers-Joined :
      EndsBy (now + timeout) receptions
      → (result : Result ServerError (Unit {0})) × (join_workers now timeout workers receptions
          ≡ some result)
        × Joined now timeout workers receptions result
  unfolding join_workers
  join_workers-Joined h =
      let (waited, e, w) =
        wait_loop-Ended (now + timeout) receptions (none_completed workers) (length workers)
          (sym (open_workers-none_completed workers)) h in
      rw e (_, refl, Waited-Joined waited w)
