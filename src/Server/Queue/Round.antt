-- ===== src/Server/Queue/Round.antt =====
-- One round of `push` and of `pop`: what happens to the items, and who is woken.
use statika.Prelude.{
  refl, true, false, none, some, [], inl, inr, ◌∷◌, ◌≡◌, arith, if◌then◌else◌, ℕ, List, Bool-cases,
  ◌++◌, All, length, Bool, ◌<◌, ◌⊎◌, ◌-◌, ap, ltb, ◌||◌, ◌≤◌, leb,
}
use statika.Server.Queue.{
  WorkItem, WorkQueue, Effect, Pushed, Popped, PushReads, discard_loop, discard_effects, push_end,
  push_round, pop_front, pop_round, log_queue_discarded, notify_all_not_full, notify_one_not_full,
  notify_all_not_empty, notify_one_not_empty, discard_expired,
}
use statika.Server.Queue.Discard.{IsExpired, IsLive, discard_loop-Discarded}

-- The items that a round of `pop` returns.
abbrev pub popped_items : Popped → List WorkItem
popped_items (Popped.returned (some work)) = work ∷ []
popped_items (Popped.returned none) = []
popped_items Popped.waits = []

-- A round of `pop` takes expired items and then at most one live item off the front. It returns
-- `none` only on a closed queue, and waits only on an open one, both only with nothing left.
pub record PopRound (now : ℕ) (before after : WorkQueue) (result : Popped) : Type 0 where
  pub expired : List WorkItem
  pub split_is : before.streams ≡ expired ++ (popped_items result ++ after.streams)
  pub all_expired : All (IsExpired now) expired
  pub live : All (IsLive now) (popped_items result)
  pub end_is : result ≡ Popped.returned none → (after.streams ≡ []) × (before.closed ≡ true)
  pub wait_is : result ≡ Popped.waits → (after.streams ≡ []) × (before.closed ≡ false)
  pub closed_is : after.closed ≡ before.closed
  pub capacity_is : after.capacity ≡ before.capacity

head_live :
    (now : ℕ) (streams : List WorkItem) (work : WorkItem) (rest : List WorkItem)
    → discard_loop now streams ≡ work ∷ rest
    → IsLive now work
unfolding discard_loop
head_live now [] work rest h = absurd (ground arith)
head_live now (w ∷ streams) work rest h = ground (arith, head_live now streams work rest)

module _ (now : ℕ) (before : WorkQueue) (effects : List Effect) where
  -- With nothing left after the discard.
  abbrev none_left : Bool → WorkQueue × Popped × List Effect
  none_left closed =
      if closed
      then (record before { streams = [] }, Popped.returned none, effects)
      else (record before { streams = [] }, Popped.waits, effects)

  none_left-PopRound :
      (c : Bool)
      → before.closed ≡ c
      → discard_loop now before.streams ≡ []
      → PopRound now before (none_left c).0 (none_left c).1
  none_left-PopRound true h e =
      let d = discard_loop-Discarded now before.streams in
      record {
        expired = d.expired;
        split_is = rw e at d.split_is;
        all_expired = d.all_expired;
        live = tt;
        end_is = λ _. (refl, h);
        wait_is = λ x. absurd (cc);
        closed_is = refl;
        capacity_is = refl;
      }
  none_left-PopRound false h e =
      let d = discard_loop-Discarded now before.streams in
      record {
        expired = d.expired;
        split_is = rw e at d.split_is;
        all_expired = d.all_expired;
        live = tt;
        end_is = λ x. absurd (cc);
        wait_is = λ _. (refl, h);
        closed_is = refl;
        capacity_is = refl;
      }

pop_front-PopRound :
    (now : ℕ) (before : WorkQueue) (streams : List WorkItem) (effects : List Effect)
    → discard_loop now before.streams ≡ streams
    → (let after = record before { streams = streams } in
        PopRound now before (pop_front streams after effects).0 (pop_front streams after effects).1)
unfolding pop_front
pop_front-PopRound now before [] effects e =
    none_left-PopRound now before effects before.closed refl e
pop_front-PopRound now before (work ∷ rest) effects e =
    let d = discard_loop-Discarded now before.streams in
    record {
      expired = d.expired;
      split_is = rw e at d.split_is;
      all_expired = d.all_expired;
      live = (head_live now before.streams work rest e, tt);
      end_is = λ x. absurd (cc);
      wait_is = λ x. absurd (cc);
      closed_is = refl;
      capacity_is = refl;
    }

-- A round of `pop` discards expired items, and returns the oldest item that is left: never one
-- whose deadline has passed. It ends with nothing only on a closed queue, and waits only on an
-- open one, in both cases when no item is left. What remains keeps its order.
pub pop_round-PopRound :
    (now : ℕ) (state : WorkQueue)
    → PopRound now state (pop_round now state).0 (pop_round now state).1
unfolding pop_round discard_expired
pop_round-PopRound now state = pop_front-PopRound now state (discard_loop now state.streams) _ refl

-- Whether a round wakes a thread that waits for room, or for work.
abbrev pub wakes_not_full : List Effect → Bool
wakes_not_full [] = false
wakes_not_full (notify_all_not_full ∷ effects) = true
wakes_not_full (notify_one_not_full ∷ effects) = true
wakes_not_full (_ ∷ effects) = wakes_not_full effects

abbrev pub wakes_not_empty : List Effect → Bool
wakes_not_empty [] = false
wakes_not_empty (notify_all_not_empty ∷ effects) = true
wakes_not_empty (notify_one_not_empty ∷ effects) = true
wakes_not_empty (_ ∷ effects) = wakes_not_empty effects

pop_front_wakes :
    (before : ℕ) (streams : List WorkItem) (state : WorkQueue)
    → state.streams ≡ streams
    → length (pop_front streams state (discard_effects (before - length streams))).0.streams
      < before
    → wakes_not_full (pop_front streams state (discard_effects (before - length streams))).2 ≡ true
unfolding pop_front
pop_front_wakes before [] state e h = ground (arith, ap (length) e)
pop_front_wakes before (work ∷ rest) state e h =
    elim (Bool-cases (ltb 0 (before - length (work ∷ rest)))) [
      | inl d ↦ rw d refl
      | inr d ↦ rw d refl
    ]

-- A round of `pop` that leaves fewer items wakes a thread that waits for room.
pub pop_round_wakes :
    (now : ℕ) (state : WorkQueue)
    → length (pop_round now state).0.streams < length state.streams
    → wakes_not_full (pop_round now state).2 ≡ true
unfolding pop_round discard_expired
pop_round_wakes now state h =
    pop_front_wakes (length state.streams) (discard_loop now state.streams)
      (record state { streams = discard_loop now state.streams }) refl h

wakes_not_empty-append :
    (effects : List Effect) → wakes_not_empty (effects ++ notify_one_not_empty ∷ []) ≡ true
wakes_not_empty-append [] = refl
wakes_not_empty-append (log_queue_discarded n ∷ effects) = wakes_not_empty-append effects
wakes_not_empty-append (notify_all_not_full ∷ effects) = wakes_not_empty-append effects
wakes_not_empty-append (notify_one_not_full ∷ effects) = wakes_not_empty-append effects
wakes_not_empty-append (notify_all_not_empty ∷ effects) = refl
wakes_not_empty-append (notify_one_not_empty ∷ effects) = refl

-- What a round of `push` does: it adds its item behind what is left, or adds nothing.
pub data PushRound (r : PushReads) (work : WorkItem) (before after : WorkQueue) (result : Pushed)
    (effects : List Effect) : Type 0 where
  added :
      after.streams ≡ discard_loop r.now before.streams ++ work ∷ []
      → length (discard_loop r.now before.streams) < before.capacity
      → before.closed ≡ false
      → IsLive r.now_after work
      → result ≡ Pushed.returned true
      → wakes_not_empty effects ≡ true
      → PushRound r work before after result effects
  refused :
      after.streams ≡ discard_loop r.now before.streams
      → (before.closed ≡ true) ⊎ (r.shutdown_after ≡ true)
      → result ≡ Pushed.returned false
      → PushRound r work before after result effects
  too_late :
      after.streams ≡ discard_loop r.now before.streams
      → IsExpired r.now_after work
      → result ≡ Pushed.returned true
      → PushRound r work before after result effects
  full :
      after.streams ≡ discard_loop r.now before.streams
      → before.capacity ≤ length (discard_loop r.now before.streams)
      → before.closed ≡ false
      → result ≡ Pushed.waits
      → PushRound r work before after result effects

-- The shutdown flag is only ever raised, so a later reading is not below an earlier one.
abbrev pub FlagRises : PushReads → Type 0
FlagRises r = r.shutdown_in_loop ≡ true → r.shutdown_after ≡ true

module _ (r : PushReads) (work : WorkItem) (state : WorkQueue) where
  abbrev kept : WorkQueue
  kept = record state { streams = discard_loop r.now state.streams }

  push_end-PushRound :
      (effects : List Effect)
      → (length (discard_loop r.now state.streams) < state.capacity)
        ⊎ ((state.closed ≡ true) ⊎ (r.shutdown_after ≡ true))
      → (let (after, result, later) = push_end r work kept effects in
          PushRound r work state after result later)
  unfolding push_end
  push_end-PushRound effects room = elim (Bool-cases (state.closed || r.shutdown_after)) [
    | inl c ↦ simp c (refused refl (ground arith) refl)
    | inr c ↦ elim (Bool-cases (leb work.deadline r.now_after)) [
      | inl late ↦ simp (c, late) (too_late refl (ground arith) refl)
      | inr in_time ↦
          simp (c, in_time)
            (added refl (ground arith) (ground arith) (ground arith) refl
              (wakes_not_empty-append effects))
    ]
  ]

  -- While the shutdown flag only rises, a round of `push` adds its item only to an open queue with
  -- room for it, only in time, and then wakes a thread that waits for work; it waits only on a
  -- full open queue, and reports failure only on a closed queue or at shutdown.
  pub push_round-PushRound :
      FlagRises r
      → (let (after, result, effects) = push_round r work state in
          PushRound r work state after result effects)
  unfolding push_round discard_expired
  push_round-PushRound rises =
      elim (Bool-cases (
        ltb (length (discard_loop r.now state.streams)) state.capacity
        || state.closed
        || r.shutdown_in_loop)) [
          | inl go ↦ simp go (push_end-PushRound _ (ground (arith, rises)))
          | inr stay ↦ simp stay (full refl (ground arith) (ground arith) refl)
        ]
