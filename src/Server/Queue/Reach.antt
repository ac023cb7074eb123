-- ===== src/Server/Queue/Reach.antt =====
-- The queue under any interleaving of rounds of the accept loop, of the workers, and of `close`.
use statika.Prelude.{
  refl, true, false, [], inl, inr, ◌∷◌, ◌≡◌, arith, ℕ, suc, length, List, ◌≤◌, ◌++◌, subst, All,
  All-append, All-mono, ap, ◌<◌, Bool-cases, ltb, ◌||◌, leb,
}
use statika.Server.Queue.{
  WorkItem, WorkQueue, PushReads, new, discard_loop, push_round, pop_round, close, push_end,
  discard_expired,
}
use statika.Server.Queue.Discard.{IsSorted, discard_loop-Discarded, length-discard_loop}
use statika.Server.Queue.Round.{
  FlagRises, added, refused, too_late, full, push_round-PushRound, pop_round-PopRound, popped_items,
}
use mathlib.Core.List.{append_assoc}

-- The queue, and the latest deadline that the accept loop has handed out. Its clock does not go
-- back and every deadline is the clock and one timeout, so no later item has an earlier deadline.
pub record Shared : Type 0 where
  pub queue : WorkQueue
  pub latest : ℕ

pub data Step (s : Shared) : Shared → Type 0 where
  pushes :
      (r : PushReads) (work : WorkItem)
      → FlagRises r
      → s.latest ≤ work.deadline
      → Step s (record { queue = (push_round r work s.queue).0; latest = work.deadline })
  pops : (now : ℕ) → Step s (record s { queue = (pop_round now s.queue).0 })
  closes : Step s (record s { queue = (close s.queue).0 })

pub data Reach (s : Shared) : Shared → Type 0 where
  here : Reach s s
  next : {t u : Shared} → Reach s t → Step t u → Reach s u

pub record IsValid (capacity : ℕ) (s : Shared) : Type 0 where
  pub capacity_is : s.queue.capacity ≡ capacity
  pub bounded : length s.queue.streams ≤ capacity
  pub closed_empty : s.queue.closed ≡ true → s.queue.streams ≡ []
  pub sorted : IsSorted s.queue.streams
  pub deadlines : All (λ (w : WorkItem). w.deadline ≤ s.latest) s.queue.streams

suffix-IsSorted : (front rest : List WorkItem) → IsSorted (front ++ rest) → IsSorted rest
suffix-IsSorted [] rest h = h
suffix-IsSorted (w ∷ front) rest h = suffix-IsSorted front rest h.1

abbrev IsBelow : ℕ → WorkItem → Type 0
IsBelow n work = work.deadline ≤ n

suffix-All :
    (n : ℕ) (front rest : List WorkItem) → All (IsBelow n) (front ++ rest) → All (IsBelow n) rest
suffix-All n [] rest h = h
suffix-All n (w ∷ front) rest h = suffix-All n front rest h.1

-- An item with the latest deadline goes to the end.
append-IsSorted :
    (streams : List WorkItem) (work : WorkItem)
    → IsSorted streams
    → All (λ (w : WorkItem). w.deadline ≤ work.deadline) streams
    → IsSorted (streams ++ work ∷ [])
append-IsSorted [] work h a = (tt, tt)
append-IsSorted (w ∷ streams) work h a =
    (All-append _ streams (work ∷ []) h.0 (a.0, tt), append-IsSorted streams work h.1 a.1)

raise :
    (m n : ℕ) (streams : List WorkItem)
    → m ≤ n
    → All (λ (w : WorkItem). w.deadline ≤ m) streams
    → All (λ (w : WorkItem). w.deadline ≤ n) streams
raise m n streams h = All-mono _ _ (λ w l. omega arith) streams

discard-IsSorted :
    (now : ℕ) (streams : List WorkItem) → IsSorted streams → IsSorted (discard_loop now streams)
discard-IsSorted now streams h =
    let d = discard_loop-Discarded now streams in
    suffix-IsSorted d.expired (discard_loop now streams) (subst IsSorted d.split_is h)

discard-All :
    (now n : ℕ) (streams : List WorkItem)
    → All (IsBelow n) streams
    → All (IsBelow n) (discard_loop now streams)
discard-All now n streams h =
    let d = discard_loop-Discarded now streams in
    suffix-All n d.expired (discard_loop now streams) (subst (All (IsBelow n)) d.split_is h)

discard_nil : (now : ℕ) → discard_loop now [] ≡ []
unfolding discard_loop
discard_nil now = refl

length-append1 :
    (streams : List WorkItem) (work : WorkItem)
    → length (streams ++ work ∷ []) ≡ suc (length streams)
length-append1 [] work = refl
length-append1 (w ∷ streams) work = ap suc (length-append1 streams work)

module _ (capacity : ℕ) (s : Shared) (valid : IsValid capacity s) where
  -- A queue that holds what a discard leaves.
  discarded-IsValid :
      (now latest : ℕ) (after : WorkQueue)
      → s.latest ≤ latest
      → after.capacity ≡ s.queue.capacity
      → after.closed ≡ s.queue.closed
      → after.streams ≡ discard_loop now s.queue.streams
      → IsValid capacity (record { queue = after; latest = latest })
  discarded-IsValid now latest after h c e streams = record {
    capacity_is = cc (c, valid.capacity_is);
    bounded = rw streams (omega (arith, length-discard_loop now s.queue.streams, valid.bounded));
    closed_empty = λ x.
        let nil = valid.closed_empty (cc (e, x)) in
        cc (streams, ap (discard_loop now) nil, discard_nil now);
    sorted = rw streams (discard-IsSorted now s.queue.streams valid.sorted);
    deadlines =
        rw streams
          (raise s.latest latest _ h (discard-All now s.latest s.queue.streams valid.deadlines));
  }

pub push_round_keeps :
    (r : PushReads) (work : WorkItem) (state : WorkQueue)
    → ((push_round r work state).0.capacity ≡ state.capacity)
      × ((push_round r work state).0.closed ≡ state.closed)
unfolding push_round push_end discard_expired
push_round_keeps r work state =
    elim (Bool-cases (
      ltb (length (discard_loop r.now state.streams)) state.capacity
      || state.closed
      || r.shutdown_in_loop)) [
        | inl go ↦ simp go (elim (Bool-cases (state.closed || r.shutdown_after)) [
          | inl c ↦ simp c (refl, refl)
          | inr c ↦ elim (Bool-cases (leb work.deadline r.now_after)) [
            | inl late ↦ simp (c, late) (refl, refl)
            | inr in_time ↦ simp (c, in_time) (refl, refl)
          ]
        ])
        | inr stay ↦ simp stay (refl, refl)
      ]

module _ (capacity : ℕ) (s : Shared) (valid : IsValid capacity s) where
  added-IsValid :
      (r : PushReads) (work : WorkItem) (after : WorkQueue)
      → s.latest ≤ work.deadline
      → after.capacity ≡ s.queue.capacity
      → after.closed ≡ false
      → after.streams ≡ discard_loop r.now s.queue.streams ++ work ∷ []
      → length (discard_loop r.now s.queue.streams) < s.queue.capacity
      → IsValid capacity (record { queue = after; latest = work.deadline })
  added-IsValid r work after h c e streams room =
      let below =
        raise s.latest work.deadline _ h
          (discard-All r.now s.latest s.queue.streams valid.deadlines) in
      record {
        capacity_is = cc (c, valid.capacity_is);
        bounded = rw streams (
            omega (
              arith,
              length-append1 (discard_loop r.now s.queue.streams) work,
              room,
              valid.capacity_is,
            ));
        closed_empty = λ x. absurd (cc (e, x));
        sorted =
            rw streams
              (append-IsSorted _ work (discard-IsSorted r.now s.queue.streams valid.sorted) below);
        deadlines = rw streams (
            All-append (IsBelow work.deadline) (discard_loop r.now s.queue.streams) (work ∷ [])
              below (omega arith, tt));
      }

  pushes-IsValid :
      (r : PushReads) (work : WorkItem)
      → FlagRises r
      → s.latest ≤ work.deadline
      → IsValid capacity (record { queue = (push_round r work s.queue).0; latest = work.deadline })
  pushes-IsValid r work rises h =
      let after = (push_round r work s.queue).0 in
      let (c, e) = push_round_keeps r work s.queue in
      elim (push_round-PushRound r work s.queue rises) [
        | added streams room c_open _ _ _ ↦
            added-IsValid r work after h c (cc (e, c_open)) streams room
        | refused streams _ _ ↦
            discarded-IsValid capacity s valid r.now work.deadline after h c e streams
        | too_late streams _ _ ↦
            discarded-IsValid capacity s valid r.now work.deadline after h c e streams
        | full streams _ _ _ ↦
            discarded-IsValid capacity s valid r.now work.deadline after h c e streams
      ]

length_suffix : (front rest : List WorkItem) → length rest ≤ length (front ++ rest)
length_suffix [] rest = omega arith
length_suffix (w ∷ front) rest = omega (arith, length_suffix front rest)

nil_suffix : (front rest : List WorkItem) → front ++ rest ≡ [] → rest ≡ []
nil_suffix [] rest h = h
nil_suffix (w ∷ front) rest h = absurd (cc)

module _ (capacity : ℕ) (s : Shared) (valid : IsValid capacity s) where
  -- A queue that holds a rest of what was there.
  suffix-IsValid :
      (front : List WorkItem) (after : WorkQueue)
      → s.queue.streams ≡ front ++ after.streams
      → after.capacity ≡ s.queue.capacity
      → after.closed ≡ s.queue.closed
      → IsValid capacity (record s { queue = after })
  suffix-IsValid front after streams c e = record {
    capacity_is = cc (c, valid.capacity_is);
    bounded = omega (arith, length_suffix front after.streams, ap length streams, valid.bounded);
    closed_empty = λ x.
        let nil = valid.closed_empty (cc (e, x)) in
        nil_suffix front after.streams (cc (streams, nil));
    sorted = suffix-IsSorted front after.streams (subst IsSorted streams valid.sorted);
    deadlines =
        suffix-All s.latest front after.streams
          (subst (All (IsBelow s.latest)) streams valid.deadlines);
  }

  pops-IsValid : (now : ℕ) → IsValid capacity (record s { queue = (pop_round now s.queue).0 })
  pops-IsValid now =
      let p = pop_round-PopRound now s.queue in
      let after = (pop_round now s.queue).0 in
      let popped = popped_items (pop_round now s.queue).1 in
      suffix-IsValid (p.expired ++ popped) after
        (cc (p.split_is, append_assoc p.expired popped after.streams)) p.capacity_is p.closed_is

  closes-IsValid : IsValid capacity (record s { queue = (close s.queue).0 })
  unfolding close
  closes-IsValid = record {
    capacity_is = valid.capacity_is;
    bounded = omega arith;
    closed_empty = λ _. refl;
    sorted = tt;
    deadlines = tt;
  }

Step-IsValid : (capacity : ℕ) (s t : Shared) → Step s t → IsValid capacity s → IsValid capacity t
Step-IsValid capacity s t (pushes r work rises h) valid =
    pushes-IsValid capacity s valid r work rises h
Step-IsValid capacity s t (pops now) valid = pops-IsValid capacity s valid now
Step-IsValid capacity s t closes valid = closes-IsValid capacity s valid

abbrev pub start : ℕ → Shared
start capacity = record { queue = new capacity; latest = 0 }

-- From a new queue, after any sequence of rounds of `push` and `pop` and of calls of `close`, with
-- a shutdown flag that only rises and deadlines that do not fall from one `push` to the next: the
-- queue holds no more items than its capacity, a closed one holds none, and the items stand in the
-- order of their deadlines.
pub Reach-IsValid : (capacity : ℕ) {s : Shared} → Reach (start capacity) s → IsValid capacity s
unfolding new
Reach-IsValid capacity here = record {
  capacity_is = refl;
  bounded = omega arith;
  closed_empty = λ _. refl;
  sorted = tt;
  deadlines = tt;
}
Reach-IsValid capacity (next {t} {u} r step) =
    Step-IsValid capacity t u step (Reach-IsValid capacity r)
