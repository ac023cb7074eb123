-- ===== src/Server/Queue/Discard.antt =====
-- What `discard_expired` removes.
use statika.Prelude.{
  refl, [], inl, inr, ◌∷◌, ◌≡◌, arith, ℕ, ◌<◌, ◌≤◌, ◌+◌, List, All, ◌++◌, Bool-cases, length, leb,
  All-mono, ap,
}
use mathlib.Core.List.{filter}
use statika.Server.Queue.{WorkItem, WorkQueue, discard_loop, discard_expired}
use native.Mathlib.Decide.{dec_lt}

abbrev pub IsExpired : ℕ → WorkItem → Type 0
IsExpired now work = work.deadline ≤ now

abbrev pub IsLive : ℕ → WorkItem → Type 0
IsLive now work = now < work.deadline

-- A front of expired items, and a rest that is empty or begins with a live one.
pub record Discarded (now : ℕ) (streams rest : List WorkItem) : Type 0 where
  pub expired : List WorkItem
  pub split_is : streams ≡ expired ++ rest
  pub all_expired : All (IsExpired now) expired

pub discard_loop-Discarded :
    (now : ℕ) (streams : List WorkItem) → Discarded now streams (discard_loop now streams)
unfolding discard_loop
discard_loop-Discarded now [] = record { expired = []; split_is = refl; all_expired = tt }
discard_loop-Discarded now (work ∷ streams) =
    let d = discard_loop-Discarded now streams in
    elim (Bool-cases (leb work.deadline now)) [
      | inl e ↦ rw e (record {
        expired = work ∷ d.expired;
        split_is = ap (λ x. work ∷ x) d.split_is;
        all_expired = (ground arith, d.all_expired);
      })
      | inr e ↦ rw e (record { expired = []; split_is = refl; all_expired = tt })
    ]

-- Oldest first: deadlines do not fall along the queue.
abbrev pub IsSorted : List WorkItem → Type 0
IsSorted [] = Unit {0}
IsSorted (work ∷ streams) = All (λ later. work.deadline ≤ later.deadline) streams × IsSorted streams

abbrev pub live : ℕ → List WorkItem → List WorkItem
live now = filter (λ work. dec_lt now work.deadline)

live_all :
    (now : ℕ) (streams : List WorkItem) → All (IsLive now) streams → live now streams ≡ streams
live_all now [] h = refl
live_all now (work ∷ streams) h = ground (arith, live_all now streams h.1)

discard_loop-live :
    (now : ℕ) (streams : List WorkItem)
    → IsSorted streams
    → discard_loop now streams ≡ live now streams
unfolding discard_loop
discard_loop-live now [] h = refl
discard_loop-live now (work ∷ streams) h = elim (Bool-cases (leb work.deadline now)) [
  | inl e ↦ rw e (ground (arith, discard_loop-live now streams h.1))
  | inr e ↦
      let later =
        All-mono (λ (v : WorkItem). work.deadline ≤ v.deadline) (IsLive now) (λ v l. ground arith)
          streams h.0 in
      rw e (ground (arith, live_all now streams later))
]

length-live : (now : ℕ) (streams : List WorkItem) → length (live now streams) ≤ length streams
length-live now [] = omega arith
length-live now (work ∷ streams) = ground (arith, length-live now streams)

pub length-discard_loop :
    (now : ℕ) (streams : List WorkItem) → length (discard_loop now streams) ≤ length streams
unfolding discard_loop
length-discard_loop now [] = omega arith
length-discard_loop now (work ∷ streams) = ground (arith, length-discard_loop now streams)

-- On a queue whose deadlines do not fall, `discard_expired`, which looks at the front alone,
-- removes every expired item and no other, and returns how many they were.
pub discard_expired-live :
    (now : ℕ) (state : WorkQueue)
    → IsSorted state.streams
    → ((discard_expired now state).0 ≡ record state { streams = live now state.streams })
      × ((discard_expired now state).1 + length (live now state.streams) ≡ length state.streams)
unfolding discard_expired
discard_expired-live now state h =
    let e = discard_loop-live now state.streams h in
    (rw e refl, rw e (omega (arith, length-live now state.streams)))
