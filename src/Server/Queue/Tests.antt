-- ===== src/Server/Queue/Tests.antt =====
-- A queue of two.
use statika.Prelude.{refl, true, false, [], ◌∷◌, ◌≡◌, arith, ℕ, length, ◌+◌, ◌<◌}
use statika.Server.Queue.{
  WorkItem, WorkQueue, PushReads, new, push_round, pop_round, discard_expired,
}
use statika.Server.Queue.Discard.{live, discard_expired-live}
use statika.Server.Queue.Round.{
  PushRound, PopRound, push_round-PushRound, pop_round-PopRound, pop_round_wakes, wakes_not_full,
}
use statika.Server.Queue.Reach.{
  Shared, Step, Reach, here, next, pushes, pops, IsValid, start, Reach-IsValid,
}

abbrev item : ℕ → WorkItem
item n = record { stream = n; accepted_at = n; deadline = n + 10 }

abbrev example_queue : WorkQueue
example_queue = record { capacity = 2; streams = item 1 ∷ item 2 ∷ []; closed = false }

abbrev example_reads : PushReads
example_reads = record {
  now = 11;
  shutdown_in_loop = false;
  shutdown_after = false;
  now_after = 11;
}

-- The first item expires as the round begins.
room_made :
    (push_round example_reads (item 5) example_queue).0
    ≡ record { capacity = 2; streams = item 2 ∷ item 5 ∷ []; closed = false }
unfolding push_round
room_made = refl

push_round-PushRound_example :
    (let (after, result, effects) = push_round example_reads (item 5) example_queue in
      PushRound example_reads (item 5) example_queue after result effects)
push_round-PushRound_example = push_round-PushRound example_reads (item 5) example_queue (λ h. h)

pop_round-PopRound_example :
    PopRound 11 example_queue (pop_round 11 example_queue).0 (pop_round 11 example_queue).1
pop_round-PopRound_example = pop_round-PopRound 11 example_queue

fewer : length (pop_round 11 example_queue).0.streams < length example_queue.streams
unfolding pop_round
fewer = omega arith

pop_round_wakes_example : wakes_not_full (pop_round 11 example_queue).2 ≡ true
pop_round_wakes_example = pop_round_wakes 11 example_queue fewer

discard_expired-live_example :
    ((discard_expired 11 example_queue).0
      ≡ record example_queue { streams = live 11 example_queue.streams })
    × ((discard_expired 11 example_queue).1 + length (live 11 example_queue.streams) ≡ 2)
discard_expired-live_example = discard_expired-live 11 example_queue ((omega arith, tt), (tt, tt))

abbrev pushed : Shared
pushed = record { queue = (push_round example_reads (item 5) (new 2)).0; latest = 15 }

abbrev popped : Shared
popped = record { queue = (pop_round 12 pushed.queue).0; latest = 15 }

abbrev push_step : Step (start 2) pushed
push_step = pushes example_reads (item 5) (λ h. h) (omega arith)

abbrev pop_step : Step pushed popped
pop_step = pops 12

abbrev push_and_pop : Reach (start 2) popped
push_and_pop = next (next here push_step) pop_step

Reach-IsValid_example : IsValid 2 popped
Reach-IsValid_example = Reach-IsValid 2 push_and_pop
