-- ===== src/Server/Accept/Returns.antt =====
-- When `accept_loop` returns.
use statika.Prelude.{
  refl, true, false, some, [], inl, inr, ok, err, ◌∷◌, ◌≡◌, ℕ, List, ◌≤◌, Bool, ◌⊎◌, Bool-cases,
  Option, ◌+◌, ◌||◌,
}
use statika.Server.Accept.Stops.{
  to_push, to_go_on, to_wait, to_sleep, to_fail, Planned, accept_turn-Planned,
}
use statika.Server.Accept.{
  returns, continues, breaks, blocks, End, after_poll, then_rest, turn_end, Turn, Next, accept_turn,
  Effect, after_nap, accept_poll_interval, Stopped, accept_loop, turn_effects,
}
use statika.Io.{is_timed_out, is_interrupted}
use statika.Net.{IoResult, Round}
use statika.Net.Returns.{HasExpired, wait_fd_returns}
use statika.Server.Accept.Sleep.{Wakes, sleep_until_shutdown_returns}

-- A turn whose wait and whose sleep come to their ends.
pub record Settles (t : Turn) : Type 0 where
  pub polls_end : HasExpired (t.now + accept_poll_interval) t.polls
  pub naps_end : (duration : ℕ) → duration ≤ accept_poll_interval → Wakes (t.now + duration) t.naps

-- A turn that reads the shutdown flag as set, behind turns that come to their ends.
abbrev pub IsToldToStop : List Turn → Type 0
IsToldToStop [] = ⊥
IsToldToStop (t ∷ turns) = (t.shutdown ≡ true) ⊎ (Settles t × IsToldToStop turns)

abbrev is_blocked : End → Bool
is_blocked blocks = true
is_blocked _ = false

after_poll_ends :
    (answer : IoResult (Unit {0}) × List Round) → is_blocked (after_poll (some answer)) ≡ false
unfolding after_poll
after_poll_ends (ok _, later) = refl
after_poll_ends (err error, later) =
    elim (Bool-cases (is_timed_out error || is_interrupted error)) [
      | inl x ↦ simp x refl
      | inr x ↦ simp x refl
    ]

turn_end_ends :
    (timeout : ℕ) (t : Turn) (next : Next)
    → Settles t
    → Planned timeout t next
    → is_blocked (turn_end t next) ≡ false
unfolding turn_end after_nap
turn_end_ends timeout t _ h (to_push stream _ _) = elim (Bool-cases t.pushed) [
  | inl p ↦ simp p refl
  | inr p ↦ simp p refl
]
turn_end_ends timeout t _ h to_go_on = refl
turn_end_ends timeout t _ h to_wait =
    let (answer, e) = wait_fd_returns (t.now + accept_poll_interval) t.polls h.polls_end in
    rw e (after_poll_ends answer)
turn_end_ends timeout t _ h (to_sleep duration short) =
    let (slept, e, _) =
      sleep_until_shutdown_returns t.now duration t.naps (h.naps_end duration short) in
    rw e refl
turn_end_ends timeout t _ h (to_fail error _ _) = refl

then_rest_ends :
    (e : End) (effects : List Effect) (rest : Option Stopped)
    → is_blocked e ≡ false
    → (s : Stopped) × (rest ≡ some s)
    → (s : Stopped) × (then_rest e effects rest ≡ some s)
unfolding then_rest
then_rest_ends continues effects rest h (s, r) = rw r (_, refl)
then_rest_ends breaks effects rest h r = (_, refl)
then_rest_ends blocks effects rest h r = absurd (cc)
then_rest_ends (returns error) effects rest h r = (_, refl)

-- `accept_loop` returns at the latest at the turn that reads the shutdown flag as set, when in
-- the turns before it each wait of 100 milliseconds and each sleep sees its end or the flag,
-- whatever `accept`, the set-up of a stream and `push` answer.
pub accept_loop_returns :
    (timeout : ℕ) (turns : List Turn)
    → IsToldToStop turns
    → (s : Stopped) × (accept_loop timeout turns ≡ some s)
unfolding accept_loop
accept_loop_returns timeout [] h = absurd h
accept_loop_returns timeout (t ∷ turns) h = elim (Bool-cases t.shutdown) [
  | inl s ↦ rw (accept_loop, s) (_, refl)
  | inr s ↦ elim h [
    | inl stop ↦ absurd (cc)
    | inr (settles, later) ↦
        let did = accept_turn timeout t.now t.options t.answer in
        let planned = accept_turn-Planned timeout t t.answer refl in
        let ends = turn_end_ends timeout t did.0 settles planned in
        rw (accept_loop, s)
          (then_rest_ends (turn_end t did.0) (turn_effects t did) (accept_loop timeout turns) ends
            (accept_loop_returns timeout turns later))
  ]
]
