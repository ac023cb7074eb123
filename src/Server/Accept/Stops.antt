-- ===== src/Server/Accept/Stops.antt =====
-- When `accept_loop` stops, and with what.
use mathlib.Core.Option
use statika.Server.Accept.{
  pushes, waits, sleeps, fails, returns, continues, breaks, blocks, goes_on, accepted,
  configure_stream, then_rest, after_poll, accept_loop, turn_end, accept_turn, End, not_accepted,
  after_nap, Effect, Stopped, accept_transient_backoff, accept_resource_backoff,
  sleep_until_shutdown, turn_effects,
}
use statika.Prelude.{
  refl, true, false, none, some, [], inl, inr, ok, err, ◌∷◌, ◌≡◌, arith, ℕ, List, Result, Bool, ◌⊎◌,
  ◌||◌, ◌+◌, Option, Bool-cases, subst, ap, ◌≤◌, some-injective,
}
use statika.Io.{IoError, is_interrupted, is_would_block, is_timed_out}
use statika.Server.Accept.{
  Turn, Next, ServerError, is_transient_accept_error, accept_poll_interval,
  is_accept_resource_exhaustion,
}
use statika.Net.{Round, wait_fd, IoResult}

-- The errors of `accept` after which the loop goes on.
abbrev pub is_tolerated : IoError → Bool
is_tolerated error =
    is_interrupted error
    || is_would_block error
    || is_transient_accept_error error
    || is_accept_resource_exhaustion error

-- What ends the loop in a turn, and what it is then left with.
pub data StopsAt (t : Turn) : Result ServerError (Unit {0}) → Type 0 where
  at_shutdown : t.shutdown ≡ true → StopsAt t (ok tt)
  refused_push : (stream : ℕ) → t.answer ≡ ok stream → t.pushed ≡ false → StopsAt t (ok tt)
  accept_error :
      {error : IoError}
      → t.answer ≡ err error
      → is_tolerated error ≡ false
      → StopsAt t (err (ServerError.io error))
  wait_error :
      {error : IoError} {later : List Round}
      → wait_fd (t.now + accept_poll_interval) t.polls ≡ some (err error, later)
      → is_timed_out error ≡ false
      → is_interrupted error ≡ false
      → StopsAt t (err (ServerError.io error))

abbrev pub Stops : List Turn → Result ServerError (Unit {0}) → Type 0
Stops [] result = ⊥
Stops (t ∷ turns) result = StopsAt t result ⊎ ((t.shutdown ≡ false) × Stops turns result)

-- What a turn may do next, by what `accept` has answered.
pub data Planned (timeout : ℕ) (t : Turn) : Next → Type 0 where
  to_push :
      (stream : ℕ)
      → t.answer ≡ ok stream
      → configure_stream t.options ≡ ok tt
      → Planned timeout t
          (pushes (record { stream = stream; accepted_at = t.now; deadline = t.now + timeout }))
  to_go_on : Planned timeout t goes_on
  to_wait : Planned timeout t (waits (t.now + accept_poll_interval))
  to_sleep : (duration : ℕ) → duration ≤ accept_poll_interval → Planned timeout t (sleeps duration)
  to_fail :
      (error : IoError)
      → t.answer ≡ err error
      → is_tolerated error ≡ false
      → Planned timeout t (fails error)

module _ (timeout : ℕ) (t : Turn) where
  accepted-Planned :
      (stream : ℕ) (configured : Result IoError (Unit {0}))
      → t.answer ≡ ok stream
      → configure_stream t.options ≡ configured
      → Planned timeout t (accepted timeout t.now stream configured).0
  unfolding accepted
  accepted-Planned stream (err error) a c = to_go_on
  accepted-Planned stream (ok _) a c = to_push stream a c

  not_accepted-Planned :
      (error : IoError) → t.answer ≡ err error → Planned timeout t (not_accepted t.now error).0
  unfolding not_accepted
  not_accepted-Planned error a = elim (Bool-cases (is_interrupted error)) [
    | inl i ↦ simp i to_go_on
    | inr i ↦ elim (Bool-cases (is_would_block error)) [
      | inl b ↦ simp (i, b) to_wait
      | inr b ↦ elim (Bool-cases (is_transient_accept_error error)) [
        | inl r ↦ simp (i, b, r) (to_sleep accept_transient_backoff (omega arith))
        | inr r ↦ elim (Bool-cases (is_accept_resource_exhaustion error)) [
          | inl x ↦ simp (i, b, r, x) (to_sleep accept_resource_backoff (omega arith))
          | inr x ↦ simp (i, b, r, x) (to_fail error a (ground arith))
        ]
      ]
    ]
  ]

  pub accept_turn-Planned :
      (answer : Result IoError ℕ)
      → t.answer ≡ answer
      → Planned timeout t (accept_turn timeout t.now t.options answer).0
  unfolding accept_turn
  accept_turn-Planned (ok stream) a = accepted-Planned stream (configure_stream t.options) a refl
  accept_turn-Planned (err error) a = not_accepted-Planned error a

-- The result that a turn ends the loop with.
abbrev result_of : End → Option (Result ServerError (Unit {0}))
result_of breaks = some (ok tt)
result_of (returns error) = some (err (ServerError.io error))
result_of _ = none

module _ (timeout : ℕ) (t : Turn) where
  after_poll-Stops :
      (answer : Option (IoResult (Unit {0}) × List Round)) {result : Result ServerError (Unit {0})}
      → wait_fd (t.now + accept_poll_interval) t.polls ≡ answer
      → result_of (after_poll answer) ≡ some result
      → StopsAt t result
  unfolding after_poll
  after_poll-Stops none w e = absurd (cc)
  after_poll-Stops (some (ok _, later)) w e = absurd (cc)
  after_poll-Stops (some (err error, later)) w e =
      elim (Bool-cases (is_timed_out error || is_interrupted error)) [
        | inl x ↦ absurd (let y = rw x at e in cc)
        | inr x ↦
            subst (StopsAt t) (some-injective (rw x at e))
              (wait_error w (ground arith) (ground arith))
      ]

  after_nap_goes_on : (slept : Option (List ℕ)) → result_of (after_nap slept) ≡ none
  unfolding after_nap
  after_nap_goes_on none = refl
  after_nap_goes_on (some slept) = refl

  turn_end-Stops :
      (next : Next) {result : Result ServerError (Unit {0})}
      → Planned timeout t next
      → result_of (turn_end t next) ≡ some result
      → StopsAt t result
  unfolding turn_end
  turn_end-Stops _ (to_push stream a c) e = elim (Bool-cases t.pushed) [
    | inl p ↦ absurd (let y = rw p at e in cc)
    | inr p ↦ subst (StopsAt t) (some-injective (rw p at e)) (refused_push stream a p)
  ]
  turn_end-Stops _ to_go_on e = absurd (cc)
  turn_end-Stops _ to_wait e =
      after_poll-Stops (wait_fd (t.now + accept_poll_interval) t.polls) refl e
  turn_end-Stops _ (to_sleep duration _) e =
      absurd (cc (e, after_nap_goes_on (sleep_until_shutdown t.now duration t.naps)))
  turn_end-Stops _ (to_fail error a f) e = subst (StopsAt t) (some-injective e) (accept_error a f)

then_rest-cases :
    (e : End) (effects : List Effect) (rest : Option Stopped)
    {result : Result ServerError (Unit {0})} {after : List Effect}
    → then_rest e effects rest ≡ some (result, after)
    → (result_of e ≡ some result) ⊎ ((more : List Effect) × (rest ≡ some (result, more)))
unfolding then_rest
then_rest-cases continues effects none e = absurd (cc)
then_rest-cases continues effects (some (r, more)) e =
    inr (more, ap (λ x. some (x, more)) (ap (λ (s : Stopped). s.0) (some-injective e)))
then_rest-cases breaks effects rest e = inl (ap (λ o. Option.map (λ (s : Stopped). s.0) o) e)
then_rest-cases blocks effects rest e = absurd (cc)
then_rest-cases (returns error) effects rest e =
    inl (ap (λ o. Option.map (λ (s : Stopped). s.0) o) e)

-- `accept_loop` returns without an error only at a reading of the shutdown flag that is set, or once
-- `push` has refused an item. It returns an error only where `accept` failed with it and it is none
-- of the errors after which the loop is to go on, or where the wait for the listener failed with it
-- and it is neither the end of the wait nor a signal. Until then it has read the flag as not set.
pub accept_loop-Stops :
    (timeout : ℕ) (turns : List Turn) {result : Result ServerError (Unit {0})}
    {effects : List Effect}
    → accept_loop timeout turns ≡ some (result, effects)
    → Stops turns result
unfolding accept_loop
accept_loop-Stops timeout [] e = absurd (cc)
accept_loop-Stops timeout (t ∷ turns) {result} e = elim (Bool-cases t.shutdown) [
  | inl s ↦
      inl
        (subst (StopsAt t) (ap (λ (s : Stopped). s.0) (some-injective (rw s at e))) (at_shutdown s))
  | inr s ↦
      let did = accept_turn timeout t.now t.options t.answer in
      elim (then_rest-cases (turn_end t did.0) (turn_effects t did) (accept_loop timeout turns)
        (rw s at e)) [
          | inl here ↦
              inl
                (turn_end-Stops timeout t did.0 (accept_turn-Planned timeout t t.answer refl) here)
          | inr (more, later) ↦ inr (s, accept_loop-Stops timeout turns later)
        ]
]
