-- ===== src/Server/Accept/Sleep.antt =====
-- How long `sleep_until_shutdown` sleeps.
use statika.Prelude.{
  refl, true, false, some, [], inl, inr, ◌∷◌, ◌≡◌, arith, ℕ, List, ◌≤◌, ◌+◌, Bool-cases, ◌⊎◌, ◌||◌,
  ◌<◌, ◌-◌, ◌==◌,
}
use statika.Server.Accept.{sleep_until_shutdown, sleep_loop, Nap, accept_poll_interval}

-- A reading of the flag that is set, or of the clock at the deadline or behind it.
abbrev pub Wakes : ℕ → List Nap → Type 0
Wakes deadline [] = ⊥
Wakes deadline (nap ∷ naps) = ((nap.shutdown ≡ true) ⊎ (deadline ≤ nap.now)) ⊎ Wakes deadline naps

-- What is slept, against the readings: no sleep is longer than the interval of the accept loop,
-- none goes past the deadline, and the flag is read between any two.
abbrev pub Slept : ℕ → List Nap → List ℕ → Type 0
Slept deadline naps [] = Unit
Slept deadline [] (slept ∷ more) = ⊥
Slept deadline (nap ∷ naps) (slept ∷ more) =
    ((slept ≤ accept_poll_interval)
      × (0 < slept)
      × (nap.now + slept ≤ deadline)
      × (nap.shutdown ≡ false))
    × Slept deadline naps more

sleep_loop_returns :
    (deadline : ℕ) (naps : List Nap)
    → Wakes deadline naps
    → (slept : List ℕ) × (sleep_loop deadline naps ≡ some slept) × Slept deadline naps slept
unfolding sleep_loop
sleep_loop_returns deadline [] h = absurd h
sleep_loop_returns deadline (nap ∷ naps) h =
    elim (Bool-cases (nap.shutdown || (deadline - nap.now) == 0)) [
      | inl stop ↦ rw (sleep_loop, stop) ([], refl, tt)
      | inr on ↦ elim h [
        | inl woken ↦ absurd (ground arith)
        | inr later ↦
            let (slept, e, s) = sleep_loop_returns deadline naps later in
            rw (sleep_loop, on, e)
              (_, refl, ((ground arith, ground arith, ground arith, ground arith), s))
      ]
    ]

-- `sleep_until_shutdown` ends at the latest with the first turn that reads the flag as set or the
-- clock at the end of the duration. Until then it sleeps at most 100 milliseconds at a time, reads
-- the flag between two sleeps, and never sleeps past the end.
pub sleep_until_shutdown_returns :
    (now duration : ℕ) (naps : List Nap)
    → Wakes (now + duration) naps
    → (slept : List ℕ) × (sleep_until_shutdown now duration naps ≡ some slept)
      × Slept (now + duration) naps slept
unfolding sleep_until_shutdown
sleep_until_shutdown_returns now duration naps h = sleep_loop_returns (now + duration) naps h
