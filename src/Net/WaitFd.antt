-- ===== src/Net/WaitFd.antt =====
-- The timeout handed to `poll`, and when a wait ends.
use statika.Prelude.{
  refl, true, false, none, some, [], ok, err, ◌∷◌, ◌≡◌, arith, ℕ, ◌≤◌, ◌<◌, List, Bool, ◌++◌, ◌+◌,
  All, ◌-◌, ◌*◌, ◌⊎◌, ap, Option, sym, ◌∙◌, subst,
}
use statika.Net.{
  Poll, Round, IoResult, duration_ms_ceil, timeout_ms, wait_answer, wait_round, wait_fd, c_int_max,
}

-- The timeout is at least a millisecond, fits a C int, is rounded up, and by less than one: a wait
-- neither spins nor ends before its deadline, unless the deadline is 24 days ahead.
pub timeout_ms_range :
    (deadline now : ℕ) {t : ℕ}
    → timeout_ms deadline now ≡ ok t
    → (1 ≤ t)
      × (t ≤ c_int_max)
      × (now + (t - 1) * 1000000 < deadline)
      × ((deadline ≤ now + t * 1000000) ⊎ (t ≡ c_int_max))
unfolding timeout_ms duration_ms_ceil
timeout_ms_range deadline now h = ground arith

-- A round after which the loop goes on: in time, and with no event and no error that ends it.
abbrev pub GoesOn : ℕ → Round → Type 0
GoesOn deadline r = (r.now < deadline) × (wait_answer r.poll ≡ none)

-- A wait that ends on an event, in a round whose clock had not reached the deadline when it was
-- read, before the call of `poll`. The rounds before it go on.
pub record Ready (deadline : ℕ) (rounds later : List Round) : Type 0 where
  pub skipped : List Round
  pub last : Round
  pub has_error : Bool
  pub split_is : rounds ≡ skipped ++ last ∷ later
  pub all_go_on : All (GoesOn deadline) skipped
  pub in_time : last.now < deadline
  pub event : last.poll ≡ Poll.ready true has_error

wait_answer-ok : (p : Poll) → wait_answer p ≡ some (ok tt) → (b : Bool) × (p ≡ Poll.ready true b)
unfolding wait_answer
wait_answer-ok (Poll.ready true b) h = (b, refl)
wait_answer-ok (Poll.ready false true) h = absurd (ground arith)
wait_answer-ok (Poll.ready false false) h = absurd (ground arith)
wait_answer-ok Poll.no_event h = absurd (ground arith)
wait_answer-ok (Poll.failed e) h = absurd (ground arith)

wait_round-none : (deadline : ℕ) (r : Round) → wait_round deadline r ≡ none → GoesOn deadline r
unfolding wait_round timeout_ms
wait_round-none deadline r h = ground arith

wait_round-ok :
    (deadline : ℕ) (r : Round)
    → wait_round deadline r ≡ some (ok tt)
    → (r.now < deadline) × (wait_answer r.poll ≡ some (ok tt))
unfolding wait_round timeout_ms
wait_round-ok deadline r h = ground arith

wait_first :
    (deadline : ℕ) (r : Round) (later : List Round)
    → wait_round deadline r ≡ some (ok tt)
    → Ready deadline (r ∷ later) later
wait_first deadline r later h =
    let (t, a) = wait_round-ok deadline r h in
    let (b, e) = wait_answer-ok r.poll a in
    record {
      skipped = [];
      last = r;
      has_error = b;
      split_is = refl;
      all_go_on = tt;
      in_time = t;
      event = e;
    }

wait_next :
    (deadline : ℕ) (r : Round) (rounds later : List Round)
    → wait_round deadline r ≡ none
    → Ready deadline rounds later
    → Ready deadline (r ∷ rounds) later
wait_next deadline r rounds later h f = record {
  skipped = r ∷ f.skipped;
  last = f.last;
  has_error = f.has_error;
  split_is = ap (λ x. r ∷ x) f.split_is;
  all_go_on = (wait_round-none deadline r h, f.all_go_on);
  in_time = f.in_time;
  event = f.event;
}

abbrev after_round :
    ℕ → List Round → Option (IoResult (Unit {0})) → Option (IoResult (Unit {0}) × List Round)
after_round deadline rounds none = wait_fd deadline rounds
after_round deadline rounds (some answer) = some (answer, rounds)

wait_fd-cons :
    (deadline : ℕ) (r : Round) (rounds : List Round)
    → wait_fd deadline (r ∷ rounds) ≡ after_round deadline rounds (wait_round deadline r)
unfolding wait_fd
wait_fd-cons deadline r rounds = ground arith

after_round-Ready :
    (deadline : ℕ) (r : Round) (rounds later : List Round) (o : Option (IoResult (Unit {0})))
    → wait_round deadline r ≡ o
    → (wait_fd deadline rounds ≡ some (ok tt, later) → Ready deadline rounds later)
    → after_round deadline rounds o ≡ some (ok tt, later)
    → Ready deadline (r ∷ rounds) later
after_round-Ready deadline r rounds later none e ih h = wait_next deadline r rounds later e (ih h)
after_round-Ready deadline r rounds later (some (ok tt)) e ih h =
    let same : rounds ≡ later = ground arith in
    subst (λ x. Ready deadline (r ∷ rounds) x) same (wait_first deadline r rounds e)
after_round-Ready deadline r rounds later (some (err x)) e ih h = absurd (ground arith)

-- `wait_fd` reports success only on an event that `poll` reported in a round whose clock, read before
-- the call, had not reached the deadline, and then at the first answer that does not make the loop
-- go on.
pub wait_fd-Ready :
    (deadline : ℕ) (rounds later : List Round)
    → wait_fd deadline rounds ≡ some (ok tt, later)
    → Ready deadline rounds later
wait_fd-Ready deadline [] later h = unfold wait_fd in cc
wait_fd-Ready deadline (r ∷ rounds) later h =
    after_round-Ready deadline r rounds later (wait_round deadline r) refl
      (wait_fd-Ready deadline rounds later) (sym (wait_fd-cons deadline r rounds) ∙ h)
