-- ===== src/Server/Accept/System.antt =====
-- The accept loop, the queue, the workers and the signal handler as one system: its moves are the
-- rounds and turns of the threads, one at a time, under one clock that does not go back and one
-- shutdown flag that is never cleared.
use statika.Prelude.{
  true, false, ok, err, ◌≡◌, arith, ℕ, ◌≤◌, Bool, ◌+◌, Result, sym, ap, refl, ◌∙◌,
}
use statika.Server.Queue.Reach.{here, next, Reach, Step, start, push_round_keeps}
use statika.Server.Queue.{WorkQueue, WorkItem, PushReads, new, push_round, Pushed, pop_round, close}
use statika.Server.Accept.{accepted, accept_turn, Next, Options, pushes, configure_stream}
use statika.Io.{IoError}
use statika.Server.Queue.Round.{pop_round-PopRound}

pub data Acceptor : Type 0 where
  idle : Acceptor
  pushing : WorkItem → Acceptor
  done : Acceptor

pub record System : Type 0 where
  pub queue : WorkQueue
  pub clock : ℕ
  pub shutdown : Bool
  pub acceptor : Acceptor

-- Where a round of `push` leaves the accept loop.
abbrev pub after_push : WorkItem → Pushed → Acceptor
after_push work (Pushed.returned true) = idle
after_push work (Pushed.returned false) = done
after_push work Pushed.waits = pushing work

-- What a round of `push` that begins now reads of the clock and of the flag.
pub record ReadsFrom (s : System) (r : PushReads) : Type 0 where
  pub now_is : s.clock ≤ r.now
  pub later : r.now ≤ r.now_after
  pub flag_in_loop : s.shutdown ≡ true → r.shutdown_in_loop ≡ true
  pub flag_after : r.shutdown_in_loop ≡ true → r.shutdown_after ≡ true

pub data Moves (timeout : ℕ) (s : System) : System → Type 0 where
  ticks : (now : ℕ) → s.clock ≤ now → Moves timeout s (record s { clock = now })
  signals : Moves timeout s (record s { shutdown = true })
  accepts :
      (options : Options) (stream : ℕ) (work : WorkItem)
      → s.acceptor ≡ idle
      → s.shutdown ≡ false
      → (accept_turn timeout s.clock options (ok stream)).0 ≡ pushes work
      → Moves timeout s (record s { acceptor = pushing work })
  leaves : s.acceptor ≡ idle → Moves timeout s (record s { acceptor = done })
  pushes_once :
      (r : PushReads) (work : WorkItem)
      → s.acceptor ≡ pushing work
      → ReadsFrom s r
      → Moves timeout s (record {
        queue = (push_round r work s.queue).0;
        clock = r.now_after;
        shutdown = r.shutdown_after;
        acceptor = after_push work (push_round r work s.queue).1;
      })
  pops_once : Moves timeout s (record s { queue = (pop_round s.clock s.queue).0 })
  closes_queue : s.acceptor ≡ done → Moves timeout s (record s { queue = (close s.queue).0 })

pub data Runs (timeout : ℕ) (s : System) : System → Type 0 where
  stays : Runs timeout s s
  then_moves : {t u : System} → Runs timeout s t → Moves timeout t u → Runs timeout s u

abbrev pub started : ℕ → ℕ → System
started capacity now = record {
  queue = new capacity;
  clock = now;
  shutdown = false;
  acceptor = idle;
}

-- The queue is as its own steps can leave it, no deadline lies past the clock and the timeout, and
-- the queue is closed last.
pub record Simulated (capacity timeout : ℕ) (s : System) : Type 0 where
  pub latest : ℕ
  pub reach : Reach (start capacity) (record { queue = s.queue; latest = latest })
  pub bound : latest ≤ s.clock + timeout
  pub pending :
      (work : WorkItem)
      → s.acceptor ≡ pushing work
      → (latest ≤ work.deadline) × (work.deadline ≤ s.clock + timeout)
  pub closed_last : s.queue.closed ≡ true → s.acceptor ≡ done

abbrev planned_deadline : ℕ → Next → ℕ
planned_deadline d (pushes work) = work.deadline
planned_deadline d _ = d

accepted_deadline :
    (timeout now stream : ℕ) (configured : Result IoError (Unit {0})) (work : WorkItem)
    → (accepted timeout now stream configured).0 ≡ pushes work
    → work.deadline ≡ now + timeout
unfolding accepted
accepted_deadline timeout now stream (err error) work e = absurd (cc)
accepted_deadline timeout now stream (ok _) work e = sym (ap (planned_deadline 0) e)

accept_turn_deadline :
    (timeout now : ℕ) (options : Options) (stream : ℕ) (work : WorkItem)
    → (accept_turn timeout now options (ok stream)).0 ≡ pushes work
    → work.deadline ≡ now + timeout
unfolding accept_turn
accept_turn_deadline timeout now options stream work e =
    accepted_deadline timeout now stream (configure_stream options) work e

abbrev pushed_deadline : ℕ → Acceptor → ℕ
pushed_deadline d (pushing work) = work.deadline
pushed_deadline d _ = d

after_push_deadline :
    (work : WorkItem) (result : Pushed) (other : WorkItem)
    → after_push work result ≡ pushing other
    → other.deadline ≡ work.deadline
after_push_deadline work (Pushed.returned true) other e = absurd (cc)
after_push_deadline work (Pushed.returned false) other e = absurd (cc)
after_push_deadline work Pushed.waits other e = sym (ap (pushed_deadline 0) e)

module _ (capacity timeout : ℕ) (s : System) (h : Simulated capacity timeout s) where
  accepts-Simulated :
      (work : WorkItem)
      → s.acceptor ≡ idle
      → work.deadline ≡ s.clock + timeout
      → Simulated capacity timeout (record s { acceptor = pushing work })
  accepts-Simulated work i d = record {
    latest = h.latest;
    reach = h.reach;
    bound = h.bound;
    pending = λ other e.
        let same : work.deadline ≡ other.deadline = ap (pushed_deadline 0) e in
        let bound = h.bound in (omega arith, omega arith);
    closed_last = λ c. absurd (cc (h.closed_last c, i));
  }

  pushes-Simulated :
      (r : PushReads) (work : WorkItem)
      → s.acceptor ≡ pushing work
      → ReadsFrom s r
      → Simulated capacity timeout (record {
        queue = (push_round r work s.queue).0;
        clock = r.now_after;
        shutdown = r.shutdown_after;
        acceptor = after_push work (push_round r work s.queue).1;
      })
  pushes-Simulated r work a reads =
      let (low, high) = h.pending work a in
      let first = reads.now_is in
      let second = reads.later in
      record {
        latest = work.deadline;
        reach = next h.reach (Step.pushes r work reads.flag_after low);
        bound = omega arith;
        pending = λ other e.
            let same = after_push_deadline work (push_round r work s.queue).1 other e in
            (omega arith, omega arith);
        closed_last = λ c.
            let before = sym (push_round_keeps r work s.queue).1 ∙ c in
            absurd (cc (h.closed_last before, a));
      }

Moves-Simulated :
    (capacity timeout : ℕ) (s t : System)
    → Moves timeout s t
    → Simulated capacity timeout s
    → Simulated capacity timeout t
Moves-Simulated capacity timeout s t (ticks now later) h = record {
  latest = h.latest;
  reach = h.reach;
  bound = let bound = h.bound in omega arith;
  pending = λ work e. let p = h.pending work e in (p.0, omega (arith, p.1));
  closed_last = h.closed_last;
}
Moves-Simulated capacity timeout s t signals h = record {
  latest = h.latest;
  reach = h.reach;
  bound = h.bound;
  pending = h.pending;
  closed_last = h.closed_last;
}
Moves-Simulated capacity timeout s t (accepts options stream work a f e) h =
    accepts-Simulated capacity timeout s h work a
      (accept_turn_deadline timeout s.clock options stream work e)
Moves-Simulated capacity timeout s t (leaves a) h = record {
  latest = h.latest;
  reach = h.reach;
  bound = h.bound;
  pending = λ work e. absurd (cc);
  closed_last = λ c. refl;
}
Moves-Simulated capacity timeout s t (pushes_once r work a reads) h =
    pushes-Simulated capacity timeout s h r work a reads
Moves-Simulated capacity timeout s t pops_once h = record {
  latest = h.latest;
  reach = next h.reach (Step.pops s.clock);
  bound = h.bound;
  pending = h.pending;
  closed_last = λ c. h.closed_last (sym (pop_round-PopRound s.clock s.queue).closed_is ∙ c);
}
Moves-Simulated capacity timeout s t (closes_queue a) h = record {
  latest = h.latest;
  reach = next h.reach Step.closes;
  bound = h.bound;
  pending = h.pending;
  closed_last = λ c. a;
}

-- Whatever the order in which connections are accepted, rounds of `push` and `pop` run, the signal
-- arrives and the queue is closed, under a clock that does not go back and a flag that is not
-- cleared: the queue is as an allowed sequence of its own steps leaves it, each `push` with a
-- deadline no earlier than the last; no deadline lies past the clock and the timeout; and a queue is
-- closed only once the accept loop is done, so no connection is handed to a closed one.
pub Runs-Simulated :
    (capacity timeout now : ℕ) {s : System}
    → Runs timeout (started capacity now) s
    → Simulated capacity timeout s
unfolding new
Runs-Simulated capacity timeout now stays = record {
  latest = 0;
  reach = here;
  bound = omega arith;
  pending = λ work e. absurd (cc);
  closed_last = λ c. absurd (cc);
}
Runs-Simulated capacity timeout now (then_moves {t} {u} runs move) =
    Moves-Simulated capacity timeout t u move (Runs-Simulated capacity timeout now runs)
