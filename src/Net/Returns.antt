-- ===== src/Net/Returns.antt =====
-- When the loops of net.rs end.
use statika.Prelude.{
  refl, true, false, some, [], inl, inr, ok, err, ◌∷◌, ◌≡◌, arith, if◌then◌else◌, ℕ, zero, suc,
  List, ◌≤◌, ◌⊎◌, Option-cases, ◌-◌, ◌==◌, length, ◌||◌, Option, drop, All, Bool-cases, subst, sym,
  ◌+◌, is_empty, ltb, take, min, ◌++◌,
}
use statika.Io.{IoError, is_interrupted, is_would_block}
use statika.Prelude.Bytes.{Bytes}
use statika.Net.{
  Round, Socket, Write, wrote, failed, IoResult, wait_round, timeout_ms, wait_fd, write_loop,
  write_all, Moved, FileAnswers, send_loop, send_file, sendfile_can_fallback, max_sendfile_chunk,
  after_wait,
}

-- A round at or behind the deadline.
abbrev pub HasExpired : ℕ → List Round → Type 0
HasExpired deadline [] = ⊥
HasExpired deadline (r ∷ rounds) = (deadline ≤ r.now) ⊎ HasExpired deadline rounds

wait_round_expired :
    (deadline : ℕ) (r : Round)
    → deadline ≤ r.now
    → (a : IoResult (Unit {0})) × (wait_round deadline r ≡ some a)
unfolding wait_round timeout_ms
wait_round_expired deadline r h =
    let e : ((deadline - r.now) == 0) ≡ true = ground arith in
    rw (wait_round, timeout_ms, e) (_, refl)

-- A wait ends at the latest in the first round whose clock has reached the deadline, whatever
-- `poll` has answered before.
pub wait_fd_returns :
    (deadline : ℕ) (rounds : List Round)
    → HasExpired deadline rounds
    → (answer : IoResult (Unit {0}) × List Round) × (wait_fd deadline rounds ≡ some answer)
unfolding wait_fd
wait_fd_returns deadline [] h = absurd h
wait_fd_returns deadline (r ∷ rounds) h = elim (Option-cases (wait_round deadline r)) [
  | inr (a, e) ↦ rw (wait_fd, e) ((a, rounds), refl)
  | inl e ↦ elim h [
    | inl late ↦ absurd (let (_, w) = wait_round_expired deadline r late in cc (e, w))
    | inr later ↦ rw (wait_fd, e) (wait_fd_returns deadline rounds later)
  ]
]

-- The answers of `write` that take bytes or end the loop.
abbrev pub progress : List Write → ℕ
progress [] = 0
progress (wrote n ∷ writes) = suc (progress writes)
progress (failed e ∷ writes) =
    if is_interrupted e || is_would_block e then progress writes else suc (progress writes)

-- The answers that are followed by a wait, each of which ends in its first round.
abbrev pub blocks : List Write → ℕ
blocks [] = 0
blocks (wrote n ∷ writes) = blocks writes
blocks (failed e ∷ writes) = if is_would_block e then suc (blocks writes) else blocks writes

abbrev pub IsSettled : ℕ → Round → Type 0
IsSettled deadline r = (a : IoResult (Unit {0})) × (wait_round deadline r ≡ some a)

wait_fd_settled :
    (deadline : ℕ) (r : Round) (rounds : List Round)
    → IsSettled deadline r
    → (a : IoResult (Unit {0})) × (wait_fd deadline (r ∷ rounds) ≡ some (a, rounds))
unfolding wait_fd
wait_fd_settled deadline r rounds (a, e) = rw (wait_fd, e) (a, refl)

length-drop-le : (n : ℕ) (bytes : Bytes) → length (drop n bytes) ≤ length bytes
length-drop-le zero bytes = omega arith
length-drop-le (suc n) [] = omega arith
length-drop-le (suc n) (b ∷ bytes) = omega (arith, length-drop-le n bytes)

abbrev pub Returns : {R : Type 0} → Option R → Type 0
Returns {R} o = (answer : R) × (o ≡ some answer)

-- A settled wait, and a loop that returns behind it.
pub after_wait-Returns :
    {R : Type 0} (deadline : ℕ) (rounds : List Round) (go : List Round → Option R)
    (fail : IoError → List Round → R)
    → 1 ≤ length rounds
    → All (IsSettled deadline) rounds
    → ((later : List Round)
        → length rounds ≡ suc (length later)
        → All (IsSettled deadline) later
        → Returns (go later))
    → Returns (after_wait (wait_fd deadline rounds) go (λ e later. some (fail e later)))
after_wait-Returns deadline [] go fail h s k = absurd (omega arith)
after_wait-Returns deadline (r ∷ rounds) go fail h s k =
    let (a, e) = wait_fd_settled deadline r rounds s.0 in
    subst (λ o. Returns (after_wait o go (λ e' later. some (fail e' later)))) (sym e) (settled a)
  where
    settled :
        (a : IoResult (Unit {0}))
        → Returns (after_wait (some (a, rounds)) go (λ e' later. some (fail e' later)))
    settled (ok _) = k rounds refl s.1
    settled (err e') = (_, refl)

write_loop-Returns :
    (deadline : ℕ) (writes : List Write) (sent bytes : Bytes) (rounds : List Round)
    → length bytes ≤ progress writes
    → blocks writes ≤ length rounds
    → All (IsSettled deadline) rounds
    → Returns (write_loop deadline writes sent bytes rounds)
unfolding write_loop
write_loop-Returns deadline writes sent [] rounds p b s = (_, refl)
write_loop-Returns deadline [] sent (c ∷ bytes) rounds p b s = absurd (omega arith)
write_loop-Returns deadline (wrote zero ∷ writes) sent (c ∷ bytes) rounds p b s = (_, refl)
write_loop-Returns deadline (wrote (suc n) ∷ writes) sent (c ∷ bytes) rounds p b s =
    write_loop-Returns deadline writes _ (drop n bytes) rounds
      (omega (arith, length-drop-le n bytes)) b s
write_loop-Returns deadline (failed e ∷ writes) sent (c ∷ bytes) rounds p b s =
    elim (Bool-cases (is_interrupted e)) [
      | inl i ↦ rw i (
          write_loop-Returns deadline writes sent (c ∷ bytes) rounds (ground arith) (ground arith)
            s)
      | inr i ↦ elim (Bool-cases (is_would_block e)) [
        | inr w ↦ simp (i, w) (_, refl)
        | inl w ↦
            simp (i, w)
              (after_wait-Returns deadline rounds (write_loop deadline writes sent (c ∷ bytes)) _
                (ground arith) s
                (λ later l t.
                  write_loop-Returns deadline writes sent (c ∷ bytes) later (ground arith)
                    (ground arith) t))
      ]
    ]

-- `write_all` returns once `write` has taken bytes, or failed for good, as many times as there are
-- bytes, between any number of interruptions and of waits that each end in one round of `poll`.
pub write_all_returns :
    (stream : Socket) (bytes : Bytes) (deadline : ℕ)
    → length bytes ≤ progress stream.writes
    → blocks stream.writes ≤ length stream.rounds
    → All (IsSettled deadline) stream.rounds
    → (answer : IoResult (Unit {0}) × Socket) × (write_all stream bytes deadline ≡ some answer)
unfolding write_all
write_all_returns stream bytes deadline p b s =
    write_loop-Returns deadline stream.writes stream.sent bytes stream.rounds p b s

-- The same for the answers of `sendfile`; those after which the copy takes over are left out.
abbrev pub sendfile_progress : List Moved → ℕ
sendfile_progress [] = 0
sendfile_progress (Moved.moved bytes ∷ transfers) = suc (sendfile_progress transfers)
sendfile_progress (Moved.failed e ∷ transfers) =
    if is_interrupted e || is_would_block e
    then sendfile_progress transfers
    else suc (sendfile_progress transfers)

abbrev pub sendfile_blocks : List Moved → ℕ
sendfile_blocks [] = 0
sendfile_blocks (Moved.moved bytes ∷ transfers) = sendfile_blocks transfers
sendfile_blocks (Moved.failed e ∷ transfers) =
    if is_would_block e then suc (sendfile_blocks transfers) else sendfile_blocks transfers

abbrev pub IsSupported : Moved → Type 0
IsSupported (Moved.moved bytes) = Unit {0}
IsSupported (Moved.failed e) = sendfile_can_fallback e ≡ false

not_empty-length : (bytes : Bytes) → is_empty bytes ≡ false → 1 ≤ length bytes
not_empty-length [] h = cc
not_empty-length (b ∷ bytes) h = omega arith

send_loop-Returns :
    (deadline length_ : ℕ) (transfers reads : List Moved) (stream : Socket) (sent : ℕ)
    → length_ ≤ sent + sendfile_progress transfers
    → sendfile_blocks transfers ≤ length stream.rounds
    → All (IsSettled deadline) stream.rounds
    → All IsSupported transfers
    → Returns (send_loop deadline length_ transfers reads stream sent)
unfolding send_loop
send_loop-Returns deadline length_ [] reads stream sent p b s f =
    let e : ltb sent length_ ≡ false = ground arith in rw e (_, refl)
send_loop-Returns deadline length_ (Moved.moved bytes ∷ transfers) reads stream sent p b s f =
    let chunk = take (min (length_ - sent) max_sendfile_chunk) bytes in
    elim (Bool-cases (ltb sent length_)) [
      | inr e ↦ rw e (_, refl)
      | inl e ↦ elim (Bool-cases (is_empty chunk)) [
        | inl n ↦ simp (e, n) (_, refl)
        | inr n ↦
            let one = not_empty-length chunk n in
            simp (e, n)
              (send_loop-Returns deadline length_ transfers reads
                (record stream { sent = stream.sent ++ chunk }) (sent + length chunk) (omega arith)
                b s f.1)
      ]
    ]
send_loop-Returns deadline length_ (Moved.failed e ∷ transfers) reads stream sent p b s f =
    elim (Bool-cases (ltb sent length_)) [
      | inr l ↦ rw l (_, refl)
      | inl l ↦ elim (Bool-cases (is_interrupted e)) [
        | inl i ↦
            simp (l, i)
              (send_loop-Returns deadline length_ transfers reads stream sent (ground arith)
                (ground arith) s f.1)
        | inr i ↦ elim (Bool-cases (is_would_block e)) [
          | inr w ↦ simp (l, i, w, f.0) (_, refl)
          | inl w ↦
              simp (l, i, w)
                (after_wait-Returns deadline stream.rounds
                  (λ later.
                    send_loop deadline length_ transfers reads (record stream { rounds = later })
                      sent)
                  _ (ground arith) s
                  (λ later n t.
                    send_loop-Returns deadline length_ transfers reads
                      (record stream { rounds = later }) sent (ground arith) (ground arith) t f.1))
        ]
      ]
    ]

-- `send_file` returns once `sendfile` has moved bytes, or failed for good, as many times as there
-- are bytes, between any number of interruptions and of waits that each end in one round of
-- `poll`, on a system that supports `sendfile` for the file.
pub send_file_returns :
    (stream : Socket) (file : FileAnswers) (length_ deadline : ℕ)
    → length_ ≤ sendfile_progress file.transfers
    → sendfile_blocks file.transfers ≤ length stream.rounds
    → All (IsSettled deadline) stream.rounds
    → All IsSupported file.transfers
    → (answer : IoResult ℕ × Socket) × (send_file stream file length_ deadline ≡ some answer)
unfolding send_file
send_file_returns stream file length_ deadline p b s f =
    send_loop-Returns deadline length_ file.transfers file.reads stream 0 (omega arith) b s f
