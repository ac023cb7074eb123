-- ===== src/Net/WriteAll.antt =====
-- What `write_all` leaves on the socket.
use statika.Prelude.{
  refl, none, some, [], inl, inr, ok, err, ◌∷◌, ◌≡◌, ℕ, zero, suc, Option, ◌++◌, ◌∙◌, ap, sym, List,
  take-append-drop, take, drop, Bool-cases,
}
use statika.Net.{
  wrote, failed, Socket, Write, Round, IoResult, wait_fd, write_loop, write_all, io_write_zero,
  after_wait,
}
use statika.Prelude.Bytes.{Bytes}
use mathlib.Core.List.{append_assoc, append-nil}
use statika.Io.{IoError, is_interrupted, is_would_block}

-- What a write of `bytes` may leave behind: all of them on success, else a front part.
abbrev pub Sends : Bytes → Bytes → Option (IoResult (Unit {0}) × Socket) → Type 0
Sends before bytes none = Unit {0}
Sends before bytes (some (ok _, s)) = s.sent ≡ before ++ bytes
Sends before bytes (some (err e, s)) =
    (front : Bytes) × (rest : Bytes) × (bytes ≡ front ++ rest) × (s.sent ≡ before ++ front)

Sends-append :
    (before front rest : Bytes) (r : Option (IoResult (Unit {0}) × Socket))
    → Sends (before ++ front) rest r
    → Sends before (front ++ rest) r
Sends-append before front rest none h = tt
Sends-append before front rest (some (ok _, s)) h = h ∙ append_assoc before front rest
Sends-append before front rest (some (err e, s)) (f, r, e₁, e₂) = (
  front ++ f,
  r,
  ap (λ x. front ++ x) e₁ ∙ sym (append_assoc front f r),
  e₂ ∙ append_assoc before front f,
)

Sends-none :
    (before bytes : Bytes) (e : IoError) (s : Socket)
    → s.sent ≡ before
    → Sends before bytes (some (err e, s))
Sends-none before bytes e s h = ([], bytes, refl, h ∙ sym (append-nil before))

after_wait-Sends :
    (writes : List Write) (sent bytes : Bytes) (w : Option (IoResult (Unit {0}) × List Round))
    (go : List Round → Option (IoResult (Unit {0}) × Socket))
    → ((rounds : List Round) → Sends sent bytes (go rounds))
    → Sends sent bytes (
        after_wait w go
          (λ e later. some (err e, record { sent = sent; writes = writes; rounds = later })))
after_wait-Sends writes sent bytes none go ih = tt
after_wait-Sends writes sent bytes (some (ok _, later)) go ih = ih later
after_wait-Sends writes sent bytes (some (err e, later)) go ih =
    Sends-none sent bytes e (record { sent = sent; writes = writes; rounds = later }) refl

write_loop-Sends :
    (deadline : ℕ) (writes : List Write) (sent bytes : Bytes) (rounds : List Round)
    → Sends sent bytes (write_loop deadline writes sent bytes rounds)
unfolding write_loop
write_loop-Sends deadline [] sent [] rounds = sym (append-nil sent)
write_loop-Sends deadline [] sent (b ∷ bytes) rounds = tt
write_loop-Sends deadline (w ∷ writes) sent [] rounds = sym (append-nil sent)
write_loop-Sends deadline (wrote zero ∷ writes) sent (b ∷ bytes) rounds =
    Sends-none sent (b ∷ bytes) io_write_zero
      (record { sent = sent; writes = writes; rounds = rounds }) refl
write_loop-Sends deadline (wrote (suc n) ∷ writes) sent (b ∷ bytes) rounds =
    rw (take-append-drop (suc n) (b ∷ bytes)) at (
      Sends-append sent (take (suc n) (b ∷ bytes)) (drop (suc n) (b ∷ bytes)) _ (
        write_loop-Sends deadline writes (sent ++ take (suc n) (b ∷ bytes))
          (drop (suc n) (b ∷ bytes)) rounds))
write_loop-Sends deadline (failed e ∷ writes) sent (b ∷ bytes) rounds =
    let ih = write_loop-Sends deadline writes sent (b ∷ bytes) in
    elim (Bool-cases (is_interrupted e)) [
      | inl i ↦ rw i (ih rounds)
      | inr i ↦ elim (Bool-cases (is_would_block e)) [
        | inl w ↦
            rw (i, w)
              (after_wait-Sends writes sent (b ∷ bytes) (wait_fd deadline rounds)
                (write_loop deadline writes sent (b ∷ bytes)) ih)
        | inr w ↦
            rw (i, w)
              (Sends-none sent (b ∷ bytes) e
                (record { sent = sent; writes = writes; rounds = rounds }) refl)
      ]
    ]

-- `write_all` reports success only when every byte was written, in order and once; after an error
-- what was written is a front part of the bytes.
pub write_all-Sends :
    (stream : Socket) (bytes : Bytes) (deadline : ℕ)
    → Sends stream.sent bytes (write_all stream bytes deadline)
unfolding write_all
write_all-Sends stream bytes deadline =
    write_loop-Sends deadline stream.writes stream.sent bytes stream.rounds
