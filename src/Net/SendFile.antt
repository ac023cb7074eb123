-- ===== src/Net/SendFile.antt =====
-- What `send_file` leaves on the socket.
use statika.Prelude.{
  refl, true, false, none, some, [], inl, inr, ok, err, ◌∷◌, ◌≡◌, arith, ℕ, ◌≤◌, List, Bool-cases,
  ltb, ◌+◌, Option, ◌∙◌, length, take, ◌++◌, sym, min, ap, ◌-◌, length-append, length-take-le,
  is_empty, subst,
}
use statika.Net.{
  moved, failed, Socket, Moved, Round, FileAnswers, IoResult, wait_fd, write_all, after_wait,
  after_write, fallback_loop, send_loop, send_file, fallback_buffer_size, io_unexpected_eof,
  max_sendfile_chunk, sendfile_can_fallback,
}
use statika.Net.WriteAll.{Sends, write_all-Sends}
use statika.Prelude.Bytes.{Bytes}
use statika.Io.{IoError, is_interrupted, is_would_block}
use mathlib.Core.List.{append_assoc, append-nil}

-- With `sent` bytes of `length_` gone, what the rest of a transfer may leave behind.
abbrev pub Delivers : Bytes → ℕ → ℕ → Option (IoResult ℕ × Socket) → Type 0
Delivers before length_ sent none = Unit {0}
Delivers before length_ sent (some (ok n, s)) =
    (n ≡ length_) × (body : Bytes) × (s.sent ≡ before ++ body) × (sent + length body ≡ length_)
Delivers before length_ sent (some (err e, s)) =
    (body : Bytes) × (s.sent ≡ before ++ body) × (sent + length body ≤ length_)

Delivers-append :
    (before chunk : Bytes) (length_ sent : ℕ) (r : Option (IoResult ℕ × Socket))
    → Delivers (before ++ chunk) length_ (sent + length chunk) r
    → Delivers before length_ sent r
Delivers-append before chunk length_ sent none h = tt
Delivers-append before chunk length_ sent (some (ok n, s)) (e, body, b, t) =
    (e, chunk ++ body, b ∙ append_assoc before chunk body, omega (arith, length-append chunk body))
Delivers-append before chunk length_ sent (some (err e, s)) (body, b, t) =
    (chunk ++ body, b ∙ append_assoc before chunk body, omega (arith, length-append chunk body))

module _ (length_ sent : ℕ) (s : Socket) where
  Delivers-error :
      (before : Bytes) (e : IoError)
      → s.sent ≡ before
      → sent ≤ length_
      → Delivers before length_ sent (some (err e, s))
  Delivers-error before e h l = ([], h ∙ sym (append-nil before), omega arith)

  Delivers-done :
      sent ≤ length_ → ltb sent length_ ≡ false → Delivers s.sent length_ sent (some (ok sent, s))
  Delivers-done l h = (ground arith, [], sym (append-nil s.sent), ground arith)

chunk-le :
    (length_ sent limit : ℕ) (bytes : Bytes)
    → sent ≤ length_
    → sent + length (take (min (length_ - sent) limit) bytes) ≤ length_
chunk-le length_ sent limit bytes h =
    omega (arith, length-take-le (min (length_ - sent) limit) bytes)

after_write-Delivers :
    (length_ sent : ℕ) (before buffer : Bytes) (w : Option (IoResult (Unit {0}) × Socket))
    (go : Socket → Option (IoResult ℕ × Socket))
    → sent + length buffer ≤ length_
    → Sends before buffer w
    → ((later : Socket) → Delivers later.sent length_ (sent + length buffer) (go later))
    → Delivers before length_ sent (after_write w go (λ e later. some (err e, later)))
after_write-Delivers length_ sent before buffer none go l h ih = tt
after_write-Delivers length_ sent before buffer (some (ok _, later)) go l h ih =
    Delivers-append before buffer length_ sent (go later)
      (subst (λ x. Delivers x length_ (sent + length buffer) (go later)) h (ih later))
after_write-Delivers length_ sent before buffer (some (err e, later)) go l (front, rest, b, w) ih =
    (front, w, omega (arith, ap (length) b, length-append front rest))

fallback_loop-Delivers :
    (deadline length_ : ℕ) (reads : List Moved) (stream : Socket) (sent : ℕ)
    → sent ≤ length_
    → Delivers stream.sent length_ sent (fallback_loop deadline length_ reads stream sent)
unfolding fallback_loop
fallback_loop-Delivers deadline length_ [] stream sent l = elim (Bool-cases (ltb sent length_)) [
  | inl more ↦ rw more tt
  | inr done ↦ rw done (Delivers-done length_ sent stream l done)
]
fallback_loop-Delivers deadline length_ (failed e ∷ reads) stream sent l =
    elim (Bool-cases (ltb sent length_)) [
      | inl more ↦ rw more (Delivers-error length_ sent stream stream.sent e refl l)
      | inr done ↦ rw done (Delivers-done length_ sent stream l done)
    ]
fallback_loop-Delivers deadline length_ (moved bytes ∷ reads) stream sent l =
    let buffer = take (min (length_ - sent) fallback_buffer_size) bytes in
    let room = chunk-le length_ sent fallback_buffer_size bytes l in
    elim (Bool-cases (ltb sent length_)) [
      | inl more ↦ elim (Bool-cases (is_empty buffer)) [
        | inl none_read ↦
            rw (more, none_read)
              (Delivers-error length_ sent stream stream.sent io_unexpected_eof refl l)
        | inr some_read ↦
            rw (more, some_read)
              (after_write-Delivers length_ sent stream.sent buffer
                (write_all stream buffer deadline)
                (λ later. fallback_loop deadline length_ reads later (sent + length buffer)) room
                (write_all-Sends stream buffer deadline)
                (λ later.
                  fallback_loop-Delivers deadline length_ reads later (sent + length buffer) room))
      ]
      | inr done ↦ rw done (Delivers-done length_ sent stream l done)
    ]

after_wait-Delivers :
    (length_ sent : ℕ) (stream : Socket) (w : Option (IoResult (Unit {0}) × List Round))
    (go : Socket → Option (IoResult ℕ × Socket))
    → sent ≤ length_
    → ((later : List Round)
        → Delivers stream.sent length_ sent (go (record stream { rounds = later })))
    → Delivers stream.sent length_ sent (
        after_wait w
          (λ later. go (record stream { rounds = later }))
          (λ e later. some (err e, record stream { rounds = later })))
after_wait-Delivers length_ sent stream none go l ih = tt
after_wait-Delivers length_ sent stream (some (ok _, later)) go l ih = ih later
after_wait-Delivers length_ sent stream (some (err e, later)) go l ih =
    Delivers-error length_ sent (record stream { rounds = later }) stream.sent e refl l

module _ (deadline length_ : ℕ) (reads : List Moved) where
  send_error-Delivers :
      (transfers : List Moved) (stream : Socket) (sent : ℕ) (e : IoError)
      → sent ≤ length_
      → ltb sent length_ ≡ true
      → ((s : Socket)
          → s.sent ≡ stream.sent
          → Delivers stream.sent length_ sent (send_loop deadline length_ transfers reads s sent))
      → Delivers stream.sent length_ sent
          (send_loop deadline length_ (failed e ∷ transfers) reads stream sent)
  unfolding send_loop
  send_error-Delivers transfers stream sent e l more ih = elim (Bool-cases (is_interrupted e)) [
    | inl i ↦ rw (more, i) (ih stream refl)
    | inr i ↦ elim (Bool-cases (is_would_block e)) [
      | inl w ↦
          rw (more, i, w)
            (after_wait-Delivers length_ sent stream (wait_fd deadline stream.rounds)
              (λ s. send_loop deadline length_ transfers reads s sent) l
              (λ later. ih (record stream { rounds = later }) refl))
      | inr w ↦ elim (Bool-cases (sendfile_can_fallback e)) [
        | inl f ↦ rw (more, i, w, f) (fallback_loop-Delivers deadline length_ reads stream sent l)
        | inr f ↦ rw (more, i, w, f) (Delivers-error length_ sent stream stream.sent e refl l)
      ]
    ]
  ]

  send_chunk :
      (bytes : Bytes) (transfers : List Moved) (stream : Socket) (sent : ℕ)
      → sent ≤ length_
      → (let chunk = take (min (length_ - sent) max_sendfile_chunk) bytes in
          Delivers (stream.sent ++ chunk) length_ (sent + length chunk) (
            send_loop deadline length_ transfers reads
              (record stream { sent = stream.sent ++ chunk })
              (sent + length chunk)))
      → Delivers stream.sent length_ sent
          (send_loop deadline length_ (moved bytes ∷ transfers) reads stream sent)
  unfolding send_loop
  send_chunk bytes transfers stream sent l h =
      let chunk = take (min (length_ - sent) max_sendfile_chunk) bytes in
      elim (Bool-cases (ltb sent length_)) [
        | inl more ↦ elim (Bool-cases (is_empty chunk)) [
          | inl at_end ↦
              rw (more, at_end)
                (Delivers-error length_ sent stream stream.sent io_unexpected_eof refl l)
          | inr go_on ↦ rw (more, go_on) (Delivers-append stream.sent chunk length_ sent _ h)
        ]
        | inr done ↦ rw done (Delivers-done length_ sent stream l done)
      ]

  send_loop-Delivers :
      (transfers : List Moved) (stream : Socket) (sent : ℕ)
      → sent ≤ length_
      → Delivers stream.sent length_ sent (send_loop deadline length_ transfers reads stream sent)
  send_loop-Delivers [] stream sent l = elim (Bool-cases (ltb sent length_)) [
    | inl more ↦ unfold send_loop in rw more tt
    | inr done ↦ unfold send_loop in rw done (Delivers-done length_ sent stream l done)
  ]
  send_loop-Delivers (failed e ∷ transfers) stream sent l = elim (Bool-cases (ltb sent length_)) [
    | inl more ↦ send_error-Delivers transfers stream sent e l more (λ s h.
        subst (λ x. Delivers x length_ sent (send_loop deadline length_ transfers reads s sent)) h
          (send_loop-Delivers transfers s sent l))
    | inr done ↦ unfold send_loop in rw done (Delivers-done length_ sent stream l done)
  ]
  send_loop-Delivers (moved bytes ∷ transfers) stream sent l =
      let chunk = take (min (length_ - sent) max_sendfile_chunk) bytes in
      let room = chunk-le length_ sent max_sendfile_chunk bytes l in
      send_chunk bytes transfers stream sent l (
        send_loop-Delivers transfers (record stream { sent = stream.sent ++ chunk })
          (sent + length chunk) room)

-- `send_file` reports success only when exactly `length` bytes were put on the socket behind what
-- was there, and returns that number; on an error no more than that were. So a body never
-- exceeds its Content-Length, and falls short of it only on a connection that is given up.
pub send_file-Delivers :
    (stream : Socket) (file : FileAnswers) (length_ deadline : ℕ)
    → Delivers stream.sent length_ 0 (send_file stream file length_ deadline)
unfolding send_file
send_file-Delivers stream file length_ deadline =
    send_loop-Delivers deadline length_ file.reads file.transfers stream 0 (omega arith)
