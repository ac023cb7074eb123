-- ===== src/Http/Read/Returns.antt =====
-- When `read_request` returns.
use statika.Prelude.{
  refl, false, none, some, [], inl, inr, ok, err, ◌∷◌, ◌≡◌, arith, if◌then◌else◌, ℕ, suc, List,
  is_empty, Option, Result, ◌≤◌, ◌⊎◌, ◌||◌, length, ◌+◌, All, ◌<◌, Option-cases, Bool-cases, leb,
  ltb, ◌++◌, length-append,
}
use statika.Http.Read.{
  received, failed, read_request, before_read, or_else, parsed, read_loop, Read, max_header_bytes,
  find_end, chunk_of,
}
use statika.Prelude.Bytes.{Bytes}
use statika.Io.{is_interrupted, is_would_block}
use statika.Net.{Round}
use statika.Http.Types.{RequestError, Request}
use statika.Net.Returns.{IsSettled, after_wait-Returns, Returns}

-- The answers of `read` that bring bytes or end the loop.
abbrev pub read_progress : List Read → ℕ
read_progress [] = 0
read_progress (received bytes ∷ reads) = suc (read_progress reads)
read_progress (failed e ∷ reads) =
    if is_interrupted e || is_would_block e then read_progress reads else suc (read_progress reads)

-- The answers that are followed by a wait.
abbrev pub read_blocks : List Read → ℕ
read_blocks [] = 0
read_blocks (received bytes ∷ reads) = read_blocks reads
read_blocks (failed e ∷ reads) =
    if is_would_block e then suc (read_blocks reads) else read_blocks reads

-- With no head yet, and none refused, there is room for more bytes.
before_read-cases :
    (request : Bytes)
    → Returns (before_read request)
      ⊎ ((before_read request ≡ none) × (length request < max_header_bytes))
unfolding before_read
before_read-cases request = elim (Option-cases (find_end request)) [
  | inr (n, found) ↦ inl (rw (before_read, found) (_, refl))
  | inl missing ↦ elim (Bool-cases (leb max_header_bytes (length request))) [
    | inl large ↦ inl (rw (before_read, missing) (rw large (_, refl)))
    | inr small ↦ inr (rw (before_read, missing) (rw small refl), ground arith)
  ]
]

or_else-Returns :
    (request : Bytes) (later : Option (Result RequestError Bytes))
    → (length request < max_header_bytes → Returns later)
    → Returns (or_else (before_read request) later)
unfolding or_else
or_else-Returns request later k = elim (before_read-cases request) [
  | inl (r, e) ↦ rw e (r, refl)
  | inr (e, room) ↦ rw e (k room)
]

received_more : (chunk : Bytes) → is_empty chunk ≡ false → 1 ≤ length chunk
received_more [] h = absurd (cc)
received_more (c ∷ chunk) h = omega arith

read_loop-Returns :
    (deadline : ℕ) (reads : List Read) (request : Bytes) (rounds : List Round)
    → max_header_bytes ≤ length request + read_progress reads
    → read_blocks reads ≤ length rounds
    → All (IsSettled deadline) rounds
    → Returns (read_loop deadline reads request rounds)
unfolding read_loop
read_loop-Returns deadline [] request rounds p b s = elim (before_read-cases request) [
  | inl r ↦ r
  | inr (e, room) ↦ absurd (omega arith)
]
read_loop-Returns deadline (received bytes ∷ reads) request rounds p b s =
    or_else-Returns request _ (λ room. elim (Bool-cases (is_empty (chunk_of bytes))) [
      | inl nothing ↦ simp nothing (_, refl)
      | inr some_bytes ↦
          elim (Bool-cases (ltb max_header_bytes (length request + length (chunk_of bytes)))) [
            | inl large ↦ simp (some_bytes, large) (_, refl)
            | inr fits ↦
                simp (some_bytes, fits)
                  (read_loop-Returns deadline reads (request ++ chunk_of bytes) rounds
                    (omega (
                      arith,
                      length-append request (chunk_of bytes),
                      received_more (chunk_of bytes) some_bytes,
                    ))
                    b s)
          ]
    ])
read_loop-Returns deadline (failed e ∷ reads) request rounds p b s =
    or_else-Returns request _ (λ room. elim (Bool-cases (is_interrupted e)) [
      | inl i ↦
          rw i (read_loop-Returns deadline reads request rounds (ground arith) (ground arith) s)
      | inr i ↦ elim (Bool-cases (is_would_block e)) [
        | inr w ↦ simp (i, w) (_, refl)
        | inl w ↦
            simp (i, w)
              (after_wait-Returns deadline rounds (read_loop deadline reads request) _
                (ground arith) s
                (λ later l t.
                  read_loop-Returns deadline reads request later (ground arith) (ground arith) t))
      ]
    ])

parsed-Returns : (o : Option (Result RequestError Bytes)) → Returns o → Returns (parsed o)
unfolding parsed
parsed-Returns none (r, e) = absurd (cc)
parsed-Returns (some (ok head)) h = (_, refl)
parsed-Returns (some (err error)) h = (_, refl)

-- Whatever a client sends, `read_request` returns after at most 16384 answers of `read` that
-- bring bytes or end the connection, between any number of interruptions and of waits that each
-- end in one round of `poll`.
pub read_request_returns :
    (deadline : ℕ) (reads : List Read) (rounds : List Round)
    → max_header_bytes ≤ read_progress reads
    → read_blocks reads ≤ length rounds
    → All (IsSettled deadline) rounds
    → (answer : Result RequestError Request) × (read_request deadline reads rounds ≡ some answer)
unfolding read_request
read_request_returns deadline reads rounds p b s =
    parsed-Returns (read_loop deadline reads [] rounds)
      (read_loop-Returns deadline reads [] rounds (omega arith) b s)
