-- ===== src/Http/Read/Tests.antt =====
-- A request in two pieces, with a wait between them.
use statika.Prelude.{
  refl, true, false, none, some, [], ◌∷◌, ◌≡◌, List, ◌++◌, arith, ℕ, zero, suc, Result, ap,
}
use statika.Prelude.Bytes.{Bytes, codes}
use statika.Io.{io_error, ErrorKind}
use statika.Net.{Round, Poll}
use statika.Http.Types.{Method, Request, RequestError}
use statika.Http.Read.{Read, received, read_request}
use statika.Http.Read.Returns.{read_progress, read_blocks, read_request_returns}

abbrev two_pieces : List Read
two_pieces =
    received (codes "GET / HTTP/1.0" ++ 13 ∷ 10 ∷ 13 ∷ [])
    ∷ Read.failed (io_error ErrorKind.would_block)
    ∷ received (10 ∷ codes "more")
    ∷ []

abbrev one_wait : List Round
one_wait = record { now = 1; poll = Poll.ready true false } ∷ []

abbrev root_request : Request
root_request = record {
  method = Method.get;
  target = codes "/";
  accepted_encodings = record { br_q = 0; gzip_q = 0 };
  if_none_match = none;
  if_modified_since = none;
}

-- As many bytes as the head may have, each in an answer of its own.
abbrev dripped : ℕ → List Read
dripped zero = []
dripped (suc n) = received (codes "a") ∷ dripped n

progress-dripped : (n : ℕ) → read_progress (dripped n) ≡ n
progress-dripped zero = refl
progress-dripped (suc n) = ap suc (progress-dripped n)

blocks-dripped : (n : ℕ) → read_blocks (dripped n) ≡ 0
blocks-dripped zero = refl
blocks-dripped (suc n) = blocks-dripped n

read_request_returns_example :
    (answer : Result RequestError Request) × (read_request 10 (dripped 16384) [] ≡ some answer)
read_request_returns_example =
    read_request_returns 10 (dripped 16384) [] (omega (arith, progress-dripped 16384))
      (omega (arith, blocks-dripped 16384)) tt
