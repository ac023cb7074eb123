-- ===== src/Http/Read/Head.antt =====
-- The head that is handed to `parse_request`.
use statika.Prelude.{some, [], ◌∷◌, ◌≡◌, ℕ, ◌++◌, length, List, ◌≤◌, take}
use statika.Prelude.Bytes.{Bytes}
use statika.Http.Read.{Read, received, failed, find_end, chunk_of, max_header_bytes}

-- All that the socket delivers.
abbrev pub delivered : List Read → Bytes
delivered [] = []
delivered (received bytes ∷ reads) = chunk_of bytes ++ delivered reads
delivered (failed e ∷ reads) = delivered reads

-- A front part of the data, up to the first blank line, within the limit.
pub record IsHead (data_ head : Bytes) : Type 0 where
  pub rest : Bytes
  pub split_is : data_ ≡ head ++ rest
  pub first_end : find_end head ≡ some (length head)
  pub size : length head ≤ max_header_bytes

-- Where an end is found, there is one in what stands before it, and no earlier one.
record IsEnd (bs : Bytes) (n : ℕ) : Type 0 where
  inside : n ≤ length bs
  four : 4 ≤ n
  same : find_end (take n bs) ≡ some n
