-- ===== src/Server/Connection/Sent.antt =====
-- What stands on a connection after a head, with a body behind it or without.
use statika.Prelude.{
  refl, none, some, [], inl, inr, ok, err, ◌≡◌, arith, ℕ, Option, ◌≢◌, List, length, ◌++◌, ◌≤◌,
  subst, sym, ◌⊎◌, ap, length-append, ◌∙◌, false,
}
use statika.Prelude.Int.{ℤ}
use statika.Prelude.Bytes.{equal_iff, Bytes, Text, codes, equal}
use statika.Http.Types.{Method, Status, as_str}
use statika.Http.Response.{response_head}
use statika.Net.{Socket, IoResult, write_all, after_write}
use statika.Net.WriteAll.{Sends, write_all-Sends}
use statika.Server.Connection.{RequestOutcome, Outcome}
use mathlib.Core.List.{append-nil}

-- A head that announces so many bytes.
abbrev pub IsHead : Status → ℕ → Bytes → Type 0
IsHead status len head =
    (now : ℤ) × (content_type : Option Text) × (headers : List (Text × Text)) × (head
      ≡ response_head now status len content_type headers)

-- What was put on a connection when the outcome is logged.
pub data Sent (before : Bytes) (outcome : RequestOutcome) (sent : Bytes) : Type 0 where
  nothing : sent ≡ before → outcome.error ≢ none → Sent before outcome sent
  part_of_head :
      (len : ℕ) (front rest : Bytes)
      → IsHead outcome.status len (front ++ rest)
      → sent ≡ before ++ front
      → outcome.error ≢ none
      → Sent before outcome sent
  response :
      (len : ℕ) (head body : Bytes)
      → IsHead outcome.status len head
      → sent ≡ before ++ head ++ body
      → length body ≤ len
      → (outcome.method ≡ codes "HEAD" → body ≡ [])
      → (outcome.error ≡ none → (outcome.bytes ≡ length body) × ((body ≡ []) ⊎ (length body ≡ len)))
      → Sent before outcome sent

abbrev pub Responds : Bytes → Outcome → Type 0
Responds before none = Unit {0}
Responds before (some (outcome, s)) = Sent before outcome s.sent

-- A head is written first, and what follows comes behind it.
pub after_head :
    (before : Bytes) (status : Status) (len : ℕ) (head : Bytes)
    (written : Option (IoResult (Unit {0}) × Socket)) (go : Socket → Outcome)
    (outcome : RequestOutcome)
    → IsHead status len head
    → Sends before head written
    → outcome.status ≡ status
    → outcome.error ≢ none
    → ((s : Socket) → s.sent ≡ before ++ head → Responds before (go s))
    → Responds before (after_write written go (λ e s. some (outcome, s)))
after_head before status len head none go outcome h w o n k = tt
after_head before status len head (some (ok _, s)) go outcome h w o n k = k s w
after_head before status len head (some (err e, s)) go outcome h (front, rest, split, sent) o n k =
    part_of_head len front rest
      (subst (λ st. IsHead st len (front ++ rest)) (sym o) (subst (IsHead status len) split h)) sent
      n

-- A body that is written whole, or in part.
pub after_body :
    (before head body : Bytes) (status : Status) (written : Option (IoResult (Unit {0}) × Socket))
    (whole part : RequestOutcome)
    → IsHead status (length body) head
    → Sends (before ++ head) body written
    → (whole.status ≡ status) × (part.status ≡ status)
    → (whole.method ≢ codes "HEAD") × (part.method ≢ codes "HEAD")
    → whole.bytes ≡ length body
    → part.error ≢ none
    → Responds before (after_write written (λ s. some (whole, s)) (λ e s. some (part, s)))
after_body before head body status none whole part h w a m c d = tt
after_body before head body status (some (ok _, s)) whole part h w a m c d =
    response (length body) head body (subst (λ st. IsHead st (length body) head) (sym a.0) h) w
      (omega arith) (λ x. absurd (m.0 x)) (λ _. (c, inr refl))
after_body before head body status (some (err e, s)) whole part h (front, rest, split, sent) a m c
      d =
    response (length body) head front (subst (λ st. IsHead st (length body) head) (sym a.1) h) sent
      (omega (arith, ap length split, length-append front rest)) (λ x. absurd (m.1 x))
      (λ n. absurd (d n))

-- A head with nothing behind it.
pub head_only :
    (before head : Bytes) (status : Status) (len : ℕ) (outcome : RequestOutcome) (s : Socket)
    → IsHead status len head
    → s.sent ≡ before ++ head
    → outcome.status ≡ status
    → outcome.bytes ≡ 0
    → Responds before (some (outcome, s))
head_only before head status len outcome s h e o b =
    response len head [] (subst (λ st. IsHead st len head) (sym o) h)
      (e ∙ sym (append-nil (before ++ head))) (omega arith) (λ _. refl) (λ _. (b, inl refl))

pub Sends-after :
    (before head body : Bytes) (deadline : ℕ) (s : Socket)
    → s.sent ≡ before ++ head
    → Sends (before ++ head) body (write_all s body deadline)
Sends-after before head body deadline s e =
    subst (λ b. Sends b body (write_all s body deadline)) e (write_all-Sends s body deadline)

pub not_head : (method : Text) → equal method (codes "HEAD") ≡ false → method ≢ codes "HEAD"
not_head method h x = cc (h, (equal_iff method (codes "HEAD")).1 x)

pub as_str-get : (m : Method) → m ≡ Method.get → as_str m ≢ codes "HEAD"
unfolding as_str
as_str-get Method.get e x = cc
as_str-get Method.head e x = cc
