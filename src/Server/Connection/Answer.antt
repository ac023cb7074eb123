-- ===== src/Server/Connection/Answer.antt =====
-- What the method of a request says of its answer.
use statika.Prelude.{
  refl, none, some, [], ok, ◌≡◌, ℕ, Result, false, Bool, ◌++◌, ◌∙◌, sym, subst, ap,
}
use statika.Prelude.Bytes.{Bytes, codes}
use statika.Http.Types.{Method, Request, RequestError, as_str}
use statika.Server.Connection.{RequestOutcome, Outcome}
use statika.Server.Connection.Sent.{Sent, part_of_head, IsHead, Responds}
use statika.Prelude.Int.{pos}
use mathlib.Core.List.{append-nil}
use statika.Server.Connection.Named.{IsNamed, named}

-- A head or the front part of one, with nothing behind it.
abbrev pub HeadOnly : Bytes → RequestOutcome → Bytes → Type 0
HeadOnly before outcome sent =
    (len : ℕ) × (front rest : Bytes) × IsHead outcome.status len (front ++ rest)
    × (sent ≡ before ++ front)

-- What the method of a request says of its outcome and of what was sent.
abbrev pub AnswersMethod : Method → Bytes → RequestOutcome → Bytes → Type 0
AnswersMethod Method.get before outcome sent = outcome.method ≡ codes "GET"
AnswersMethod Method.head before outcome sent =
    (outcome.method ≡ codes "HEAD") × HeadOnly before outcome sent

-- The outcome is that of the request that was read, unless it is too late for it.
abbrev pub IsAnswer : Bool → Result RequestError Request → Bytes → Outcome → Type 0
IsAnswer false (ok request) before (some (outcome, s)) =
    AnswersMethod request.method before outcome s.sent
IsAnswer _ _ _ _ = Unit {0}

Sent-HeadOnly :
    (before : Bytes) (outcome : RequestOutcome) (sent : Bytes)
    → outcome.method ≡ codes "HEAD"
    → Sent before outcome sent
    → HeadOnly before outcome sent
Sent-HeadOnly before outcome sent h (Sent.nothing e _) =
    (0, [], _, (pos 0, none, [], refl), e ∙ sym (append-nil before))
Sent-HeadOnly before outcome sent h (part_of_head len front rest head e _) =
    (len, front, rest, head, e)
Sent-HeadOnly before outcome sent h (Sent.response len head body is e _ no_body _) = (
  len,
  head,
  [],
  subst (IsHead outcome.status len) (sym (append-nil head)) is,
  e ∙ ap (λ b. before ++ head ++ b) (no_body h) ∙ append-nil (before ++ head),
)

Sent-AnswersMethod :
    (method : Method) (before : Bytes) (outcome : RequestOutcome) (sent : Bytes)
    → outcome.method ≡ as_str method
    → Sent before outcome sent
    → AnswersMethod method before outcome sent
unfolding as_str
Sent-AnswersMethod Method.get before outcome sent m s = m
Sent-AnswersMethod Method.head before outcome sent m s = (m, Sent-HeadOnly before outcome sent m s)

pub named-IsAnswer :
    (request : Request) (before : Bytes) (answer : Outcome)
    → IsNamed (as_str request.method) answer
    → Responds before answer
    → IsAnswer false (ok request) before answer
named-IsAnswer request before none n r = tt
named-IsAnswer request before (some (outcome, s)) (named m) r =
    Sent-AnswersMethod request.method before outcome s.sent m r
