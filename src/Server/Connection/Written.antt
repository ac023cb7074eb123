-- ===== src/Server/Connection/Written.antt =====
-- What `simple_error`, `simple_response` and the last match of `serve_static` put on a connection.
use statika.Server.Connection.Sent.{
  IsHead, response, Responds, after_head, after_body, head_only, Sends-after, not_head, as_str-get,
}
use statika.Prelude.{
  refl, none, some, inl, inr, ok, err, ◌≡◌, arith, ℕ, Option, ◌≢◌, List, length, ◌++◌, Bool-cases,
}
use statika.Prelude.Bytes.{Bytes, Text, codes, equal}
use statika.Config.{Header}
use statika.Http.Types.{Method, Status, as_str}
use statika.Http.Response.{response_head, content_type}
use statika.Net.{Socket, IoResult, write_all, after_write}
use statika.Net.WriteAll.{write_all-Sends}
use statika.Net.SendFile.{Delivers}
use statika.Server.Connection.{
  Clock, ResponseContext, simple_error, simple_response, after_send, error_body,
  append_extra_headers, outcome_new, outcome_error,
}

pub simple_error-Responds :
    (clock : Clock) (stream : Socket) (deadline : ℕ) (method path : Text) (status : Status)
    (error : Text) (extra_headers : List Header)
    → Responds stream.sent
        (simple_error clock stream deadline method path status error extra_headers)
unfolding simple_error
simple_error-Responds clock stream deadline method path status error extra_headers =
    after_head stream.sent status (length (error_body status)) _ _ _ _
      (clock.unix_seconds, _, _, refl) (write_all-Sends stream _ _) refl (λ n. cc)
      (λ s e. elim (Bool-cases (equal method (codes "HEAD"))) [
        | inl is_head ↦ simp is_head (
            head_only stream.sent _ status (length (error_body status)) _ s
              (clock.unix_seconds, _, _, refl) e refl refl)
        | inr other ↦ simp other (
            after_body stream.sent _ (error_body status) status _ _ _
              (clock.unix_seconds, _, _, refl) (Sends-after stream.sent _ (error_body status) _ s e)
              (refl, refl) (not_head method other, not_head method other) refl (λ n. cc))
      ])

pub simple_response-Responds :
    (clock : Clock) (stream : Socket) (context : ResponseContext) (status : Status) (body : Bytes)
    (content_type : Text) (headers : List (Text × Text))
    → Responds stream.sent (simple_response clock stream context status body content_type headers)
unfolding simple_response
simple_response-Responds clock stream context status body content_type headers =
    after_head stream.sent status (length body) _ _ _ _ (clock.unix_seconds, _, _, refl)
      (write_all-Sends stream _ _) refl (λ n. cc) (λ s e. by_method context.method refl s e)
  where
    by_method :
        (m : Method)
        → context.method ≡ m
        → (s : Socket)
        → s.sent
          ≡ stream.sent
            ++ response_head clock.unix_seconds status
                (length body)
                (some content_type)
                (append_extra_headers headers context.extra_headers)
        → Responds stream.sent (elim m [
          | Method.head ↦ some (outcome_new (as_str context.method) context.path status 0, s)
          | Method.get ↦
              after_write
                (write_all s body context.deadline)
                (λ s'.
                  some (outcome_new (as_str context.method) context.path status (length body), s'))
                (λ e s'. some (
                  outcome_error (as_str context.method) context.path status (codes "write_body"),
                  s',
                ))
        ])
    by_method Method.head m s e =
        head_only stream.sent _ status (length body) _ s (clock.unix_seconds, _, _, refl) e refl
          refl
    by_method Method.get m s e =
        after_body stream.sent _ body status _ _ _ (clock.unix_seconds, _, _, refl)
          (Sends-after stream.sent _ body _ s e) (refl, refl)
          (as_str-get context.method m, as_str-get context.method m) refl (λ n. cc)

pub after_send-Responds :
    (before head : Bytes) (len : ℕ) (method path : Text) (r : Option (IoResult ℕ × Socket))
    → method ≢ codes "HEAD"
    → IsHead Status.ok len head
    → Delivers (before ++ head) len 0 r
    → Responds before (after_send method path r)
unfolding after_send
after_send-Responds before head len method path none m h d = tt
after_send-Responds before head len method path (some (ok n, s)) m h (e, body, sent, whole) =
    response len head body h sent (omega (arith, whole)) (λ x. absurd (m x))
      (λ _. (omega (arith, e, whole), inr (omega (arith, whole))))
after_send-Responds before head len method path (some (err x, s)) m h (body, sent, part) =
    response len head body h sent (omega (arith, part)) (λ y. absurd (m y)) (λ n. absurd (cc))
