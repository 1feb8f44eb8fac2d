-- ===== src/Frontend/RespClient/Served.antt =====
-- What a RESP client reads for a request, from the request to the socket.
use momento_proxy.Base.{
  ◌≡◌, ◌≢◌, refl, ap, ◌∙◌, sym, subst, ℕ, true, [], ◌++◌, append-nil, Bytes, String, drop,
}
use momento_proxy.Base.Exec.{Result, ok, err, panicked}
use momento_proxy.Error.{ProxyError, momento, io, timeout, custom, unsupported_command}
use momento_proxy.Client.{Floats, Client}
use momento_proxy.Context.{Context}
use momento_proxy.Resp.Answers.{response}
use momento_proxy.Frontend.Dispatch.{Request, dispatch}
use momento_proxy.Frontend.Dispatch.Replies.{request_answer, dispatch-answer}
use momento_proxy.Frontend.RespClient.{
  Parsed, Connection, Next, go_on, hang_up, aborted, settle, count_response, send_response, serve,
}
use momento_proxy.Frontend.RespClient.Errors.{after_error, reply_bytes, settle_bytes}

module _ {E : Type 0} (display : E → Bytes) where
  -- The bytes for the end of a request.
  abbrev pub said : Result (ProxyError E) Bytes → Bytes
  said (ok b) = b
  said (err e) = reply_bytes display e
  said panicked = []

  abbrev pub next_after : Result (ProxyError E) Bytes → Next
  next_after (ok b) = go_on
  next_after (err e) = after_error e
  next_after panicked = aborted

-- The bytes that are left to parse; a connection that ends keeps them all.
abbrev pub left_after : Next → ℕ → Bytes → Bytes
left_after go_on n b = drop n b
left_after hang_up n b = b
left_after aborted n b = b

module _ {S : Type 0} where
  -- What a write that succeeds does.
  sends :
      (n : ℕ) (conn : Connection S) (c : Context S) (next : Next)
      → next ≢ aborted
      → ((send_response true n conn (c, next)).0.sent ≡ conn.sent ++ c.response_buf)
        × ((send_response true n conn (c, next)).0.buf ≡ left_after next n conn.buf)
        × ((send_response true n conn (c, next)).1 ≡ next)
  unfolding send_response count_response
  sends n conn c go_on h = (refl, refl, refl)
  sends n conn c hang_up h = (refl, refl, refl)
  sends n conn c aborted h = absurd (h refl)

module _ {E : Type 0} where
  after_error_lem : (e : ProxyError E) → after_error e ≢ aborted
  after_error_lem (momento e) h = cc
  after_error_lem timeout h = cc
  after_error_lem (io x) h = cc
  after_error_lem (custom x) h = cc
  after_error_lem (unsupported_command x) h = cc

module _ {S E : Type 0} (display : E → Bytes) where
  -- The connection after a request that has ended in `r`.
  HasSaid : Connection S → ℕ → Result (ProxyError E) Bytes → Connection S × Next → Type 0
  HasSaid conn n r p =
      (p.0.sent ≡ conn.sent ++ said display r)
      × (p.0.buf ≡ left_after (next_after display r) n conn.buf)
      × (p.1 ≡ next_after display r)

  settled :
      (r : Result (ProxyError E) (Unit {0})) (c : Context S) (n : ℕ) (conn : Connection S)
      → HasSaid conn n (response (r, c)) (send_response true n conn (settle display (r, c)))
  unfolding HasSaid settle send_response
  settled (ok _) c n conn = sends n conn c go_on (λ h. cc)
  settled panicked c n conn = (sym (append-nil conn.sent), refl, refl)
  settled (err e) c n conn =
      let (b, x) = settle_bytes display e c in
      let q = settle display (err e, c) in
      let (u, v, w) = sends n conn q.0 q.1 (λ h. after_error_lem e (sym x ∙ h)) in
      (u ∙ ap (λ t. conn.sent ++ t) b, v ∙ ap (λ k. left_after k n conn.buf) x, w ∙ x)

module _ {F : Floats} (client : Client F) (cache_name : String) (parse : Bytes → Parsed F) where
  -- Whatever the request and whatever the service answers: where the write to the client succeeds, the client reads,
  -- behind what it has read, the bytes that `request_answer` describes for an empty buffer, or the error reply;
  -- the connection goes on after a reply or an error of the service, and the bytes of the request are
  -- consumed; it ends after another error.
  pub serve-answer :
      (request : Request F) (consumed : ℕ) (conn : Connection client.State)
      → ((serve client cache_name parse request consumed true conn).0.sent
          ≡ conn.sent
            ++ said client.display (
                request_answer client cache_name request
                  (record conn.context { response_buf = [] })))
        × ((serve client cache_name parse request consumed true conn).0.buf
            ≡ left_after
                (next_after client.display (
                  request_answer client cache_name request
                    (record conn.context { response_buf = [] })))
                consumed
                conn.buf)
        × ((serve client cache_name parse request consumed true conn).1
            ≡ next_after client.display (
                request_answer client cache_name request
                  (record conn.context { response_buf = [] })))
  unfolding serve HasSaid
  serve-answer request consumed conn =
      let c = record conn.context { response_buf = [] } in
      let d = dispatch client cache_name request c in
      subst
        (λ r.
          HasSaid client.display conn consumed r
            (serve client cache_name parse request consumed true conn))
        (dispatch-answer client cache_name request c) (settled client.display d.0 d.1 consumed conn)
