-- ===== src/Frontend/RespClient.antt =====
-- `handle_resp_client` of src/frontend.rs: the loop over one RESP connection, with `do_read` of
-- src/main.rs. The socket is a list of what its reads return and of whether the writes succeed.
pub mod Errors
pub mod Served
pub mod Rounds
pub mod Watched
use momento_proxy.Base.{
  ℕ, ◌≡◌, refl, Bool, true, false, List, [], ◌∷◌, ◌++◌, Bytes, String, codes, length, drop,
  if◌then◌else◌,
}
use momento_proxy.Base.Exec.{Exec, Result, ok, err, panicked, ◌>>=◌, ◌>>◌}
use momento_proxy.Error.{ProxyError, momento, io, timeout, custom, unsupported_command}
use momento_proxy.Client.{Floats, Client}
use momento_proxy.Metrics.{
  Event, Counter, add, session_send, session_send_ex, session_send_byte, tcp_send_byte, backend_ex,
  backend_ex_timeout, backend_request, session_recv, session_recv_ex, session_recv_byte,
  tcp_recv_byte,
}
use momento_proxy.Context.{Context, Handler, event, increment, write}
use momento_proxy.Resp.Utils.{line_end, momento_error_to_resp_error}
use momento_proxy.Frontend.Socket.{Read, received, read_failed, read_events}
use momento_proxy.Frontend.Dispatch.{Request, dispatch}

-- What `parser.parse(buf.borrow())` returns: a request and how many bytes it took, `WouldBlock`, or
-- another error.
pub data Parsed (F : Floats) : Type 0 where
  parsed : Request F → ℕ → Parsed F
  would_block malformed : Parsed F

-- One round: the read, and whether the write that may follow succeeds.
pub record Round : Type 0 where
  pub read : Read
  pub write_ok : Bool

pub record Connection (S : Type 0) : Type 0 where
  pub context : Context S
  -- the bytes that are read and not yet consumed
  pub buf : Bytes
  pub sent : Bytes

-- How the loop goes on after a round.
pub data Next : Type 0 where
  go_on hang_up : Next
  -- the process has ended
  aborted : Next

module _ {S E : Type 0} (display : E → Bytes) where
  -- `match e { .. }`: the error reply, and whether the error is fatal.
  unfoldable pub error_reply : ProxyError E → Context S → Context S × Bool
  error_reply (momento e) c =
      let c' = (increment {E = E} session_send c).1 in
      ((momento_error_to_resp_error display e c').1, false)
  error_reply timeout c =
      let c' = (increment {E = E} session_send c).1 in
      let c'' = (increment {E = E} backend_ex c').1 in
      let c''' = (increment {E = E} backend_ex_timeout c'').1 in
      ((write {E = E} (codes "-ERR backend timeout" ++ line_end) c''').1, false)
  error_reply (io _) c = (c, true)
  error_reply (unsupported_command command) c =
      ((write {E = E} (codes "-ERR unsupported command: " ++ codes command ++ line_end) c).1, true)
  error_reply (custom message) c =
      let c' = (increment {E = E} session_send c).1 in
      let c'' = (increment {E = E} backend_ex c').1 in
      ((write {E = E} (codes "-ERR " ++ codes message ++ line_end) c'').1, true)

  -- `let fatal = match result { .. }`, where the buffer is cleared before an error reply; `aborted` after
  -- a panic.
  unfoldable pub settle : Result (ProxyError E) (Unit {0}) × Context S → Context S × Next
  unfolding error_reply
  settle (ok _, c) = (c, go_on)
  settle (err e, c) =
      let (c', fatal) = error_reply e (record c { response_buf = [] }) in
      (c', if fatal then hang_up else go_on)
  settle (panicked, c) = (c, aborted)

is_empty : Bytes → Bool
is_empty [] = true
is_empty (_ ∷ _) = false

module _ {S : Type 0} where
  -- The counters that every response adds to.
  count_response : Context S → Context S
  unfolding is_empty
  count_response c = record c {
    events =
        c.events
        ++ ((if is_empty c.response_buf
              then []
              else add backend_request 1 ∷ add session_send 1 ∷ [])
            ++ add session_send_byte (length c.response_buf)
              ∷ add tcp_send_byte (length c.response_buf)
              ∷ []);
  }

  -- `socket.write_all(&response_buf)`, the break on a fatal error, and `buf.advance(consumed)`.
  send_response : Bool → ℕ → Connection S → Context S × Next → Connection S × Next
  unfolding count_response
  send_response write_ok consumed conn (c, aborted) = (record conn { context = c }, aborted)
  send_response false consumed conn (c, next) =
      let c' = count_response c in
      (
        record conn { context = record c' { events = c'.events ++ add session_send_ex 1 ∷ [] } },
        hang_up,
      )
  send_response true consumed conn (c, hang_up) =
      (record conn { context = count_response c; sent = conn.sent ++ c.response_buf }, hang_up)
  send_response true consumed conn (c, go_on) = (
    record conn {
      context = count_response c;
      sent = conn.sent ++ c.response_buf;
      buf = drop consumed conn.buf;
    },
    go_on,
  )

  -- `do_read`
  count_read : Read → Context S → Context S
  count_read r c = record c { events = c.events ++ read_events r }

module _ {F : Floats} (client : Client F) (cache_name : String) (parse : Bytes → Parsed F) where
  open client use {State, MomentoError, display}

  -- The body of the loop after a request is parsed.
  unfoldable pub serve : Request F → ℕ → Bool → Connection State → Connection State × Next
  unfolding settle send_response
  serve request consumed write_ok conn = send_response write_ok consumed conn (
      settle display
        (dispatch client cache_name request (record conn.context { response_buf = [] })))

  on_parsed : Parsed F → Bool → Connection State → Connection State × Next
  on_parsed (parsed request consumed) write_ok conn = serve request consumed write_ok conn
  on_parsed would_block write_ok conn = (conn, go_on)
  on_parsed malformed write_ok conn = (
    record conn {
      sent = conn.sent ++ (if write_ok then codes "-ERR malformed request" ++ line_end else []);
    },
    hang_up,
  )

  -- One round of the loop.
  unfoldable pub round : Round → Connection State → Connection State × Next
  unfolding on_parsed count_read
  round r conn =
      let conn' = record conn { context = count_read r.read conn.context } in
      elim r.read [
        | read_failed ↦ (conn', hang_up)
        | received bs ↦ elim bs [
          | [] ↦ (conn', hang_up)
          | b ∷ rest ↦
              let conn'' = record conn' { buf = conn.buf ++ (b ∷ rest) } in
              on_parsed (parse conn''.buf) r.write_ok conn''
        ]
      ]

  next_round :
      Next
      → (Connection State → Connection State × Next)
      → Connection State
      → Connection State × Next
  next_round go_on k conn = k conn
  next_round n k conn = (conn, n)

  -- The loop, for as long as the socket has rounds.
  unfoldable pub handle_resp_client : List Round → Connection State → Connection State × Next
  unfolding round next_round
  handle_resp_client [] conn = (conn, go_on)
  handle_resp_client (r ∷ rs) conn =
      let (conn', n) = round r conn in next_round n (handle_resp_client rs) conn'
