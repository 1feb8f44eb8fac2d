-- ===== src/Frontend/RespClient/Watched.antt =====
-- How the requests of a RESP connection are observed.
use momento_proxy.Base.{
  ℕ, ◌+◌, ◌≡◌, refl, ap, Bool, true, false, List, [], ◌∷◌, ◌++◌, Bytes, String, arith,
  if◌then◌else◌,
}
use momento_proxy.Base.Exec.{Result, ok, err, panicked}
use momento_proxy.Error.{ProxyError, momento, io, timeout, custom, unsupported_command}
use momento_proxy.Client.{Floats, Client}
use momento_proxy.Context.{Context}
use momento_proxy.Metrics.{Event, add, backend_request, session_send}
use momento_proxy.Metrics.Observations.{seen, counts}
use momento_proxy.Resp.Utils.{momento_error_to_resp_error}
use momento_proxy.Frontend.Socket.{Read, received, read_failed, read_events}
use momento_proxy.Frontend.Dispatch.{Request, dispatch}
use momento_proxy.Frontend.Dispatch.Guard.{end_of}
use momento_proxy.Frontend.Dispatch.Names.{rpc_of}
use momento_proxy.Frontend.Dispatch.Observed.{dispatch-ObservedOnce}
use momento_proxy.Frontend.RespClient.{
  Parsed, parsed, would_block, malformed, Round, Connection, Next, go_on, hang_up, aborted,
  error_reply, settle, is_empty, count_response, send_response, serve, on_parsed, count_read, round,
  next_round, handle_resp_client,
}

module _ {S E : Type 0} (display : E → Bytes) where
  -- The error reply is counted, but not observed.
  error_reply-seen :
      (e : ProxyError E) (c : Context S) → seen (error_reply display e c).0.events ≡ seen c.events
  unfolding error_reply momento_error_to_resp_error
  error_reply-seen (momento e) c = omega counts
  error_reply-seen timeout c = omega counts
  error_reply-seen (io x) c = refl
  error_reply-seen (unsupported_command x) c = refl
  error_reply-seen (custom x) c = omega counts

  settle-seen :
      (r : Result (ProxyError E) (Unit {0})) (c : Context S)
      → seen (settle display (r, c)).0.events ≡ seen c.events
  unfolding settle
  settle-seen (ok x) c = refl
  settle-seen (err e) c = error_reply-seen e (record c { response_buf = [] })
  settle-seen panicked c = refl

counted_if-seen : (b : Bool) (es : List Event) → seen es ≡ 0 → seen (if b then [] else es) ≡ 0
counted_if-seen true es h = refl
counted_if-seen false es h = h

module _ {S : Type 0} where
  count_response-seen : (c : Context S) → seen (count_response c).events ≡ seen c.events
  unfolding count_response
  count_response-seen c = omega (
    counts,
    counted_if-seen (is_empty c.response_buf) (add backend_request 1 ∷ add session_send 1 ∷ [])
        refl,
  )

  send_response-seen :
      (write_ok : Bool) (n : ℕ) (conn : Connection S) (c : Context S) (next : Next)
      → seen (send_response write_ok n conn (c, next)).0.context.events ≡ seen c.events
  unfolding send_response
  send_response-seen write_ok n conn c aborted = refl
  send_response-seen false n conn c go_on = omega (counts, count_response-seen c)
  send_response-seen false n conn c hang_up = omega (counts, count_response-seen c)
  send_response-seen true n conn c go_on = count_response-seen c
  send_response-seen true n conn c hang_up = count_response-seen c

  count_read-seen : (r : Read) (c : Context S) → seen (count_read r c).events ≡ seen c.events
  unfolding count_read read_events
  count_read-seen (received []) c = omega counts
  count_read-seen (received (b ∷ bs)) c = omega counts
  count_read-seen read_failed c = omega counts

module _ {F : Floats} (client : Client F) (cache_name : String) (parse : Bytes → Parsed F) where
  open client use {State, MomentoError, display}

  -- `n`, or nothing where the process has ended.
  abbrev pub if_ended : Next → ℕ → ℕ
  if_ended go_on n = n
  if_ended hang_up n = n
  if_ended aborted n = 0

  settle-next :
      (rpc : String) (r : Result (ProxyError MomentoError) (Unit {0})) (c : Context State)
      → seen (end_of rpc r) ≡ if_ended (settle display (r, c)).1 1
  unfolding settle error_reply
  settle-next rpc (ok x) c = refl
  settle-next rpc (err (momento e)) c = refl
  settle-next rpc (err timeout) c = refl
  settle-next rpc (err (io x)) c = refl
  settle-next rpc (err (unsupported_command x)) c = refl
  settle-next rpc (err (custom x)) c = refl
  settle-next rpc panicked c = refl

  send_response-ended :
      (write_ok : Bool) (n k : ℕ) (conn : Connection State) (c : Context State) (next : Next)
      → if_ended (send_response write_ok n conn (c, next)).1 k ≡ if_ended next k
  unfolding send_response
  send_response-ended write_ok n k conn c aborted = refl
  send_response-ended false n k conn c go_on = refl
  send_response-ended false n k conn c hang_up = refl
  send_response-ended true n k conn c go_on = refl
  send_response-ended true n k conn c hang_up = refl

  serve-seen :
      (q : Request F) (n : ℕ) (write_ok : Bool) (conn : Connection State)
      → seen (serve client cache_name parse q n write_ok conn).0.context.events
        ≡ seen conn.context.events + if_ended (serve client cache_name parse q n write_ok conn).1 1
  unfolding serve
  serve-seen q n write_ok conn =
      let c : Context State = record conn.context { response_buf = [] } in
      let p = dispatch client cache_name q c in
      let s = settle display p in
      let o = dispatch-ObservedOnce client cache_name q c in
      omega (
        counts,
        send_response-seen write_ok n conn s.0 s.1,
        send_response-ended write_ok n 1 conn s.0 s.1,
        settle-next (rpc_of q) p.0 p.1,
        settle-seen display p.0 p.1,
        o.silent,
        ap seen o.last,
      )

  -- How many requests are parsed: one, or none.
  abbrev pub asked_by : Parsed F → ℕ
  asked_by (parsed _ _) = 1
  asked_by would_block = 0
  asked_by malformed = 0

  on_parsed-seen :
      (p : Parsed F) (write_ok : Bool) (conn : Connection State)
      → seen (on_parsed client cache_name parse p write_ok conn).0.context.events
        ≡ seen conn.context.events
          + if_ended (on_parsed client cache_name parse p write_ok conn).1 (asked_by p)
  unfolding on_parsed
  on_parsed-seen (parsed q n) write_ok conn = serve-seen q n write_ok conn
  on_parsed-seen would_block write_ok conn = omega arith
  on_parsed-seen malformed write_ok conn = omega arith

  -- In one round: of the bytes that are left and those that are read.
  abbrev pub asked_in : Read → Bytes → ℕ
  asked_in read_failed buf = 0
  asked_in (received []) buf = 0
  asked_in (received (b ∷ bs)) buf = asked_by (parse (buf ++ b ∷ bs))

  round-seen :
      (r : Read) (write_ok : Bool) (conn : Connection State)
      → let p = round client cache_name parse (record { read = r; write_ok = write_ok }) conn in
        seen p.0.context.events ≡ seen conn.context.events + if_ended p.1 (asked_in r conn.buf)
  unfolding round
  round-seen read_failed write_ok conn = omega (arith, count_read-seen read_failed conn.context)
  round-seen (received []) write_ok conn = omega (arith, count_read-seen (received []) conn.context)
  round-seen (received (b ∷ bs)) write_ok conn = omega (
    arith,
    count_read-seen (received (b ∷ bs)) conn.context,
    on_parsed-seen (parse (conn.buf ++ b ∷ bs)) write_ok (record conn {
      context = count_read (received (b ∷ bs)) conn.context;
      buf = conn.buf ++ b ∷ bs;
    }),
  )

  abbrev if_on : Next → ℕ → ℕ
  if_on go_on n = n
  if_on hang_up n = 0
  if_on aborted n = 0

  -- In the rounds until the connection ends, without a request whose handler panics.
  abbrev pub asked : List Round → Connection State → ℕ
  asked [] conn = 0
  asked (r ∷ rs) conn =
      let (conn', n) = round client cache_name parse r conn in
      if_ended n (asked_in r.read conn.buf) + if_on n (asked rs conn')

  next_round-seen :
      (x : Next) (rs : List Round) (conn : Connection State) (k : ℕ)
      → seen (handle_resp_client client cache_name parse rs conn).0.context.events
        ≡ seen conn.context.events + k
      → seen
          (next_round client cache_name parse x
            (handle_resp_client client cache_name parse rs)
            conn).0.context.events
        ≡ seen conn.context.events + if_on x k
  unfolding next_round
  next_round-seen go_on rs conn k h = h
  next_round-seen hang_up rs conn k h = omega arith
  next_round-seen aborted rs conn k h = omega arith

  -- Over the whole connection, whatever its requests do and whether or not the writes succeed, as many
  -- observations are made as requests are parsed until it ends, not counting a last one whose handler panics.
  pub handle_resp_client-seen :
      (rs : List Round) (conn : Connection State)
      → seen (handle_resp_client client cache_name parse rs conn).0.context.events
        ≡ seen conn.context.events + asked rs conn
  unfolding handle_resp_client
  handle_resp_client-seen [] conn = omega arith
  handle_resp_client-seen (r ∷ rs) conn =
      let (d, x) = round client cache_name parse r conn in
      omega (
        arith,
        next_round-seen x rs d (asked rs d) (handle_resp_client-seen rs d),
        round-seen r.read r.write_ok conn,
      )
