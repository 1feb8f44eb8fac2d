-- ===== src/Context.antt =====
-- The state that a request handler works on, and the steps that handlers are made of.
use momento_proxy.Base.{ℕ, List, [], ◌∷◌, ◌++◌, map, Bytes, length}
use momento_proxy.Base.Exec.{Exec, ok, pure, raise, ◌>>=◌}
use momento_proxy.Error.{ProxyError, momento, timeout, Outcome, done, failed, elapsed}
use momento_proxy.Client.{Rpc}
use momento_proxy.Metrics.{Counter, Event, add, logged}
use momento_proxy.Metrics.Rpc.{RpcCallGuard}

-- `backend` is the state of the cache service, `events` what was counted and logged so far, the
-- oldest first, `recorder` the guard of the request.
pub record Context (S : Type 0) : Type 0 where
  pub backend : S
  pub events : List Event
  pub response_buf : Bytes
  pub recorder : RpcCallGuard

-- `S` is the state of the service, `E` the error type of the client library.
abbrev pub Handler : Type 0 → Type 0 → Type 0 → Type 0
Handler S E A = Exec (ProxyError E) (Context S) A

module _ {S E : Type 0} where
  abbrev pub event : Event → Handler S E (Unit {0})
  event e c = (ok tt, record c { events = c.events ++ e ∷ [] })

  abbrev pub increment : Counter → Handler S E (Unit {0})
  increment k = event (add k 1)

  abbrev pub klog : Bytes → Handler S E (Unit {0})
  klog line = event (logged line)

  -- A line for each round of a loop.
  abbrev pub klogs : List Bytes → Handler S E (Unit {0})
  klogs lines c = (ok tt, record c { events = c.events ++ map logged lines })

  -- `response_buf.extend_from_slice(..)` and `write!(response_buf, ..)?`
  abbrev pub write : Bytes → Handler S E (Unit {0})
  write b c = (ok tt, record c { response_buf = c.response_buf ++ b })

  -- `response_buf.len()`
  abbrev pub buf_len : Handler S E ℕ
  buf_len c = (ok (length c.response_buf), c)

  abbrev pub observe : (RpcCallGuard → RpcCallGuard × List Event) → Handler S E (Unit {0})
  observe f c =
      let (g, es) = f c.recorder in (ok tt, record c { recorder = g; events = c.events ++ es })

module _ {S E A : Type 0} where
  -- A call of the service under its timeout.
  abbrev pub call : Rpc S E A → Handler S E (Outcome E A)
  call f c = let (o, s) = f c.backend in (ok o, record c { backend = s })

  -- `match timeout(..) { Ok(Ok(r)) => r, Ok(Err(e)) => { on_error; return Err(e.into()) }
  -- Err(e) => { on_timeout; return Err(e.into()) } }`
  abbrev pub or_return :
      Handler S E (Unit {0}) → Handler S E (Unit {0}) → Outcome E A → Handler S E A
  or_return on_error on_timeout (done a) = pure a
  or_return on_error on_timeout (failed e) = on_error >>= λ _. raise (momento e)
  or_return on_error on_timeout elapsed = on_timeout >>= λ _. raise timeout

  -- `timeout(..).await??`
  abbrev pub or_raise : Outcome E A → Handler S E A
  or_raise (done a) = pure a
  or_raise (failed e) = raise (momento e)
  or_raise elapsed = raise timeout
