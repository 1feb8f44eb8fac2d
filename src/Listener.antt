-- ===== src/Listener.antt =====
-- src/listener.rs: the listeners of all caches and the tasks of their connections, as far as they are counted,
-- since the counters are those of the process; and the clients that connections share.
pub mod Counts
use momento_proxy.Base.{◌≤◌, Bool, true, false, ℕ, zero, suc, ◌+◌, ◌≡◌}
use momento_proxy.Metrics.Connection.{
  ConnectionCounts, increment, decrement, begin_connection, drop_connection,
}

-- `unbuilt` listeners have not built their client, which its connections share; `listening` ones have, and
-- are in the loop. Where a client cannot be built the process exits. `spawned`, `serving` and `ending` are
-- the tasks of connections that have not begun, that are in the handler of their protocol, and that
-- have left it; `gone` counts those that have ended.
pub record Listeners : Type 0 where
  pub unbuilt : ℕ
  pub listening : ℕ
  pub exited : Bool
  pub tcp_accept : ℕ
  pub tcp_conn_curr : ℕ
  pub tcp_close : ℕ
  pub counts : ConnectionCounts
  pub spawned : ℕ
  pub serving : ℕ
  pub ending : ℕ
  pub gone : ℕ

-- After `spawn` has started that many.
abbrev pub started : ℕ → Listeners
started n = record {
  unbuilt = n;
  listening = 0;
  exited = false;
  tcp_accept = 0;
  tcp_conn_curr = 0;
  tcp_close = 0;
  counts = record { connections_opened = 0; connections_closed = 0; total_active_connections = 0 };
  spawned = 0;
  serving = 0;
  ending = 0;
  gone = 0;
}

-- `client_builder.clone().build()`, and what follows if it fails.
unfoldable pub build_client : ℕ → Listeners → Listeners
build_client n l = record l { unbuilt = n; listening = l.listening + 1 }

unfoldable pub exit : Listeners → Listeners
exit l = record l { exited = true }

-- `listener.accept()` with a socket.
unfoldable pub accept : Listeners → Listeners
accept l = record l { tcp_accept = increment l.tcp_accept; spawned = l.spawned + 1 }

-- A task begins.
unfoldable pub begin : ℕ → Listeners → Listeners
unfolding begin_connection
begin n l = record l {
  tcp_conn_curr = increment l.tcp_conn_curr;
  counts = begin_connection l.counts;
  spawned = n;
  serving = l.serving + 1;
}

-- The handler of the protocol returns.
unfoldable pub finish : ℕ → Listeners → Listeners
finish n l = record l {
  tcp_conn_curr = decrement l.tcp_conn_curr;
  tcp_close = increment l.tcp_close;
  serving = n;
  ending = l.ending + 1;
}

-- The guard goes out of scope at the end of the task.
unfoldable pub leave : ℕ → Listeners → Listeners
unfolding drop_connection
leave n l = record l { counts = drop_connection l.counts; ending = n; gone = l.gone + 1 }

pub data Step (l : Listeners) : Listeners → Type 0 where
  builds : (n : ℕ) → l.exited ≡ false → l.unbuilt ≡ n + 1 → Step l (build_client n l)
  build_fails : (n : ℕ) → l.exited ≡ false → l.unbuilt ≡ n + 1 → Step l (exit l)
  accepts : l.exited ≡ false → 1 ≤ l.listening → Step l (accept l)
  accept_fails : l.exited ≡ false → 1 ≤ l.listening → Step l l
  begins : (n : ℕ) → l.exited ≡ false → l.spawned ≡ n + 1 → Step l (begin n l)
  finishes : (n : ℕ) → l.exited ≡ false → l.serving ≡ n + 1 → Step l (finish n l)
  leaves : (n : ℕ) → l.exited ≡ false → l.ending ≡ n + 1 → Step l (leave n l)

-- From the start of `n` listeners.
pub data Reach (n : ℕ) : Listeners → Type 0 where
  start : Reach n (started n)
  later : {l m : Listeners} → Reach n l → Step l m → Reach n m
