-- ===== src/Frontend/Socket.antt =====
-- `do_read`, `do_read2` and `do_write2` of src/main.rs: what a read or a write of a socket returns and
-- what is counted for it.
use momento_proxy.Base.{ℕ, zero, suc, List, [], ◌∷◌, Bytes, length}
use momento_proxy.Metrics.{
  Event, add, session_recv, session_recv_ex, session_recv_byte, tcp_recv_byte, session_send,
  session_send_ex, session_send_byte, tcp_send_byte,
}

-- What `socket.read` returns; no bytes stand for a hang-up.
pub data Read : Type 0 where
  received : Bytes → Read
  read_failed : Read

-- What `socket.write` returns: how many bytes it has taken.
pub data Written : Type 0 where
  accepted : ℕ → Written
  write_failed : Written

-- The counters of a read.
unfoldable pub read_events : Read → List Event
read_events (received []) = add session_recv 1 ∷ []
read_events (received (b ∷ bs)) =
    add session_recv 1
    ∷ add session_recv_byte (length (b ∷ bs))
    ∷ add tcp_recv_byte (length (b ∷ bs))
    ∷ []
read_events read_failed = add session_recv 1 ∷ add session_recv_ex 1 ∷ []

-- The counters of a write.
unfoldable pub write_events : Written → List Event
write_events (accepted zero) = add session_send 1 ∷ []
write_events (accepted (suc n)) =
    add session_send 1 ∷ add session_send_byte (suc n) ∷ add tcp_send_byte (suc n) ∷ []
write_events write_failed = add session_send 1 ∷ add session_send_ex 1 ∷ []
