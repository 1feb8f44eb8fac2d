-- ===== src/Metrics/Connection.antt =====
-- src/metrics/connection.rs: the guard that counts a connection while it is open.
use momento_proxy.Base.{ℕ, ◌+◌, ◌-◌, ◌%◌, ◌^◌, ◌≡◌, arith}

-- A counter or gauge of 64 bits, as the number that its bits are; one below 0 wraps around.
abbrev pub increment : ℕ → ℕ
increment g = (g + 1) % 2 ^ 64

abbrev pub decrement : ℕ → ℕ
decrement g = (g + (2 ^ 64 - 1)) % 2 ^ 64

pub record ConnectionCounts : Type 0 where
  pub connections_opened : ℕ
  pub connections_closed : ℕ
  pub total_active_connections : ℕ

-- `ConnectionGuard::new`
unfoldable pub begin_connection : ConnectionCounts → ConnectionCounts
begin_connection c = record c {
  connections_opened = increment c.connections_opened;
  total_active_connections = increment c.total_active_connections;
}

-- `Drop`
unfoldable pub drop_connection : ConnectionCounts → ConnectionCounts
drop_connection c = record c {
  connections_closed = increment c.connections_closed;
  total_active_connections = decrement c.total_active_connections;
}

pub increment_lem : (g n : ℕ) → g ≡ n % 2 ^ 64 → increment g ≡ (n + 1) % 2 ^ 64
increment_lem g n h = omega arith

pub decrement_lem : (g n : ℕ) → g ≡ (n + 1) % 2 ^ 64 → decrement g ≡ n % 2 ^ 64
decrement_lem g n h = omega arith
