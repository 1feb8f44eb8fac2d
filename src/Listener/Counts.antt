-- ===== src/Listener/Counts.antt =====
-- What the counters of connections say.
use momento_proxy.Base.{ℕ, ◌⊎◌, inl, inr, ◌+◌, ◌%◌, ◌^◌, ◌≤◌, ◌≡◌, refl, ap, ◌∙◌, arith}
use momento_proxy.Metrics.Connection.{
  begin_connection, drop_connection, increment_lem, decrement_lem,
}
use momento_proxy.Listener.{
  Listeners, build_client, exit, builds, build_fails, accept, begin, finish, leave, Step, accepts,
  accept_fails, begins, finishes, leaves, Reach, start, later,
}

pub record CountInv (n : ℕ) (l : Listeners) : Type 0 where
  pub accepted : l.tcp_accept ≡ (l.spawned + l.serving + l.ending + l.gone) % 2 ^ 64
  pub current : l.tcp_conn_curr ≡ l.serving % 2 ^ 64
  pub closed : l.tcp_close ≡ (l.ending + l.gone) % 2 ^ 64
  pub opened : l.counts.connections_opened ≡ (l.serving + l.ending + l.gone) % 2 ^ 64
  pub dropped : l.counts.connections_closed ≡ l.gone % 2 ^ 64
  pub active : l.counts.total_active_connections ≡ (l.serving + l.ending) % 2 ^ 64
  pub ready : (1 ≤ l.listening) ⊎ (l.spawned + l.serving + l.ending + l.gone ≡ 0)
  pub all : l.unbuilt + l.listening ≡ n

-- A step of a task leaves their number alone.
moved : {k n m : ℕ} → (1 ≤ k) ⊎ (n ≡ 0) → m ≡ n → (1 ≤ k) ⊎ (m ≡ 0)
moved (inl j) h = inl j
moved (inr j) h = inr (h ∙ j)

Step-CountInv : {k : ℕ} {l m : Listeners} → Step l m → CountInv k l → CountInv k m
unfolding build_client exit accept begin finish leave begin_connection drop_connection
Step-CountInv {l} (builds n o h) v = record {
  accepted = v.accepted;
  current = v.current;
  closed = v.closed;
  opened = v.opened;
  dropped = v.dropped;
  active = v.active;
  ready = inl (omega arith);
  all = omega (arith, v.all);
}
Step-CountInv {l} (build_fails n o h) v = record {
  accepted = v.accepted;
  current = v.current;
  closed = v.closed;
  opened = v.opened;
  dropped = v.dropped;
  active = v.active;
  ready = v.ready;
  all = v.all;
}
Step-CountInv {l} (accepts o h) v = record {
  accepted = increment_lem l.tcp_accept _ v.accepted ∙ ap (λ n. n % 2 ^ 64) (omega arith);
  current = v.current;
  closed = v.closed;
  opened = v.opened;
  dropped = v.dropped;
  active = v.active;
  ready = inl h;
  all = v.all;
}
Step-CountInv (accept_fails o h) v = v
Step-CountInv {l} (begins n o h) v = record {
  accepted = v.accepted ∙ ap (λ n. n % 2 ^ 64) (omega arith);
  current = increment_lem l.tcp_conn_curr l.serving v.current;
  closed = v.closed;
  opened =
      increment_lem l.counts.connections_opened _ v.opened ∙ ap (λ n. n % 2 ^ 64) (omega arith);
  dropped = v.dropped;
  active =
      increment_lem l.counts.total_active_connections _ v.active
      ∙ ap (λ n. n % 2 ^ 64) (omega arith);
  ready = moved v.ready (omega arith);
  all = v.all;
}
Step-CountInv {l} (finishes n o h) v = record {
  accepted = v.accepted ∙ ap (λ n. n % 2 ^ 64) (omega arith);
  current = decrement_lem l.tcp_conn_curr n (v.current ∙ ap (λ n. n % 2 ^ 64) h);
  closed = increment_lem l.tcp_close _ v.closed ∙ ap (λ n. n % 2 ^ 64) (omega arith);
  opened = v.opened ∙ ap (λ n. n % 2 ^ 64) (omega arith);
  dropped = v.dropped;
  active = v.active ∙ ap (λ n. n % 2 ^ 64) (omega arith);
  ready = moved v.ready (omega arith);
  all = v.all;
}
Step-CountInv {l} (leaves n o h) v = record {
  accepted = v.accepted ∙ ap (λ n. n % 2 ^ 64) (omega arith);
  current = v.current;
  closed = v.closed ∙ ap (λ n. n % 2 ^ 64) (omega arith);
  opened = v.opened ∙ ap (λ n. n % 2 ^ 64) (omega arith);
  dropped = increment_lem l.counts.connections_closed l.gone v.dropped;
  active =
      decrement_lem l.counts.total_active_connections (l.serving + n)
        (v.active ∙ ap (λ n. n % 2 ^ 64) (omega arith));
  ready = moved v.ready (omega arith);
  all = v.all;
}

-- In every state that the listeners of a process reach, each counter is, modulo 2^64, a number of tasks, of all
-- listeners together: accepted connections are those of all tasks, also of those that have ended; open
-- ones are those of the tasks in a handler; closed ones those of the tasks that have left theirs. The
-- connections that were opened are those of the tasks that have begun, the closed ones those of the
-- tasks that have ended, and the active ones the rest. There is a task only once a client has been
-- built, and each listener has built its client or not.
pub Reach-CountInv : {n : ℕ} {l : Listeners} → Reach n l → CountInv n l
Reach-CountInv start = record {
  accepted = refl;
  current = refl;
  closed = refl;
  opened = refl;
  dropped = refl;
  active = refl;
  ready = inr refl;
  all = omega arith;
}
Reach-CountInv (later r s) = Step-CountInv s (Reach-CountInv r)
