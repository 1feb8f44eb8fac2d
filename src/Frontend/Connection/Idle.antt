-- ===== src/Frontend/Connection/Idle.antt =====
-- A connection of memcache whose client has gone while the writer waits for a message.
use momento_proxy.Base.{
  ℕ, zero, suc, ◌+◌, ◌≡◌, refl, sym, ap, ◌∙◌, subst, true, Option, List, [], Bytes, arith,
}
use momento_proxy.Frontend.Backlog.{lookup}
use momento_proxy.Frontend.Connection.{
  ParsedRequest, ReaderAt, reading, parsing, reader_done, waiting, receiving, Connection,
  reader_wait, Step, read, parse_buffer, wait, task, head, receive, closed, send, flushed,
}

rounds_left : ReaderAt → ℕ
rounds_left (waiting n) = n
rounds_left reading = 0
rounds_left parsing = 0
rounds_left reader_done = 0

module _ {Q A : Type 0} where
  -- The reader has `n` rounds left to wait, the writer waits for a message, and no message is under way.
  pub record Idle (n : ℕ) (c : Connection Q A) : Type 0 where
    pub waits : c.reader ≡ waiting n
    pub receives : c.writer_at ≡ receiving
    pub no_message : c.channel ≡ []
    pub no_task : c.tasks ≡ []
    pub kept : c.write_alive ≡ true

  reader_wait-Idle : (n : ℕ) (c : Connection Q A) → Idle (suc n) c → Idle n (reader_wait (suc n) c)
  unfolding reader_wait
  reader_wait-Idle n c v = rw v.kept (record {
    waits = refl;
    receives = v.receives;
    no_message = v.no_message;
    no_task = v.no_task;
    kept = refl;
  })

module _ {Q A : Type 0} (parse : Bytes → ParsedRequest Q) (compose : A → Option Bytes)
    (responses : List A) where
  -- `n` steps one after the other.
  pub data Steps : ℕ → Connection Q A → Connection Q A → Type 0 where
    stop : {c : Connection Q A} → Steps zero c c
    go :
        {n : ℕ} {c d e : Connection Q A}
        → Step parse compose responses c d
        → Steps n d e
        → Steps (suc n) c e

  Step-Idle :
      {n : ℕ} {c d : Connection Q A} → Idle (suc n) c → Step parse compose responses c d → Idle n d
  unfolding rounds_left
  Step-Idle v (read r h) = absurd (cc v.waits)
  Step-Idle v (parse_buffer h) = absurd (cc v.waits)
  Step-Idle {n} {c} v (wait k h) =
      subst (λ r. Idle n (reader_wait r c)) (ap rounds_left (sym v.waits ∙ h))
        (reader_wait-Idle n c v)
  Step-Idle v (task i q m e h l) = unfold lookup in absurd (cc v.no_task)
  Step-Idle v (head h) = absurd (cc v.receives)
  Step-Idle v (receive m ms h e) = absurd (cc v.no_message)
  Step-Idle v (closed h e t d) = absurd (cc v.waits)
  Step-Idle v (send o h e l) = absurd (cc v.receives)
  Step-Idle v (flushed h e) = absurd (cc v.receives)

  -- Where the reader waits with `k` rounds left and `n` more, the writer waits for a message, no message
  -- and no task is left and nobody has told the writer to stop, this is still so after any `n` steps,
  -- with `k` rounds left: nothing but the end of the reader's wait ends the connection.
  pub only_timeout_ends : (n k : ℕ) {c d : Connection Q A} → Idle (n + k) c → Steps n c d → Idle k d
  only_timeout_ends zero k {c} v stop = subst (λ n. Idle n c) (omega arith) v
  only_timeout_ends (suc n) k {c} v (go s ss) =
      only_timeout_ends n k (Step-Idle (subst (λ n. Idle n c) (omega arith) v) s) ss
