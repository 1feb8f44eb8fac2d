-- ===== src/Frontend/Connection/Refinement.antt =====
-- What a connection of memcache promises, and that its steps keep to it.
use momento_proxy.Base.{
  ℕ, zero, suc, ◌+◌, ◌≤◌, ◌≡◌, refl, sym, subst, Bool, true, false, not, ◌&&◌, Option, List, [],
  ◌∷◌, ◌++◌, Bytes, ◌==◌, if◌then◌else◌, length, take, concat_map, arith,
}
use momento_proxy.Frontend.Socket.{Read, received, read_failed, Written, accepted, write_failed}
use momento_proxy.Frontend.Writer.{Message, Writer, on_message}
use momento_proxy.Frontend.Writer.Advance.{on_message_le}
use momento_proxy.Frontend.Writer.Order.{Composes}
use momento_proxy.Frontend.Connection.{
  ParsedRequest, parsed, would_block, malformed, Connection, reader_read, spawn_task, reader_parse,
  reader_wait, task_sends, abort_writer, writer_head, writer_sends, received_next, writer_receives,
  Step, Reach, later, read, parse_buffer, wait, task, head, receive, closed, send, flushed,
}
use momento_proxy.Frontend.Connection.Safety.{sent_in_order}

-- What a connection is to its client: the requests that have been read, those that have been answered,
-- and the bytes that the client has got.
pub record Pipe : Type 0 where
  pub asked : ℕ
  pub replied : ℕ
  pub output : Bytes

-- What may happen to it: a request is read, some of the requests are answered, each in its turn, or some
-- of the answers' bytes that the client has not got are written.
pub data Move {A : Type 0} (text : A → Bytes) (responses : List A) : Pipe → Pipe → Type 0 where
  ask :
      (r a : ℕ) (o : Bytes)
      → Move text responses
          (record { asked = r; replied = a; output = o })
          (record { asked = r + 1; replied = a; output = o })
  reply :
      (r a b : ℕ) (o : Bytes)
      → a ≤ b
      → b ≤ r
      → b ≤ length responses
      → Move text responses
          (record { asked = r; replied = a; output = o })
          (record { asked = r; replied = b; output = o })
  deliver :
      (r a : ℕ) (o t u : Bytes)
      → (o ++ t) ++ u ≡ concat_map text (take a responses)
      → Move text responses
          (record { asked = r; replied = a; output = o })
          (record { asked = r; replied = a; output = o ++ t })

module _ {Q A : Type 0} where
  abbrev pub pipe : Connection Q A → Pipe
  pipe c = record { asked = c.sequence; replied = c.writer.next_sequence; output = c.sent }

  if_pipe :
      (b : Bool) (c d : Connection Q A) (p : Pipe)
      → pipe c ≡ p
      → pipe d ≡ p
      → pipe (if b then c else d) ≡ p
  if_pipe true c d p h k = h
  if_pipe false c d p h k = k

  reader_read-pipe : (r : Read) (c : Connection Q A) → pipe (reader_read r c) ≡ pipe c
  unfolding reader_read
  reader_read-pipe (received []) c = refl
  reader_read-pipe (received (b ∷ bs)) c = refl
  reader_read-pipe read_failed c = refl

  reader_wait-pipe : (n : ℕ) (c : Connection Q A) → pipe (reader_wait n c) ≡ pipe c
  unfolding reader_wait
  reader_wait-pipe zero c = refl
  reader_wait-pipe (suc n) c = if_pipe c.write_alive _ _ (pipe c) refl refl

  writer_head-pipe : (c : Connection Q A) → pipe (writer_head c) ≡ pipe c
  unfolding writer_head
  writer_head-pipe c =
      if_pipe (not c.write_alive) _ _ (pipe c) refl (
        if_pipe (not c.read_alive && (c.writer.next_sequence == c.sequence)) _ _ (pipe c) refl refl)

  received_next-pipe :
      (w : Writer A) (ms : List (Message A)) (c : Connection Q A)
      → pipe (received_next w ms c)
        ≡ record { asked = c.sequence; replied = w.next_sequence; output = c.sent }
  unfolding received_next abort_writer
  received_next-pipe w ms c = if_pipe w.alive _ _ _ refl refl

module _ {Q A : Type 0} (parse : Bytes → ParsedRequest Q) (compose : A → Option Bytes)
    (text : A → Bytes) (responses : List A) (composes : Composes compose text responses) where
  -- Answering in turn leads to any pipe that differs in the answers alone.
  in_turn :
      (c : Connection Q A) (n : ℕ) (p : Pipe)
      → p ≡ record { asked = c.sequence; replied = n; output = c.sent }
      → c.writer.next_sequence ≤ n
      → p.replied ≤ p.asked
      → p.replied ≤ length responses
      → Move text responses (pipe c) p
  in_turn c n p h g l k = subst (Move text responses (pipe c)) (sym h) (
      reply c.sequence c.writer.next_sequence n c.sent g (subst (λ q. q.replied ≤ q.asked) h l)
        (subst (λ q. q.replied ≤ length responses) h k))

  still :
      (c : Connection Q A) (p : Pipe)
      → Reach parse compose responses c
      → p ≡ pipe c
      → Move text responses (pipe c) p
  still c p r e =
      let (_, l, m, _) = sent_in_order parse compose text responses composes r in
      in_turn c c.writer.next_sequence p e (omega arith)
        (subst (λ q. q.replied ≤ q.asked) (sym e) l)
        (subst (λ q. q.replied ≤ length responses) (sym e) m)

  parse_refines :
      (c : Connection Q A) (p : ParsedRequest Q)
      → Reach parse compose responses c
      → Move text responses (pipe c) (pipe (reader_parse p c))
  unfolding reader_parse spawn_task
  parse_refines c (parsed q n) r = ask c.sequence c.writer.next_sequence c.sent
  parse_refines c would_block r = still c _ r refl
  parse_refines c malformed r = still c _ r refl

  receive_refines :
      (c : Connection Q A) (m : Message A) (ms : List (Message A))
      → Reach parse compose responses c
      → Reach parse compose responses (writer_receives compose m ms c)
      → Move text responses (pipe c) (pipe (writer_receives compose m ms c))
  unfolding writer_receives
  receive_refines c m ms r r' =
      let w = on_message compose m c.writer in
      let e = received_next-pipe w ms c in
      let (_, l, k, _) = sent_in_order parse compose text responses composes r' in
      in_turn c w.next_sequence (pipe (received_next w ms c)) e (on_message_le compose m c.writer) l
        k

  send_refines :
      (c : Connection Q A) (o : Written)
      → Reach parse compose responses c
      → Reach parse compose responses (writer_sends o c)
      → Move text responses (pipe c) (pipe (writer_sends o c))
  unfolding writer_sends abort_writer
  send_refines c (accepted zero) r r' = still c _ r refl
  send_refines c write_failed r r' = still c _ r refl
  send_refines c (accepted (suc n)) r r' =
      deliver c.sequence c.writer.next_sequence c.sent _ _
        (sent_in_order parse compose text responses composes r').0

  -- Each step of the reader, of a task or of the writer, from a state that the connection reaches, is to
  -- the client one of these: a request more is read; requests that have been read are answered, in
  -- their order; bytes are written that come next in the texts of the answers in that order.
  pub keeps_promise :
      {c d : Connection Q A}
      → Reach parse compose responses c
      → Step parse compose responses c d
      → Move text responses (pipe c) (pipe d)
  keeps_promise {c} r (read k h) = still c _ r (reader_read-pipe k _)
  keeps_promise {c} r (parse_buffer h) = parse_refines c (parse c.read_buffer) r
  keeps_promise {c} r (wait n h) = still c _ r (reader_wait-pipe n _)
  keeps_promise {c} r (task i q m h e l) = still c _ r (unfold task_sends in refl)
  keeps_promise {c} r (head h) = still c _ r (writer_head-pipe _)
  keeps_promise {c} r (receive m ms h e) = receive_refines c m ms r (later r (receive m ms h e))
  keeps_promise {c} r (closed h e t d) = still c _ r refl
  keeps_promise {c} r (send o h e l) = send_refines c o r (later r (send o h e l))
  keeps_promise {c} r (flushed h e) = still c _ r refl
