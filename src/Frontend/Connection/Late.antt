-- ===== src/Frontend/Connection/Late.antt =====
-- A connection of memcache whose writer ends: whether the reader has a request left.
use momento_proxy.Base.{
  ℕ, zero, suc, ◌≡◌, ◌≢◌, refl, sym, ◌∙◌, subst, Bool, true, false, not, ◌&&◌, Option, List, [],
  ◌∷◌, Bytes, if◌then◌else◌, ◌==◌, arith,
}
use momento_proxy.Frontend.Socket.{Read, received, read_failed, Written, accepted, write_failed}
use momento_proxy.Frontend.Writer.{Message, Writer, on_message}
use momento_proxy.Frontend.Connection.{
  ParsedRequest, parsed, would_block, malformed, reading, parsing, reader_done, waiting, at_head,
  receiving, sending, writer_done, Connection, reader_read, spawn_task, reader_parse, reader_wait,
  task_sends, abort_writer, writer_head, writer_sends, received_next, writer_receives, Step, read,
  parse_buffer, wait, task, head, receive, closed, send, flushed, Reach, start, later, wait_rounds,
}

module _ {Q : Type 0} where
  -- No request is at the front of the buffer.
  abbrev pub NoRequest : ParsedRequest Q → Type 0
  NoRequest (parsed q n) = ⊥
  NoRequest would_block = Unit
  NoRequest malformed = Unit

module _ {Q A : Type 0} (parse : Bytes → ParsedRequest Q) where
  -- While the reader waits for bytes, no request is left in the buffer; and if the reader has seen the end of
  -- the stream, none is left either.
  record LateInv (c : Connection Q A) : Type 0 where
    resting : c.reader ≡ reading → NoRequest (parse c.read_buffer)
    open_stream : c.writer_at ≢ writer_done → c.reader ≡ reading → c.read_alive ≡ true
    draining :
        c.writer_at ≢ writer_done
        → c.read_alive ≡ false
        → c.reader ≡ parsing
        → NoRequest (parse c.read_buffer)

  -- The reader is where it reads no more.
  away : (c : Connection Q A) → c.reader ≢ reading → c.reader ≢ parsing → LateInv c
  away c h k = record {
    resting = λ e. absurd (h e);
    open_stream = λ _ e. absurd (h e);
    draining = λ _ _ e. absurd (k e);
  }

  reader_read-LateInv :
      (r : Read) (c : Connection Q A) → c.reader ≡ reading → LateInv c → LateInv (reader_read r c)
  unfolding reader_read
  reader_read-LateInv (received []) c h v = record {
    resting = λ e. absurd (cc e);
    open_stream = λ _ e. absurd (cc e);
    draining = λ _ _ _. v.resting h;
  }
  reader_read-LateInv read_failed c h v = record {
    resting = λ e. absurd (cc e);
    open_stream = λ _ e. absurd (cc e);
    draining = λ _ _ _. v.resting h;
  }
  reader_read-LateInv (received (b ∷ bs)) c h v = record {
    resting = λ e. absurd (cc e);
    open_stream = λ _ e. absurd (cc e);
    draining = λ w d _. absurd (cc (v.open_stream w h));
  }

  blocked-LateInv :
      (alive : Bool) (c : Connection Q A)
      → c.read_alive ≡ alive
      → NoRequest (parse c.read_buffer)
      → LateInv (record c { reader = if alive then reading else waiting wait_rounds })
  blocked-LateInv true c e h = record {
    resting = λ _. h;
    open_stream = λ _ _. e;
    draining = λ _ _ k. absurd (cc k);
  }
  blocked-LateInv false c e h = away _ (λ k. cc) (λ k. cc)

  reader_parse-LateInv :
      (p : ParsedRequest Q) (c : Connection Q A)
      → parse c.read_buffer ≡ p
      → c.reader ≡ parsing
      → LateInv c
      → LateInv (reader_parse p c)
  unfolding reader_parse spawn_task
  reader_parse-LateInv (parsed q n) c e h v = record {
    resting = λ k. absurd (cc (h, k));
    open_stream = λ _ k. absurd (cc (h, k));
    draining = λ w d _. absurd (subst NoRequest e (v.draining w d h));
  }
  reader_parse-LateInv would_block c e h v =
      blocked-LateInv c.read_alive c refl (subst NoRequest (sym e) tt)
  reader_parse-LateInv malformed c e h v = away _ (λ k. cc) (λ k. cc)

  -- A step that leaves the reader's side alone, while the writer goes on.
  same_reader :
      {c d : Connection Q A}
      → (d.writer_at ≢ writer_done → c.writer_at ≢ writer_done)
      → d.reader ≡ c.reader
      → d.read_buffer ≡ c.read_buffer
      → d.read_alive ≡ c.read_alive
      → LateInv c
      → LateInv d
  same_reader {c} {d} w r b a v = record {
    resting = λ h. subst (λ x. NoRequest (parse x)) (sym b) (v.resting (sym r ∙ h));
    open_stream = λ k h. a ∙ v.open_stream (w k) (sym r ∙ h);
    draining = λ k l h.
        subst (λ x. NoRequest (parse x)) (sym b) (v.draining (w k) (sym a ∙ l) (sym r ∙ h));
  }

  -- The writer has ended.
  ended :
      {c d : Connection Q A}
      → d.writer_at ≡ writer_done
      → d.reader ≡ c.reader
      → d.read_buffer ≡ c.read_buffer
      → LateInv c
      → LateInv d
  ended {c} {d} w r b v = record {
    resting = λ h. subst (λ x. NoRequest (parse x)) (sym b) (v.resting (sym r ∙ h));
    open_stream = λ k h. absurd (k w);
    draining = λ k l h. absurd (k w);
  }

  reader_wait-LateInv :
      (n : ℕ) (c : Connection Q A) → c.reader ≡ waiting n → LateInv (reader_wait n c)
  unfolding reader_wait
  reader_wait-LateInv zero c h = away _ (λ k. cc) (λ k. cc)
  reader_wait-LateInv (suc n) c h = by_flag c.write_alive
    where
      by_flag :
          (b : Bool)
          → LateInv (
              if b
              then record c { reader = waiting n }
              else record c { reader = reader_done; write_alive = false })
      by_flag true = away _ (λ k. cc) (λ k. cc)
      by_flag false = away _ (λ k. cc) (λ k. cc)

  writer_head-LateInv :
      (c : Connection Q A) → c.writer_at ≡ at_head → LateInv c → LateInv (writer_head c)
  unfolding writer_head
  writer_head-LateInv c h v =
      by_flag (not c.write_alive) (not c.read_alive && (c.writer.next_sequence == c.sequence))
    where
      by_flag :
          (b b' : Bool)
          → LateInv (
              if b
              then record c { writer_at = writer_done }
              else if b'
              then record c { write_alive = false; writer_at = writer_done }
              else record c { writer_at = receiving })
      by_flag true b' = ended refl refl refl v
      by_flag false true = ended refl refl refl v
      by_flag false false = same_reader (λ _ k. cc) refl refl refl v

  received_next-LateInv :
      (w : Writer A) (ms : List (Message A)) (c : Connection Q A)
      → c.writer_at ≡ receiving
      → LateInv c
      → LateInv (received_next w ms c)
  unfolding received_next abort_writer
  received_next-LateInv w ms c h v = by_flag w.alive
    where
      by_flag :
          (b : Bool)
          → LateInv (
              if b then record c { writer = w; channel = ms; writer_at = sending } else record c {
                writer = w;
                channel = ms;
                read_alive = false;
                write_alive = false;
                writer_at = writer_done;
              })
      by_flag true = same_reader (λ _ k. cc) refl refl refl v
      by_flag false = ended refl refl refl v

  writer_sends-LateInv : (o : Written) (c : Connection Q A) → LateInv c → LateInv (writer_sends o c)
  unfolding writer_sends abort_writer
  writer_sends-LateInv (accepted zero) c v = ended refl refl refl v
  writer_sends-LateInv write_failed c v = ended refl refl refl v
  writer_sends-LateInv (accepted (suc n)) c v = same_reader (λ k. k) refl refl refl v

  module _ (compose : A → Option Bytes) (responses : List A) where
    Step-LateInv : {c d : Connection Q A} → Step parse compose responses c d → LateInv c → LateInv d
    unfolding task_sends writer_receives
    Step-LateInv {c} (read r h) v = reader_read-LateInv r c h v
    Step-LateInv {c} (parse_buffer h) v = reader_parse-LateInv (parse c.read_buffer) c refl h v
    Step-LateInv {c} (wait n h) v = reader_wait-LateInv n c h
    Step-LateInv {c} (task i q m _ _ _) v = same_reader (λ k. k) refl refl refl v
    Step-LateInv {c} (head h) v = writer_head-LateInv c h v
    Step-LateInv {c} (receive m ms h _) v =
        received_next-LateInv (on_message compose m c.writer) ms c h v
    Step-LateInv {c} (closed h _ _ _) v = same_reader (λ _ k. cc) refl refl refl v
    Step-LateInv {c} (send o _ _ _) v = writer_sends-LateInv o c v
    Step-LateInv {c} (flushed h _) v = same_reader (λ _ k. cc) refl refl refl v

    Reach-LateInv :
        {c : Connection Q A} → NoRequest (parse []) → Reach parse compose responses c → LateInv c
    Reach-LateInv n start = record {
      resting = λ _. n;
      open_stream = λ _ _. refl;
      draining = λ _ k _. absurd (cc k);
    }
    Reach-LateInv n (later r s) = Step-LateInv s (Reach-LateInv n r)

    hung_up :
        (c : Connection Q A)
        → c.write_alive ≡ true
        → c.writer_at ≡ at_head
        → (writer_head c).writer_at ≡ writer_done
        → c.read_alive ≡ false
    unfolding writer_head
    hung_up c a h e = ground (arith)

    -- Where an empty buffer holds no request, and the writer ends at the head of its loop while nobody has
    -- told it to stop, no request is left for the reader: it does not wait for bytes, and if it is about to
    -- parse its buffer, there is no request at the front of it.
    pub hangup_final :
        {c : Connection Q A}
        → NoRequest (parse [])
        → Reach parse compose responses c
        → c.writer_at ≡ at_head
        → c.write_alive ≡ true
        → (writer_head c).writer_at ≡ writer_done
        → (c.reader ≢ reading) × (c.reader ≡ parsing → NoRequest (parse c.read_buffer))
    hangup_final {c} n r h a e =
        let v = Reach-LateInv n r in
        let k = hung_up c a h e in
        let w : c.writer_at ≢ writer_done = λ x. cc in (λ x. cc (v.open_stream w x), v.draining w k)
