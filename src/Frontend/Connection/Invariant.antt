-- ===== src/Frontend/Connection/Invariant.antt =====
-- What holds in every state that a connection reaches.
use native.Mathlib.Numerals.{add-one}
use momento_proxy.Base.{
  ℕ, zero, suc, ◌<◌, ◌≡◌, ◌≢◌, refl, sym, ap, ◌∙◌, subst, Bool, true, false, not, ◌&&◌, Option,
  some, List, [], ◌∷◌, ◌++◌, append_assoc, Bytes, ◌==◌, if◌then◌else◌, take, drop, arith,
}
use momento_proxy.Metrics.{Event}
use momento_proxy.Frontend.Backlog.{lookup, lookup-remove}
use momento_proxy.Frontend.Socket.{Read, received, read_failed, Written, accepted, write_failed}
use momento_proxy.Frontend.Writer.{Message, answered, failed_request, Writer, on_message}
use momento_proxy.Frontend.Writer.Shift.{shift, on_message-failed}
use momento_proxy.Frontend.Writer.Order.{Composes, Inv, initial-Inv}
use momento_proxy.Frontend.Connection.Carried.{
  whole, revive, on_response-Inv, take-drop, AllCarried, carried_longer, AllCarried-append,
  handled-Carried, content_longer,
}
use momento_proxy.Frontend.Connection.{
  ParsedRequest, parsed, would_block, malformed, ReaderAt, reader_done, waiting, WriterAt, at_head,
  receiving, sending, writer_done, Connection, accepted_client, reader_read, spawn_task,
  reader_parse, reader_wait, task_sends, abort_writer, writer_head, writer_sends, received_next,
  writer_receives, Handles, Step, read, parse_buffer, wait, task, head, receive, closed, send,
  flushed, Reach, start, later,
}

-- Where nothing waits to be written.
abbrev pub idle : WriterAt → Bool
idle at_head = true
idle receiving = true
idle sending = false
idle writer_done = false

if_taken : {B : Type 0} → (b : Bool) (x y : B) → b ≡ true → (if b then x else y) ≡ x
if_taken true x y h = refl
if_taken false x y h = cc

module _ {Q A : Type 0} (compose : A → Option Bytes) (text : A → Bytes) (responses : List A) where
  pub record SystemInv (c : Connection Q A) : Type 0 where
    pub content : Inv compose text (take c.sequence responses) (whole c.sent c.writer)
    pub alive : c.writer_at ≢ writer_done → c.writer.alive ≡ true
    pub numbered : (i : ℕ) (q : Q) → lookup i c.tasks ≡ some q → i < c.sequence
    pub carried : AllCarried responses c.sequence c.channel
    pub buffered : idle c.writer_at ≡ true → c.writer.write_buffer ≡ []

  if-SystemInv :
      (b : Bool) (c d : Connection Q A) → SystemInv c → SystemInv d → SystemInv (if b then c else d)
  if-SystemInv true c d u v = u
  if-SystemInv false c d u v = v

  -- A step that changes neither the requests nor the writer.
  reader-SystemInv :
      (c : Connection Q A) (r : ReaderAt) (buf : Bytes) (p q : Bool) (es : List Event)
      → SystemInv c
      → SystemInv
          (record c { reader = r; read_buffer = buf; read_alive = p; write_alive = q; events = es })
  reader-SystemInv c r buf p q es v = record {
    content = v.content;
    alive = v.alive;
    numbered = v.numbered;
    carried = v.carried;
    buffered = v.buffered;
  }

  reader_read-SystemInv :
      (r : Read) (c : Connection Q A) → SystemInv c → SystemInv (reader_read r c)
  unfolding reader_read
  reader_read-SystemInv (received []) c v = reader-SystemInv c _ _ _ _ _ v
  reader_read-SystemInv (received (b ∷ bs)) c v = reader-SystemInv c _ _ _ _ _ v
  reader_read-SystemInv read_failed c v = reader-SystemInv c _ _ _ _ _ v

  reader_wait-SystemInv : (n : ℕ) (c : Connection Q A) → SystemInv c → SystemInv (reader_wait n c)
  unfolding reader_wait
  reader_wait-SystemInv zero c v = reader-SystemInv c _ _ _ _ _ v
  reader_wait-SystemInv (suc n) c v =
      if-SystemInv c.write_alive _ _
        (reader-SystemInv c (waiting n) c.read_buffer c.read_alive c.write_alive c.events v)
        (reader-SystemInv c reader_done c.read_buffer c.read_alive false c.events v)

  reader_parse-SystemInv :
      (p : ParsedRequest Q) (c : Connection Q A) → SystemInv c → SystemInv (reader_parse p c)
  unfolding reader_parse spawn_task lookup
  reader_parse-SystemInv (parsed q consumed) c v = rw (add-one c.sequence) (record {
    content = content_longer compose text responses c.sequence (whole c.sent c.writer) v.content;
    alive = v.alive;
    numbered = λ i r h. ground (arith, v.numbered i r);
    carried = carried_longer responses c.sequence c.channel v.carried;
    buffered = v.buffered;
  })
  reader_parse-SystemInv would_block c v =
      reader-SystemInv c _ c.read_buffer c.read_alive c.write_alive c.events v
  reader_parse-SystemInv malformed c v =
      reader-SystemInv c reader_done c.read_buffer false c.write_alive c.events v

  task_sends-SystemInv :
      (i : ℕ) (q : Q) (m : Message A) (c : Connection Q A)
      → lookup i c.tasks ≡ some q
      → Handles responses i m
      → SystemInv c
      → SystemInv (task_sends i m c)
  unfolding task_sends
  task_sends-SystemInv i q m c e h v = record {
    content = v.content;
    alive = v.alive;
    numbered = λ j r k. ground (arith, lookup-remove i j c.tasks, v.numbered j r);
    carried =
        AllCarried-append responses c.sequence c.channel m v.carried
          (handled-Carried responses i c.sequence m (v.numbered i q e) h);
    buffered = v.buffered;
  }

  aborted-SystemInv :
      (w : Writer A) (ms : List (Message A)) (es : List Event) (c : Connection Q A)
      → Inv compose text (take c.sequence responses) (whole c.sent w)
      → AllCarried responses c.sequence ms
      → SystemInv c
      → SystemInv (abort_writer (record c { writer = w; channel = ms; events = es }))
  unfolding abort_writer
  aborted-SystemInv w ms es c u g v = record {
    content = u;
    alive = λ h. absurd (h refl);
    numbered = v.numbered;
    carried = g;
    buffered = λ h. cc;
  }

  writer_receives-SystemInv :
      (m : Message A) (ms : List (Message A)) (c : Connection Q A)
      → Composes compose text responses
      → c.writer_at ≡ receiving
      → c.channel ≡ m ∷ ms
      → SystemInv c
      → SystemInv (writer_receives compose m ms c)
  unfolding writer_receives received_next
  writer_receives-SystemInv (answered i a) ms c k h e v =
      let (g, gs) = subst (AllCarried responses c.sequence) e v.carried in
      let alive = v.alive (λ p. cc) in
      let w = on_message compose (answered i a) c.writer in
      let u =
        on_response-Inv compose text responses c.sent i a c.writer c.sequence k g alive v.content in
      subst SystemInv (sym (if_taken w.alive _ _ u.alive)) (record {
        content = revive compose text responses (shift c.sent w) (take c.sequence responses) u;
        alive = λ p. u.alive;
        numbered = v.numbered;
        carried = gs;
        buffered = λ p. cc;
      })
  writer_receives-SystemInv failed_request ms c k h e v = rw (on_message-failed compose c.writer) (
      aborted-SystemInv (record c.writer { alive = false }) ms c.events c v.content
        (subst (AllCarried responses c.sequence) e v.carried).1 v)

  writer_sends-SystemInv :
      (o : Written) (c : Connection Q A)
      → c.writer_at ≡ sending
      → SystemInv c
      → SystemInv (writer_sends o c)
  unfolding writer_sends
  writer_sends-SystemInv (accepted zero) c h v =
      aborted-SystemInv c.writer c.channel _ c v.content v.carried v
  writer_sends-SystemInv write_failed c h v =
      aborted-SystemInv c.writer c.channel _ c v.content v.carried v
  writer_sends-SystemInv (accepted (suc n)) c h v = record {
    content = record {
      alive = refl;
      sent =
          append_assoc c.sent (take (suc n) c.writer.write_buffer)
            (drop (suc n) c.writer.write_buffer)
          ∙ ap (λ b. c.sent ++ b) (take-drop (suc n) c.writer.write_buffer)
          ∙ v.content.sent;
      within = v.content.within;
      held = v.content.held;
    };
    alive = v.alive;
    numbered = v.numbered;
    carried = v.carried;
    buffered = λ p. absurd (cc);
  }

  -- A step of the writer that only moves it.
  moved-SystemInv :
      (p : WriterAt) (q : Bool) (c : Connection Q A)
      → c.writer.alive ≡ true
      → (idle p ≡ true → c.writer.write_buffer ≡ [])
      → SystemInv c
      → SystemInv (record c { writer_at = p; write_alive = q })
  moved-SystemInv p q c a b v = record {
    content = v.content;
    alive = λ _. a;
    numbered = v.numbered;
    carried = v.carried;
    buffered = b;
  }

  writer_head-SystemInv :
      (c : Connection Q A) → c.writer_at ≡ at_head → SystemInv c → SystemInv (writer_head c)
  unfolding writer_head
  writer_head-SystemInv c h v =
      let a = v.alive (λ p. cc) in
      let empty = v.buffered (rw h refl) in
      if-SystemInv (not c.write_alive) _ _
        (moved-SystemInv writer_done c.write_alive c a (λ _. empty) v)
        (if-SystemInv (not c.read_alive && (c.writer.next_sequence == c.sequence)) _ _
          (moved-SystemInv writer_done false c a (λ _. empty) v)
          (moved-SystemInv receiving c.write_alive c a (λ _. empty) v))

  module _ (parse : Bytes → ParsedRequest Q) (composes : Composes compose text responses) where
    Step-SystemInv :
        {c d : Connection Q A} → Step parse compose responses c d → SystemInv c → SystemInv d
    Step-SystemInv {c} (read r h) v = reader_read-SystemInv r c v
    Step-SystemInv {c} (parse_buffer h) v = reader_parse-SystemInv (parse c.read_buffer) c v
    Step-SystemInv {c} (wait n h) v = reader_wait-SystemInv n c v
    Step-SystemInv {c} (task i q m e h l) v = task_sends-SystemInv i q m c e h v
    Step-SystemInv {c} (head h) v = writer_head-SystemInv c h v
    Step-SystemInv {c} (receive m ms h e) v = writer_receives-SystemInv m ms c composes h e v
    Step-SystemInv {c} (closed h e t d) v =
        moved-SystemInv sending c.write_alive c (v.alive λ p. cc) (λ p. cc) v
    Step-SystemInv {c} (send o h e l) v = writer_sends-SystemInv o c h v
    Step-SystemInv {c} (flushed h e) v =
        moved-SystemInv at_head c.write_alive c (v.alive λ p. cc) (λ _. e) v

    start-SystemInv : SystemInv accepted_client
    start-SystemInv = record {
      content = initial-Inv compose text (take 0 responses);
      alive = λ _. refl;
      numbered = λ i q h. unfold lookup in cc h;
      carried = tt;
      buffered = λ _. refl;
    }

    pub Reach-SystemInv : {c : Connection Q A} → Reach parse compose responses c → SystemInv c
    Reach-SystemInv start = start-SystemInv
    Reach-SystemInv (later r st) = Step-SystemInv st (Reach-SystemInv r)
