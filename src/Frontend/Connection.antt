-- ===== src/Frontend/Connection.antt =====
-- `handle_memcache_client_concrete` of src/frontend.rs: a connection of memcache as the reader, the
-- tasks of the requests and the writer, which take turns in any order.
pub mod Carried
pub mod Invariant
pub mod Safety
pub mod Refinement
pub mod Idle
pub mod Late
use momento_proxy.Base.{
  ℕ, zero, suc, ◌+◌, ◌≤◌, ◌<◌, ◌≡◌, ◌≢◌, refl, Bool, true, false, not, ◌&&◌, Option, none, some,
  List, [], ◌∷◌, ◌++◌, Bytes, ◌==◌, if◌then◌else◌, length, take, drop, get_elem?,
}
use momento_proxy.Metrics.{Event}
use momento_proxy.Frontend.Backlog.{lookup, remove}
use momento_proxy.Frontend.Socket.{
  Read, received, read_failed, read_events, Written, accepted, write_failed, write_events,
}
use momento_proxy.Frontend.Writer.{Message, answered, failed_request, Writer, initial, on_message}

-- What `protocol.parse_request(..)` returns for what is in the read buffer.
pub data ParsedRequest (Q : Type 0) : Type 0 where
  parsed : Q → ℕ → ParsedRequest Q
  would_block malformed : ParsedRequest Q

-- Where the reader stands: in `do_read2`, in the loop over the requests of the buffer, in the loop that
-- waits for the writer, with the rounds that are left, or behind its end.
pub data ReaderAt : Type 0 where
  reading parsing reader_done : ReaderAt
  waiting : ℕ → ReaderAt

-- Where the writer stands: at the head of its loop, in `receiver.recv()`, before or in `do_write2`, or
-- behind its end.
pub data WriterAt : Type 0 where
  at_head receiving sending writer_done : WriterAt

-- `tasks` are the requests that are being handled, by number; `sent` is what the client has got.
pub record Connection (Q A : Type 0) : Type 0 where
  pub reader : ReaderAt
  pub read_buffer : Bytes
  pub read_alive : Bool
  pub write_alive : Bool
  pub sequence : ℕ
  pub tasks : List (ℕ × Q)
  pub channel : List (Message A)
  pub writer_at : WriterAt
  pub writer : Writer A
  pub sent : Bytes
  pub events : List Event

abbrev pub accepted_client : {Q A : Type 0} → Connection Q A
accepted_client = record {
  reader = reading;
  read_buffer = [];
  read_alive = true;
  write_alive = true;
  sequence = 0;
  tasks = [];
  channel = [];
  writer_at = at_head;
  writer = initial;
  sent = [];
  events = [];
}

-- `mpsc::channel(1024)`
abbrev pub channel_capacity : ℕ
channel_capacity = 1024

-- `for _ in 0..60`
abbrev pub wait_rounds : ℕ
wait_rounds = 60

-- How much of the buffer a write takes.
abbrev pub taken : Written → ℕ
taken (accepted n) = n
taken write_failed = 0

module _ {Q A : Type 0} where
  -- `do_read2(..)`, and the reaction to an error.
  unfoldable pub reader_read : Read → Connection Q A → Connection Q A
  reader_read (received []) c = record c {
    reader = parsing;
    read_alive = false;
    events = c.events ++ read_events (received []);
  }
  reader_read read_failed c = record c {
    reader = parsing;
    read_alive = false;
    events = c.events ++ read_events read_failed;
  }
  reader_read (received (b ∷ bs)) c = record c {
    reader = parsing;
    read_buffer = c.read_buffer ++ (b ∷ bs);
    events = c.events ++ read_events (received (b ∷ bs));
  }

  -- `sequence.fetch_add(1)` and `tokio::spawn(..)`
  unfoldable pub spawn_task : Q → ℕ → Connection Q A → Connection Q A
  spawn_task q consumed c = record c {
    read_buffer = drop consumed c.read_buffer;
    tasks = (c.sequence, q) ∷ c.tasks;
    sequence = c.sequence + 1;
  }

  -- One round of the loop over the requests of the buffer.
  unfoldable pub reader_parse : ParsedRequest Q → Connection Q A → Connection Q A
  unfolding spawn_task
  reader_parse (parsed q consumed) c = spawn_task q consumed c
  reader_parse would_block c = record c {
    reader = if c.read_alive then reading else waiting wait_rounds;
  }
  reader_parse malformed c = record c { reader = reader_done; read_alive = false }

  -- One round of the loop that waits for the writer, and what follows it.
  unfoldable pub reader_wait : ℕ → Connection Q A → Connection Q A
  reader_wait zero c = record c { reader = reader_done; write_alive = false }
  reader_wait (suc n) c =
      if c.write_alive
      then record c { reader = waiting n }
      else record c { reader = reader_done; write_alive = false }

  -- A task sends its message and ends.
  unfoldable pub task_sends : ℕ → Message A → Connection Q A → Connection Q A
  task_sends i m c = record c { tasks = remove i c.tasks; channel = c.channel ++ m ∷ [] }

  -- `read_alive2.store(false); write_alive2.store(false); return`
  unfoldable pub abort_writer : Connection Q A → Connection Q A
  abort_writer c = record c { read_alive = false; write_alive = false; writer_at = writer_done }

  -- The head of the loop.
  unfoldable pub writer_head : Connection Q A → Connection Q A
  writer_head c =
      if not c.write_alive
      then record c { writer_at = writer_done }
      else if not c.read_alive && (c.writer.next_sequence == c.sequence)
      then record c { write_alive = false; writer_at = writer_done }
      else record c { writer_at = receiving }

  -- `socket.write(..)` of what is in the buffer.
  unfoldable pub writer_sends : Written → Connection Q A → Connection Q A
  unfolding abort_writer
  writer_sends (accepted zero) c =
      abort_writer (record c { events = c.events ++ write_events (accepted zero) })
  writer_sends write_failed c =
      abort_writer (record c { events = c.events ++ write_events write_failed })
  writer_sends (accepted (suc n)) c = record c {
    sent = c.sent ++ take (suc n) c.writer.write_buffer;
    writer = record c.writer { write_buffer = drop (suc n) c.writer.write_buffer };
    events = c.events ++ write_events (accepted (suc n));
  }

  -- What follows the handling of a message.
  unfoldable pub received_next : Writer A → List (Message A) → Connection Q A → Connection Q A
  unfolding abort_writer
  received_next w ms c =
      let c' = record c { writer = w; channel = ms } in
      if w.alive then record c' { writer_at = sending } else abort_writer c'

  module _ (compose : A → Option Bytes) where
    -- `receiver.recv()` with a message, and `match result { .. }`.
    unfoldable pub writer_receives : Message A → List (Message A) → Connection Q A → Connection Q A
    unfolding received_next
    writer_receives m ms c = received_next (on_message compose m c.writer) ms c

module _ {A : Type 0} (responses : List A) where
  -- What the task of a request may send: its response, or an error.
  abbrev pub Handles : ℕ → Message A → Type 0
  Handles i (answered k a) = (k ≡ i) × (get_elem? responses i ≡ some a)
  Handles i failed_request = Unit

-- `parse` and `compose` are the protocol's; `responses` are those that the handlers give to the requests,
-- by number.
module _ {Q A : Type 0} (parse : Bytes → ParsedRequest Q) (compose : A → Option Bytes)
    (responses : List A) where
  -- A step of the reader, of a task or of the writer. The last way out of `recv` is that of a channel
  -- whose senders are gone.
  pub data Step (c : Connection Q A) : Connection Q A → Type 0 where
    read : (r : Read) → c.reader ≡ reading → Step c (reader_read r c)
    parse_buffer : c.reader ≡ parsing → Step c (reader_parse (parse c.read_buffer) c)
    wait : (n : ℕ) → c.reader ≡ waiting n → Step c (reader_wait n c)
    task :
        (i : ℕ) (q : Q) (m : Message A)
        → lookup i c.tasks ≡ some q
        → Handles responses i m
        → length c.channel < channel_capacity
        → Step c (task_sends i m c)
    head : c.writer_at ≡ at_head → Step c (writer_head c)
    receive :
        (m : Message A) (ms : List (Message A))
        → c.writer_at ≡ receiving
        → c.channel ≡ m ∷ ms
        → Step c (writer_receives compose m ms c)
    closed :
        c.writer_at ≡ receiving
        → c.channel ≡ []
        → c.tasks ≡ []
        → c.reader ≡ reader_done
        → Step c (record c { writer_at = sending })
    send :
        (o : Written)
        → c.writer_at ≡ sending
        → c.writer.write_buffer ≢ []
        → taken o ≤ length c.writer.write_buffer
        → Step c (writer_sends o c)
    flushed :
        c.writer_at ≡ sending
        → c.writer.write_buffer ≡ []
        → Step c (record c { writer_at = at_head })

  pub data Reach : Connection Q A → Type 0 where
    start : Reach accepted_client
    later : {c d : Connection Q A} → Reach c → Step c d → Reach d
