-- ===== src/Examples/Connections.antt =====
-- A connection of memcache with two requests whose responses arrive in the other order.
use momento_proxy.Base.{
  ℕ, zero, suc, ◌≡◌, ◌≤◌, ◌≢◌, refl, true, false, Option, some, List, [], ◌∷◌, ◌++◌, Bytes, length,
  take, concat_map, ◌+◌, arith,
}
use momento_proxy.Frontend.Backlog.{lookup, remove, insert}
use momento_proxy.Frontend.Socket.{received, accepted, read_events, write_events}
use momento_proxy.Frontend.Writer.{answered, emit, drain, after_next, on_message}
use momento_proxy.Frontend.Writer.Order.{Composes}
use momento_proxy.Frontend.Connection.{
  ParsedRequest, parsed, would_block, Connection, accepted_client, reader_read, spawn_task,
  reader_parse, reader_wait, task_sends, writer_head, writer_sends, received_next, writer_receives,
  reading, parsing, Step, Reach, start, later, read, parse_buffer, wait, task, head, receive, send,
  flushed, at_head, receiving, sending, waiting,
}
use momento_proxy.Frontend.Connection.Invariant.{idle}
use momento_proxy.Frontend.Connection.Safety.{sent_in_order, hangup_complete}
use momento_proxy.Frontend.Connection.Late.{NoRequest, hangup_final}
use momento_proxy.Frontend.Connection.Idle.{Idle, Steps, stop, go, only_timeout_ends}
use momento_proxy.Frontend.Connection.Refinement.{Move, pipe, keeps_promise}

-- A request is a byte, and so is a response.
abbrev requests : Bytes → ParsedRequest ℕ
requests [] = would_block
requests (b ∷ bs) = parsed b 1

abbrev byte_of : ℕ → Option Bytes
byte_of a = some (a ∷ [])

abbrev text_of : ℕ → Bytes
text_of a = a ∷ []

abbrev answers : List ℕ
answers = 7 ∷ 8 ∷ []

byte_of-Composes : Composes byte_of text_of answers
byte_of-Composes i a h = refl

abbrev Reached : Connection ℕ ℕ → Type 0
Reached = Reach requests byte_of answers

abbrev asked_twice : Connection ℕ ℕ
asked_twice = record accepted_client {
  sequence = 2;
  tasks = (1, 2) ∷ (0, 1) ∷ [];
  events = read_events (received (1 ∷ 2 ∷ []));
}

asked_twice-Reached : Reached asked_twice
unfolding reader_read reader_parse spawn_task read_events
asked_twice-Reached =
    later
      (later (later (later start (read (received (1 ∷ 2 ∷ [])) refl)) (parse_buffer refl))
        (parse_buffer refl))
      (parse_buffer refl)

-- The response of the second request has arrived first.
abbrev second_held : Connection ℕ ℕ
second_held = record asked_twice {
  tasks = [];
  channel = answered 0 7 ∷ [];
  writer_at = receiving;
  writer = record { next_sequence = 0; backlog = (1, 8) ∷ []; write_buffer = []; alive = true };
}

second_held-Reached : Reached second_held
unfolding task_sends remove lookup writer_head writer_receives received_next on_message insert
second_held-Reached =
    let two =
      later (later asked_twice-Reached (task 1 2 (answered 1 8) refl (refl, refl) (omega arith)))
        (task 0 1 (answered 0 7) refl (refl, refl) (omega arith)) in
    later
      (later (later (later two (head refl)) (receive (answered 1 8) (answered 0 7 ∷ []) refl refl))
        (flushed refl refl))
      (head refl)

-- Both responses are in the write buffer.
abbrev both_composed : Connection ℕ ℕ
both_composed = record second_held {
  channel = [];
  writer_at = sending;
  writer = record { next_sequence = 2; backlog = []; write_buffer = 7 ∷ 8 ∷ []; alive = true };
}

both_composed-Step : Step requests byte_of answers second_held both_composed
unfolding remove lookup writer_receives received_next on_message after_next drain emit insert
both_composed-Step = receive (answered 0 7) [] refl refl

both_composed-Reached : Reached both_composed
both_composed-Reached = later second_held-Reached both_composed-Step

-- The client has got one of two bytes.
abbrev half_sent : Connection ℕ ℕ
half_sent = record both_composed {
  writer = record { next_sequence = 2; backlog = []; write_buffer = 8 ∷ []; alive = true };
  sent = 7 ∷ [];
  events = read_events (received (1 ∷ 2 ∷ [])) ++ write_events (accepted 1);
}

half_sent-Reached : Reached half_sent
unfolding writer_sends
half_sent-Reached = later both_composed-Reached (send (accepted 1) refl (λ h. cc) (omega arith))

abbrev all_sent : Connection ℕ ℕ
all_sent = record half_sent {
  writer_at = at_head;
  writer = record { next_sequence = 2; backlog = []; write_buffer = []; alive = true };
  sent = 7 ∷ 8 ∷ [];
  events =
      (read_events (received (1 ∷ 2 ∷ [])) ++ write_events (accepted 1))
      ++ write_events (accepted 1);
}

all_sent-Reached : Reached all_sent
unfolding writer_sends
all_sent-Reached =
    later (later half_sent-Reached (send (accepted 1) refl (λ h. cc) (omega arith)))
      (flushed refl refl)

sent_in_order_example :
    (half_sent.sent ++ half_sent.writer.write_buffer
      ≡ concat_map text_of (take half_sent.writer.next_sequence answers))
    × (half_sent.writer.next_sequence ≤ half_sent.sequence)
    × (half_sent.writer.next_sequence ≤ length answers)
    × (idle half_sent.writer_at ≡ true
        → half_sent.sent ≡ concat_map text_of (take half_sent.writer.next_sequence answers))
sent_in_order_example =
    sent_in_order requests byte_of text_of answers byte_of-Composes half_sent-Reached

-- The client hangs up: the reader sees it before the writer looks.
abbrev hung_up : Connection ℕ ℕ
hung_up = record all_sent {
  reader = waiting 60;
  read_alive = false;
  events = all_sent.events ++ read_events (received []);
}

hung_up-Reached : Reached hung_up
unfolding reader_read reader_parse
hung_up-Reached = later (later all_sent-Reached (read (received []) refl)) (parse_buffer refl)

hangup_complete_example :
    (hung_up.sent ≡ concat_map text_of (take hung_up.sequence answers))
    × (hung_up.sequence ≤ length answers)
unfolding writer_head
hangup_complete_example =
    hangup_complete requests byte_of text_of answers byte_of-Composes hung_up-Reached refl refl refl

-- The reader has seen the end of the stream, and is about to look at its buffer.
abbrev stream_over : Connection ℕ ℕ
stream_over = reader_read (received []) all_sent

stream_over-Reached : Reached stream_over
stream_over-Reached = later all_sent-Reached (read (received []) refl)

hangup_final_example :
    (stream_over.reader ≢ reading)
    × (stream_over.reader ≡ parsing → NoRequest (requests stream_over.read_buffer))
unfolding writer_head reader_read
hangup_final_example = hangup_final requests byte_of answers tt stream_over-Reached refl refl refl

keeps_promise_example : Move text_of answers (pipe second_held) (pipe both_composed)
keeps_promise_example =
    keeps_promise requests byte_of text_of answers byte_of-Composes second_held-Reached
      both_composed-Step

-- The client hangs up when the writer already waits for a message.
abbrev left_waiting : ℕ → Connection ℕ ℕ
left_waiting n = record hung_up { reader = waiting n; writer_at = receiving }

left_waiting-Reached : Reached (left_waiting 60)
unfolding reader_read reader_parse writer_head
left_waiting-Reached =
    later (later (later all_sent-Reached (head refl)) (read (received []) refl)) (parse_buffer refl)

left_waiting-Idle : Idle (60 + 0) (left_waiting 60)
left_waiting-Idle = record {
  waits = refl;
  receives = refl;
  no_message = refl;
  no_task = refl;
  kept = refl;
}

rounds : (n : ℕ) → Steps requests byte_of answers n (left_waiting n) (left_waiting 0)
unfolding reader_wait
rounds zero = stop
rounds (suc n) = go (wait (suc n) refl) (rounds n)

only_timeout_ends_example : Idle 0 (left_waiting 0)
only_timeout_ends_example =
    only_timeout_ends requests byte_of answers 60 0 left_waiting-Idle (rounds 60)
