-- ===== src/Frontend/RespClient/Rounds.antt =====
-- What a RESP client reads over the rounds of its connection.
use momento_proxy.Base.{
  length-append, ◌≤◌, ◌≡◌, refl, ap, sym, ◌∙◌, true, List, [], ◌∷◌, ◌++◌, append-nil, append_assoc,
  Bytes, String, codes, length, concat_map, map, arith,
}
use momento_proxy.Client.{Floats, Client}
use momento_proxy.Resp.Utils.{line_end}
use momento_proxy.Frontend.Socket.{Read, received, read_failed, read_events}
use momento_proxy.Frontend.Dispatch.Replies.{request_answer}
use momento_proxy.Frontend.RespClient.{
  Round, Parsed, parsed, would_block, malformed, Connection, Next, go_on, hang_up, aborted,
  count_read, on_parsed, round, next_round, handle_resp_client,
}
use momento_proxy.Frontend.RespClient.Served.{said, next_after, left_after, serve-answer}

concat_map-append :
    (f : Bytes → Bytes) (xs ys : List Bytes)
    → concat_map f (xs ++ ys) ≡ concat_map f xs ++ concat_map f ys
concat_map-append f [] ys = refl
concat_map-append f (x ∷ xs) ys =
    ap (λ z. f x ++ z) (concat_map-append f xs ys)
    ∙ sym (append_assoc (f x) (concat_map f xs) (concat_map f ys))

module _ {F : Floats} (client : Client F) (cache_name : String) (parse : Bytes → Parsed F) where
  open client use {State, display}

  -- A connection after a read.
  abbrev pub has_read : Read → Bytes → Connection State → Connection State
  has_read r bs conn = record conn {
    context = record conn.context { events = conn.context.events ++ read_events r };
    buf = conn.buf ++ bs;
  }

  -- What a connection says, which bytes are left, and whether it goes on.
  abbrev pub Spoken : Type 0
  Spoken = Bytes × Bytes × Next

  abbrev pub spoken_of : Parsed F → Connection State → Spoken
  spoken_of would_block conn = ([], conn.buf, go_on)
  spoken_of malformed conn = (codes "-ERR malformed request" ++ line_end, conn.buf, hang_up)
  spoken_of (parsed request consumed) conn =
      let answer =
        request_answer client cache_name request (record conn.context { response_buf = [] }) in
      (
        said display answer,
        left_after (next_after display answer) consumed conn.buf,
        next_after display answer,
      )

  abbrev pub spoken : Read → Connection State → Spoken
  spoken read_failed conn = ([], conn.buf, hang_up)
  spoken (received []) conn = ([], conn.buf, hang_up)
  spoken (received (b ∷ bs)) conn =
      spoken_of (parse (conn.buf ++ b ∷ bs)) (has_read (received (b ∷ bs)) (b ∷ bs) conn)

  abbrev pub HasSpoken : Connection State → Spoken → Connection State × Next → Type 0
  HasSpoken conn s p = (p.0.sent ≡ conn.sent ++ s.0) × (p.0.buf ≡ s.1) × (p.1 ≡ s.2)

  on_parsed-HasSpoken :
      (p : Parsed F) (conn : Connection State)
      → HasSpoken conn (spoken_of p conn) (on_parsed client cache_name parse p true conn)
  unfolding on_parsed
  on_parsed-HasSpoken would_block conn = (sym (append-nil conn.sent), refl, refl)
  on_parsed-HasSpoken malformed conn = (refl, refl, refl)
  on_parsed-HasSpoken (parsed request consumed) conn =
      serve-answer client cache_name parse request consumed conn

  -- After one round in which a write succeeds: a read that fails or brings nothing ends the connection, and
  -- nothing is said. Otherwise the bytes that were read stand behind those that were left. If they hold no whole request,
  -- nothing is said and all of them are kept; if they are malformed, the client reads the error
  -- and the connection ends; if a request is at the front, the client reads its answer, or the error
  -- reply, the bytes of the request are consumed if the connection goes on, and it goes on after a reply
  -- or an error of the service.
  pub round-HasSpoken :
      (r : Read) (conn : Connection State)
      → HasSpoken conn
          (spoken r conn)
          (round client cache_name parse (record { read = r; write_ok = true }) conn)
  unfolding round count_read
  round-HasSpoken read_failed conn = (sym (append-nil conn.sent), refl, refl)
  round-HasSpoken (received []) conn = (sym (append-nil conn.sent), refl, refl)
  round-HasSpoken (received (b ∷ bs)) conn =
      on_parsed-HasSpoken (parse (conn.buf ++ b ∷ bs)) (has_read (received (b ∷ bs)) (b ∷ bs) conn)

  -- What is said in a round: one text if there is a whole request or a malformed one, and nothing otherwise.
  abbrev pub texts_of : Parsed F → Connection State → List Bytes
  texts_of would_block conn = []
  texts_of malformed conn = (codes "-ERR malformed request" ++ line_end) ∷ []
  texts_of (parsed request consumed) conn =
      said display
        (request_answer client cache_name request (record conn.context { response_buf = [] }))
      ∷ []

  abbrev pub texts : Read → Connection State → List Bytes
  texts read_failed conn = []
  texts (received []) conn = []
  texts (received (b ∷ bs)) conn =
      texts_of (parse (conn.buf ++ b ∷ bs)) (has_read (received (b ∷ bs)) (b ∷ bs) conn)

  texts_of_lem :
      (p : Parsed F) (conn : Connection State)
      → concat_map (λ b. b) (texts_of p conn) ≡ (spoken_of p conn).0
  texts_of_lem would_block conn = refl
  texts_of_lem malformed conn = append-nil _
  texts_of_lem (parsed request consumed) conn = append-nil _

  texts_lem :
      (r : Read) (conn : Connection State) → concat_map (λ b. b) (texts r conn) ≡ (spoken r conn).0
  texts_lem read_failed conn = refl
  texts_lem (received []) conn = refl
  texts_lem (received (b ∷ bs)) conn =
      texts_of_lem (parse (conn.buf ++ b ∷ bs)) (has_read (received (b ∷ bs)) (b ∷ bs) conn)

  texts_of-one : (p : Parsed F) (conn : Connection State) → length (texts_of p conn) ≤ 1
  texts_of-one would_block conn = omega arith
  texts_of-one malformed conn = omega arith
  texts_of-one (parsed request consumed) conn = omega arith

  texts-one : (r : Read) (conn : Connection State) → length (texts r conn) ≤ 1
  texts-one read_failed conn = omega arith
  texts-one (received []) conn = omega arith
  texts-one (received (b ∷ bs)) conn =
      texts_of-one (parse (conn.buf ++ b ∷ bs)) (has_read (received (b ∷ bs)) (b ∷ bs) conn)

  -- A round in which the write succeeds.
  abbrev written_round : Read → Connection State → Connection State × Next
  written_round r = round client cache_name parse (record { read = r; write_ok = true })

  abbrev if_going : Next → List Bytes → List Bytes
  if_going go_on bs = bs
  if_going hang_up bs = []
  if_going aborted bs = []

  -- The answers of a connection: in each round, until it ends, the one to the request at the front of what is
  -- left and what is read, by a handler that starts from the service as the round before has left it.
  abbrev pub answers : List Read → Connection State → List Bytes
  answers [] conn = []
  answers (r ∷ rs) conn =
      texts r conn ++ if_going (written_round r conn).1 (answers rs (written_round r conn).0)

  abbrev rounds_of : List Read → List Round
  rounds_of reads = map (λ r. record { read = r; write_ok = true }) reads

  if_going-length : (x : Next) (bs : List Bytes) → length (if_going x bs) ≤ length bs
  if_going-length go_on bs = omega arith
  if_going-length hang_up bs = omega arith
  if_going-length aborted bs = omega arith

  next_round-sent :
      (x : Next) (rs : List Read) (d : Connection State)
      → (handle_resp_client client cache_name parse (rounds_of rs) d).0.sent
        ≡ d.sent ++ concat_map (λ b. b) (answers rs d)
      → (next_round client cache_name parse x
          (handle_resp_client client cache_name parse (rounds_of rs))
          d).0.sent
        ≡ d.sent ++ concat_map (λ b. b) (if_going x (answers rs d))
  unfolding next_round
  next_round-sent go_on rs d h = h
  next_round-sent hang_up rs d h = sym (append-nil d.sent)
  next_round-sent aborted rs d h = sym (append-nil d.sent)

  -- A RESP client reads the answers of its connection, in their order, each of them whole and once,
  -- and nothing else. There is at most one for each read of its socket, however many requests it has
  -- sent. Where the writes succeed.
  pub handle_resp_client-answers :
      (reads : List Read) (conn : Connection State)
      → ((handle_resp_client client cache_name parse
            (map (λ r. record { read = r; write_ok = true }) reads)
            conn).0.sent
          ≡ conn.sent ++ concat_map (λ b. b) (answers reads conn))
        × (length (answers reads conn) ≤ length reads)
  unfolding handle_resp_client
  handle_resp_client-answers [] conn = (sym (append-nil conn.sent), omega arith)
  handle_resp_client-answers (r ∷ rs) conn =
      let (d, x) = written_round r conn in
      let (h, l) = handle_resp_client-answers rs d in
      (
        next_round-sent x rs d h
            ∙ ap (λ y. y ++ concat_map (λ b. b) (if_going x (answers rs d)))
                ((round-HasSpoken r conn).0 ∙ ap (λ y. conn.sent ++ y) (sym (texts_lem r conn)))
            ∙ append_assoc conn.sent (concat_map (λ b. b) (texts r conn)) _
            ∙ ap (λ y. conn.sent ++ y)
                (sym (concat_map-append (λ b. b) (texts r conn) (if_going x (answers rs d)))),
        omega (
          arith,
          length-append (texts r conn) (if_going x (answers rs d)),
          texts-one r conn,
          if_going-length x (answers rs d),
          l,
        ),
      )
