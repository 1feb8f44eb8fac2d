-- ===== src/Admin/Pacing.antt =====
-- How many requests of an admin client are answered.
use momento_proxy.Base.{ℕ, ◌+◌, ◌≤◌, List, [], ◌∷◌, ◌++◌, Bytes, length, arith}
use momento_proxy.Frontend.Socket.{Read, received, read_failed, read_events}
use momento_proxy.Admin.{
  AdminRequest, stats, other, ParsedAdmin, parsed, would_block, malformed, Round, AdminClient,
  accepted_client, Next, go_on, leave, write_all, answer, on_parsed, after_read, round, next_round,
  handle_admin_client,
}

-- From one state to a later one, `n` requests more at most were read, and each answer is of one of them.
record Paced (n : ℕ) (c d : AdminClient) : Type 0 where
  requests : d.admin_request_parse ≤ c.admin_request_parse + n
  answers :
      d.admin_response_compose + c.admin_request_parse
      ≤ c.admin_response_compose + d.admin_request_parse

answer-Paced :
    (r : Round) (q : AdminRequest) (n : ℕ) (c : AdminClient)
    → Paced 1 c (answer r q n (record c { admin_request_parse = c.admin_request_parse + 1 })).0
unfolding answer write_all
answer-Paced r stats n c = record { requests = ground arith; answers = ground arith }
answer-Paced r other n c = record { requests = omega arith; answers = omega arith }

same : (c : AdminClient) (n : ℕ) → Paced n c c
same c n = record { requests = omega arith; answers = omega arith }

on_parsed-Paced : (r : Round) (p : ParsedAdmin) (c : AdminClient) → Paced 1 c (on_parsed r p c).0
unfolding on_parsed write_all
on_parsed-Paced r (parsed q n) c = answer-Paced r q n c
on_parsed-Paced r would_block c = same c 1
on_parsed-Paced r malformed c = record { requests = omega arith; answers = omega arith }

module _ (parse : Bytes → ParsedAdmin) where
  after_read-Paced : (r : Round) (x : Read) (c : AdminClient) → Paced 1 c (after_read parse r x c).0
  unfolding after_read
  after_read-Paced r read_failed c = same c 1
  after_read-Paced r (received []) c = same c 1
  after_read-Paced r (received (b ∷ bs)) c =
      let v = on_parsed-Paced r (parse (c.buf ++ b ∷ bs)) (record c { buf = c.buf ++ b ∷ bs }) in
      record { requests = v.requests; answers = v.answers }

  round-Paced : (r : Round) (c : AdminClient) → Paced 1 c (round parse r c).0
  unfolding round
  round-Paced r c =
      let v = after_read-Paced r r.read (record c { events = c.events ++ read_events r.read }) in
      record { requests = v.requests; answers = v.answers }

  next_round-Paced :
      (x : Next) (k : AdminClient → AdminClient) (n : ℕ) (c d : AdminClient)
      → Paced 1 c d
      → Paced n d (k d)
      → Paced (1 + n) c (next_round parse x k d)
  unfolding next_round
  next_round-Paced go_on k n c d v w = record {
    requests = omega (arith, v.requests, w.requests);
    answers = omega (arith, v.answers, w.answers);
  }
  next_round-Paced leave k n c d v w = record {
    requests = omega (arith, v.requests);
    answers = v.answers;
  }

  session-Paced :
      (rs : List Round) (c : AdminClient) → Paced (length rs) c (handle_admin_client parse rs c)
  unfolding handle_admin_client
  session-Paced [] c = same c 0
  session-Paced (r ∷ rs) c =
      let (d, x) = round parse r c in
      let v =
        next_round-Paced x (handle_admin_client parse rs) (length rs) c d (round-Paced r c)
          (session-Paced rs d) in
      record { requests = omega (arith, v.requests); answers = v.answers }

  -- However many requests a client of the admin server has sent, no more of them are read than there were
  -- reads of its socket, and no more are answered than are read.
  pub handle_admin_client-pace :
      (rs : List Round)
      → ((handle_admin_client parse rs accepted_client).admin_request_parse ≤ length rs)
        × ((handle_admin_client parse rs accepted_client).admin_response_compose
            ≤ (handle_admin_client parse rs accepted_client).admin_request_parse)
  handle_admin_client-pace rs =
      let v = session-Paced rs accepted_client in
      (omega (arith, v.requests), omega (arith, v.answers))
