-- ===== src/Admin.antt =====
-- src/admin.rs: the connections of the admin server, and the figures of the process that it takes on
-- each round.
pub mod Pacing
pub mod Usage
use momento_proxy.Base.{
  ℕ, ◌+◌, ◌*◌, ◌%◌, ◌^◌, Bool, true, false, Option, none, some, List, [], ◌∷◌, ◌++◌, Bytes, codes,
  drop, if◌then◌else◌,
}
use momento_proxy.Metrics.{Event}
use momento_proxy.Metrics.Connection.{increment, decrement}
use momento_proxy.Frontend.Socket.{Read, received, read_failed, read_events}

-- What `parser.parse_request(buf.borrow())` returns; `stats` and `other` are the requests.
pub data AdminRequest : Type 0 where
  stats other : AdminRequest

pub data ParsedAdmin : Type 0 where
  parsed : AdminRequest → ℕ → ParsedAdmin
  would_block malformed : ParsedAdmin

-- One round: the read, whether a write succeeds, and what `memcache_stats()` returns in it.
pub record Round : Type 0 where
  pub read : Read
  pub write_ok : Bool
  pub memcache_stats : Bytes

-- A connection; the second and the third are what it has added to the counters.
pub record AdminClient : Type 0 where
  pub buf : Bytes
  pub admin_request_parse : ℕ
  pub admin_response_compose : ℕ
  pub sent : Bytes
  pub events : List Event

abbrev pub accepted_client : AdminClient
accepted_client = record {
  buf = [];
  admin_request_parse = 0;
  admin_response_compose = 0;
  sent = [];
  events = [];
}

-- Whether the loop goes on.
pub data Next : Type 0 where
  go_on leave : Next

-- `socket.write_all(..)`: what is sent if it succeeds.
unfoldable pub write_all : Bool → Bytes → AdminClient → AdminClient
write_all ok text c = record c { sent = c.sent ++ (if ok then text else []) }

-- `match request { .. }` and `buf.advance(consumed)`.
unfoldable pub answer : Round → AdminRequest → ℕ → AdminClient → AdminClient × Next
unfolding write_all
answer r stats consumed c =
    let c' =
      write_all r.write_ok r.memcache_stats
        (record c { admin_response_compose = c.admin_response_compose + 1 }) in
    if r.write_ok then (record c' { buf = drop consumed c'.buf }, go_on) else (c', leave)
answer r other consumed c = (record c { buf = drop consumed c.buf }, go_on)

-- `match parser.parse_request(..) { .. }`
unfoldable pub on_parsed : Round → ParsedAdmin → AdminClient → AdminClient × Next
unfolding answer write_all
on_parsed r (parsed request consumed) c =
    answer r request consumed (record c { admin_request_parse = c.admin_request_parse + 1 })
on_parsed r would_block c = (c, go_on)
on_parsed r malformed c = (write_all r.write_ok (codes "CLIENT_ERROR" ++ 13 ∷ 10 ∷ []) c, leave)

module _ (parse : Bytes → ParsedAdmin) where
  -- What a read returns, and the rest of the round.
  unfoldable pub after_read : Round → Read → AdminClient → AdminClient × Next
  unfolding on_parsed
  after_read r read_failed c = (c, leave)
  after_read r (received []) c = (c, leave)
  after_read r (received (b ∷ bs)) c =
      on_parsed r (parse (c.buf ++ b ∷ bs)) (record c { buf = c.buf ++ b ∷ bs })

  -- One round of the loop.
  unfoldable pub round : Round → AdminClient → AdminClient × Next
  unfolding after_read
  round r c = after_read r r.read (record c { events = c.events ++ read_events r.read })

  next_round : Next → (AdminClient → AdminClient) → AdminClient → AdminClient
  next_round go_on k c = k c
  next_round leave k c = c

  -- The loop, for as long as the socket has rounds.
  unfoldable pub handle_admin_client : List Round → AdminClient → AdminClient
  unfolding round next_round
  handle_admin_client [] c = c
  handle_admin_client (r ∷ rs) c =
      let (c', n) = round r c in next_round n (handle_admin_client rs) c'
