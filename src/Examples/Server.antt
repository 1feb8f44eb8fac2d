-- ===== src/Examples/Server.antt =====
-- Clients of a server, and what is counted of it.
use momento_proxy.Base.{ℕ, ◌≤◌, ◌≡◌, ◌≢◌, refl, true, [], ◌∷◌, ◌++◌, Bytes, codes, arith}
use momento_proxy.Listener.{
  started, build_client, accept, begin, start, later, builds, accepts, begins,
}
use momento_proxy.Listener.Counts.{CountInv, Reach-CountInv}
use momento_proxy.Frontend.Socket.{received}
use momento_proxy.Frontend.Detect.{
  no_bytes, first_byte, not_ready, failed, waits, closed, binary, text, handle_memcache_client,
  handle_memcache_client_lem,
}
use momento_proxy.Admin.{ParsedAdmin, parsed, stats, Round, accepted_client, handle_admin_client}
use momento_proxy.Admin.Pacing.{handle_admin_client-pace}

-- Of two listeners one has built its client, and one connection is open.
Reach-CountInv_example : CountInv 2 (begin 0 (accept (build_client 1 (started 2))))
unfolding build_client accept
Reach-CountInv_example = Reach-CountInv (
    later (later (later start (builds 1 refl refl)) (accepts refl (omega arith)))
      (begins 0 refl refl))

handle_memcache_client_lem_example :
    (handle_memcache_client (not_ready ∷ [] ++ first_byte 0x80 ∷ []) ≡ binary)
    × ((b : ℕ) → b ≢ 0x80 → handle_memcache_client (not_ready ∷ [] ++ first_byte b ∷ []) ≡ text)
    × (handle_memcache_client (not_ready ∷ [] ++ no_bytes ∷ []) ≡ closed)
    × (handle_memcache_client (not_ready ∷ [] ++ failed ∷ []) ≡ closed)
    × (handle_memcache_client (not_ready ∷ []) ≡ waits)
handle_memcache_client_lem_example = handle_memcache_client_lem (not_ready ∷ []) [] (refl, tt)

-- Each byte is a request for the statistics.
abbrev byte_requests : Bytes → ParsedAdmin
byte_requests b = parsed stats 1

abbrev two_at_once : Round
two_at_once = record {
  read = received (1 ∷ 2 ∷ []);
  write_ok = true;
  memcache_stats = codes "STAT";
}

handle_admin_client-pace_example :
    ((handle_admin_client byte_requests (two_at_once ∷ []) accepted_client).admin_request_parse ≤ 1)
    × ((handle_admin_client byte_requests (two_at_once ∷ []) accepted_client).admin_response_compose
        ≤ (handle_admin_client byte_requests
            (two_at_once ∷ [])
            accepted_client).admin_request_parse)
handle_admin_client-pace_example = handle_admin_client-pace byte_requests (two_at_once ∷ [])
