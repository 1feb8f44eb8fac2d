-- ===== src/Frontend/Detect.antt =====
-- `handle_memcache_client` of src/frontend.rs: which protocol a client of memcache speaks.
use momento_proxy.Base.{ℕ, ◌≡◌, ◌≢◌, refl, List, [], ◌∷◌, ◌++◌, ◌==◌, if◌then◌else◌, arith}

-- What `socket.peek(&mut buf)` returns: no bytes, with a byte in the buffer, or an error.
pub data Peeked : Type 0 where
  no_bytes : Peeked
  first_byte : ℕ → Peeked
  not_ready failed : Peeked

-- How the function goes on: it still waits, it returns at once, or it hands the socket over to the loop for
-- one of the protocols.
pub data Detected : Type 0 where
  waits closed binary text : Detected

-- The loop, for as long as the socket has something to return.
unfoldable pub handle_memcache_client : List Peeked → Detected
handle_memcache_client [] = waits
handle_memcache_client (no_bytes ∷ ps) = closed
handle_memcache_client (first_byte b ∷ ps) = if b == 0x80 then binary else text
handle_memcache_client (not_ready ∷ ps) = handle_memcache_client ps
handle_memcache_client (failed ∷ ps) = closed

abbrev pub AllNotReady : List Peeked → Type 0
AllNotReady [] = Unit
AllNotReady (p ∷ ps) = (p ≡ not_ready) × AllNotReady ps

-- However often the socket is not ready, the first byte that it then shows decides, whatever follows: 0x80 is the
-- binary protocol and any other byte the text protocol. A hang-up or another error before a byte ends the
-- connection.
pub handle_memcache_client_lem :
    (spurious later : List Peeked)
    → AllNotReady spurious
    → (handle_memcache_client (spurious ++ first_byte 0x80 ∷ later) ≡ binary)
      × ((b : ℕ) → b ≢ 0x80 → handle_memcache_client (spurious ++ first_byte b ∷ later) ≡ text)
      × (handle_memcache_client (spurious ++ no_bytes ∷ later) ≡ closed)
      × (handle_memcache_client (spurious ++ failed ∷ later) ≡ closed)
      × (handle_memcache_client spurious ≡ waits)
unfolding handle_memcache_client
handle_memcache_client_lem [] later h = (refl, λ b n. ground arith, refl, refl, refl)
handle_memcache_client_lem (not_ready ∷ ps) later (_, h) = handle_memcache_client_lem ps later h
handle_memcache_client_lem (no_bytes ∷ ps) later (h, _) = cc
handle_memcache_client_lem (first_byte b ∷ ps) later (h, _) = cc
handle_memcache_client_lem (failed ∷ ps) later (h, _) = cc
