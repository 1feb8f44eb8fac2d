-- ===== src/Examples/Memory.antt =====
-- The memcache theorems at concrete requests.
use momento_proxy.Base.{
  ◌≡◌, refl, ◌⊎◌, inr, true, false, none, some, List, [], ◌∷◌, ◌++◌, Bytes, codes, eq_bytes, arith,
}
use momento_proxy.Base.Exec.{ok}
use momento_proxy.Context.{Context}
use momento_proxy.Metrics.Rpc
use momento_proxy.Cache.{Value, MCache}
use momento_proxy.Memcache.{SetRequest, get, set, delete, Shared, encode_value, cached_value}
use momento_proxy.Memcache.Handlers.{fetched, run_get, handle_memcache_request, values_or_not_found}
use momento_proxy.Memcache.Handlers.Caching.{recall, get_after_set, delete_forgets, set_remembers}
use momento_proxy.Memcache.Handlers.Observed.{ObservedAs, handle_memcache_request-ObservedAs}
use momento_proxy.Memcache.Handlers.Gets.{get_answers, found, unknown, in_memory, stored_value}
use momento_proxy.Examples.Service.{service, moka, moka-IsLawful, stored}

abbrev request : SetRequest
request = record { key = codes "k"; value = codes "v"; flags = 7; ttl = none; noreply = false }

abbrev held : Value
held = record { key = codes "m"; flags = 3; content = codes "w" }

abbrev memory : MCache moka
memory = record { cache = (codes "m", record { value = held; expire_at = 60 }) ∷ []; ttl = 60 }

abbrev state : Context (Shared (List Bytes) moka)
state = record {
  backend = ([], some memory);
  events = [];
  response_buf = [];
  recorder = Rpc.new "";
}

-- No other request is handled meanwhile.
abbrev alone : List Bytes → MCache moka → MCache moka
alone s m = m

get_after_set_example :
    (run_get service moka "cache" true 0 alone (codes "k") state).0
    ≡ ok (fetched (some (cached_value true request)))
get_after_set_example =
    get_after_set service moka "cache" true 0 alone request state (omega arith) (λ e. cc e)
      (unfold encode_value eq_bytes in refl)

delete_forgets_example :
    recall service moka "cache" true 0 alone 5
      (handle_memcache_request service moka "cache" true 0 alone (delete (codes "m") false) state).1
      (codes "m")
    ≡ none
delete_forgets_example =
    delete_forgets service moka "cache" true 0 alone moka-IsLawful (codes "m") false state 5
      (λ s m. inr refl)

set_remembers_example :
    (recall service moka "cache" true 0 alone 5
        (handle_memcache_request service moka "cache" true 0 alone (set request) state).1
        (codes "k")
      ≡ none)
    ⊎ (recall service moka "cache" true 0 alone 5
          (handle_memcache_request service moka "cache" true 0 alone (set request) state).1
          (codes "k")
        ≡ some (cached_value true request))
set_remembers_example =
    set_remembers service moka "cache" true 0 alone moka-IsLawful request state 5 (λ s m. inr refl)
      (λ e. cc e)

abbrev asked : List Bytes
asked = codes "m" ∷ codes "k" ∷ codes "n" ∷ []

get_answers_example :
    (handle_memcache_request service moka "cache" true 0 alone (get asked) state).0
    ≡ ok (
        values_or_not_found (
          found
            (stored_value service moka "cache" true 0 alone stored (λ key s. refl))
            (unknown (in_memory service moka "cache" true 0 alone state) asked)
          ++ found (in_memory service moka "cache" true 0 alone state) asked))
get_answers_example =
    get_answers service moka "cache" true 0 alone stored (λ key s. refl) asked state

handle_memcache_request-ObservedAs_example :
    ObservedAs service moka "cache" true 0 alone
      (get asked)
      state
      (handle_memcache_request service moka "cache" true 0 alone (get asked) state)
handle_memcache_request-ObservedAs_example =
    handle_memcache_request-ObservedAs service moka "cache" true 0 alone (get asked) state
