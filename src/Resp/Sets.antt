-- ===== src/Resp/Sets.antt =====
-- The set commands of src/protocol/resp: sadd, srem, smembers, sismember, sdiff, sunion, sinter. A
-- `HashSet` is the list of its elements; in which order it iterates over them is a parameter.
pub mod Laws
pub mod Replies
pub mod Quiet
pub mod Loops
use momento_proxy.Base.{
  ℕ, ◌≡◌, refl, Bool, true, false, not, ◌||◌, List, [], ◌∷◌, ◌++◌, Bytes, String, codes, length,
  eq_bytes, if◌then◌else◌,
}
use momento_proxy.Base.Exec.{Exec, Result, ok, err, pure, panic, ◌>>=◌, ◌>>◌}
use momento_proxy.Error.{ProxyError, Outcome, Lookup, hit, miss}
use momento_proxy.Client.{Floats, Client}
use momento_proxy.Metrics.{Method, calls, ex, hits, misses}
use momento_proxy.Klog.{Status, klog_1, klog_2}
use momento_proxy.Context.{Context, Handler, increment, klog, write, buf_len, call, or_raise}
use momento_proxy.Resp.Utils.{
  line_end, array_header, integer_line, empty_array, update_method_metrics, command,
  write_unterminated,
}

-- `set.contains(e)`
pub contains : List Bytes → Bytes → Bool
unfolding eq_bytes
contains [] e = false
contains (x ∷ set) e = eq_bytes x e || contains set e

-- `set.insert(e)`
insert : List Bytes → Bytes → List Bytes
insert set e = if contains set e then set else e ∷ set

-- `set.remove(e)`
remove : List Bytes → Bytes → List Bytes
remove [] e = []
remove (x ∷ set) e = let rest = remove set e in if eq_bytes x e then rest else x ∷ rest

-- `set.retain(|e| e == entry)`
retain_equal : List Bytes → Bytes → List Bytes
retain_equal [] entry = []
retain_equal (x ∷ set) entry =
    let rest = retain_equal set entry in if eq_bytes x entry then x ∷ rest else rest

insert_all : List Bytes → List Bytes → List Bytes
insert_all set [] = set
insert_all set (e ∷ es) = insert_all (insert set e) es

remove_all : List Bytes → List Bytes → List Bytes
remove_all set [] = set
remove_all set (e ∷ es) = remove_all (remove set e) es

retain_each : List Bytes → List Bytes → List Bytes
retain_each set [] = set
retain_each set (e ∷ es) = retain_each (retain_equal set e) es

-- What one more key does to the set of each command.
unfoldable pub union_step : List Bytes → Lookup (List Bytes) → List Bytes
unfolding insert insert_all contains
union_step set (hit values) = insert_all set values
union_step set miss = set

unfoldable pub diff_step : List Bytes → Lookup (List Bytes) → List Bytes
unfolding remove remove_all
diff_step set (hit values) = remove_all set values
diff_step set miss = set

unfoldable pub inter_step : List Bytes → Lookup (List Bytes) → List Bytes
unfolding retain_equal retain_each
inter_step set (hit values) = retain_each set values
inter_step set miss = []

module _ {F : Floats} (client : Client F) (cache_name : String) where
  open client use {State, MomentoError}

  abbrev Action : Type 0
  Action = Handler State MomentoError (Unit {0})

  pub sadd : Bytes → List Bytes → Action
  sadd key members =
      command (calls Method.sadd) (ex Method.sadd) (client.set_add_elements cache_name key members)
        [] [] λ _. write (integer_line (length members))

  pub srem : Bytes → List Bytes → Action
  srem key members =
      command (calls Method.srem) (ex Method.srem)
        (client.set_remove_elements cache_name key members) [] []
        λ _. write (integer_line (length members))

  -- The elements of a set in the order in which it iterates.
  pub write_set : List Bytes → Action
  write_set elements = do write (array_header (length elements)); write_unterminated elements

  pub set_reply : List Bytes → Action
  unfolding write_set
  set_reply set = write_set (client.iterate set)

  smembers_reply : Bytes → Lookup (List Bytes) → Action
  unfolding set_reply write_set
  smembers_reply key (hit values) = do
    set_reply values
    n ← buf_len
    klog (klog_1 "sismember" key Status.hit n)
  smembers_reply key miss = do
    write_set []
    n ← buf_len
    klog (klog_1 "sismember" key Status.miss n)

  -- The log names `sismember`.
  pub smembers : Bytes → Action
  unfolding smembers_reply
  smembers key =
      command (calls Method.smembers) (ex Method.smembers) (client.set_fetch cache_name key)
        (klog_1 "sismember" key Status.server_error 0 ∷ [])
        (klog_1 "sismember" key Status.timeout 0 ∷ []) (smembers_reply key)

  sismember_found : Bool → Handler State MomentoError Status
  sismember_found true = do
    increment (hits Method.sismember)
    write (codes ":1" ++ line_end)
    pure Status.hit
  sismember_found false = do
    increment (misses Method.sismember)
    write (codes ":0" ++ line_end)
    pure Status.miss

  pub member_of : Bytes → Lookup (List Bytes) → Bool
  unfolding contains
  member_of field (hit values) = contains values field
  member_of field miss = false

  sismember_reply : Bytes → Bytes → Lookup (List Bytes) → Action
  unfolding sismember_found member_of
  sismember_reply key field response = do
    status ← sismember_found (member_of field response)
    n ← buf_len
    klog (klog_2 "sismember" key field status n)

  -- A timeout is logged with the status of a server error.
  pub sismember : Bytes → Bytes → Action
  unfolding sismember_reply
  sismember key field =
      command (calls Method.sismember) (ex Method.sismember) (client.set_fetch cache_name key)
        (klog_2 "sismember" key field Status.server_error 0 ∷ [])
        (klog_2 "sismember" key field Status.server_error 0 ∷ []) (sismember_reply key field)

  -- `for key in keys { .. }`: the set after the keys, each of which is fetched.
  pub union_keys : List Bytes → List Bytes → Handler State MomentoError (List Bytes)
  unfolding union_step
  union_keys set [] = pure set
  union_keys set (key ∷ keys) = do
    outcome ← call (client.set_fetch cache_name key)
    response ← or_raise outcome
    union_keys (union_step set response) keys

  pub sunion : List Bytes → Action
  unfolding union_keys set_reply
  sunion keys =
      update_method_metrics (calls Method.sunion) (ex Method.sunion)
        do set ← union_keys [] keys; set_reply set

  -- The same loop with `if set.is_empty() { break }`.
  pub narrow_keys :
      (List Bytes → Lookup (List Bytes) → List Bytes)
      → List Bytes
      → List Bytes
      → Handler State MomentoError (List Bytes)
  narrow_keys step set [] = pure set
  narrow_keys step [] (key ∷ keys) = pure []
  narrow_keys step (x ∷ set) (key ∷ keys) = do
    outcome ← call (client.set_fetch cache_name key)
    response ← or_raise outcome
    narrow_keys step (step (x ∷ set) response) keys

  sdiff_reply : List Bytes → Lookup (List Bytes) → Action
  unfolding narrow_keys diff_step set_reply
  sdiff_reply rest (hit values) = do set ← narrow_keys diff_step values rest; set_reply set
  sdiff_reply rest miss = write empty_array

  sdiff_keys : List Bytes → Action
  unfolding sdiff_reply
  sdiff_keys [] = panic
  sdiff_keys (head ∷ rest) = do
    outcome ← call (client.set_fetch cache_name head)
    response ← or_raise outcome
    sdiff_reply rest response

  pub sdiff : List Bytes → Action
  unfolding sdiff_keys
  sdiff keys = update_method_metrics (calls Method.sdiff) (ex Method.sdiff) (sdiff_keys keys)

  -- Where the first key is missing, nothing is written.
  sinter_reply : List Bytes → Lookup (List Bytes) → Action
  unfolding narrow_keys inter_step set_reply
  sinter_reply rest (hit values) = do set ← narrow_keys inter_step values rest; set_reply set
  sinter_reply rest miss = pure tt

  sinter_keys : List Bytes → Action
  unfolding sinter_reply
  sinter_keys [] = panic
  sinter_keys (head ∷ rest) = do
    outcome ← call (client.set_fetch cache_name head)
    response ← or_raise outcome
    sinter_reply rest response

  pub sinter : List Bytes → Action
  unfolding sinter_keys
  sinter keys = update_method_metrics (calls Method.sinter) (ex Method.sinter) (sinter_keys keys)
