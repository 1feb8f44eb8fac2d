-- ===== src/Resp/Lists.antt =====
-- The list commands of src/protocol/resp: lindex, llen, lpop, rpop, lrange, lpush, rpush.
pub mod Pops
pub mod Slice
pub mod Replies
pub mod Quiet
pub mod Popped
pub mod Fetched
use momento_proxy.Base.{
  ℕ, zero, suc, ◌+◌, ◌-◌, ◌^◌, ◌%◌, ◌≡◌, refl, Bool, true, false, ◌||◌, Option, none, some, List,
  [], ◌∷◌, ◌++◌, Bytes, String, codes, length, get_elem?, take, drop, ltb, leb, if◌then◌else◌,
}
use momento_proxy.Base.Int.{ℤ, pos, negsuc}
use momento_proxy.Base.Decimal.{decimal_int}
use momento_proxy.Base.Exec.{Exec, Result, ok, err, pure, ◌>>=◌, ◌>>◌, for_each}
use momento_proxy.Error.{ProxyError, Outcome, Lookup, hit, miss}
use momento_proxy.Client.{Floats, Client, Rpc}
use momento_proxy.Metrics.{Method, calls, ex, hits, misses}
use momento_proxy.Klog.{Status, klog_1, klog_2}
use momento_proxy.Context.{Context, Handler, increment, klog, write, buf_len, call, or_raise}
use momento_proxy.Resp.Utils.{
  line_end, bulk_header, array_header, integer_line, empty_array, nil_array_line, nil_line,
  update_method_metrics, command, write_bulks, write_unterminated,
}

-- The position in a list of `len` elements, for an index of 64 bits: `list.len() - index` wraps around
-- in a release build, and so does `-index` at the least index, whose conversion then fails.
unfoldable pub list_index : ℕ → ℤ → Option ℕ
list_index len (pos index) = some index
list_index len (negsuc n) =
    if leb (2 ^ 63 - 1) n then none else some ((len + 2 ^ 64 - (n + 1)) % 2 ^ 64)

-- `list.get(index)`, where the index has been converted.
unfoldable pub element_at : List Bytes → Option ℕ → Option Bytes
element_at list none = none
element_at list (some i) = get_elem? list i

-- `match req.start()`
range_start : ℕ → ℤ → ℕ
range_start len (pos start) = start
range_start len (negsuc n) = len - (n + 1)

-- `match req.stop()`: `none` where the end lies before the list.
range_end : ℕ → ℤ → Option ℕ
range_end len (pos end) = some end
range_end len (negsuc n) = if ltb len (n + 1) then none else some (len - (n + 1))

slice_to : List Bytes → ℕ → ℕ → Option (List Bytes)
slice_to list start end =
    if leb (length list) start || ltb end start
    then none
    else let last = if ltb end (length list - 1) then end else length list - 1 in
      some (take (last + 1 - start) (drop start list))

-- The elements that LRANGE selects; `none` stands for the early returns with an empty array.
unfoldable pub list_slice : List Bytes → ℤ → ℤ → Option (List Bytes)
unfolding range_start range_end slice_to
list_slice list start stop = elim (range_end (length list) stop) [
  | none ↦ none
  | some end ↦ slice_to list (range_start (length list) start) end
]

module _ {F : Floats} (client : Client F) (cache_name : String) where
  open client use {State, MomentoError}

  abbrev Action : Type 0
  Action = Handler State MomentoError (Unit {0})

  lindex_element : Option Bytes → Handler State MomentoError Status
  lindex_element (some element) = do
    write (bulk_header (length element))
    write element
    write line_end
    increment (hits Method.lindex)
    pure Status.hit
  lindex_element none = do write nil_line; increment (misses Method.lindex); pure Status.miss

  lindex_found : Bytes → ℤ → Option Bytes → Action
  unfolding lindex_element
  lindex_found key index element = do
    status ← lindex_element element
    n ← buf_len
    klog (klog_2 "lindex" key (decimal_int index) status n)

  lindex_reply : Bytes → ℤ → Lookup (List Bytes) → Action
  unfolding lindex_found element_at
  lindex_reply key index (hit list) =
      lindex_found key index (element_at list (list_index (length list) index))
  lindex_reply key index miss = do
    write nil_line
    increment (misses Method.lindex)
    n ← buf_len
    klog (klog_2 "lindex" key (decimal_int index) Status.miss n)

  pub lindex : Bytes → ℤ → Action
  unfolding lindex_reply
  lindex key index =
      command (calls Method.lindex) (ex Method.lindex) (client.list_fetch cache_name key)
        (klog_2 "lindex" key (decimal_int index) Status.server_error 0 ∷ [])
        (klog_2 "lindex" key (decimal_int index) Status.timeout 0 ∷ []) (lindex_reply key index)

  llen_reply : Bytes → Lookup ℕ → Action
  llen_reply key (hit len) = do
    write (integer_line len)
    n ← buf_len
    klog (klog_1 "llen" key Status.hit n)
  llen_reply key miss = do
    write (codes ":0" ++ line_end)
    n ← buf_len
    klog (klog_1 "llen" key Status.miss n)

  -- A timeout is logged with the status of a server error.
  pub llen : Bytes → Action
  unfolding llen_reply
  llen key =
      command (calls Method.llen) (ex Method.llen) (client.list_length cache_name key)
        (klog_1 "llen" key Status.server_error 0 ∷ [])
        (klog_1 "llen" key Status.server_error 0 ∷ []) (llen_reply key)

  popped_reply : Lookup Bytes → Action
  popped_reply (hit value) = do write (bulk_header (length value)); write value; write line_end
  popped_reply miss = write nil_line

  probed_reply : Lookup ℕ → Action
  probed_reply (hit _) = write empty_array
  probed_reply miss = write nil_array_line

  -- The items once a pop has been answered; `rest` are the pops that are left.
  abbrev popped_then :
      Handler State MomentoError (List Bytes)
      → Lookup Bytes
      → Handler State MomentoError (List Bytes)
  popped_then rest miss = pure []
  popped_then rest (hit value) = do items ← rest; pure (value ∷ items)

  -- `for _ in 0..count { match timeout(..).await?? { Hit => items.push(value), Miss => break } }`; the
  -- items come back in the order of the pops.
  pub pop_each : Rpc State MomentoError (Lookup Bytes) → ℕ → Handler State MomentoError (List Bytes)
  pop_each pop zero = pure []
  pop_each pop (suc count) = do
    outcome ← call pop
    response ← or_raise outcome
    popped_then (pop_each pop count) response

  items_reply : List Bytes → Action
  items_reply [] = write nil_array_line
  items_reply (item ∷ items) = do
    write (array_header (length (item ∷ items)))
    write_bulks (item ∷ items)

  -- `match req.count()`, for either end of the list.
  pub pop_with : Rpc State MomentoError (Lookup Bytes) → Bytes → Option ℕ → Action
  unfolding popped_reply probed_reply pop_each items_reply
  pop_with pop key none = do outcome ← call pop; response ← or_raise outcome; popped_reply response
  pop_with pop key (some zero) = do
    outcome ← call (client.list_length cache_name key)
    response ← or_raise outcome
    probed_reply response
  pop_with pop key (some (suc count)) = do items ← pop_each pop (suc count); items_reply items

  pub lpop : Bytes → Option ℕ → Action
  unfolding pop_with
  lpop key count =
      update_method_metrics (calls Method.lpop) (ex Method.lpop)
        (pop_with (client.list_pop_front cache_name key) key count)

  pub rpop : Bytes → Option ℕ → Action
  unfolding pop_with
  rpop key count =
      update_method_metrics (calls Method.rpop) (ex Method.rpop)
        (pop_with (client.list_pop_back cache_name key) key count)

  slice_reply : Option (List Bytes) → Action
  slice_reply none = write empty_array
  slice_reply (some elems) = do write (array_header (length elems)); write_unterminated elems

  lrange_reply : ℤ → ℤ → Lookup (List Bytes) → Action
  unfolding slice_reply
  lrange_reply start stop (hit list) = slice_reply (list_slice list start stop)
  lrange_reply start stop miss = write empty_array

  pub lrange : Bytes → ℤ → ℤ → Action
  unfolding lrange_reply
  lrange key start stop =
      command (calls Method.lrange) (ex Method.lrange) (client.list_fetch cache_name key) [] []
        (lrange_reply start stop)

  -- Nothing is written.
  pub lpush : Bytes → List Bytes → Action
  lpush key elements =
      command (calls Method.lpush) (ex Method.lpush)
        (client.list_concatenate_front cache_name key elements) [] [] λ _. pure tt

  pub rpush : Bytes → List Bytes → Action
  rpush key elements =
      command (calls Method.rpush) (ex Method.rpush)
        (client.list_concatenate_back cache_name key elements) [] [] λ _. pure tt
