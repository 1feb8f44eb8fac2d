-- ===== src/Client.antt =====
-- What the proxy uses of the Momento client library and of `f64`, as parameters: the operations of
-- `CacheClient` over an unknown state of the service, and the tests and prints of floats.
use mathlib.Core.List.{Perm}
use momento_proxy.Base.{ℕ, Bool, Option, List, Bytes, String}
use momento_proxy.Base.Int.{ℤ}
use momento_proxy.Error.{Outcome, Lookup}

-- A call of the service under its timeout.
abbrev pub Rpc : Type 0 → Type 0 → Type 0 → Type 0
Rpc S E A = S → Outcome E A × S

pub record Floats : Type 1 where
  pub F64 : Type 0
  pub infinity : F64
  pub neg_infinity : F64
  pub max : F64
  pub min : F64
  pub equal : F64 → F64 → Bool
  pub to_string : F64 → Bytes
  pub parse : Bytes → Option F64
  pub F32 : Type 0
  pub one : F32
  pub parse_f32 : Bytes → Option F32

pub data SortedSetOrder : Type 0 where
  ascending descending : SortedSetOrder

pub data ScoreBound (F : Type 0) : Type 0 where
  inclusive exclusive : F → ScoreBound F

pub data AggregateFunction : Type 0 where
  sum min max : AggregateFunction

-- The first argument of each operation is the cache name, the second the key.
pub record Client (F : Floats) : Type 1 where
  pub State : Type 0
  pub MomentoError : Type 0
  -- `Display`
  pub display : MomentoError → Bytes
  -- The order in which a `HashSet` of some elements iterates over them, each of them once; the standard
  -- library leaves it open.
  pub iterate : List Bytes → List Bytes
  pub iterate_perm : (set : List Bytes) → Perm (iterate set) set
  pub get : String → Bytes → Rpc State MomentoError (Lookup Bytes)
  pub set : String → Bytes → Bytes → Rpc State MomentoError (Unit {0})
  -- `SetRequest::new(cache, key, value).ttl(seconds)`
  pub set_ttl : String → Bytes → Bytes → Option ℕ → Rpc State MomentoError (Unit {0})
  pub delete : String → Bytes → Rpc State MomentoError (Unit {0})
  pub dictionary_get_field : String → Bytes → Bytes → Rpc State MomentoError (Lookup Bytes)
  -- the fields and, for each of them, the value found
  pub dictionary_get_fields :
      String
      → Bytes
      → List Bytes
      → Rpc State MomentoError (Lookup (List Bytes × List (Lookup Bytes)))
  -- the entries in the order in which the `HashMap` iterates over them
  pub dictionary_fetch : String → Bytes → Rpc State MomentoError (Lookup (List (Bytes × Bytes)))
  pub dictionary_length : String → Bytes → Rpc State MomentoError (Lookup ℕ)
  pub dictionary_increment : String → Bytes → Bytes → ℤ → Rpc State MomentoError ℤ
  pub dictionary_remove_fields : String → Bytes → List Bytes → Rpc State MomentoError (Unit {0})
  -- `DictionarySetFieldsRequest` with the collection TTL of the proxy
  pub dictionary_set_fields :
      String → Bytes → List (Bytes × Bytes) → Rpc State MomentoError (Unit {0})
  pub list_fetch : String → Bytes → Rpc State MomentoError (Lookup (List Bytes))
  pub list_length : String → Bytes → Rpc State MomentoError (Lookup ℕ)
  pub list_pop_front : String → Bytes → Rpc State MomentoError (Lookup Bytes)
  pub list_pop_back : String → Bytes → Rpc State MomentoError (Lookup Bytes)
  pub list_concatenate_front : String → Bytes → List Bytes → Rpc State MomentoError (Unit {0})
  pub list_concatenate_back : String → Bytes → List Bytes → Rpc State MomentoError (Unit {0})
  -- the elements in the order in which the `HashSet` iterates over them
  pub set_fetch : String → Bytes → Rpc State MomentoError (Lookup (List Bytes))
  pub set_add_elements : String → Bytes → List Bytes → Rpc State MomentoError (Unit {0})
  pub set_remove_elements : String → Bytes → List Bytes → Rpc State MomentoError (Unit {0})
  pub sorted_set_length : String → Bytes → Rpc State MomentoError (Lookup ℕ)
  pub sorted_set_length_by_score :
      String
      → Bytes
      → Option (ScoreBound F.F64)
      → Option (ScoreBound F.F64)
      → Rpc State MomentoError (Lookup ℕ)
  pub sorted_set_increment_score : String → Bytes → Bytes → F.F64 → Rpc State MomentoError F.F64
  pub sorted_set_get_score : String → Bytes → Bytes → Rpc State MomentoError (Lookup F.F64)
  pub sorted_set_get_scores :
      String → Bytes → List Bytes → Rpc State MomentoError (Lookup (List (Lookup F.F64)))
  pub sorted_set_get_rank :
      String → Bytes → Bytes → SortedSetOrder → Rpc State MomentoError (Lookup ℕ)
  pub sorted_set_remove_elements : String → Bytes → List Bytes → Rpc State MomentoError (Unit {0})
  pub sorted_set_put_elements :
      String → Bytes → List (F.F64 × Bytes) → Rpc State MomentoError (Unit {0})
  pub sorted_set_fetch_by_rank :
      String
      → Bytes
      → SortedSetOrder
      → ℤ
      → ℤ
      → Rpc State MomentoError (Lookup (List (Bytes × F.F64)))
  -- the offset is a `u32`, the count an `i32`
  pub sorted_set_fetch_by_score :
      String
      → Bytes
      → SortedSetOrder
      → Option (ScoreBound F.F64)
      → Option (ScoreBound F.F64)
      → Option ℕ
      → Option ℤ
      → Rpc State MomentoError (Lookup (List (Bytes × F.F64)))
  -- the length of the destination
  pub sorted_set_union_store :
      String → Bytes → List (Bytes × F.F32) → AggregateFunction → Rpc State MomentoError ℕ
