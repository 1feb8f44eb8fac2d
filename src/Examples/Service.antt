-- ===== src/Examples/Service.antt =====
-- A small service and cache to run the proxy with.
use mathlib.Core.List.Perm
use momento_proxy.Base.{
  ℕ, ◌≡◌, ◌≢◌, refl, sym, ◌∙◌, inl, inr, false, Option, none, some, List, [], ◌∷◌, Bytes, codes,
  eq_bytes, eq_bytes_sound, eq_bytes_refl, if◌then◌else◌, Bool-cases, arith,
}
use momento_proxy.Base.Int.{ℤ, pos}
use momento_proxy.Error.{done, Lookup, hit, miss}
use momento_proxy.Client.{Floats, Client, Rpc}
use momento_proxy.Resp.Lists.Pops.{first_of}
use momento_proxy.Base.{drop}
use momento_proxy.Cache.{Moka, CacheEntry, IsLawful}

-- Whole numbers in the place of floats.
abbrev pub floats : Floats
floats = record {
  F64 = ℤ;
  infinity = pos 1000;
  neg_infinity = pos 0;
  max = pos 999;
  min = pos 0;
  equal = λ a b. false;
  to_string = λ a. codes "1";
  parse = λ b. none;
  F32 = ℕ;
  one = 1;
  parse_f32 = λ b. none;
}

abbrev answered : {A : Type 0} → A → Rpc (List Bytes) Bytes A
answered a s = (done a, s)

abbrev pub stored : Bytes → Lookup Bytes
stored key = if eq_bytes key (codes "k") then hit (0 ∷ 0 ∷ 0 ∷ 7 ∷ codes "v") else miss

abbrev pub set_of : Bytes → Lookup (List Bytes)
set_of key =
    if eq_bytes key (codes "s")
    then hit (codes "a" ∷ codes "b" ∷ [])
    else if eq_bytes key (codes "t")
    then hit (codes "b" ∷ codes "c" ∷ [])
    else miss

-- What a pop returns and leaves.
abbrev pub pop_first : Rpc (List Bytes) Bytes (Lookup Bytes)
pop_first [] = (done miss, [])
pop_first (x ∷ xs) = (done (hit x), xs)

-- A service that holds the same values at all times, but for the elements that are popped: they are
-- its state.
abbrev pub service : Client floats
service = record {
  State = List Bytes;
  MomentoError = Bytes;
  display = λ e. e;
  iterate = λ set. set;
  iterate_perm = λ set. Perm.rfl;
  get = λ c k. answered (stored k);
  set = λ c k v. answered tt;
  set_ttl = λ c k v t. answered tt;
  delete = λ c k. answered tt;
  dictionary_get_field = λ c k f. answered (hit (codes "value"));
  dictionary_get_fields = λ c k fs. answered (hit (fs, hit (codes "x") ∷ miss ∷ []));
  dictionary_fetch = λ c k. answered (hit ((codes "f", codes "v") ∷ []));
  dictionary_length = λ c k. answered (hit 2);
  dictionary_increment = λ c k f n. answered n;
  dictionary_remove_fields = λ c k fs. answered tt;
  dictionary_set_fields = λ c k es. answered tt;
  list_fetch = λ c k. answered (hit (codes "a" ∷ codes "b" ∷ []));
  list_length = λ c k. answered (hit 2);
  list_pop_front = λ c k. pop_first;
  list_pop_back = λ c k. answered (hit (codes "b"));
  list_concatenate_front = λ c k es. answered tt;
  list_concatenate_back = λ c k es. answered tt;
  set_fetch = λ c k. answered (set_of k);
  set_add_elements = λ c k es. answered tt;
  set_remove_elements = λ c k es. answered tt;
  sorted_set_length = λ c k. answered (hit 2);
  sorted_set_length_by_score = λ c k a b. answered (hit 1);
  sorted_set_increment_score = λ c k m s. answered s;
  sorted_set_get_score = λ c k m. answered miss;
  sorted_set_get_scores = λ c k ms. answered miss;
  sorted_set_get_rank = λ c k m o. answered miss;
  sorted_set_remove_elements = λ c k ms. answered tt;
  sorted_set_put_elements = λ c k ms. answered tt;
  sorted_set_fetch_by_rank = λ c k o a b. answered miss;
  sorted_set_fetch_by_score = λ c k o a b n m. answered miss;
  sorted_set_union_store = λ c k ks f. answered 0;
}

-- A cache without a limit, whose entries expire only when they are replaced.
abbrev find : List (Bytes × CacheEntry) → Bytes → Option CacheEntry
find [] key = none
find ((k, e) ∷ entries) key = let rest = find entries key in if eq_bytes k key then some e else rest

abbrev without : List (Bytes × CacheEntry) → Bytes → List (Bytes × CacheEntry)
without [] key = []
without ((k, e) ∷ entries) key =
    let rest = without entries key in if eq_bytes k key then rest else (k, e) ∷ rest

abbrev pub moka : Moka
moka = record {
  State = List (Bytes × CacheEntry);
  get = λ s t k. find s k;
  insert = λ s t k e. (k, e) ∷ without s k;
  remove = λ s t k. without s k;
}

pub eq_bytes_ne : (a b : Bytes) → a ≢ b → eq_bytes a b ≡ false
eq_bytes_ne a b h = elim (Bool-cases (eq_bytes a b)) [
  | inl q ↦ absurd (h (eq_bytes_sound a b q))
  | inr q ↦ q
]

find-without : (s : List (Bytes × CacheEntry)) (k : Bytes) → find (without s k) k ≡ none
find-without [] k = refl
find-without ((j, e) ∷ s) k = ground (arith, find-without s k)

find-without_ne :
    (s : List (Bytes × CacheEntry)) (k j : Bytes) → k ≢ j → find (without s k) j ≡ find s j
find-without_ne [] k j h = refl
find-without_ne ((i, e) ∷ s) k j h = elim (Bool-cases (eq_bytes i k)) [
  | inl q ↦
      rw q (
        rw (find-without_ne s k j h, eq_bytes_ne i j (λ p. h (sym (eq_bytes_sound i k q) ∙ p)))
          refl)
  | inr q ↦ rw q (ground (arith, find-without_ne s k j h))
]

pub moka-IsLawful : IsLawful moka
moka-IsLawful = record {
  get-insert_self = λ s t u k e. inr (rw (eq_bytes_refl k) refl);
  get-insert_ne = λ s t u k j e h. inr (rw (eq_bytes_ne k j h) (find-without_ne s k j h));
  get-remove_self = λ s t u k. find-without s k;
  get-remove_ne = λ s t u k j h. inr (find-without_ne s k j h);
}

pub pop_first_lem :
    (s : List Bytes) → ((pop_first s).0 ≡ done (first_of s)) × ((pop_first s).1 ≡ drop 1 s)
pop_first_lem [] = (refl, refl)
pop_first_lem (x ∷ xs) = (refl, refl)
