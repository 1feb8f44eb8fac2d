-- ===== src/Resp/Sets/Laws.antt =====
-- What SUNION, SDIFF and SINTER make of the sets that the service returns, by membership.
use momento_proxy.Base.{
  ◌≡◌, refl, sym, ap, ◌∙◌, inl, inr, Bool, true, false, not, ◌||◌, ◌&&◌, List, [], ◌∷◌, Bytes,
  String, eq_bytes, eq_bytes_sound, eq_bytes_refl, Bool-cases, arith,
}
use momento_proxy.Base.Exec.{ok}
use momento_proxy.Error.{done, Lookup, hit, miss}
use momento_proxy.Client.{Floats, Client}
use momento_proxy.Context.{Context, Handler}
use momento_proxy.Resp.Sets.{
  contains, insert, remove, retain_equal, insert_all, remove_all, retain_each, union_step,
  diff_step, inter_step, union_keys, narrow_keys,
}

contains_same :
    (set : List Bytes) (e x : Bytes)
    → contains set e ≡ true
    → eq_bytes e x ≡ true
    → contains set x ≡ true
contains_same set e x h q = rw (← eq_bytes_sound e x q) h

contains-insert :
    (set : List Bytes) (e x : Bytes) → contains (insert set e) x ≡ contains set x || eq_bytes e x
unfolding insert
contains-insert set e x = elim (Bool-cases (contains set e)) [
  | inl h ↦ rw (h, insert) (ground (arith, contains_same set e x h))
  | inr h ↦ rw (h, insert) (unfold contains in ground arith)
]

contains-insert_all :
    (es set : List Bytes) (x : Bytes)
    → contains (insert_all set es) x ≡ contains set x || contains es x
unfolding insert_all contains
contains-insert_all [] set x = ground arith
contains-insert_all (e ∷ es) set x =
    contains-insert_all es (insert set e) x ∙ ground (arith, contains-insert set e x)

eq_bytes_swap : (a b x : Bytes) → eq_bytes a b ≡ true → eq_bytes a x ≡ eq_bytes b x
eq_bytes_swap a b x h = ap (λ t. eq_bytes t x) (eq_bytes_sound a b h)

eq_bytes_join : (e x y : Bytes) → eq_bytes e x ≡ true → eq_bytes y x ≡ true → eq_bytes y e ≡ true
eq_bytes_join e x y h k = rw (eq_bytes_sound y x k ∙ sym (eq_bytes_sound e x h)) (eq_bytes_refl e)

contains-remove :
    (set : List Bytes) (e x : Bytes)
    → contains (remove set e) x ≡ contains set x && not (eq_bytes e x)
unfolding remove contains
contains-remove [] e x = refl
contains-remove (y ∷ set) e x = elim (Bool-cases (eq_bytes y e)) [
  | inl h ↦ rw h (ground (arith, contains-remove set e x, eq_bytes_swap y e x h))
  | inr h ↦ rw h (ground (arith, contains-remove set e x, eq_bytes_join e x y))
]

contains-remove_all :
    (es set : List Bytes) (x : Bytes)
    → contains (remove_all set es) x ≡ contains set x && not (contains es x)
unfolding remove_all contains
contains-remove_all [] set x = ground arith
contains-remove_all (e ∷ es) set x =
    contains-remove_all es (remove set e) x ∙ ground (arith, contains-remove set e x)

contains-retain_equal :
    (set : List Bytes) (e x : Bytes)
    → contains (retain_equal set e) x ≡ contains set x && eq_bytes e x
unfolding retain_equal contains
contains-retain_equal [] e x = refl
contains-retain_equal (y ∷ set) e x = elim (Bool-cases (eq_bytes y e)) [
  | inl h ↦ rw h (ground (arith, contains-retain_equal set e x, eq_bytes_swap y e x h))
  | inr h ↦ rw h (ground (arith, contains-retain_equal set e x, eq_bytes_join e x y))
]

-- All elements are `x`.
abbrev pub all_equal : List Bytes → Bytes → Bool
all_equal [] x = true
all_equal (e ∷ es) x = eq_bytes e x && all_equal es x

contains-retain_each :
    (es set : List Bytes) (x : Bytes)
    → contains (retain_each set es) x ≡ contains set x && all_equal es x
unfolding retain_each
contains-retain_each [] set x = ground arith
contains-retain_each (e ∷ es) set x =
    contains-retain_each es (retain_equal set e) x ∙ ground (arith, contains-retain_equal set e x)

abbrev pub holds : Bytes → Lookup (List Bytes) → Bool
holds x miss = false
holds x (hit values) = contains values x

-- An element is in one of the sets that are found under keys.
abbrev pub in_any : (Bytes → Lookup (List Bytes)) → List Bytes → Bytes → Bool
in_any answers [] x = false
in_any answers (key ∷ keys) x = holds x (answers key) || in_any answers keys x

-- What is said of the set under a key holds for each of the keys.
abbrev pub every : (Lookup (List Bytes) → Bool) → (Bytes → Lookup (List Bytes)) → List Bytes → Bool
every g answers [] = true
every g answers (key ∷ keys) = g (answers key) && every g answers keys

abbrev pub holds_only : Bytes → Lookup (List Bytes) → Bool
holds_only x miss = false
holds_only x (hit values) = all_equal values x

contains-union_step :
    (set : List Bytes) (r : Lookup (List Bytes)) (x : Bytes)
    → contains (union_step set r) x ≡ contains set x || holds x r
unfolding union_step
contains-union_step set miss x = ground arith
contains-union_step set (hit values) x = contains-insert_all values set x

contains-diff_step :
    (set : List Bytes) (r : Lookup (List Bytes)) (x : Bytes)
    → contains (diff_step set r) x ≡ contains set x && not (holds x r)
unfolding diff_step
contains-diff_step set miss x = ground arith
contains-diff_step set (hit values) x = contains-remove_all values set x

contains-inter_step :
    (set : List Bytes) (r : Lookup (List Bytes)) (x : Bytes)
    → contains (inter_step set r) x ≡ contains set x && holds_only x r
unfolding inter_step
contains-inter_step set miss x = unfold contains in ground arith
contains-inter_step set (hit values) x = contains-retain_each values set x

module _ {F : Floats} (client : Client F) (cache_name : String)
    (answers : Bytes → Lookup (List Bytes))
    (reads : (key : Bytes) (s : client.State)
      → (client.set_fetch cache_name key s).0 ≡ done (answers key)) where
  -- A loop over keys ends in a set in which `x` is or is not.
  abbrev pub Ends : Handler client.State client.MomentoError (List Bytes) → (Bytes → Bool) → Type 0
  Ends m f =
      (c : Context client.State)
      → (set : List Bytes) × ((m c).0 ≡ ok set) × ((x : Bytes) → contains set x ≡ f x)

  union_keys-Ends :
      (keys set : List Bytes)
      → Ends (union_keys client cache_name set keys) (λ x. contains set x || in_any answers keys x)
  unfolding union_keys
  union_keys-Ends [] set c = (set, refl, λ x. ground arith)
  union_keys-Ends (key ∷ keys) set c = rw (reads key c.backend) (
      let (r, e, f) = union_keys-Ends keys (union_step set (answers key)) _ in
      (r, e, λ x. f x ∙ ground (arith, contains-union_step set (answers key) x)))

  narrow_keys-Ends :
      (step : List Bytes → Lookup (List Bytes) → List Bytes)
      (g : Bytes → Lookup (List Bytes) → Bool)
      → ((set : List Bytes) (r : Lookup (List Bytes)) (x : Bytes)
          → contains (step set r) x ≡ contains set x && g x r)
      → (keys set : List Bytes)
      → Ends
          (narrow_keys client cache_name step set keys)
          (λ x. contains set x && every (g x) answers keys)
  unfolding narrow_keys
  narrow_keys-Ends step g h [] set c = (set, refl, λ x. ground arith)
  narrow_keys-Ends step g h (key ∷ keys) [] c = ([], refl, λ x. unfold contains in refl)
  narrow_keys-Ends step g h (key ∷ keys) (y ∷ set) c = rw (reads key c.backend) (
      let (r, e, f) = narrow_keys-Ends step g h keys (step (y ∷ set) (answers key)) _ in
      (r, e, λ x. f x ∙ ground (arith, h (y ∷ set) (answers key) x)))

  -- If the service answers each fetch, SUNION makes a set that holds exactly the elements of the sets
  -- that are found under its keys; a missing set counts as empty.
  pub union_keys_lem :
      (keys : List Bytes) → Ends (union_keys client cache_name [] keys) (in_any answers keys)
  union_keys_lem keys c =
      let (r, e, f) = union_keys-Ends keys [] c in (r, e, λ x. f x ∙ unfold contains in refl)

  -- If the service answers each fetch, SDIFF makes of the first set the one that holds exactly its
  -- elements that are in none of the sets found under the other keys.
  pub sdiff_keys_lem :
      (keys set : List Bytes)
      → Ends
          (narrow_keys client cache_name diff_step set keys)
          (λ x. contains set x && every (λ r. not (holds x r)) answers keys)
  sdiff_keys_lem keys set =
      narrow_keys-Ends diff_step (λ x r. not (holds x r)) contains-diff_step keys set

  -- If the service answers each fetch, SINTER makes of the first set the one that holds `x` exactly if
  -- the first set does, every other set is found, and no other set has an element besides `x`.
  pub sinter_keys_lem :
      (keys set : List Bytes)
      → Ends
          (narrow_keys client cache_name inter_step set keys)
          (λ x. contains set x && every (holds_only x) answers keys)
  sinter_keys_lem keys set = narrow_keys-Ends inter_step holds_only contains-inter_step keys set
