-- ===== src/Examples/Answers.antt =====
-- The theorems about the RESP commands and about the writer at concrete inputs.
use momento_proxy.Base.{
  ℕ, ◌<◌, ◌≡◌, refl, Bool, true, not, ◌&&◌, some, List, [], ◌∷◌, ◌++◌, Bytes, codes, ◌==◌,
  concat_map, arith,
}
use momento_proxy.Base.Int.{pos, negsuc}
use momento_proxy.Base.Exec.{ok, err}
use momento_proxy.Error.{momento}
use momento_proxy.Context.{Context}
use momento_proxy.Metrics.Rpc
use momento_proxy.Resp.Wire.{decode}
use momento_proxy.Resp.Answers.{response}
use momento_proxy.Resp.Wire.RoundTrip.{IsLine}
use momento_proxy.Resp.Lists.{list_index, element_at, list_slice}
use momento_proxy.Resp.Lists.Slice.{or_empty, pick, selected, first, list_slice_lem, list_index_lem}
use momento_proxy.Resp.Sets.{union_keys, narrow_keys, diff_step, inter_step, contains}
use momento_proxy.Resp.Sets.Laws.{
  in_any, every, holds, holds_only, union_keys_lem, sdiff_keys_lem, sinter_keys_lem,
}
use momento_proxy.Frontend.Dispatch.{get_field, dispatch_hash}
use momento_proxy.Frontend.Dispatch.Hashes.{hash_answer, hash_calls, dispatch_hash-answer}
use momento_proxy.Frontend.RespClient.{settle}
use momento_proxy.Frontend.RespClient.Errors.{told, after_error, settle_error}
use momento_proxy.Frontend.Writer.{Message, answered, initial, writer}
use momento_proxy.Frontend.Writer.Order.Complete.{Answered, writer_sends_all}
use momento_proxy.Examples.Service.{service, set_of, pop_first, pop_first_lem}
use momento_proxy.Base.{none}
use momento_proxy.Resp.Wire.{encode}
use momento_proxy.Resp.Lists.{lrange, pop_with}
use momento_proxy.Resp.Lists.Replies.{lrange_unreadable}
use momento_proxy.Resp.Lists.Pops.{items, pop_with_lem}

abbrev state : Context (List Bytes)
state = record {
  backend = codes "p" ∷ codes "q" ∷ [];
  events = [];
  response_buf = [];
  recorder = Rpc.new "";
}

dispatch_hash-answer_example :
    (response (dispatch_hash service "cache" (get_field (codes "k") (codes "f")) state)
      ≡ hash_answer service "cache" (get_field (codes "k") (codes "f")) state)
    × ((dispatch_hash service "cache" (get_field (codes "k") (codes "f")) state).1.backend
        ≡ hash_calls service "cache" (get_field (codes "k") (codes "f")) state.backend)
dispatch_hash-answer_example =
    dispatch_hash-answer service "cache" (get_field (codes "k") (codes "f")) state

abbrev letters : List Bytes
letters = codes "a" ∷ codes "b" ∷ codes "c" ∷ []

list_slice_lem_example :
    or_empty (list_slice letters (negsuc 1) (pos 5))
    ≡ pick (selected 3 (negsuc 1) (pos 5)) 0 letters
list_slice_lem_example = list_slice_lem letters (negsuc 1) (pos 5)

list_index_lem_example :
    element_at letters (list_index 3 (negsuc 0))
    ≡ first (pick (selected 3 (negsuc 0) (negsuc 0)) 0 letters)
list_index_lem_example = list_index_lem letters (negsuc 0) (omega arith) (omega arith)

abbrev both : List Bytes
both = codes "s" ∷ codes "t" ∷ []

union_keys_lem_example :
    (set : List Bytes) × ((union_keys service "cache" [] both state).0 ≡ ok set)
    × ((x : Bytes) → contains set x ≡ in_any set_of both x)
union_keys_lem_example = union_keys_lem service "cache" set_of (λ key s. refl) both state

sdiff_keys_lem_example :
    (set : List Bytes) × ((narrow_keys service "cache" diff_step letters both state).0 ≡ ok set)
    × ((x : Bytes)
        → contains set x ≡ contains letters x && every (λ r. not (holds x r)) set_of both)
sdiff_keys_lem_example = sdiff_keys_lem service "cache" set_of (λ key s. refl) both letters state

sinter_keys_lem_example :
    (set : List Bytes) × ((narrow_keys service "cache" inter_step letters both state).0 ≡ ok set)
    × ((x : Bytes) → contains set x ≡ contains letters x && every (holds_only x) set_of both)
sinter_keys_lem_example = sinter_keys_lem service "cache" set_of (λ key s. refl) both letters state

abbrev one_line : Bytes → Bool
one_line [] = true
one_line (c ∷ t) = not (c == 13) && one_line t

line : (t : Bytes) → one_line t ≡ true → IsLine t
line [] h = tt
line (c ∷ t) h = (ground arith, line t (ground arith))

settle_error_example :
    (decode (
        (settle {S = List Bytes} {E = Bytes}
          (λ e. e)
          (err (momento (codes "down")), state)).0.response_buf
        ++ [])
      ≡ told {E = Bytes} (λ e. e) (momento (codes "down")) [])
    × ((settle {S = List Bytes} {E = Bytes} (λ e. e) (err (momento (codes "down")), state)).1
        ≡ after_error {E = Bytes} (momento (codes "down")))
settle_error_example =
    settle_error (λ e. e) (momento (codes "down")) state []
      (line (codes "ERR backend error: down") refl)

-- Two responses that arrive in the reverse order.
abbrev responses : List Bytes
responses = codes "one" ∷ codes "two" ∷ []

abbrev reversed : List (Message Bytes)
reversed = answered 1 (codes "two") ∷ answered 0 (codes "one") ∷ []

two-Answered : (i : ℕ) → i < 2 → Answered some (λ b. b) responses i reversed
two-Answered i h = ground arith

writer_sends_all_example :
    ((writer some reversed initial).write_buffer ≡ concat_map (λ b. b) responses)
    × ((writer some reversed initial).alive ≡ true)
writer_sends_all_example =
    writer_sends_all some (λ b. b) responses reversed (λ i a h. refl) (refl, (refl, tt))
      two-Answered

lrange_unreadable_example :
    (b : Bytes) × (response (lrange service "cache" (codes "k") (pos 0) (pos 5) state) ≡ ok b)
    × (decode b ≡ none)
lrange_unreadable_example =
    lrange_unreadable service "cache" (codes "k") (pos 0) (pos 5) state (codes "a" ∷ codes "b" ∷ [])
      (codes "a") (codes "b" ∷ []) refl (unfold list_slice in refl) refl

pop_with_lem_example :
    response (pop_with service "cache" pop_first (codes "k") (some 3) state)
    ≡ ok (
        encode
          (items service "cache" pop_first (λ s. s) pop_first_lem (codes "p" ∷ codes "q" ∷ [])))
pop_with_lem_example =
    pop_with_lem service "cache" pop_first (λ s. s) pop_first_lem 2 (codes "k") state
