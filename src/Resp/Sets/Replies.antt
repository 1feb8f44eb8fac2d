-- ===== src/Resp/Sets/Replies.antt =====
-- The replies of the set commands.
use momento_proxy.Base.{
  ◌≡◌, refl, ◌∙◌, subst, Bool, true, false, List, [], append_assoc, append-nil, Bytes, String,
  length,
}
use momento_proxy.Base.Int.{pos}
use momento_proxy.Base.Decimal.{decimal, decimal_int}
use momento_proxy.Base.Exec.{◌>>=◌}
use momento_proxy.Error.{Lookup, hit, miss}
use momento_proxy.Client.{Floats, Client}
use momento_proxy.Klog.{Status, klog_1, klog_2}
use momento_proxy.Context.{Context, write, klog, buf_len}
use momento_proxy.Resp.Wire.{Reply, integer, item, encode, encode_item}
use momento_proxy.Resp.Wire.RoundTrip.Unterminated.{unterminated_array}
use momento_proxy.Resp.Utils.{array_header, write_unterminated}
use momento_proxy.Resp.Answers.{
  response, answer, written, Writes, Writes-bind, write_unterminated-Writes, klog_len-Writes,
  command-answer, command-written,
}
use momento_proxy.Resp.Hash.Replies.{count_reply}
use momento_proxy.Resp.Sets.{
  sadd, srem, set_reply, write_set, smembers_reply, smembers, sismember_found, member_of,
  sismember_reply, sismember,
}

-- The elements of a set, without the line ends that a RESP array has.
abbrev pub members_bytes : (List Bytes → List Bytes) → Lookup (List Bytes) → Bytes
members_bytes iterate (hit values) = unterminated_array (iterate values)
members_bytes iterate miss = unterminated_array []

abbrev pub yes_or_no : Bool → Reply
yes_or_no true = item (integer (pos 1))
yes_or_no false = item (integer (pos 0))

module _ {F : Floats} (client : Client F) (cache : String) where
  open client use {State, MomentoError}

  pub sadd-answer :
      (key : Bytes) (es : List Bytes) (c : Context State)
      → response (sadd client cache key es c)
        ≡ answer
            (count_reply (length es))
            c.response_buf
            (client.set_add_elements cache key es c.backend).0
  unfolding sadd encode encode_item decimal_int
  sadd-answer key es =
      command-answer _ _ _ _ _ _ (count_reply (length es)) (λ _. record { at = λ c. refl })

  pub srem-answer :
      (key : Bytes) (es : List Bytes) (c : Context State)
      → response (srem client cache key es c)
        ≡ answer
            (count_reply (length es))
            c.response_buf
            (client.set_remove_elements cache key es c.backend).0
  unfolding srem encode encode_item decimal_int
  srem-answer key es =
      command-answer _ _ _ _ _ _ (count_reply (length es)) (λ _. record { at = λ c. refl })

  write_set-Writes :
      (set : List Bytes) → Writes (write_set client cache set) (unterminated_array set)
  unfolding write_set
  write_set-Writes set = record {
    at = λ c.
        (Writes-bind (write (array_header (length set))) (write_unterminated set) _ _
            (record { at = λ d. refl }) (write_unterminated-Writes set)).at
          c
        ∙ simp append_assoc;
  }

  pub set_reply-Writes :
      (set : List Bytes)
      → Writes (set_reply client cache set) (unterminated_array (client.iterate set))
  unfolding set_reply
  set_reply-Writes set = write_set-Writes (client.iterate set)

  logged-Writes :
      (key : Bytes) (status : Status) (set : List Bytes)
      → Writes
          (write_set client cache set >>= λ _.
            (buf_len >>= λ n. klog (klog_1 "sismember" key status n)))
          (unterminated_array set)
  logged-Writes key status set = subst (Writes _) (append-nil (unterminated_array set)) (
      Writes-bind (write_set client cache set) _ (unterminated_array set) [] (write_set-Writes set)
        (klog_len-Writes (klog_1 "sismember" key status)))

  smembers_reply-Writes :
      (key : Bytes) (r : Lookup (List Bytes))
      → Writes (smembers_reply client cache key r) (members_bytes client.iterate r)
  unfolding smembers_reply set_reply
  smembers_reply-Writes key (hit values) = logged-Writes key Status.hit (client.iterate values)
  smembers_reply-Writes key miss = logged-Writes key Status.miss []

  pub smembers-answer :
      (key : Bytes) (c : Context State)
      → response (smembers client cache key c)
        ≡ written
            (members_bytes client.iterate)
            c.response_buf
            (client.set_fetch cache key c.backend).0
  unfolding smembers
  smembers-answer key =
      command-written _ _ _ _ _ _ (members_bytes client.iterate) (smembers_reply-Writes key)

  found-Writes :
      (key e : Bytes) (b : Bool)
      → Writes
          (sismember_found client cache b >>= λ status.
            (buf_len >>= λ n. klog (klog_2 "sismember" key e status n)))
          (encode (yes_or_no b))
  unfolding sismember_found encode encode_item decimal_int decimal
  found-Writes key e true = record { at = λ c. refl }
  found-Writes key e false = record { at = λ c. refl }

  pub sismember-answer :
      (key e : Bytes) (c : Context State)
      → response (sismember client cache key e c)
        ≡ answer
            (λ r. yes_or_no (member_of client cache e r))
            c.response_buf
            (client.set_fetch cache key c.backend).0
  unfolding sismember sismember_reply
  sismember-answer key e =
      command-answer _ _ _ _ _ _ (λ r. yes_or_no (member_of client cache e r))
        (λ r. found-Writes key e (member_of client cache e r))
