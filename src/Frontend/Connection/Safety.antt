-- ===== src/Frontend/Connection/Safety.antt =====
-- What the client of a connection of memcache has got.
use momento_proxy.Base.{
  ◌≤◌, ◌≡◌, refl, sym, ap, ◌∙◌, subst, true, Option, List, ◌++◌, append-nil, Bytes, length, take,
  concat_map, ==_iff, arith,
}
use momento_proxy.Frontend.Writer.Order.{Composes}
use momento_proxy.Frontend.Connection.{
  ParsedRequest, at_head, writer_done, Connection, writer_head, Reach,
}
use momento_proxy.Frontend.Connection.Carried.{take_of_take}
use momento_proxy.Frontend.Connection.Invariant.{idle, Reach-SystemInv}

module _ {Q A : Type 0} (parse : Bytes → ParsedRequest Q) (compose : A → Option Bytes)
    (text : A → Bytes) (responses : List A) where
  -- In every state that a connection reaches, what has been written to the client, with what the write
  -- buffer still holds, is the texts of the responses to the first requests, in the order of the
  -- requests, none of them left out and none about a request that has not been read. While the writer is
  -- at the head of its loop or waits for a message, all of it has been written.
  pub sent_in_order :
      {c : Connection Q A}
      → Composes compose text responses
      → Reach parse compose responses c
      → (c.sent ++ c.writer.write_buffer ≡ concat_map text (take c.writer.next_sequence responses))
        × (c.writer.next_sequence ≤ c.sequence)
        × (c.writer.next_sequence ≤ length responses)
        × (idle c.writer_at ≡ true
            → c.sent ≡ concat_map text (take c.writer.next_sequence responses))
  sent_in_order {c} k r =
      let v = Reach-SystemInv compose text responses parse k r in
      let (e, l, m) = take_of_take c.writer.next_sequence c.sequence responses v.content.within in
      let all = v.content.sent ∙ ap (concat_map text) e in
      (all, l, m, λ h. sym (append-nil c.sent) ∙ ap (λ b. c.sent ++ b) (sym (v.buffered h)) ∙ all)

  ends_at_head :
      (c : Connection Q A)
      → c.write_alive ≡ true
      → c.writer_at ≡ at_head
      → (writer_head c).writer_at ≡ writer_done
      → c.writer.next_sequence ≡ c.sequence
  unfolding writer_head
  ends_at_head c a h e = ground (arith, ==_iff c.writer.next_sequence c.sequence)

  -- Where the writer ends at the head of its loop while nobody has told it to stop, the client has got
  -- the response of every request that has been read.
  pub hangup_complete :
      {c : Connection Q A}
      → Composes compose text responses
      → Reach parse compose responses c
      → c.writer_at ≡ at_head
      → c.write_alive ≡ true
      → (writer_head c).writer_at ≡ writer_done
      → (c.sent ≡ concat_map text (take c.sequence responses)) × (c.sequence ≤ length responses)
  hangup_complete {c} k r h a e =
      let n = ends_at_head c a h e in
      let (_, _, m, all) = sent_in_order k r in
      subst (λ i. (c.sent ≡ concat_map text (take i responses)) × (i ≤ length responses)) n
        (all (rw h refl), m)
