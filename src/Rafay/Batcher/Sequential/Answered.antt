-- ===== src/Rafay/Batcher/Sequential/Answered.antt =====
-- What the steps of the sender for one batch do to an operation of it.
use karpenter_provider_rafay.Prelude.{
  ℕ, String, ◌≡◌, sym, ap, subst, ◌∙◌, true, false, List, [], ◌∷◌, contains,
}
use karpenter_provider_rafay.Rafay.Batcher.{NodeBatcher, BatchItem, OpKind, ops}
use karpenter_provider_rafay.Rafay.Batcher.Send.{SendReply, send_part, send_batch}
use karpenter_provider_rafay.Rafay.Batcher.Replies.{Among, waiters, result_of}
use karpenter_provider_rafay.Rafay.Batcher.System.{System, collecting, run}
use karpenter_provider_rafay.Rafay.Batcher.Sequential.{batch_actions, sender_implements_send_batch}
use karpenter_provider_rafay.Rafay.Batcher.Sequential.Listed.{
  IsListed, IsListed-own, IsListed-other,
}
use karpenter_provider_rafay.Rafay.Batcher.Sequential.Parts.{
  of_kind, other_kind, IsAnswered, partition-of_kind, part_answers, part_keeps, part_delivered,
  IsFlown-after, IsFlown-before,
}

module _ (broker : OpKind → List BatchItem → SendReply) (now : ℕ) (batch : List BatchItem)
    (op : String) (ch : ℕ) where
  abbrev reply_to : OpKind → SendReply
  reply_to k = broker k (of_kind k batch)

  abbrev sent_adds : NodeBatcher → NodeBatcher
  sent_adds b = send_part OpKind.add (of_kind OpKind.add batch) (reply_to OpKind.add) now b

  abbrev sent_both : NodeBatcher → NodeBatcher
  sent_both b =
      send_part OpKind.remove (of_kind OpKind.remove batch) (reply_to OpKind.remove) now
        (sent_adds b)

  both_answer :
      (k : OpKind) (b : NodeBatcher)
      → contains (ops (of_kind k batch)) op ≡ true
      → contains (ops (of_kind (other_kind k) batch)) op ≡ false
      → Among ch (waiters op b)
      → IsAnswered k (reply_to k) op ch b (sent_both b)
  both_answer OpKind.add b has out waits =
      let own =
        part_answers OpKind.add (of_kind OpKind.add batch) (reply_to OpKind.add) now b op ch has
          waits in
      let kept =
        part_keeps OpKind.remove (of_kind OpKind.remove batch) (reply_to OpKind.remove) now
          (sent_adds b) op out in
      (
        part_delivered OpKind.remove (of_kind OpKind.remove batch) (reply_to OpKind.remove) now
            (sent_adds b) ch (result_of OpKind.add (reply_to OpKind.add)) own.0,
        kept.pending ∙ own.1,
        IsFlown-after (reply_to OpKind.add) op b (sent_adds b) (sent_both b) kept own.2,
      )
  both_answer OpKind.remove b has out waits =
      let kept =
        part_keeps OpKind.add (of_kind OpKind.add batch) (reply_to OpKind.add) now b op out in
      let own =
        part_answers OpKind.remove (of_kind OpKind.remove batch) (reply_to OpKind.remove) now
          (sent_adds b) op ch has (rw (kept.pending) waits) in
      (
        own.0,
        own.1,
        IsFlown-before (reply_to OpKind.remove) op b (sent_adds b) (sent_both b) kept own.2,
      )

  both_list :
      (k : OpKind) (b : NodeBatcher)
      → contains (ops (of_kind k batch)) op ≡ true
      → IsListed (reply_to k) (reply_to (other_kind k)) op (sent_both b)
  both_list OpKind.add b has =
      IsListed-other OpKind.remove (of_kind OpKind.remove batch) (reply_to OpKind.remove)
        (reply_to OpKind.add) now (sent_adds b) op
        (IsListed-own OpKind.add (of_kind OpKind.add batch) (reply_to OpKind.add)
          (reply_to OpKind.remove) now b op has)
  both_list OpKind.remove b has =
      IsListed-own OpKind.remove (of_kind OpKind.remove batch) (reply_to OpKind.remove)
        (reply_to OpKind.add) now (sent_adds b) op has

  send_batch-parts : (b : NodeBatcher) → send_batch broker batch now b ≡ sent_both b
  unfolding send_batch
  send_batch-parts b =
      ap
        (λ (p : List BatchItem × List BatchItem).
          send_part OpKind.remove p.1 (broker OpKind.remove p.1) now
            (send_part OpKind.add p.0 (broker OpKind.add p.0) now b))
        (partition-of_kind batch)

-- A batch that the sender has collected, and the steps of the sender for it with no other step in
-- between: for an operation that stands in items of one kind only, each channel that waits for it has
-- got the broker's answer to the items of that kind, the batch ID or the error of their send; nobody
-- waits for the operation any more; if the items were accepted it is in flight and has that batch ID,
-- and is an item of the tracked batch of the ID, unless the items of the other kind were accepted under
-- the same one; if not, it is in flight or not, and has its batch ID, as before. The sender collects
-- again.
pub batch-IsAnswered :
    (broker : OpKind → List BatchItem → SendReply) (now : ℕ) (item : BatchItem)
    (batch : List BatchItem) (s : System) (k : OpKind) (op : String) (ch : ℕ)
    → contains (ops (of_kind k (item ∷ batch))) op ≡ true
    → contains (ops (of_kind (other_kind k) (item ∷ batch))) op ≡ false
    → Among ch (waiters op s.batcher)
    → let after =
        run
          (batch_actions broker now (item ∷ batch))
          (record s { sender = collecting (item ∷ batch) }) in
      (after.sender ≡ collecting [])
      × IsAnswered k (broker k (of_kind k (item ∷ batch))) op ch s.batcher after.batcher
      × IsListed
          (broker k (of_kind k (item ∷ batch)))
          (broker (other_kind k) (of_kind (other_kind k) (item ∷ batch)))
          op
          after.batcher
batch-IsAnswered broker now item batch s k op ch has out waits =
    let whole = sender_implements_send_batch broker now item batch s in
    let both = sym (
      ap (λ (t : System). t.batcher) whole
      ∙ send_batch-parts broker now (item ∷ batch) op ch s.batcher) in
    (
      ap (λ (t : System). t.sender) whole,
      subst (IsAnswered k (broker k (of_kind k (item ∷ batch))) op ch s.batcher) both
          (both_answer broker now (item ∷ batch) op ch k s.batcher has out waits),
      subst
          (IsListed (broker k (of_kind k (item ∷ batch)))
            (broker (other_kind k) (of_kind (other_kind k) (item ∷ batch))) op)
          both (both_list broker now (item ∷ batch) op ch k s.batcher has),
    )
