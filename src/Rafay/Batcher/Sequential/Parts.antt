-- ===== src/Rafay/Batcher/Sequential/Parts.antt =====
-- What the answer to a part of a batch does to an operation of it, and to one that is not of it.
use karpenter_provider_rafay.Prelude.{
  ℕ, String, ◌≡◌, refl, ap, ◌∙◌, Bool, true, false, List, [], ◌∷◌, none, some, lookup, contains,
  lookup-insert_all, arith,
}
use karpenter_provider_rafay.Rafay.Batcher.{
  NodeBatcher, BatchItem, BatchResult, OpKind, acked, failed_with, send_failed, ops,
}
use karpenter_provider_rafay.Rafay.Batcher.Enqueue.{resolve_items, resolve_pending}
use karpenter_provider_rafay.Rafay.Batcher.Send.{
  SendReply, accepted, error, is_remove, partition, register, finish_send, send_part,
  register_and_ack, fail_batch_send,
}
use karpenter_provider_rafay.Rafay.Batcher.Local.{resolve_items-SameFlight}
use karpenter_provider_rafay.Rafay.Batcher.Replies.{
  HasResult, Among, waiters, result_of, finish_send_answers, resolve_keeps, resolve_items_clears,
}

abbrev pub is_of : OpKind → BatchItem → Bool
is_of OpKind.add item = elim item.kind [ OpKind.add ↦ true | OpKind.remove ↦ false ]
is_of OpKind.remove item = elim item.kind [ OpKind.add ↦ false | OpKind.remove ↦ true ]

-- The items of a kind, in their order.
abbrev pub of_kind : OpKind → List BatchItem → List BatchItem
of_kind k [] = []
of_kind k (item ∷ batch) = elim (is_of k item) [
  | true ↦ item ∷ of_kind k batch
  | false ↦ of_kind k batch
]

pub partition-of_kind :
    (batch : List BatchItem)
    → partition batch ≡ (of_kind OpKind.add batch, of_kind OpKind.remove batch)
unfolding partition is_remove
partition-of_kind [] = refl
partition-of_kind (item ∷ batch) = ground (arith, partition-of_kind batch)

-- The other kind.
abbrev pub other_kind : OpKind → OpKind
other_kind OpKind.add = OpKind.remove
other_kind OpKind.remove = OpKind.add

-- An acknowledged operation is in flight with its batch; one of a failed send is as it was.
abbrev pub IsFlown : SendReply → String → NodeBatcher → NodeBatcher → Type 0
IsFlown (accepted id) op before after =
    (lookup op after.in_flight ≡ some tt) × (lookup op after.op_batch ≡ some id)
IsFlown (error e) op before after =
    (lookup op after.in_flight ≡ lookup op before.in_flight)
    × (lookup op after.op_batch ≡ lookup op before.op_batch)

-- What is known of an operation and of one of its channels.
pub record Same (op : String) (before after : NodeBatcher) : Type 0 where
  pub pending : lookup op after.pending ≡ lookup op before.pending
  pub in_flight : lookup op after.in_flight ≡ lookup op before.in_flight
  pub op_batch : lookup op after.op_batch ≡ lookup op before.op_batch

IsFlown-own :
    (k : OpKind) (batch : List BatchItem) (reply : SendReply) (now : ℕ) (b : NodeBatcher)
    (op : String)
    → contains (ops batch) op ≡ true
    → IsFlown reply op b (finish_send k batch reply now b)
unfolding finish_send register_and_ack fail_batch_send register
IsFlown-own k batch (accepted id) now b op has =
    let f = resolve_items-SameFlight batch (acked id) (register k id batch now b) in
    (
      ap (lookup op) f.in_flight
          ∙ ground (arith, lookup-insert_all (ops batch) op tt b.in_flight, has),
      ap (lookup op) f.op_batch
          ∙ ground (arith, lookup-insert_all (ops batch) op id b.op_batch, has),
    )
IsFlown-own k batch (error e) now b op has =
    let f = resolve_items-SameFlight batch (failed_with (send_failed k e)) b in
    (ap (lookup op) f.in_flight, ap (lookup op) f.op_batch)

Same-other :
    (k : OpKind) (batch : List BatchItem) (reply : SendReply) (now : ℕ) (b : NodeBatcher)
    (op : String)
    → contains (ops batch) op ≡ false
    → Same op b (finish_send k batch reply now b)
unfolding finish_send register_and_ack fail_batch_send register
Same-other k batch (accepted id) now b op out =
    let f = resolve_items-SameFlight batch (acked id) (register k id batch now b) in
    record {
      pending =
          resolve_items_clears batch op (acked id) (register k id batch now b)
          ∙ ground (arith, out);
      in_flight =
          ap (lookup op) f.in_flight
          ∙ ground (arith, lookup-insert_all (ops batch) op tt b.in_flight, out);
      op_batch =
          ap (lookup op) f.op_batch
          ∙ ground (arith, lookup-insert_all (ops batch) op id b.op_batch, out);
    }
Same-other k batch (error e) now b op out =
    let f = resolve_items-SameFlight batch (failed_with (send_failed k e)) b in
    record {
      pending =
          resolve_items_clears batch op (failed_with (send_failed k e)) b ∙ ground (arith, out);
      in_flight = ap (lookup op) f.in_flight;
      op_batch = ap (lookup op) f.op_batch;
    }

delivered_over :
    (items : List BatchItem) (x : BatchResult) (b : NodeBatcher) (ch : ℕ) (r : BatchResult)
    → HasResult ch r b.delivered
    → HasResult ch r (resolve_items items x b).delivered
unfolding resolve_items
delivered_over [] x b ch r h = h
delivered_over (i ∷ items) x b ch r h =
    delivered_over items x (resolve_pending i.operation_id x b) ch r
      (resolve_keeps ch r i.operation_id x b h)

delivered_stays :
    (k : OpKind) (batch : List BatchItem) (reply : SendReply) (now : ℕ) (b : NodeBatcher) (ch : ℕ)
    (r : BatchResult)
    → HasResult ch r b.delivered
    → HasResult ch r (finish_send k batch reply now b).delivered
unfolding finish_send register_and_ack fail_batch_send register
delivered_stays k batch (accepted id) now b ch r h =
    delivered_over batch (acked id) (register k id batch now b) ch r h
delivered_stays k batch (error e) now b ch r h =
    delivered_over batch (failed_with (send_failed k e)) b ch r h

-- What the steps do to an operation of the kind `k` that a channel waits for.
abbrev pub IsAnswered : OpKind → SendReply → String → ℕ → NodeBatcher → NodeBatcher → Type 0
IsAnswered k reply op ch before after =
    HasResult ch (result_of k reply) after.delivered
    × (lookup op after.pending ≡ none)
    × IsFlown reply op before after

pub part_answers :
    (k : OpKind) (part : List BatchItem) (reply : SendReply) (now : ℕ) (b : NodeBatcher)
    (op : String) (ch : ℕ)
    → contains (ops part) op ≡ true
    → Among ch (waiters op b)
    → IsAnswered k reply op ch b (send_part k part reply now b)
unfolding send_part contains
part_answers k [] reply now b op ch has waits = cc
part_answers k (item ∷ part) reply now b op ch has waits =
    let a = finish_send_answers k (item ∷ part) reply now b op ch has waits in
    (a.0, a.1, IsFlown-own k (item ∷ part) reply now b op has)

pub part_keeps :
    (k : OpKind) (part : List BatchItem) (reply : SendReply) (now : ℕ) (b : NodeBatcher)
    (op : String)
    → contains (ops part) op ≡ false
    → Same op b (send_part k part reply now b)
unfolding send_part
part_keeps k [] reply now b op out = record { pending = refl; in_flight = refl; op_batch = refl }
part_keeps k (item ∷ part) reply now b op out = Same-other k (item ∷ part) reply now b op out

pub part_delivered :
    (k : OpKind) (part : List BatchItem) (reply : SendReply) (now : ℕ) (b : NodeBatcher) (ch : ℕ)
    (r : BatchResult)
    → HasResult ch r b.delivered
    → HasResult ch r (send_part k part reply now b).delivered
unfolding send_part
part_delivered k [] reply now b ch r h = h
part_delivered k (item ∷ part) reply now b ch r h =
    delivered_stays k (item ∷ part) reply now b ch r h

-- The same state before, or after, as far as the operation goes.
pub IsFlown-after :
    (reply : SendReply) (op : String) (a b c : NodeBatcher)
    → Same op b c
    → IsFlown reply op a b
    → IsFlown reply op a c
IsFlown-after (accepted id) op a b c s f = (s.in_flight ∙ f.0, s.op_batch ∙ f.1)
IsFlown-after (error e) op a b c s f = (s.in_flight ∙ f.0, s.op_batch ∙ f.1)

pub IsFlown-before :
    (reply : SendReply) (op : String) (a b c : NodeBatcher)
    → Same op a b
    → IsFlown reply op b c
    → IsFlown reply op a c
IsFlown-before (accepted id) op a b c s f = f
IsFlown-before (error e) op a b c s f = (f.0 ∙ s.in_flight, f.1 ∙ s.op_batch)
