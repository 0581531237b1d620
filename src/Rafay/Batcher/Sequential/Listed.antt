-- ===== src/Rafay/Batcher/Sequential/Listed.antt =====
-- An operation of an accepted part of a batch is tracked.
use karpenter_provider_rafay.Prelude.{
  ℕ, String, ◌≡◌, sym, ap, ◌∙◌, ◌⊎◌, inl, inr, true, List, [], ◌∷◌, contains, eq_iff, ◌==◌,
  Bool-cases,
}
use karpenter_provider_rafay.Rafay.Batcher.{
  NodeBatcher, BatchItem, OpKind, acked, failed_with, send_failed, ops,
}
use karpenter_provider_rafay.Rafay.Batcher.Send.{
  SendReply, accepted, error, register, finish_send, send_part, register_and_ack, fail_batch_send,
}
use karpenter_provider_rafay.Rafay.Batcher.Accounted.{
  under, under_in, under-insert, under-insert_self,
}
use karpenter_provider_rafay.Rafay.Batcher.Local.{resolve_items-SameFlight}

-- An accepted operation is an item of the tracked batch of that ID, unless the broker has accepted the
-- items of the other kind under the same ID.
abbrev pub IsListed : SendReply → SendReply → String → NodeBatcher → Type 0
IsListed (accepted id) other op after = (under id op after ≡ true) ⊎ (other ≡ accepted id)
IsListed (error e) other op after = Unit

same_progress :
    (id op : String) (a b : NodeBatcher)
    → b.in_progress ≡ a.in_progress
    → under id op b ≡ under id op a
same_progress id op a b e = ap (under_in id op) e

pub IsListed-own :
    (k : OpKind) (part : List BatchItem) (reply other : SendReply) (now : ℕ) (b : NodeBatcher)
    (op : String)
    → contains (ops part) op ≡ true
    → IsListed reply other op (send_part k part reply now b)
unfolding send_part finish_send register_and_ack register contains
IsListed-own k [] reply other now b op has = cc
IsListed-own k (item ∷ part) (error e) other now b op has = tt
IsListed-own k (item ∷ part) (accepted id) other now b op has = inl (
    same_progress id op (register k id (item ∷ part) now b)
      (finish_send k (item ∷ part) (accepted id) now b)
      (resolve_items-SameFlight (item ∷ part) (acked id)
        (register k id (item ∷ part) now b)).in_progress
    ∙ under-insert_self id op _ b.in_progress
    ∙ has)

same_id : (i j : String) → i ≡ j → accepted i ≡ accepted j
same_id i j e = ap accepted e

pub IsListed-other :
    (k : OpKind) (part : List BatchItem) (reply mine : SendReply) (now : ℕ) (b : NodeBatcher)
    (op : String)
    → IsListed mine reply op b
    → IsListed mine reply op (send_part k part reply now b)
unfolding send_part finish_send register_and_ack register fail_batch_send
IsListed-other k part reply (error e) now b op h = tt
IsListed-other k part reply (accepted id) now b op (inr same) = inr same
IsListed-other k [] reply (accepted id) now b op (inl h) = inl h
IsListed-other k (item ∷ part) (error e) (accepted id) now b op (inl h) = inl (
    same_progress id op b (finish_send k (item ∷ part) (error e) now b)
      (resolve_items-SameFlight (item ∷ part) (failed_with (send_failed k e)) b).in_progress
    ∙ h)
IsListed-other k (item ∷ part) (accepted j) (accepted id) now b op (inl h) =
    elim (Bool-cases (id == j)) [
      | inl same ↦ inr (same_id j id (sym ((eq_iff id j).0 same)))
      | inr other ↦ inl (
          same_progress id op (register k j (item ∷ part) now b)
            (finish_send k (item ∷ part) (accepted j) now b)
            (resolve_items-SameFlight (item ∷ part) (acked j)
              (register k j (item ∷ part) now b)).in_progress
          ∙ under-insert id op j _ b.in_progress other
          ∙ h)
    ]
