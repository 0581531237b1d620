-- ===== src/Rafay/Batcher/Enqueue.antt =====
-- Enqueue, EnqueueRemove, enqueueItem and resolvePending of pkg/rafay/batcher.go.
-- `enqueue_item` takes two locks one after the other: what it does under `mu` is
-- `check_in_flight`, what it does under `pendingMu` is `join_or_queue`.
use karpenter_provider_rafay.Prelude.{
  ℕ, suc, String, List, [], ◌∷◌, ◌++◌, Option, none, some, lookup, insert, erase, is_some, or_else,
  length, ltb, if◌then◌else◌,
}
use karpenter_provider_rafay.Rafay.Batcher.{
  NodeBatcher, BatchItem, BatchResult, AddNodesRequest, RemoveNodesRequest, OpKind, queue_full,
  no_add, no_remove, acked, failed_with, deliver, batch_item_queue_buffer,
}

-- ch := make(chan BatchResult, 1)
unfoldable pub make_chan : NodeBatcher → ℕ × NodeBatcher
make_chan b = (b.next_chan, record b { next_chan = suc b.next_chan })

-- The part under `mu`: the operation is in flight in this batch, or it is not in flight.
unfoldable pub check_in_flight : String → NodeBatcher → Option String
check_in_flight op b =
    if is_some (lookup op b.in_flight) then some (or_else (lookup op b.op_batch) "") else none

-- The part under `pendingMu`.
unfoldable pub join_or_queue : BatchItem → ℕ → NodeBatcher → NodeBatcher
join_or_queue item ch b = elim (lookup item.operation_id b.pending) [
  | some waiters ↦ record b { pending = insert item.operation_id (waiters ++ ch ∷ []) b.pending }
  | none ↦
      let registered = insert item.operation_id (ch ∷ []) b.pending in
      if ltb (length b.queue) batch_item_queue_buffer
      then record b { pending = registered; queue = b.queue ++ item ∷ [] }
      else deliver ch (failed_with queue_full)
          (record b { pending = erase item.operation_id registered })
]

unfoldable pub enqueue_item : BatchItem → NodeBatcher → ℕ × NodeBatcher
unfolding make_chan check_in_flight join_or_queue
enqueue_item item b =
    let (ch, made) = make_chan b in
    elim (check_in_flight item.operation_id made) [
      | some batch_id ↦ (ch, deliver ch (acked batch_id) made)
      | none ↦ (ch, join_or_queue item ch made)
    ]

unfoldable pub enqueue : String → AddNodesRequest → NodeBatcher → ℕ × NodeBatcher
unfolding enqueue_item
enqueue operation_id req b =
    enqueue_item
      (record { operation_id = operation_id; kind = OpKind.add; req = req; remove_req = no_remove })
      b

unfoldable pub enqueue_remove : String → RemoveNodesRequest → NodeBatcher → ℕ × NodeBatcher
unfolding enqueue_item
enqueue_remove operation_id req b =
    enqueue_item
      (record { operation_id = operation_id; kind = OpKind.remove; req = no_add; remove_req = req })
      b

-- for _, ch := range waiters { ch <- result }
unfoldable pub deliver_all : List ℕ → BatchResult → NodeBatcher → NodeBatcher
deliver_all [] result b = b
deliver_all (ch ∷ waiters) result b = deliver_all waiters result (deliver ch result b)

unfoldable pub resolve_pending : String → BatchResult → NodeBatcher → NodeBatcher
unfolding deliver_all
resolve_pending op result b =
    deliver_all (or_else (lookup op b.pending) []) result
      (record b { pending = erase op b.pending })

-- for _, item := range batch { b.resolvePending(item.operationID, result) }
unfoldable pub resolve_items : List BatchItem → BatchResult → NodeBatcher → NodeBatcher
unfolding resolve_pending
resolve_items [] result b = b
resolve_items (item ∷ batch) result b =
    resolve_items batch result (resolve_pending item.operation_id result b)
