-- ===== src/Rafay/Batcher/Replies.antt =====
-- What callers get: the effect of an answer to a batch on its operations and on their waiters, and
-- what a further Enqueue of an operation does.
use karpenter_provider_rafay.Prelude.{
  ℕ, ◌<◌, String, ◌≡◌, refl, ◌⊎◌, true, List, [], ◌∷◌, ◌++◌, none, length, lookup, if◌then◌else◌,
  erase, is_some, or_else, contains, ◌==◌, eq_iff, lookup-erase, lookup-insert, Bool-cases,
  Option-cases, inl, inr, arith,
}
use karpenter_provider_rafay.Rafay.Batcher.{
  NodeBatcher, BatchItem, BatchResult, OpKind, send_failed, acked, failed_with, deliver, ops,
  batch_item_queue_buffer,
}
use karpenter_provider_rafay.Rafay.Batcher.Enqueue.{
  deliver_all, resolve_pending, resolve_items, enqueue_item,
}
use karpenter_provider_rafay.Rafay.Batcher.Send.{SendReply, accepted, error, register, finish_send}
use karpenter_provider_rafay.Rafay.Batcher.Channels.{resolve-pending}

-- A channel is in a list; a result has been written to a channel.
abbrev pub Among : ℕ → List ℕ → Type 0
Among ch [] = ⊥
Among ch (x ∷ xs) = (x ≡ ch) ⊎ Among ch xs

abbrev pub HasResult : ℕ → BatchResult → List (ℕ × BatchResult) → Type 0
HasResult ch r [] = ⊥
HasResult ch r ((c, x) ∷ ds) = ((c ≡ ch) × (x ≡ r)) ⊎ HasResult ch r ds

abbrev pub waiters : String → NodeBatcher → List ℕ
waiters op b = or_else (lookup op b.pending) []

-- What was written stays written.
module _ (ch : ℕ) (r : BatchResult) where
  deliver_all_keeps :
      (ws : List ℕ) (x : BatchResult) (b : NodeBatcher)
      → HasResult ch r b.delivered
      → HasResult ch r (deliver_all ws x b).delivered
  unfolding deliver_all
  deliver_all_keeps [] x b h = h
  deliver_all_keeps (w ∷ ws) x b h = deliver_all_keeps ws x (deliver w x b) (inr h)

  deliver_all_reaches :
      (ws : List ℕ) (b : NodeBatcher) → Among ch ws → HasResult ch r (deliver_all ws r b).delivered
  unfolding deliver_all
  deliver_all_reaches [] b h = elim h [ ]
  deliver_all_reaches (w ∷ ws) b (inl e) = deliver_all_keeps ws r (deliver w r b) (inl (e, refl))
  deliver_all_reaches (w ∷ ws) b (inr h) = deliver_all_reaches ws (deliver w r b) h

  pub resolve_keeps :
      (op : String) (x : BatchResult) (b : NodeBatcher)
      → HasResult ch r b.delivered
      → HasResult ch r (resolve_pending op x b).delivered
  unfolding resolve_pending
  resolve_keeps op x b h =
      deliver_all_keeps (waiters op b) x (record b { pending = erase op b.pending }) h

  resolve_reaches :
      (op : String) (b : NodeBatcher)
      → Among ch (waiters op b)
      → HasResult ch r (resolve_pending op r b).delivered
  unfolding resolve_pending
  resolve_reaches op b h =
      deliver_all_reaches (waiters op b) (record b { pending = erase op b.pending }) h

  resolve_items_keeps :
      (batch : List BatchItem) (b : NodeBatcher)
      → HasResult ch r b.delivered
      → HasResult ch r (resolve_items batch r b).delivered
  unfolding resolve_items
  resolve_items_keeps [] b h = h
  resolve_items_keeps (i ∷ batch) b h =
      resolve_items_keeps batch (resolve_pending i.operation_id r b)
        (resolve_keeps i.operation_id r b h)

  -- Every waiter of every item of the batch is written to.
  resolve_items_reaches :
      (batch : List BatchItem) (op : String) (b : NodeBatcher)
      → contains (ops batch) op ≡ true
      → Among ch (waiters op b)
      → HasResult ch r (resolve_items batch r b).delivered
  unfolding resolve_items contains
  resolve_items_reaches [] op b c h = cc
  resolve_items_reaches (i ∷ batch) op b c h = elim (Bool-cases (i.operation_id == op)) [
    | inl e ↦
        resolve_items_keeps batch (resolve_pending i.operation_id r b)
          (resolve_reaches i.operation_id b (rw ((eq_iff i.operation_id op).0 e) h))
    | inr e ↦
        resolve_items_reaches batch op (resolve_pending i.operation_id r b) (ground arith)
          (rw (resolve-pending i.operation_id r b, lookup-erase, e) h)
  ]

-- The waiters of an operation are gone once its item has been resolved.
pub resolve_items_clears :
    (batch : List BatchItem) (op : String) (r : BatchResult) (b : NodeBatcher)
    → lookup op (resolve_items batch r b).pending
      ≡ (if contains (ops batch) op then none else lookup op b.pending)
unfolding resolve_items contains
resolve_items_clears [] op r b = refl
resolve_items_clears (i ∷ batch) op r b = ground (
  arith,
  resolve_items_clears batch op r (resolve_pending i.operation_id r b),
  resolve-pending i.operation_id r b,
  lookup-erase i.operation_id op b.pending,
)

abbrev pub result_of : OpKind → SendReply → BatchResult
result_of kind (accepted id) = acked id
result_of kind (error e) = failed_with (send_failed kind e)

-- When the broker has answered a batch, every channel that waited for an operation of the batch has
-- got the result (the batch ID, or the error of the send), and nobody waits for it any more.
pub finish_send_answers :
    (kind : OpKind) (batch : List BatchItem) (reply : SendReply) (now : ℕ) (b : NodeBatcher)
    (op : String) (ch : ℕ)
    → contains (ops batch) op ≡ true
    → Among ch (waiters op b)
    → HasResult ch (result_of kind reply) (finish_send kind batch reply now b).delivered
      × (lookup op (finish_send kind batch reply now b).pending ≡ none)
unfolding finish_send
finish_send_answers kind batch (accepted id) now b op ch c h = (
  resolve_items_reaches ch (acked id) batch op (register kind id batch now b) c h,
  ground (arith, resolve_items_clears batch op (acked id) (register kind id batch now b)),
)
finish_send_answers kind batch (error e) now b op ch c h = (
  resolve_items_reaches ch (failed_with (send_failed kind e)) batch op b c h,
  ground (arith, resolve_items_clears batch op (failed_with (send_failed kind e)) b),
)

-- Enqueueing an operation again, before its result is known and while the queue has room for the
-- first call, adds no second item to the queue and changes nothing of what is in flight.
pub enqueue_again :
    (first second : BatchItem) (b : NodeBatcher)
    → first.operation_id ≡ second.operation_id
    → length b.queue < batch_item_queue_buffer
    → let once = (enqueue_item first b).1 in
      let twice = (enqueue_item second once).1 in
      (twice.queue ≡ once.queue) × (twice.in_flight ≡ once.in_flight)
unfolding enqueue_item
enqueue_again first second b same room = ground (
  arith,
  lookup-insert first.operation_id second.operation_id
      (waiters first.operation_id b ++ b.next_chan ∷ []) b.pending,
  lookup-insert first.operation_id second.operation_id (b.next_chan ∷ []) b.pending,
  eq_iff first.operation_id second.operation_id,
)

-- While an operation is in flight, enqueueing it writes the ID of its batch to the new channel at
-- once; the queue and the waiters stay as they are.
pub enqueue_in_flight :
    (item : BatchItem) (b : NodeBatcher)
    → is_some (lookup item.operation_id b.in_flight) ≡ true
    → let r = enqueue_item item b in
      HasResult r.0 (acked (or_else (lookup item.operation_id b.op_batch) "")) r.1.delivered
      × (r.1.queue ≡ b.queue)
      × (r.1.pending ≡ b.pending)
unfolding enqueue_item
enqueue_in_flight item b h = elim (Option-cases (lookup item.operation_id b.in_flight)) [
  | inl e ↦ absurd (ground (arith, e))
  | inr (u, e) ↦ rw (e, enqueue_item) (inl (refl, refl), refl, refl)
]
