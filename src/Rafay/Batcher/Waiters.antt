-- ===== src/Rafay/Batcher/Waiters.antt =====
-- No waiter is orphaned: whoever waits for an operation has an item of it in the queue or with the
-- batch sender, so the sender gets to resolving it.
pub mod Steps
use karpenter_provider_rafay.Prelude.{
  ℕ, String, ◌≡◌, refl, Bool, true, false, ◌||◌, List, [], ◌∷◌, ◌++◌, Option, none, some, map,
  lookup, insert, erase, or_else, is_some, contains, arith, ◌==◌, eq_iff, lookup-erase,
  lookup-insert, Option-cases, inl, inr,
}
use karpenter_provider_rafay.Rafay.Batcher.{
  NodeBatcher, BatchItem, BatchResult, OpKind, send_failed, acked, failed_with, ops,
}
use karpenter_provider_rafay.Rafay.Batcher.Enqueue.{join_or_queue, deliver_all, resolve_pending}
use karpenter_provider_rafay.Rafay.Batcher.Send.{SendReply, accepted, error, partition}
use karpenter_provider_rafay.Rafay.Batcher.Poll.{PollStart, stop, ask, dropped, poll_start}
use karpenter_provider_rafay.Rafay.Batcher.System.{
  System, Sender, collecting, sending, resolving, Action, arrive, join, receive, close, sent,
  resolve, advance, poll_starts, poll_answered, resume, answers, take_caller, arrives, joins,
  take_item, receives, closes, answered, sends, resolves, advances, step, run, start,
}
use karpenter_provider_rafay.Rafay.Batcher.Channels.{
  SameChannels, resolve-pending, resolve-queue, register-SameChannels, resume-SameChannels,
  poll_finish-SameChannels, poll_start-SameChannels,
}
use karpenter_provider_rafay.Rafay.Batcher.Channels.Steps.{unchanged}

abbrev pub in_hand : Sender → String → Bool
in_hand (collecting xs) op = contains (ops xs) op
in_hand (sending adds removes) op = contains (ops adds) op || contains (ops removes) op
in_hand (resolving waiters removes) op =
    contains (map (λ w. w.0) waiters) op || contains (ops removes) op

abbrev pub at_work : System → String → Bool
at_work s op = contains (ops s.batcher.queue) op || in_hand s.sender op

abbrev pub IsCovered : System → Type 0
IsCovered s = (op : String) → is_some (lookup op s.batcher.pending) ≡ true → at_work s op ≡ true

pub contains-append :
    (op : String) (xs ys : List BatchItem)
    → contains (ops (xs ++ ys)) op ≡ (contains (ops xs) op || contains (ops ys) op)
unfolding contains
contains-append op [] ys = refl
contains-append op (x ∷ xs) ys = ground (arith, contains-append op xs ys)

contains-partition :
    (op : String) (xs : List BatchItem)
    → contains (ops xs) op
      ≡ (contains (ops (partition xs).0) op || contains (ops (partition xs).1) op)
unfolding contains partition
contains-partition op [] = refl
contains-partition op (x ∷ xs) = ground (arith, contains-partition op xs)

contains-answers :
    (op : String) (xs : List BatchItem) (r : BatchResult)
    → contains (map (λ w. w.0) (answers xs r)) op ≡ contains (ops xs) op
unfolding contains
contains-answers op [] r = refl
contains-answers op (x ∷ xs) r = ground (arith, contains-answers op xs r)

contains_one : (op : String) (x : BatchItem) → contains (ops (x ∷ [])) op ≡ (x.operation_id == op)
unfolding contains
contains_one op x = ground arith

-- A step that changes neither the queue nor `pending`, and whose sender holds no less.
same-IsCovered :
    (s t : System)
    → SameChannels s.batcher t.batcher
    → ((op : String) → in_hand s.sender op ≡ true → in_hand t.sender op ≡ true)
    → IsCovered s
    → IsCovered t
same-IsCovered s t same hand v op h =
    ground (arith, same.queue, same.pending, v op (rw (← same.pending) h), hand op)

join-covers :
    (item : BatchItem) (ch : ℕ) (b : NodeBatcher) (op : String) (hand : Bool)
    → (is_some (lookup op b.pending) ≡ true → (contains (ops b.queue) op || hand) ≡ true)
    → is_some (lookup op (join_or_queue item ch b).pending) ≡ true
    → (contains (ops (join_or_queue item ch b).queue) op || hand) ≡ true
unfolding join_or_queue
join-covers item ch b op hand v h = ground (
  arith,
  lookup-insert item.operation_id op (or_else (lookup item.operation_id b.pending) [] ++ ch ∷ [])
      b.pending,
  lookup-insert item.operation_id op (ch ∷ []) b.pending,
  lookup-erase item.operation_id op (insert item.operation_id (ch ∷ []) b.pending),
  contains-append op b.queue (item ∷ []),
  contains_one op item,
  eq_iff item.operation_id op,
)
