-- ===== src/Rafay/Batcher/Channels.antt =====
-- Result channels: each one that enqueueItem makes is with its caller, waits in `pending`, or has
-- been written, exactly one of the three and once.
pub mod Steps
use karpenter_provider_rafay.Prelude.{
  ℕ, zero, suc, ◌+◌, String, ◌≡◌, refl, ap, Bool, List, [], ◌∷◌, ◌++◌, Option, none, some, Dict,
  lookup, insert, erase, or_else, nat_eq, ltb, Option-cases, inl, inr, if◌then◌else◌, arith, ◌==◌,
  eq_iff, lookup-erase, IsKeyed, erase_absent, erase-IsKeyed, insert-IsKeyed, erase-insert_self,
}
use karpenter_provider_rafay.Rafay.Batcher.{
  NodeBatcher, BatchItem, BatchResult, InProgressBatch, FailureCall, OpKind, deliver,
}
use karpenter_provider_rafay.Rafay.Batcher.Enqueue.{join_or_queue, deliver_all, resolve_pending}
use karpenter_provider_rafay.Rafay.Batcher.Send.{
  SendReply, accepted, error, register, resume_add_batch,
}
use karpenter_provider_rafay.Rafay.Batcher.Poll.{
  PollReply, PollStart, stop, ask, dropped, results, error as poll_error, drop_batch, poll_start,
  poll_finish,
}
use karpenter_provider_rafay.Rafay.Batcher.System.{
  System, Sender, collecting, sending, resolving, Action, arrive, join, receive, close, sent,
  resolve, advance, poll_starts, poll_answered, resume, take_caller, arrives, joins, receives,
  closes, answered, sends, resolves, advances, step, run, start,
}

abbrev pub one_if : Bool → ℕ
one_if b = if b then 1 else 0

-- How often a channel stands in a list, among the written ones, among the waiters, and with callers.
abbrev pub count : ℕ → List ℕ → ℕ
count c [] = 0
count c (x ∷ xs) = one_if (nat_eq x c) + count c xs

abbrev pub written : ℕ → List (ℕ × BatchResult) → ℕ
written c [] = 0
written c ((x, r) ∷ ds) = one_if (nat_eq x c) + written c ds

abbrev pub waiting : ℕ → Dict (List ℕ) → ℕ
waiting c [] = 0
waiting c ((op, ws) ∷ m) = count c ws + waiting c m

abbrev pub with_callers : ℕ → List (BatchItem × ℕ) → ℕ
with_callers c [] = 0
with_callers c ((item, x) ∷ cs) = one_if (nat_eq x c) + with_callers c cs

count-append : (c : ℕ) (xs ys : List ℕ) → count c (xs ++ ys) ≡ count c xs + count c ys
count-append c [] ys = omega arith
count-append c (x ∷ xs) ys = omega (arith, count-append c xs ys)

waiting-erase :
    (c : ℕ) (k : String) (m : Dict (List ℕ))
    → IsKeyed m
    → waiting c m ≡ count c (or_else (lookup k m) []) + waiting c (erase k m)
unfolding lookup erase
waiting-erase c k [] h = omega arith
waiting-erase c k ((j, v) ∷ m) h = ground (arith, waiting-erase c k m h.1, eq_iff j k)

waiting-insert :
    (c : ℕ) (k : String) (ws : List ℕ) (m : Dict (List ℕ))
    → waiting c (insert k ws m) ≡ count c ws + waiting c (erase k m)
unfolding insert
waiting-insert c k ws m = refl

-- The channels that a batcher accounts for: written ones and waiters.
abbrev spread : ℕ → NodeBatcher → ℕ
spread c b = written c b.delivered + waiting c b.pending

module _ (item : BatchItem) (ch : ℕ) (b : NodeBatcher) where
  join-IsKeyed : IsKeyed b.pending → IsKeyed (join_or_queue item ch b).pending
  unfolding join_or_queue
  join-IsKeyed h = ground (
    arith,
    insert-IsKeyed item.operation_id (or_else (lookup item.operation_id b.pending) [] ++ ch ∷ [])
        b.pending h,
    insert-IsKeyed item.operation_id (ch ∷ []) b.pending h,
    erase-IsKeyed item.operation_id (insert item.operation_id (ch ∷ []) b.pending),
  )

  join-next_chan : (join_or_queue item ch b).next_chan ≡ b.next_chan
  unfolding join_or_queue
  join-next_chan = ground arith

  spread-join :
      (c : ℕ)
      → IsKeyed b.pending
      → spread c (join_or_queue item ch b) ≡ spread c b + one_if (nat_eq ch c)
  unfolding join_or_queue
  spread-join c h = ground (
    arith,
    waiting-erase c item.operation_id b.pending h,
    waiting-insert c item.operation_id (ch ∷ []) b.pending,
    waiting-insert c item.operation_id (or_else (lookup item.operation_id b.pending) [] ++ ch ∷ [])
        b.pending,
    count-append c (or_else (lookup item.operation_id b.pending) []) (ch ∷ []),
    erase-insert_self item.operation_id (ch ∷ []) b.pending,
  )

abbrev waiters_of : String → NodeBatcher → List ℕ
waiters_of op b = or_else (lookup op b.pending) []

abbrev without : String → NodeBatcher → NodeBatcher
without op b = record b { pending = erase op b.pending }

module _ (r : BatchResult) where
  deliver_all-pending : (ws : List ℕ) (b : NodeBatcher) → (deliver_all ws r b).pending ≡ b.pending
  unfolding deliver_all
  deliver_all-pending [] b = refl
  deliver_all-pending (w ∷ ws) b = deliver_all-pending ws (deliver w r b)

  deliver_all-next_chan :
      (ws : List ℕ) (b : NodeBatcher) → (deliver_all ws r b).next_chan ≡ b.next_chan
  unfolding deliver_all
  deliver_all-next_chan [] b = refl
  deliver_all-next_chan (w ∷ ws) b = deliver_all-next_chan ws (deliver w r b)

  deliver_all-queue : (ws : List ℕ) (b : NodeBatcher) → (deliver_all ws r b).queue ≡ b.queue
  unfolding deliver_all
  deliver_all-queue [] b = refl
  deliver_all-queue (w ∷ ws) b = deliver_all-queue ws (deliver w r b)

  written-deliver_all :
      (c : ℕ) (ws : List ℕ) (b : NodeBatcher)
      → written c (deliver_all ws r b).delivered ≡ count c ws + written c b.delivered
  unfolding deliver_all
  written-deliver_all c [] b = omega arith
  written-deliver_all c (w ∷ ws) b = omega (arith, written-deliver_all c ws (deliver w r b))

module _ (op : String) (r : BatchResult) (b : NodeBatcher) where
  pub resolve-pending : (resolve_pending op r b).pending ≡ erase op b.pending
  unfolding resolve_pending
  resolve-pending = deliver_all-pending r (waiters_of op b) (without op b)

  pub resolve-next_chan : (resolve_pending op r b).next_chan ≡ b.next_chan
  unfolding resolve_pending
  resolve-next_chan = deliver_all-next_chan r (waiters_of op b) (without op b)

  pub resolve-queue : (resolve_pending op r b).queue ≡ b.queue
  unfolding resolve_pending
  resolve-queue = deliver_all-queue r (waiters_of op b) (without op b)

  spread-resolve : (c : ℕ) → IsKeyed b.pending → spread c (resolve_pending op r b) ≡ spread c b
  unfolding resolve_pending
  spread-resolve c h =
      rw (deliver_all-pending, written-deliver_all) (omega (arith, waiting-erase c op b.pending h))

-- Every channel below `next_chan` is accounted for once, and no other.
pub record IsAccounted (s : System) : Type 0 where
  pub keyed : IsKeyed s.batcher.pending
  pub each :
      (c : ℕ) → spread c s.batcher + with_callers c s.callers ≡ one_if (ltb c s.batcher.next_chan)

-- What the sender, the poller and the resume leave as it is.
pub record SameChannels (a b : NodeBatcher) : Type 0 where
  pub delivered : b.delivered ≡ a.delivered
  pub pending : b.pending ≡ a.pending
  pub next_chan : b.next_chan ≡ a.next_chan
  pub queue : b.queue ≡ a.queue

module _ (b : NodeBatcher) where
  pub register-SameChannels :
      (kind : OpKind) (id : String) (batch : List BatchItem) (now : ℕ)
      → SameChannels b (register kind id batch now b)
  unfolding register
  register-SameChannels kind id batch now = record {
    delivered = refl;
    pending = refl;
    next_chan = refl;
    queue = refl;
  }

  pub resume-SameChannels :
      (id : String) (op_ids : List String) (now : ℕ)
      → SameChannels b (resume_add_batch id op_ids now b).1
  unfolding resume_add_batch
  resume-SameChannels id op_ids now = ground arith

  drop-SameChannels : (id : String) (bp : InProgressBatch) → SameChannels b (drop_batch id bp b).0
  unfolding drop_batch
  drop-SameChannels id bp = record {
    delivered = refl;
    pending = refl;
    next_chan = refl;
    queue = refl;
  }

  pub poll_finish-SameChannels :
      (now : ℕ) (id : String) (reply : PollReply) → SameChannels b (poll_finish now id reply b).0
  unfolding poll_finish
  poll_finish-SameChannels now id (poll_error e) = ground arith
  poll_finish-SameChannels now id (results []) = ground arith
  poll_finish-SameChannels now id (results (r ∷ rs)) = ground arith

  pub poll_start-SameChannels :
      (now : ℕ) (id : String) (r : NodeBatcher × List FailureCall)
      → poll_start now id b ≡ dropped r
      → SameChannels b r.0
  unfolding poll_start
  poll_start-SameChannels now id r h = ground arith

with_callers-take :
    (ch c : ℕ) (cs : List (BatchItem × ℕ)) (item : BatchItem) (rest : List (BatchItem × ℕ))
    → take_caller ch cs ≡ some (item, rest)
    → with_callers c cs ≡ with_callers c rest + one_if (nat_eq ch c)
with_callers-take ch c [] item rest h = cc
with_callers-take ch c ((i, x) ∷ cs) item rest h = elim (Option-cases (take_caller ch cs)) [
  | inl e ↦ ground arith
  | inr ((other, others), e) ↦ ground (arith, with_callers-take ch c cs other others e)
]
