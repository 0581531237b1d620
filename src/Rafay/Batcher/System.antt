-- ===== src/Rafay/Batcher/System.antt =====
-- The goroutines that share the NodeBatcher, as steps that one lock or one channel operation makes
-- atomic: callers of Enqueue and EnqueueRemove, the batch sender, the status poller, the resume at
-- startup. A schedule is a list of actions; an action that is not enabled changes nothing.
use karpenter_provider_rafay.Prelude.{
  ℕ, String, Bool, true, false, List, [], ◌∷◌, ◌++◌, Option, none, some, map, length, ltb, nat_eq,
  if◌then◌else◌,
}
use karpenter_provider_rafay.Rafay.Batcher.{
  NodeBatcher, BatchItem, BatchResult, FailureCall, OpKind, send_failed, acked, failed_with,
  deliver, new_node_batcher,
}
use karpenter_provider_rafay.Rafay.Batcher.Enqueue.{
  make_chan, check_in_flight, join_or_queue, resolve_pending,
}
use karpenter_provider_rafay.Rafay.Batcher.Send.{
  SendReply, accepted, error, partition, register, resume_add_batch,
}
use karpenter_provider_rafay.Rafay.Batcher.Poll.{
  PollReply, stop, dropped, ask, poll_start, poll_finish,
}

-- Where the batch sender stands: it collects a batch; it is about to send the adds and then the
-- removes; it resolves the waiters of the part just sent, with the removes still to send.
pub data Sender : Type 0 where
  collecting : List BatchItem → Sender
  sending : List BatchItem → List BatchItem → Sender
  resolving : List (String × BatchResult) → List BatchItem → Sender

-- A caller that has released `mu` and not yet taken `pendingMu` holds its item and its channel.
pub record System : Type 0 where
  pub batcher : NodeBatcher
  pub callers : List (BatchItem × ℕ)
  pub sender : Sender
  pub reported : List FailureCall

pub data Action : Type 0 where
  -- an Enqueue or EnqueueRemove makes its channel and looks under `mu`
  arrive : BatchItem → Action
  -- the caller with this channel goes on under `pendingMu`
  join : ℕ → Action
  -- the sender takes an item from the queue, or closes its batch
  receive close : Action
  -- the broker answers the next part of the batch, at a time
  sent : SendReply → ℕ → Action
  -- the sender resolves the waiters of one more item, or goes on to the next part
  resolve advance : Action
  poll_starts : ℕ → String → Action
  poll_answered : ℕ → String → PollReply → Action
  resume : String → List String → ℕ → Action

abbrev pub take_caller : ℕ → List (BatchItem × ℕ) → Option (BatchItem × List (BatchItem × ℕ))
take_caller ch [] = none
take_caller ch ((item, c) ∷ cs) = elim (nat_eq c ch) [
  | true ↦ some (item, cs)
  | false ↦ elim (take_caller ch cs) [
    | none ↦ none
    | some (other, rest) ↦ some (other, (item, c) ∷ rest)
  ]
]

abbrev pub answers : List BatchItem → BatchResult → List (String × BatchResult)
answers items r = map (λ i. (i.operation_id, r)) items

unfoldable pub arrives : BatchItem → System → System
unfolding make_chan check_in_flight
arrives item s =
    let (ch, made) = make_chan s.batcher in
    elim (check_in_flight item.operation_id made) [
      | some id ↦ record s { batcher = deliver ch (acked id) made }
      | none ↦ record s { batcher = made; callers = (item, ch) ∷ s.callers }
    ]

unfoldable pub joins : ℕ → System → System
unfolding join_or_queue
joins ch s = elim (take_caller ch s.callers) [
  | none ↦ s
  | some (item, rest) ↦ record s { batcher = join_or_queue item ch s.batcher; callers = rest }
]

unfoldable pub take_item : List BatchItem → List BatchItem → System → System
take_item [] xs s = s
take_item (item ∷ rest) xs s =
    if ltb (length xs) s.batcher.max_batch_size
    then record s {
      batcher = record s.batcher { queue = rest };
      sender = collecting (xs ++ item ∷ []);
    }
    else s

unfoldable pub receives : Sender → System → System
unfolding take_item
receives (collecting xs) s = take_item s.batcher.queue xs s
receives (sending adds removes) s = s
receives (resolving waiters removes) s = s

unfoldable pub closes : Sender → System → System
unfolding partition
closes (collecting []) s = s
closes (collecting (x ∷ xs)) s =
    let (adds, removes) = partition (x ∷ xs) in record s { sender = sending adds removes }
closes (sending adds removes) s = s
closes (resolving waiters removes) s = s

-- The answer to one part, and the waiters that it leaves to resolve.
unfoldable pub answered : OpKind → List BatchItem → List BatchItem → SendReply → ℕ → System → System
unfolding register
answered kind part removes (accepted id) now s = record s {
  batcher = register kind id part now s.batcher;
  sender = resolving (answers part (acked id)) removes;
}
answered kind part removes (error e) now s = record s {
  sender = resolving (answers part (failed_with (send_failed kind e))) removes;
}

unfoldable pub sends : Sender → SendReply → ℕ → System → System
unfolding answered
sends (sending (a ∷ adds) removes) reply now s = answered OpKind.add (a ∷ adds) removes reply now s
sends (sending [] (r ∷ removes)) reply now s = answered OpKind.remove (r ∷ removes) [] reply now s
sends (sending [] []) reply now s = s
sends (collecting xs) reply now s = s
sends (resolving waiters removes) reply now s = s

unfoldable pub resolves : Sender → System → System
unfolding resolve_pending
resolves (resolving ((op, r) ∷ waiters) removes) s = record s {
  batcher = resolve_pending op r s.batcher;
  sender = resolving waiters removes;
}
resolves (resolving [] removes) s = s
resolves (sending adds removes) s = s
resolves (collecting xs) s = s

unfoldable pub advances : Sender → System → System
advances (resolving [] removes) s = record s { sender = sending [] removes }
advances (resolving (w ∷ waiters) removes) s = s
advances (sending [] []) s = record s { sender = collecting [] }
advances (sending [] (r ∷ removes)) s = s
advances (sending (a ∷ adds) removes) s = s
advances (collecting xs) s = s

unfoldable pub step : Action → System → System
unfolding arrives joins receives closes sends resolves advances poll_start poll_finish
    resume_add_batch
step (arrive item) s = arrives item s
step (join ch) s = joins ch s
step receive s = receives s.sender s
step close s = closes s.sender s
step (sent reply now) s = sends s.sender reply now s
step resolve s = resolves s.sender s
step advance s = advances s.sender s
step (poll_starts now id) s = elim (poll_start now id s.batcher) [
  | stop ↦ s
  | dropped (b, calls) ↦ record s { batcher = b; reported = s.reported ++ calls }
  | ask ↦ s
]
step (poll_answered now id reply) s =
    let (b, calls) = poll_finish now id reply s.batcher in
    record s { batcher = b; reported = s.reported ++ calls }
step (resume id op_ids now) s = record s { batcher = (resume_add_batch id op_ids now s.batcher).1 }

unfoldable pub run : List Action → System → System
unfolding step
run [] s = s
run (a ∷ actions) s = run actions (step a s)

-- The process at its start, with the failure handler set or not.
abbrev pub start : Bool → System
start handler = record {
  batcher = record new_node_batcher { failure_handler = handler };
  callers = [];
  sender = collecting [];
  reported = [];
}
