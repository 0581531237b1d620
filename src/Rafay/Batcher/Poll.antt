-- ===== src/Rafay/Batcher/Poll.antt =====
-- pollAll, pollBatch, failItems, clearInFlightLocked and pruneSucceededLocked of
-- pkg/rafay/batcher.go. pollBatch releases `mu` for the call of the broker: what it does before
-- the call is `poll_start`, what it does with the answer is `poll_finish`, which looks the batch up
-- again.
use karpenter_provider_rafay.Prelude.{
  ℕ, suc, ◌-◌, String, Bool, true, false, ◌||◌, List, [], ◌∷◌, ◌++◌, none, some, Dict, lookup,
  insert, erase, erase_all, keys, ltb, leb, if◌then◌else◌, map,
}
use karpenter_provider_rafay.Rafay.Errors.{BrokerError}
use karpenter_provider_rafay.Rafay.Batcher.{
  NodeBatcher, BatchItem, InProgressBatch, FailureCall, OpKind, ops, max_batch_age,
  max_consecutive_empty_polls, succeeded_retention, expired_batch_detail,
}

-- KARPENTER_NODE_OPERATION_STATE_*: the terminal states, and any other.
pub data NodeState : Type 0 where
  succeeded failed in_work : NodeState

-- KarpenterBatchNodeResult, as far as the poller reads it into the state.
pub record NodeResult : Type 0 where
  pub operation_id : String
  pub state : NodeState
  pub detail : String

pub data PollReply : Type 0 where
  results : List NodeResult → PollReply
  error : BrokerError → PollReply

-- clearInFlightLocked
unfoldable pub clear_in_flight : List BatchItem → NodeBatcher → NodeBatcher
clear_in_flight items b = record b {
  in_flight = erase_all (ops items) b.in_flight;
  op_batch = erase_all (ops items) b.op_batch;
}

-- pruneSucceededLocked
unfoldable pub prune_succeeded : ℕ → Dict ℕ → Dict ℕ
prune_succeeded now [] = []
prune_succeeded now ((op, seen) ∷ m) =
    let rest = prune_succeeded now m in
    if ltb succeeded_retention (now - seen) then rest else (op, seen) ∷ rest

-- The calls of the failure handler, if one is set.
unfoldable pub notify : Bool → List FailureCall → List FailureCall
notify true calls = calls
notify false calls = []

-- failItems
unfoldable pub fail_items : OpKind → List BatchItem → String → NodeBatcher → List FailureCall
unfolding notify
fail_items kind items detail b =
    notify b.failure_handler
      (map (λ i. record { operation_id = i.operation_id; kind = kind; detail = detail }) items)

-- Every item of a dropped batch is reported failed.
unfoldable pub drop_batch : String → InProgressBatch → NodeBatcher → NodeBatcher × List FailureCall
unfolding clear_in_flight fail_items
drop_batch batch_id bp b = (
  clear_in_flight bp.items (record b { in_progress = erase batch_id b.in_progress }),
  fail_items bp.kind bp.items expired_batch_detail b,
)

-- What pollBatch does next: nothing, nothing after the batch has been dropped, or call the broker.
pub data PollStart : Type 0 where
  stop : PollStart
  dropped : NodeBatcher × List FailureCall → PollStart
  ask : PollStart

unfoldable pub poll_start : ℕ → String → NodeBatcher → PollStart
unfolding drop_batch
poll_start now batch_id b = elim (lookup batch_id b.in_progress) [
  | none ↦ stop
  | some bp ↦
      if ltb now bp.poll_after
      then stop
      else if ltb max_batch_age (now - bp.sent_at)
      then dropped (drop_batch batch_id bp b)
      else ask
]

-- for _, r := range results { resultMap[r.GetOperationId()] = r }: of several results for one
-- operation the last one counts.
unfoldable pub result_map : List NodeResult → Dict NodeResult → Dict NodeResult
result_map [] m = m
result_map (r ∷ rs) m = result_map rs (insert r.operation_id r m)

-- What the loop over the items of a batch changes.
pub record Sweep : Type 0 where
  pub succeeded : Dict ℕ
  pub in_flight : Dict (Unit {0})
  pub failed : List (String × String)
  pub remaining : List BatchItem
  pub all_done : Bool

unfoldable pub still_open : BatchItem → Sweep → Sweep
still_open item w = record w { all_done = false; remaining = w.remaining ++ item ∷ [] }

-- The switch on the state of one item's result.
unfoldable pub sweep_result : ℕ → BatchItem → NodeResult → NodeState → Sweep → Sweep
unfolding still_open
sweep_result now item nr succeeded w = record w {
  succeeded = insert item.operation_id now w.succeeded;
  in_flight = erase item.operation_id w.in_flight;
}
sweep_result now item nr failed w = record w {
  failed = w.failed ++ (item.operation_id, nr.detail) ∷ [];
  in_flight = erase item.operation_id w.in_flight;
}
sweep_result now item nr in_work w = still_open item w

-- One round of the loop.
unfoldable pub sweep_item : ℕ → Dict NodeResult → BatchItem → Sweep → Sweep
unfolding sweep_result
sweep_item now rm item w = elim (lookup item.operation_id rm) [
  | none ↦ still_open item w
  | some nr ↦ sweep_result now item nr nr.state w
]

unfoldable pub sweep : ℕ → Dict NodeResult → List BatchItem → Sweep → Sweep
unfolding sweep_item
sweep now rm [] w = w
sweep now rm (item ∷ items) w = sweep now rm items (sweep_item now rm item w)

abbrev pub sweep_from : NodeBatcher → Sweep
sweep_from b = record {
  succeeded = b.succeeded;
  in_flight = b.in_flight;
  failed = [];
  remaining = [];
  all_done = true;
}

unfoldable pub is_empty : List BatchItem → Bool
is_empty [] = true
is_empty (item ∷ items) = false

-- An empty answer: the broker does not know the batch. The third one in a row drops it.
unfoldable pub count_empty_poll :
    String → InProgressBatch → NodeBatcher → NodeBatcher × List FailureCall
unfolding drop_batch
count_empty_poll batch_id bp b =
    let bumped : InProgressBatch = record bp { empty_polls = suc bp.empty_polls } in
    if leb max_consecutive_empty_polls bumped.empty_polls
    then drop_batch batch_id bumped b
    else (record b { in_progress = insert batch_id bumped b.in_progress }, [])

-- The batch after the loop over its items: gone, or left with the remaining ones.
unfoldable pub settle :
    ℕ → String → InProgressBatch → Sweep → NodeBatcher → NodeBatcher × List FailureCall
unfolding is_empty prune_succeeded notify
settle now batch_id bp w b = (
  record b {
    succeeded = prune_succeeded now w.succeeded;
    in_flight = w.in_flight;
    in_progress =
        if w.all_done || is_empty w.remaining
        then erase batch_id b.in_progress
        else insert batch_id (record bp { items = w.remaining; empty_polls = 0 }) b.in_progress;
  },
  notify b.failure_handler
      (map (λ f. record { operation_id = f.0; kind = bp.kind; detail = f.1 }) w.failed),
)

-- The answer, for a batch that is still tracked.
unfoldable pub answer_batch :
    ℕ → String → List NodeResult → InProgressBatch → NodeBatcher → NodeBatcher × List FailureCall
unfolding count_empty_poll settle sweep result_map
answer_batch now batch_id [] bp b = count_empty_poll batch_id bp b
answer_batch now batch_id (r ∷ rs) bp b =
    settle now batch_id bp (sweep now (result_map (r ∷ rs) []) bp.items (sweep_from b)) b

-- pollBatch after the call of the broker.
unfoldable pub poll_finish : ℕ → String → PollReply → NodeBatcher → NodeBatcher × List FailureCall
unfolding answer_batch
poll_finish now batch_id (error e) b = (b, [])
poll_finish now batch_id (results rs) b = elim (lookup batch_id b.in_progress) [
  | none ↦ (b, [])
  | some bp ↦ answer_batch now batch_id rs bp b
]

-- pollBatch, where nothing else runs between its two parts.
unfoldable pub poll_batch : ℕ → String → PollReply → NodeBatcher → NodeBatcher × List FailureCall
unfolding poll_start poll_finish
poll_batch now batch_id reply b = elim (poll_start now batch_id b) [
  | stop ↦ (b, [])
  | dropped r ↦ r
  | ask ↦ poll_finish now batch_id reply b
]

-- for _, batchID := range batchIDs { b.pollBatch(ctx, batchID) }
unfoldable pub poll_ids :
    ℕ → List String → (String → PollReply) → NodeBatcher → NodeBatcher × List FailureCall
unfolding poll_batch
poll_ids now [] broker b = (b, [])
poll_ids now (id ∷ ids) broker b =
    let (next, calls) = poll_batch now id (broker id) b in
    let (last, more) = poll_ids now ids broker next in (last, calls ++ more)

-- pollAll. `order` is the order in which the runtime walks the map of batches.
unfoldable pub poll_all :
    ℕ
    → (List String → List String)
    → (String → PollReply)
    → NodeBatcher
    → NodeBatcher × List FailureCall
unfolding poll_ids keys
poll_all now order broker b = poll_ids now (order (keys b.in_progress)) broker b
