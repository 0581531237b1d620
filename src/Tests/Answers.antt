-- ===== src/Tests/Answers.antt =====
-- Batches, answers and polls of the node batcher on concrete inputs.
use karpenter_provider_rafay.Prelude.{
  ◌≡◌, refl, contains, ◌≤◌, true, ◌||◌, List, [], ◌∷◌, ◌++◌, none, length, lookup, insert, keys,
  arith, ◌<◌, ◌-◌, ◌⊎◌, String,
}
use karpenter_provider_rafay.Rafay.Batcher.{
  NodeBatcher, InProgressBatch, OpKind, new_node_batcher, has_succeeded, max_batch_age,
}
use karpenter_provider_rafay.Rafay.Batcher.Send.{arrives, collect_batch}
use karpenter_provider_rafay.Rafay.Batcher.Poll.{
  NodeResult, PollReply, succeeded, in_work, results, poll_finish, poll_all, result_map,
}
use karpenter_provider_rafay.Rafay.Batcher.Expiry.{poll_all_drops_old}
use karpenter_provider_rafay.Rafay.Batcher.Batches.{arrivals, collect_batch_fifo}
use karpenter_provider_rafay.Rafay.Batcher.Succeeded.{
  reported, succeeded_only_if_reported, reported_is_recorded,
}
use karpenter_provider_rafay.Tests.Batcher.{add_item}

collect_batch_fifo_example :
    (length (collect_batch 2 (arrives (add_item "a") ∷ arrives (add_item "b") ∷ [])).0 ≤ 2)
    × (arrivals (arrives (add_item "a") ∷ arrives (add_item "b") ∷ [])
        ≡ (collect_batch 2 (arrives (add_item "a") ∷ arrives (add_item "b") ∷ [])).0
          ++ arrivals (collect_batch 2 (arrives (add_item "a") ∷ arrives (add_item "b") ∷ [])).1)
collect_batch_fifo_example =
    collect_batch_fifo 2 (arrives (add_item "a") ∷ arrives (add_item "b") ∷ []) (omega arith)

abbrev flying : NodeBatcher
flying = record new_node_batcher { in_flight = ("n1", tt) ∷ []; op_batch = ("n1", "b1") ∷ [] }

abbrev batch : InProgressBatch
batch = record {
  batch_id = "b1";
  kind = OpKind.add;
  items = add_item "n1" ∷ [];
  sent_at = 0;
  poll_after = 0;
  empty_polls = 0;
}

abbrev tracked : NodeBatcher
tracked = record flying { in_progress = ("b1", batch) ∷ [] }

abbrev answer : List NodeResult
answer = record { operation_id = "n1"; state = succeeded; detail = "" } ∷ []

reported_is_recorded_example :
    (has_succeeded (poll_finish 9 "b1" (results answer) tracked).0 "n1" ≡ true)
    × (lookup "n1" (poll_finish 9 "b1" (results answer) tracked).0.in_flight ≡ none)
unfolding lookup contains result_map insert
reported_is_recorded_example = reported_is_recorded 9 "b1" answer tracked batch "n1" refl refl refl

succeeded_only_if_reported_example : (reported answer "n1" || has_succeeded tracked "n1") ≡ true
unfolding lookup contains result_map insert
succeeded_only_if_reported_example =
    succeeded_only_if_reported 9 "b1" answer tracked "n1"
      (reported_is_recorded 9 "b1" answer tracked batch "n1" refl refl refl).0

-- A batch of two adds, sent at time 100.
abbrev two_sent : InProgressBatch
two_sent = record {
  batch_id = "b1";
  kind = OpKind.add;
  items = add_item "n1" ∷ add_item "n2" ∷ [];
  sent_at = 100;
  poll_after = 220;
  empty_polls = 0;
}

abbrev polled_twice : NodeBatcher
polled_twice = record new_node_batcher { in_progress = ("b1", two_sent) ∷ [] }

-- The first has succeeded, the second is still in work.
abbrev half_done : String → PollReply
half_done id = results (
    record { operation_id = "n1"; state = succeeded; detail = "" }
    ∷ record { operation_id = "n2"; state = in_work; detail = "" }
    ∷ [])

poll_all_drops_old_example : (300 < two_sent.poll_after) ⊎ (300 - two_sent.sent_at ≤ max_batch_age)
unfolding poll_all lookup insert keys
poll_all_drops_old_example =
    poll_all_drops_old 300 half_done (λ ks. ks) polled_twice "b1"
      (record two_sent { items = add_item "n2" ∷ [] }) (λ ks k. refl) refl
