-- ===== src/Tests/Batcher.antt =====
-- Runs of the node batcher, and its theorems at them.
use karpenter_provider_rafay.Prelude.{
  ◌+◌, String, ◌≡◌, refl, true, List, [], ◌∷◌, lookup, insert, insert_all, is_some, ltb,
}
use karpenter_provider_rafay.Rafay.Batcher.{BatchItem, OpKind, no_add, no_remove}
use karpenter_provider_rafay.Rafay.Batcher.Send.{accepted}
use karpenter_provider_rafay.Rafay.Batcher.System.{
  Action, arrive, join, receive, close, sent, resolve, run, start,
}
use karpenter_provider_rafay.Rafay.Batcher.Channels.{written, waiting, with_callers, one_if}
use karpenter_provider_rafay.Rafay.Batcher.Channels.Steps.{each_channel_once}
use karpenter_provider_rafay.Rafay.Batcher.Waiters.{at_work}
use karpenter_provider_rafay.Rafay.Batcher.Waiters.Steps.{waiters_are_covered}
use karpenter_provider_rafay.Rafay.Batcher.Tracked.{follows}
use karpenter_provider_rafay.Rafay.Batcher.Tracked.Steps.{in_flight_is_tracked}

abbrev pub add_item : String → BatchItem
add_item op = record { operation_id = op; kind = OpKind.add; req = no_add; remove_req = no_remove }

abbrev pub remove_item : String → BatchItem
remove_item op = record {
  operation_id = op;
  kind = OpKind.remove;
  req = no_add;
  remove_req = no_remove;
}

-- Two callers for one operation and one for another; the batch is sent, and one waiter resolved.
abbrev pub schedule : List Action
schedule =
    arrive (add_item "n1")
    ∷ join 0
    ∷ arrive (add_item "n1")
    ∷ join 1
    ∷ arrive (remove_item "n2-remove")
    ∷ join 2
    ∷ receive
    ∷ receive
    ∷ close
    ∷ sent (accepted "b1") 100
    ∷ resolve
    ∷ []

pending_after : is_some (lookup "n2-remove" (run schedule (start true)).batcher.pending) ≡ true
unfolding run lookup insert insert_all
pending_after = refl

in_flight_after : is_some (lookup "n1" (run schedule (start true)).batcher.in_flight) ≡ true
unfolding run lookup insert insert_all
in_flight_after = refl

each_channel_once_example :
    written 1 (run schedule (start true)).batcher.delivered
      + waiting 1 (run schedule (start true)).batcher.pending
      + with_callers 1 (run schedule (start true)).callers
    ≡ one_if (ltb 1 (run schedule (start true)).batcher.next_chan)
each_channel_once_example = each_channel_once true schedule 1

waiters_are_covered_example : at_work (run schedule (start true)) "n2-remove" ≡ true
waiters_are_covered_example = waiters_are_covered true schedule "n2-remove" pending_after

in_flight_is_tracked_example : follows (run schedule (start true)).batcher "n1" ≡ true
unfolding run lookup insert insert_all
in_flight_is_tracked_example =
    in_flight_is_tracked true schedule "n1"
      (tt, (tt, (tt, (tt, (tt, (tt, (tt, (tt, (tt, (refl, (tt, tt))))))))))) in_flight_after
