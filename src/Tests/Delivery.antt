-- ===== src/Tests/Delivery.antt =====
-- The batcher over a client whose broker accepts batches, and the sender's steps for one batch.
use karpenter_provider_rafay.Prelude.{
  ℕ, String, ◌≡◌, refl, inl, List, [], ◌∷◌, Option, none, some, true, contains, lookup, trim_space,
  insert, insert_all,
}
use karpenter_provider_rafay.Rafay.Errors.{BrokerError, unexpected_response}
use karpenter_provider_rafay.Rafay.BrokerClient.{Stream, accepted, new_client}
use karpenter_provider_rafay.Rafay.Batcher.{
  BatchItem, OpKind, new_node_batcher, acked, failed_with, send_failed,
}
use karpenter_provider_rafay.Rafay.Batcher.Send.{
  SendReply, accepted as accepted_as, error as send_error,
}
use karpenter_provider_rafay.Rafay.Batcher.System.{System, collecting, start, run}
use karpenter_provider_rafay.Rafay.Batcher.Sequential.{batch_actions}
use karpenter_provider_rafay.Rafay.Batcher.Sequential.Parts.{IsAnswered}
use karpenter_provider_rafay.Rafay.Batcher.Sequential.Listed.{IsListed}
use karpenter_provider_rafay.Rafay.Batcher.Sequential.Answered.{batch-IsAnswered}
use karpenter_provider_rafay.Rafay.Batcher.Poll.{NodeResult}
use karpenter_provider_rafay.Rafay.Delivery.{BatchRequest, Link, send_kind, send_collected}
use karpenter_provider_rafay.Rafay.Delivery.Once.{SentOnce, sent_once}
use karpenter_provider_rafay.Tests.Batcher.{add_item, remove_item}

abbrev dials : ℕ → Option String
dials n = none

abbrev code_of : BrokerError → Option ℕ
code_of e = some 14

abbrev accepting : BatchRequest → ℕ → Stream NodeResult
accepting r n = record {
  opened = none;
  sent = none;
  received = (record { code = 0; message = "" }, some (accepted "b1"));
}

-- Two callers wait on the channels 0 and 1.
abbrev link : Link
link = record {
  batcher = record new_node_batcher {
    pending = ("n1", 0 ∷ []) ∷ ("n2", 1 ∷ []) ∷ [];
    next_chan = 2;
  };
  client = new_client;
}

sent_once_example :
    let after = send_kind dials code_of accepting "s" OpKind.add (add_item "n1" ∷ []) 5 link in
    SentOnce dials code_of accepting "s" OpKind.add (add_item "n1" ∷ []) 5 0 link after
    × (lookup "n1" after.batcher.pending ≡ none)
unfolding contains lookup
sent_once_example =
    sent_once dials code_of accepting "s" OpKind.add (add_item "n1") [] 5 link "n1" 0 refl
      (inl refl)

-- A batch with both kinds makes two calls on one connection.
abbrev both : Link
both = send_collected dials code_of accepting "s" (add_item "n1" ∷ remove_item "n2" ∷ []) 5 6 link

both_are_answered :
    (both.client.calls ≡ 0 ∷ 0 ∷ [])
    × (both.batcher.delivered ≡ (1, acked "b1") ∷ (0, acked "b1") ∷ [])
unfolding send_collected trim_space lookup insert insert_all
both_are_answered = (refl, refl)

-- Without a stream ID no call is made.
no_stream_no_call :
    (send_collected dials code_of accepting " " (add_item "n1" ∷ []) 5 6 link).client.calls ≡ []
unfolding send_collected trim_space
no_stream_no_call = refl

abbrev replies : OpKind → List BatchItem → SendReply
replies OpKind.add batch = accepted_as "b1"
replies OpKind.remove batch = send_error unexpected_response

abbrev items : List BatchItem
items = add_item "n1" ∷ remove_item "n2" ∷ []

abbrev waiting : System
waiting = record (start true) { batcher = link.batcher }

-- The steps of the sender for the batch.
abbrev after : System
after = run (batch_actions replies 5 items) (record waiting { sender = collecting items })

batch-IsAnswered_example :
    (after.sender ≡ collecting [])
    × IsAnswered OpKind.add (accepted_as "b1") "n1" 0 link.batcher after.batcher
    × IsListed (accepted_as "b1") (send_error unexpected_response) "n1" after.batcher
unfolding contains lookup
batch-IsAnswered_example =
    batch-IsAnswered replies 5 (add_item "n1") (remove_item "n2" ∷ []) waiting OpKind.add "n1" 0
      refl refl (inl refl)

-- The remove part has failed, the add part not.
parts_are_answered_apart :
    after.batcher.delivered
    ≡ (1, failed_with (send_failed OpKind.remove unexpected_response)) ∷ (0, acked "b1") ∷ []
unfolding run lookup insert insert_all batch_actions
parts_are_answered_apart = refl
