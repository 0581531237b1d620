-- ===== src/Rafay/Delivery.antt =====
-- The NodeBatcher over the BrokerClient: sendAddBatch, sendRemoveBatch and sendBatch, Cancel, and
-- pollBatch of pkg/rafay/batcher.go with the calls of the client that they make, and the requests
-- that go onto the stream (pkg/rafay/batch_stream.go).
pub mod Once
use karpenter_provider_rafay.Prelude.{ℕ, String, List, [], ◌∷◌, Option, none, some, map}
use karpenter_provider_rafay.Rafay.Errors.{BrokerError}
use karpenter_provider_rafay.Rafay.BrokerClient.{
  Outcome, ok, error, Stream, Client, send_batch, poll_batch_status, cancel_operations,
}
use karpenter_provider_rafay.Rafay.Batcher.{NodeBatcher, BatchItem, FailureCall, OpKind}
use karpenter_provider_rafay.Rafay.Batcher.Send.{
  SendReply, accepted, error as send_error, partition, finish_send,
}
use karpenter_provider_rafay.Rafay.Batcher.Poll.{
  NodeResult, PollReply, results, error as poll_error, stop, dropped, ask, poll_start, poll_finish,
}

-- KarpenterBatchNodeAddItem and KarpenterBatchNodeRemoveItem
pub record AddNode : Type 0 where
  pub operation_id : String
  pub cluster_id : String
  pub project_id : String
  pub instance_type : String
  pub node_pool_name : String

pub record RemoveNode : Type 0 where
  pub operation_id : String
  pub cluster_id : String
  pub project_id : String
  pub instance_type : String
  pub node_pool_name : String
  pub provider_id : String

-- What is sent on a stream.
pub data BatchRequest : Type 0 where
  batch_add : List AddNode → BatchRequest
  batch_remove : List RemoveNode → BatchRequest
  status_poll : String → BatchRequest
  operation_cancel : List String → BatchRequest

unfoldable pub add_node : BatchItem → AddNode
add_node item = record {
  operation_id = item.operation_id;
  cluster_id = item.req.cluster_id;
  project_id = item.req.project_id;
  instance_type = item.req.instance_type;
  node_pool_name = item.req.node_pool_name;
}

unfoldable pub remove_node : BatchItem → RemoveNode
remove_node item = record {
  operation_id = item.operation_id;
  cluster_id = item.remove_req.cluster_id;
  project_id = item.remove_req.project_id;
  instance_type = item.remove_req.instance_type;
  node_pool_name = item.remove_req.node_pool_name;
  provider_id = item.remove_req.provider_id;
}

-- The request that sends a part of a batch.
unfoldable pub request_of : OpKind → List BatchItem → BatchRequest
unfolding add_node remove_node
request_of OpKind.add batch = batch_add (map add_node batch)
request_of OpKind.remove batch = batch_remove (map remove_node batch)

unfoldable pub send_reply : Outcome String → SendReply
send_reply (ok id) = accepted id
send_reply (error e) = send_error e

unfoldable pub poll_reply : Outcome (List NodeResult) → PollReply
poll_reply (ok rs) = results rs
poll_reply (error e) = poll_error e

-- The batcher and its client.
pub record Link : Type 0 where
  pub batcher : NodeBatcher
  pub client : Client

-- `wire` is what a stream on a connection yields for a request.
module _ (dials : ℕ → Option String) (code_of : BrokerError → Option ℕ)
    (wire : BatchRequest → ℕ → Stream NodeResult) (stream_id : String) where
  -- The configuration call has no part in this.
  abbrev no_config : ℕ → Outcome Unit
  no_config n = ok tt

  -- sendAddBatch and sendRemoveBatch
  unfoldable pub send_kind : OpKind → List BatchItem → ℕ → Link → Link
  unfolding send_batch request_of send_reply finish_send
  send_kind kind batch now l =
      let (out, client) =
        send_batch dials code_of (wire (request_of kind batch)) no_config stream_id batch
          l.client in
      record { batcher = finish_send kind batch (send_reply out) now l.batcher; client = client }

  unfoldable pub send_some : OpKind → List BatchItem → ℕ → Link → Link
  unfolding send_kind
  send_some kind [] now l = l
  send_some kind (item ∷ batch) now l = send_kind kind (item ∷ batch) now l

  -- sendBatch; `now` is the time when the adds are acknowledged, `later` that of the removes.
  unfoldable pub send_collected : List BatchItem → ℕ → ℕ → Link → Link
  unfolding partition send_some
  send_collected batch now later l =
      let (adds, removes) = partition batch in
      send_some OpKind.remove removes later (send_some OpKind.add adds now l)

  -- The call that Cancel makes: the operations that the broker has cancelled are only logged.
  unfoldable pub cancel : String → Link → Link
  unfolding cancel_operations
  cancel op l =
      let (out, client) =
        cancel_operations dials code_of (wire (operation_cancel (op ∷ []))) no_config stream_id
          (op ∷ []) l.client in
      record l { client = client }

  -- pollBatch, where nothing else runs between its two parts.
  unfoldable pub poll : ℕ → String → Link → Link × List FailureCall
  unfolding poll_start poll_batch_status poll_reply poll_finish
  poll now id l = elim (poll_start now id l.batcher) [
    | stop ↦ (l, [])
    | dropped (b, calls) ↦ (record l { batcher = b }, calls)
    | ask ↦
        let (out, client) =
          poll_batch_status dials code_of (wire (status_poll id)) no_config stream_id l.client in
        let (b, calls) = poll_finish now id (poll_reply out) l.batcher in
        (record { batcher = b; client = client }, calls)
  ]
