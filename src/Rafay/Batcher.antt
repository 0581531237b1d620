-- ===== src/Rafay/Batcher.antt =====
-- pkg/rafay/batcher.go: the state of the NodeBatcher and the data it handles.
-- The operations stand in Enqueue, Send and Poll below, and the proofs beside them.
-- Time is a number of seconds; a channel is its number; a Go map is a `Dict`.
pub mod Enqueue
pub mod Send
pub mod Poll
pub mod System
pub mod Sequential
pub mod Channels
pub mod Waiters
pub mod Sweeps
pub mod Local
pub mod Tracked
pub mod Batches
pub mod Replies
pub mod Succeeded
pub mod Expiry
pub mod Swept
pub mod Accounted
use karpenter_provider_rafay.Prelude.{
  ℕ, ◌*◌, String, Bool, false, List, [], ◌∷◌, Option, none, map, Dict, lookup, is_some, trim_space,
}
use karpenter_provider_rafay.Rafay.Errors.{BrokerError}

pub data OpKind : Type 0 where
  add remove : OpKind

pub record AddNodesRequest : Type 0 where
  pub cluster_id : String
  pub project_id : String
  pub instance_type : String
  pub node_pool_name : String
  pub operation_id : String

pub record RemoveNodesRequest : Type 0 where
  pub cluster_id : String
  pub project_id : String
  pub instance_type : String
  pub node_pool_name : String
  pub provider_id : String

-- The zero values of the two structs.
abbrev pub no_add : AddNodesRequest
no_add = record {
  cluster_id = "";
  project_id = "";
  instance_type = "";
  node_pool_name = "";
  operation_id = "";
}

abbrev pub no_remove : RemoveNodesRequest
no_remove = record {
  cluster_id = "";
  project_id = "";
  instance_type = "";
  node_pool_name = "";
  provider_id = "";
}

-- The error of a result: the queue was full, or the send of the batch failed.
pub data BatchError : Type 0 where
  queue_full : BatchError
  send_failed : OpKind → BrokerError → BatchError

pub record BatchResult : Type 0 where
  pub provider_id : String
  pub batch_id : String
  pub err : Option BatchError

abbrev pub acked : String → BatchResult
acked id = record { provider_id = ""; batch_id = id; err = none }

abbrev pub failed_with : BatchError → BatchResult
failed_with e = record { provider_id = ""; batch_id = ""; err = Option.some e }

pub record BatchItem : Type 0 where
  pub operation_id : String
  pub kind : OpKind
  pub req : AddNodesRequest
  pub remove_req : RemoveNodesRequest

abbrev pub ops : List BatchItem → List String
ops = map λ i. i.operation_id

pub record InProgressBatch : Type 0 where
  pub batch_id : String
  pub kind : OpKind
  pub items : List BatchItem
  pub sent_at : ℕ
  pub poll_after : ℕ
  pub empty_polls : ℕ

-- What the failure handler is called with.
pub record FailureCall : Type 0 where
  pub operation_id : String
  pub kind : OpKind
  pub detail : String

-- `delivered` is what has been written to result channels, the latest first, and `next_chan` the
-- number of the next channel that is made. `failure_handler` says whether a handler is set.
pub record NodeBatcher : Type 0 where
  pub queue : List BatchItem
  pub max_batch_size : ℕ
  pub initial_delay : ℕ
  pub in_progress : Dict InProgressBatch
  pub in_flight : Dict (Unit {0})
  pub op_batch : Dict String
  pub succeeded : Dict ℕ
  pub pending : Dict (List ℕ)
  pub failure_handler : Bool
  pub next_chan : ℕ
  pub delivered : List (ℕ × BatchResult)

abbrev pub default_max_batch_size : ℕ
default_max_batch_size = 10

abbrev pub default_initial_delay : ℕ
default_initial_delay = 120

abbrev pub batch_item_queue_buffer : ℕ
batch_item_queue_buffer = 256

abbrev pub max_batch_age : ℕ
max_batch_age = 2 * 3600

abbrev pub max_consecutive_empty_polls : ℕ
max_consecutive_empty_polls = 3

abbrev pub succeeded_retention : ℕ
succeeded_retention = 2 * 3600

abbrev pub expired_batch_detail : String
expired_batch_detail = "batch expired at broker"

abbrev pub new_node_batcher : NodeBatcher
new_node_batcher = record {
  queue = [];
  max_batch_size = default_max_batch_size;
  initial_delay = default_initial_delay;
  in_progress = [];
  in_flight = [];
  op_batch = [];
  succeeded = [];
  pending = [];
  failure_handler = false;
  next_chan = 0;
  delivered = [];
}

-- SetFailureHandler
unfoldable pub set_failure_handler : Bool → NodeBatcher → NodeBatcher
set_failure_handler fn b = record b { failure_handler = fn }

-- Succeeded
unfoldable pub has_succeeded : NodeBatcher → String → Bool
has_succeeded b operation_id = is_some (lookup operation_id b.succeeded)

-- Tracking
unfoldable pub tracking : NodeBatcher → String → Bool
tracking b batch_id = is_some (lookup (trim_space batch_id) b.in_progress)

-- A write of a result to a channel.
abbrev pub deliver : ℕ → BatchResult → NodeBatcher → NodeBatcher
deliver ch r b = record b { delivered = (ch, r) ∷ b.delivered }
