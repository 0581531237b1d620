-- ===== src/Rafay/Errors.antt =====
-- pkg/rafay/errors.go, and the errors that pkg/rafay/batch_stream.go and
-- pkg/rafay/brokerclient.go return. A wrapped error is a constructor that carries what it wraps.
use karpenter_provider_rafay.Prelude.{ℕ, String}

-- The error of a gRPC call: its status code and message.
pub record RpcError : Type 0 where
  pub code : ℕ
  pub message : String

pub data BrokerError : Type 0 where
  -- the connection could not be dialled
  dial : String → BrokerError
  stream_id_required : BrokerError
  empty_list : BrokerError
  open_stream : RpcError → BrokerError
  send : RpcError → BrokerError
  recv : RpcError → BrokerError
  -- ErrBatchRejected with the broker's reason
  batch_rejected : String → BrokerError
  unexpected_response : BrokerError
  -- a unary call (GetKarpenterConfig) returned an error
  unary : RpcError → BrokerError
