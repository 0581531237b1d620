-- ===== src/Rafay/BrokerClient.antt =====
-- pkg/rafay/brokerclient.go: the cached connection, calls with and without a retry; and the four
-- stream operations of pkg/rafay/batch_stream.go.
-- A connection is its number. What a stream of the generated client does is a `Stream`.
pub mod Calls
pub mod Retries
pub mod Given
pub mod Sends
use karpenter_provider_rafay.Prelude.{
  ℕ, suc, String, Bool, true, false, List, [], ◌∷◌, Option, none, some, nat_eq, trim_space, ◌==◌,
  if◌then◌else◌,
}
use karpenter_provider_rafay.Rafay.Errors.{
  RpcError, BrokerError, dial, stream_id_required, empty_list, open_stream, send, recv,
  batch_rejected, unexpected_response,
}

pub data Outcome (A : Type 0) : Type 0 where
  ok : A → Outcome A
  error : BrokerError → Outcome A

-- The broker's answer on a stream, with what the operations read of it.
pub data Response (R : Type 0) : Type 0 where
  accepted : String → Response R
  rejected : String → Response R
  batch_status : List R → Response R
  cancel_ack : List String → Response R
  other : Response R

-- What opening the stream, sending on it and receiving from it yield.
pub record Stream (R : Type 0) : Type 0 where
  pub opened : Option RpcError
  pub sent : Option RpcError
  pub received : RpcError × Option (Response R)

module _ {R : Type 0} where
  -- stream.Recv(): the error counts where there is no response.
  receive : Stream R → Outcome (Response R)
  receive s = elim s.received.1 [ none ↦ error (recv s.received.0) | some r ↦ ok r ]

  -- The error of a failed Send: that of Recv, if Recv fails.
  send_error : RpcError → Stream R → BrokerError
  send_error e s = elim s.received.1 [ none ↦ send s.received.0 | some r ↦ send e ]

  -- Opening, sending and receiving, as all operations do it.
  unfoldable pub exchange : Stream R → Outcome (Response R)
  unfolding receive send_error
  exchange s = elim s.opened [
    | some e ↦ error (open_stream e)
    | none ↦ elim s.sent [ some e ↦ error (send_error e s) | none ↦ receive s ]
  ]

  unfoldable pub read_ack : Outcome (Response R) → Outcome String
  read_ack (error e) = error e
  read_ack (ok (accepted id)) = ok id
  read_ack (ok (rejected reason)) = error (batch_rejected reason)
  read_ack (ok (batch_status rs)) = error unexpected_response
  read_ack (ok (cancel_ack ids)) = error unexpected_response
  read_ack (ok other) = error unexpected_response

  unfoldable pub read_status : Outcome (Response R) → Outcome (List R)
  read_status (error e) = error e
  read_status (ok (batch_status rs)) = ok rs
  read_status (ok (accepted id)) = error unexpected_response
  read_status (ok (rejected reason)) = error unexpected_response
  read_status (ok (cancel_ack ids)) = error unexpected_response
  read_status (ok other) = error unexpected_response

  unfoldable pub read_cancel : Outcome (Response R) → Outcome (List String)
  read_cancel (error e) = error e
  read_cancel (ok (cancel_ack ids)) = ok ids
  read_cancel (ok (batch_status rs)) = error unexpected_response
  read_cancel (ok (accepted id)) = error unexpected_response
  read_cancel (ok (rejected reason)) = error unexpected_response
  read_cancel (ok other) = error unexpected_response

  -- sendBatch and sendBatchRemove, for the list of nodes.
  unfoldable pub send_batch_on : {N : Type 0} → List N → Stream R → Outcome String
  unfolding read_ack exchange
  send_batch_on [] s = error empty_list
  send_batch_on (n ∷ nodes) s = read_ack (exchange s)

  -- pollBatchStatus
  unfoldable pub poll_batch_status_on : Stream R → Outcome (List R)
  unfolding read_status exchange
  poll_batch_status_on s = read_status (exchange s)

  -- cancelOps
  unfoldable pub cancel_ops_on : List String → Stream R → Outcome (List String)
  unfolding read_cancel exchange
  cancel_ops_on [] s = error empty_list
  cancel_ops_on (op ∷ ops) s = read_cancel (exchange s)

-- The client's cached connection. `closed` has the connections that were closed, and `calls` the
-- connections on which calls were made, the latest first.
pub record Client : Type 0 where
  pub conn : Option ℕ
  pub next_conn : ℕ
  pub closed : List ℕ
  pub calls : List ℕ

abbrev pub new_client : Client
new_client = record { conn = none; next_conn = 0; closed = []; calls = [] }

pub data Got : Type 0 where
  connected : ℕ → Client → Got
  dial_failed : String → Client → Got

abbrev pub unavailable : ℕ
unavailable = 14

-- `dials` is what dialBroker answers for the connection of a number, and `code_of` the code that
-- status.FromError finds in an error.
module _ (dials : ℕ → Option String) (code_of : BrokerError → Option ℕ) where
  unfoldable pub get_conn : Client → Got
  get_conn c = elim c.conn [
    | some n ↦ connected n c
    | none ↦ elim (dials c.next_conn) [
      | some e ↦ dial_failed e c
      | none ↦
          connected c.next_conn (record c { conn = some c.next_conn; next_conn = suc c.next_conn })
    ]
  ]

  unfoldable pub close_conn : Client → Client
  close_conn c = elim c.conn [ none ↦ c | some n ↦ record c { conn = none; closed = n ∷ c.closed } ]

  unfoldable pub should_redial : BrokerError → Bool
  should_redial e = elim (code_of e) [ none ↦ false | some k ↦ nat_eq k unavailable ]

  module _ {A : Type 0} (call : ℕ → Outcome A) where
    abbrev called : ℕ → Client → Client
    called n c = record c { calls = n ∷ c.calls }

    -- callBrokerOnce, where `call` is the function that it is given.
    after_once : ℕ → Outcome A → Client → Outcome A × Client
    unfolding should_redial close_conn
    after_once n (ok a) c = (ok a, c)
    after_once n (error e) c = (error e, if should_redial e then close_conn c else c)

    once_on : Got → Outcome A × Client
    unfolding after_once
    once_on (dial_failed e c) = (error (dial e), c)
    once_on (connected n c) = after_once n (call n) (called n c)

    unfoldable pub call_broker_once : Client → Outcome A × Client
    unfolding once_on get_conn
    call_broker_once c = once_on (get_conn c)

    -- callBroker
    pub retry_on : Got → Outcome A × Client
    retry_on (dial_failed e c) = (error (dial e), c)
    retry_on (connected n c) = (call n, called n c)

    pub after_first : Outcome A → Client → Outcome A × Client
    unfolding should_redial close_conn retry_on get_conn
    after_first (ok a) c = (ok a, c)
    after_first (error e) c =
        let again = retry_on (get_conn (close_conn c)) in
        if should_redial e then again else (error e, c)

    first_on : Got → Outcome A × Client
    unfolding after_first
    first_on (dial_failed e c) = (error (dial e), c)
    first_on (connected n c) = after_first (call n) (called n c)

    unfoldable pub call_broker : Client → Outcome A × Client
    unfolding first_on get_conn
    call_broker c = first_on (get_conn c)

    -- SendBatch and SendBatchRemove go through the first, the other operations through the second,
    -- each only with a stream ID.
    unfoldable pub with_stream_id :
        String → (Client → Outcome A × Client) → Client → Outcome A × Client
    unfolding trim_space
    with_stream_id stream_id run c =
        if trim_space stream_id == "" then (error stream_id_required, c) else run c

-- The operations of the client: `streams` is what a stream on a connection yields, `config_on` what
-- GetKarpenterConfig on it yields.
module _ (dials : ℕ → Option String) (code_of : BrokerError → Option ℕ) {R Config : Type 0}
    (streams : ℕ → Stream R) (config_on : ℕ → Outcome Config) (stream_id : String) where
  -- SendBatch and SendBatchRemove, for the list of nodes
  unfoldable pub send_batch : {N : Type 0} → List N → Client → Outcome String × Client
  unfolding with_stream_id call_broker_once send_batch_on
  send_batch nodes =
      let call : ℕ → Outcome String = λ n. send_batch_on nodes (streams n) in
      with_stream_id dials code_of call stream_id (call_broker_once dials code_of call)

  unfoldable pub poll_batch_status : Client → Outcome (List R) × Client
  unfolding with_stream_id call_broker poll_batch_status_on
  poll_batch_status =
      let call : ℕ → Outcome (List R) = λ n. poll_batch_status_on (streams n) in
      with_stream_id dials code_of call stream_id (call_broker dials code_of call)

  unfoldable pub cancel_operations : List String → Client → Outcome (List String) × Client
  unfolding with_stream_id call_broker cancel_ops_on
  cancel_operations ops =
      let call : ℕ → Outcome (List String) = λ n. cancel_ops_on ops (streams n) in
      with_stream_id dials code_of call stream_id (call_broker dials code_of call)

  unfoldable pub get_karpenter_config : Client → Outcome Config × Client
  unfolding with_stream_id call_broker
  get_karpenter_config =
      with_stream_id dials code_of config_on stream_id (call_broker dials code_of config_on)
