-- ===== src/Rafay/Delivery/Once.antt =====
-- How often a collected batch goes onto the wire, and what its waiters get.
use karpenter_provider_rafay.Prelude.{
  ℕ, ◌+◌, String, ◌≡◌, refl, ap, ◌∙◌, ◌⊎◌, inl, inr, true, List, ◌∷◌, Option, none, some, lookup,
  contains, lookup-insert, eq_refl, arith,
}
use karpenter_provider_rafay.Rafay.Errors.{BrokerError}
use karpenter_provider_rafay.Rafay.BrokerClient.{
  Outcome, ok, error, accepted, Stream, send_batch_on,
}
use karpenter_provider_rafay.Rafay.Batcher.{
  NodeBatcher, BatchItem, InProgressBatch, OpKind, send_failed, acked, failed_with, ops,
}
use karpenter_provider_rafay.Rafay.Batcher.Send.{finish_send, register}
use karpenter_provider_rafay.Rafay.Batcher.Local.{SameFlight, resolve_items-SameFlight}
use karpenter_provider_rafay.Rafay.Batcher.Poll.{NodeResult}
use karpenter_provider_rafay.Rafay.Batcher.Replies.{HasResult, Among, waiters, finish_send_answers}
use karpenter_provider_rafay.Rafay.BrokerClient.Sends.{sends_once, on_stream}
use karpenter_provider_rafay.Rafay.Delivery.{BatchRequest, request_of, send_reply, Link, send_kind}

-- The entry that a batch gets when it is acknowledged.
abbrev pub entry_of : OpKind → String → List BatchItem → ℕ → NodeBatcher → InProgressBatch
entry_of kind id batch now b = record {
  batch_id = id;
  kind = kind;
  items = batch;
  sent_at = now;
  poll_after = now + b.initial_delay;
  empty_polls = 0;
}

acked_is_tracked :
    (kind : OpKind) (id : String) (batch : List BatchItem) (now : ℕ) (b : NodeBatcher)
    → lookup id (finish_send kind batch (send_reply (ok id)) now b).in_progress
      ≡ some (entry_of kind id batch now b)
unfolding finish_send send_reply register
acked_is_tracked kind id batch now b =
    ap (lookup id)
      (resolve_items-SameFlight batch (acked id) (register kind id batch now b)).in_progress
    ∙ ground (arith, lookup-insert id id (entry_of kind id batch now b) b.in_progress, eq_refl id)

refused_is_untracked :
    (kind : OpKind) (e : BrokerError) (batch : List BatchItem) (now : ℕ) (b : NodeBatcher)
    → SameFlight b (finish_send kind batch (send_reply (error e)) now b)
unfolding finish_send send_reply
refused_is_untracked kind e batch now b =
    resolve_items-SameFlight batch (failed_with (send_failed kind e)) b

-- The waiter gets the error of the send, and nothing of what is tracked or in flight changes.
abbrev pub IsRefused : OpKind → ℕ → NodeBatcher → NodeBatcher → Type 0
IsRefused kind ch before after =
    (e : BrokerError) × (HasResult ch (failed_with (send_failed kind e)) after.delivered
      × SameFlight before after)

-- The broker has accepted the batch on a stream, the waiter gets its ID, and the batch is tracked.
abbrev pub IsAccepted :
    Stream NodeResult → OpKind → List BatchItem → ℕ → ℕ → NodeBatcher → NodeBatcher → Type 0
IsAccepted stream kind batch now ch before after =
    (id : String) × ((stream.received.1 ≡ some (accepted id))
      × HasResult ch (acked id) after.delivered
      × (lookup id after.in_progress ≡ some (entry_of kind id batch now before)))

module _ (kind : OpKind) (item : BatchItem) (batch : List BatchItem) (now : ℕ) (b : NodeBatcher)
    (op : String) (ch : ℕ) (has : contains (ops (item ∷ batch)) op ≡ true)
    (waits : Among ch (waiters op b)) where
  refuses :
      (e : BrokerError)
      → IsRefused kind ch b (finish_send kind (item ∷ batch) (send_reply (error e)) now b)
  unfolding send_reply
  refuses e = (
    e,
    (
      (finish_send_answers kind (item ∷ batch) (send_reply (error e)) now b op ch has waits).0,
      refused_is_untracked kind e (item ∷ batch) now b,
    ),
  )

  -- One call: its outcome decides.
  answered_by :
      (stream : Stream NodeResult) (o : Outcome String)
      → ((id : String) → o ≡ ok id → stream.received.1 ≡ some (accepted id))
      → let after = finish_send kind (item ∷ batch) (send_reply o) now b in
        IsRefused kind ch b after ⊎ IsAccepted stream kind (item ∷ batch) now ch b after
  answered_by stream (error e) f = inl (refuses e)
  answered_by stream (ok id) f = inr (
    id,
    (
      f id refl,
      unfold send_reply in
          (finish_send_answers kind (item ∷ batch) (send_reply (ok id)) now b op ch has waits).0,
      acked_is_tracked kind id (item ∷ batch) now b,
    ),
  )

module _ (dials : ℕ → Option String) (code_of : BrokerError → Option ℕ)
    (wire : BatchRequest → ℕ → Stream NodeResult) (stream_id : String) where
  -- What the send of a part does, to the calls of the client and to one of the waiters.
  abbrev pub SentOnce : OpKind → List BatchItem → ℕ → ℕ → Link → Link → Type 0
  SentOnce kind batch now ch before after =
      ((after.client.calls ≡ before.client.calls) × IsRefused kind ch before.batcher after.batcher)
      ⊎ ((n : ℕ) × ((after.client.calls ≡ n ∷ before.client.calls)
            × (IsRefused kind ch before.batcher after.batcher
                ⊎ IsAccepted (wire (request_of kind batch) n) kind batch now ch before.batcher
                    after.batcher)))

  calls_once :
      (kind : OpKind) (item : BatchItem) (batch : List BatchItem) (now : ℕ) (l : Link) (op : String)
      (ch : ℕ)
      → contains (ops (item ∷ batch)) op ≡ true
      → Among ch (waiters op l.batcher)
      → SentOnce kind
          (item ∷ batch)
          now
          ch
          l
          (send_kind dials code_of wire stream_id kind (item ∷ batch) now l)
  unfolding send_kind
  calls_once kind item batch now l op ch has waits =
      elim (sends_once dials code_of (wire (request_of kind (item ∷ batch))) (λ n. ok tt) stream_id
        (item ∷ batch) l.client) [
          | inl (calls, (e, o)) ↦
              inl (calls, rw (o) (refuses kind item batch now l.batcher op ch has waits e))
          | inr (n, calls, o) ↦ inr (
            n,
            (
              calls,
              rw (o) (
                  answered_by kind item batch now l.batcher op ch has waits
                    (wire (request_of kind (item ∷ batch)) n)
                    (send_batch_on (item ∷ batch) (wire (request_of kind (item ∷ batch)) n))
                    (λ id h.
                      (on_stream dials code_of (wire (request_of kind (item ∷ batch))) (λ n. ok tt)
                        stream_id item batch (wire (request_of kind (item ∷ batch)) n) id h).2)),
            ),
          )
        ]

  nobody_waits :
      (kind : OpKind) (item : BatchItem) (batch : List BatchItem) (now : ℕ) (l : Link) (op : String)
      (ch : ℕ)
      → contains (ops (item ∷ batch)) op ≡ true
      → Among ch (waiters op l.batcher)
      → lookup op (send_kind dials code_of wire stream_id kind (item ∷ batch) now l).batcher.pending
        ≡ none
  unfolding send_kind
  nobody_waits kind item batch now l op ch has waits =
      (finish_send_answers kind (item ∷ batch) _ now l.batcher op ch has waits).1

  -- sendAddBatch and sendRemoveBatch put a part of a batch on the wire at most once, also where the
  -- connection fails, and then nobody waits for an operation of the part any more. A channel that
  -- waited for it has got the ID that the broker accepted the request under, and the part is tracked
  -- under it; or it has got an error, and nothing of what is tracked or in flight has changed. Without
  -- a call it is an error.
  pub sent_once :
      (kind : OpKind) (item : BatchItem) (batch : List BatchItem) (now : ℕ) (l : Link) (op : String)
      (ch : ℕ)
      → contains (ops (item ∷ batch)) op ≡ true
      → Among ch (waiters op l.batcher)
      → let after = send_kind dials code_of wire stream_id kind (item ∷ batch) now l in
        SentOnce kind (item ∷ batch) now ch l after × (lookup op after.batcher.pending ≡ none)
  sent_once kind item batch now l op ch has waits = (
    calls_once kind item batch now l op ch has waits,
    nobody_waits kind item batch now l op ch has waits,
  )
