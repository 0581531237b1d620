-- ===== src/Rafay/BrokerClient/Sends.antt =====
-- SendBatch and SendBatchRemove of the client: how often they call, and what an accepted batch means
-- for the stream.
use karpenter_provider_rafay.Prelude.{
  ℕ, String, ◌≡◌, refl, ◌⊎◌, inl, inr, List, ◌∷◌, Option, none, some, Bool-cases, trim_space, arith,
  ◌==◌,
}
use karpenter_provider_rafay.Rafay.Errors.{BrokerError, dial, stream_id_required}
use karpenter_provider_rafay.Rafay.BrokerClient.{
  Outcome, ok, error, Response, accepted, rejected, batch_status, cancel_ack, other, Stream, Client,
  send_batch_on, send_batch, with_stream_id, read_ack, exchange,
}
use karpenter_provider_rafay.Rafay.BrokerClient.Calls.{once_calls_once}

module _ {R : Type 0} where
  read_ack-ok : (o : Outcome (Response R)) (id : String) → read_ack o ≡ ok id → o ≡ ok (accepted id)
  unfolding read_ack
  read_ack-ok (error e) id h = cc
  read_ack-ok (ok (accepted i)) id h = cc
  read_ack-ok (ok (rejected reason)) id h = cc
  read_ack-ok (ok (batch_status rs)) id h = cc
  read_ack-ok (ok (cancel_ack ids)) id h = cc
  read_ack-ok (ok other) id h = cc

  exchange-ok :
      (s : Stream R) (r : Response R)
      → exchange s ≡ ok r
      → (s.opened ≡ none) × (s.sent ≡ none) × (s.received.1 ≡ some r)
  unfolding exchange
  exchange-ok s r h = ground arith

module _ (dials : ℕ → Option String) (code_of : BrokerError → Option ℕ) {R Config : Type 0}
    (streams : ℕ → Stream R) (config_on : ℕ → Outcome Config) (stream_id : String)
    {N : Type 0} where
  -- SendBatch makes no call and fails, or makes one call and returns its outcome.
  pub sends_once :
      (nodes : List N) (c : Client)
      → let r = send_batch dials code_of streams config_on stream_id nodes c in
        ((r.1.calls ≡ c.calls) × ((e : BrokerError) × (r.0 ≡ error e)))
        ⊎ ((n : ℕ) × (r.1.calls ≡ n ∷ c.calls) × (r.0 ≡ send_batch_on nodes (streams n)))
  unfolding send_batch with_stream_id
  sends_once nodes c = elim (Bool-cases (trim_space stream_id == "")) [
    | inl unset ↦ rw (unset, send_batch) (inl (refl, (stream_id_required, refl)))
    | inr named ↦
        rw (named, send_batch)
          (elim (once_calls_once dials code_of (λ n. send_batch_on nodes (streams n)) c) [
            | inl (k, (e, o)) ↦ inl (k, (dial e, o))
            | inr (n, k, o) ↦ inr (n, k, o)
          ])
  ]

  pub on_stream :
      (n : N) (nodes : List N) (s : Stream R) (id : String)
      → send_batch_on (n ∷ nodes) s ≡ ok id
      → (s.opened ≡ none) × (s.sent ≡ none) × (s.received.1 ≡ some (accepted id))
  unfolding send_batch_on
  on_stream n nodes s id h = exchange-ok s (accepted id) (read_ack-ok (exchange s) id h)
