-- ===== src/Rafay/BrokerClient/Given.antt =====
-- The connection of the client is one that it has dialled, whatever callBroker meets.
use karpenter_provider_rafay.Prelude.{
  ℕ, ◌<◌, String, ◌≡◌, sym, inl, inr, ◌∷◌, Option, none, some, Bool-cases, arith, subst,
}
use karpenter_provider_rafay.Rafay.Errors.{BrokerError}
use karpenter_provider_rafay.Rafay.BrokerClient.{
  Outcome, ok, error, Client, Got, connected, dial_failed, get_conn, close_conn, should_redial,
  call_broker, first_on, after_first, retry_on,
}
use karpenter_provider_rafay.Rafay.BrokerClient.Retries.{IsGiven, after_first_again}

module _ (dials : ℕ → Option String) (code_of : BrokerError → Option ℕ) {A : Type 0}
    (call : ℕ → Outcome A) where
  -- The number of the connection stays one that has been given, over every call.
  GotIsGiven : Got → Type 0
  GotIsGiven g = elim g [
    | connected n d ↦ (d.conn ≡ some n) × (n < d.next_conn)
    | dial_failed x d ↦ d.conn ≡ none
  ]

  get_conn-IsGiven : (c : Client) → IsGiven c → GotIsGiven (get_conn dials code_of c)
  unfolding get_conn GotIsGiven
  get_conn-IsGiven c given = ground (arith, given)

  IsGiven-none : (c : Client) → c.conn ≡ none → IsGiven c
  IsGiven-none c e = ground (arith, e)

  IsGiven-some : (c : Client) (n : ℕ) → c.conn ≡ some n → n < c.next_conn → IsGiven c
  IsGiven-some c n e h = ground (arith, e, h)

  close_conn-IsGiven : (c : Client) → IsGiven (close_conn dials code_of c)
  unfolding close_conn
  close_conn-IsGiven c = ground arith

  retry_on-IsGiven : (g : Got) → GotIsGiven g → IsGiven (retry_on dials code_of call g).1
  unfolding retry_on GotIsGiven
  retry_on-IsGiven (connected n d) (e, h) = IsGiven-some (record d { calls = n ∷ d.calls }) n e h
  retry_on-IsGiven (dial_failed x d) e = IsGiven-none d e

  after_first-IsGiven :
      (r : Outcome A) (c : Client) → IsGiven c → IsGiven (after_first dials code_of call r c).1
  unfolding after_first
  after_first-IsGiven (ok a) c given = given
  after_first-IsGiven (error e) c given = elim (Bool-cases (should_redial dials code_of e)) [
    | inr stays ↦ rw (stays, after_first) given
    | inl again ↦
        subst (λ (r : Outcome A × Client). IsGiven r.1)
          (sym (after_first_again dials code_of call c e again))
          (retry_on-IsGiven (get_conn dials code_of (close_conn dials code_of c))
            (get_conn-IsGiven (close_conn dials code_of c) (close_conn-IsGiven c)))
  ]

  first_on-IsGiven : (g : Got) → GotIsGiven g → IsGiven (first_on dials code_of call g).1
  unfolding first_on GotIsGiven
  first_on-IsGiven (connected n d) (e, h) =
      after_first-IsGiven (call n) (record d { calls = n ∷ d.calls })
        (IsGiven-some (record d { calls = n ∷ d.calls }) n e h)
  first_on-IsGiven (dial_failed x d) e = IsGiven-none d e

  -- callBroker keeps the client one whose connection it has dialled.
  call_broker-IsGiven : (c : Client) → IsGiven c → IsGiven (call_broker dials code_of call c).1
  unfolding call_broker
  call_broker-IsGiven c given =
      first_on-IsGiven (get_conn dials code_of c) (get_conn-IsGiven c given)
