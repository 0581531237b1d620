-- ===== src/Rafay/BrokerClient/Calls.antt =====
-- How often the broker client calls the broker, and on which connections.
use karpenter_provider_rafay.Prelude.{
  ℕ, suc, String, ◌≡◌, refl, ap, ◌∙◌, ◌⊎◌, inl, inr, List, ◌∷◌, Option, some, Option-cases, arith,
}
use karpenter_provider_rafay.Rafay.Errors.{BrokerError, dial}
use karpenter_provider_rafay.Rafay.BrokerClient.{
  Outcome, ok, error, Client, connected, dial_failed, get_conn, close_conn, call_broker_once,
  once_on, after_once,
}

module _ (dials : ℕ → Option String) (code_of : BrokerError → Option ℕ) {A : Type 0}
    (call : ℕ → Outcome A) where
  pub Outcome-cases : (r : Outcome A) → ((a : A) × (r ≡ ok a)) ⊎ ((e : BrokerError) × (r ≡ error e))
  Outcome-cases (ok a) = inl (a, refl)
  Outcome-cases (error e) = inr (e, refl)

  close_conn-calls : (c : Client) → (close_conn dials code_of c).calls ≡ c.calls
  unfolding close_conn
  close_conn-calls c = ground arith

  get_conn-cases :
      (c : Client)
      → ((n : ℕ) × (d : Client) × (get_conn dials code_of c ≡ connected n d) × (d.calls ≡ c.calls))
        ⊎ ((e : String) × (d : Client) × (get_conn dials code_of c ≡ dial_failed e d)
            × (d.calls ≡ c.calls))
  unfolding get_conn
  get_conn-cases c = elim (Option-cases c.conn) [
    | inr (n, e) ↦ rw (e, get_conn) (inl (n, c, refl, refl))
    | inl none_yet ↦ elim (Option-cases (dials c.next_conn)) [
      | inr (x, e) ↦ rw (none_yet, e, get_conn) (inr (x, c, refl, refl))
      | inl e ↦
          rw (none_yet, e, get_conn)
            (inl (
              c.next_conn,
              record c { conn = some c.next_conn; next_conn = suc c.next_conn },
              refl,
              refl,
            ))
    ]
  ]

  after_once-lem :
      (n : ℕ) (r : Outcome A) (c : Client)
      → let out = after_once dials code_of call n r c in (out.0 ≡ r) × (out.1.calls ≡ c.calls)
  unfolding after_once
  after_once-lem n (ok a) c = (refl, refl)
  after_once-lem n (error e) c = ground (arith, close_conn-calls c)

  -- A call without a retry reaches the broker at most once: no connection was made and the result is
  -- the error of the dial, or the result is the outcome of the one call that was made.
  pub once_calls_once :
      (c : Client)
      → let r = call_broker_once dials code_of call c in
        ((r.1.calls ≡ c.calls) × ((e : String) × (r.0 ≡ error (dial e))))
        ⊎ ((n : ℕ) × (r.1.calls ≡ n ∷ c.calls) × (r.0 ≡ call n))
  unfolding call_broker_once once_on
  once_calls_once c = elim (get_conn-cases c) [
    | inr (e, d, g, k) ↦ rw (g, call_broker_once) (inl (k, (e, refl)))
    | inl (n, d, g, k) ↦
        rw (g, call_broker_once)
          (let a = after_once-lem n (call n) (record d { calls = n ∷ d.calls }) in
            inr (n, a.1 ∙ ap (λ (l : List ℕ). n ∷ l) k, a.0))
  ]
