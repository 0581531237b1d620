-- ===== src/Rafay/BrokerClient/Retries.antt =====
-- What callBroker does: on which connections it calls, when it closes one and dials another, and what it
-- returns.
use karpenter_provider_rafay.Prelude.{
  ℕ, suc, ◌<◌, String, ◌≡◌, ◌≢◌, refl, sym, ap, ◌∙◌, ◌⊎◌, inl, inr, true, false, List, ◌∷◌, Option,
  none, some, Option-cases, Bool-cases, arith, subst,
}
use karpenter_provider_rafay.Rafay.Errors.{BrokerError, dial}
use karpenter_provider_rafay.Rafay.BrokerClient.{
  Outcome, ok, error, Client, Got, connected, dial_failed, get_conn, close_conn, should_redial,
  call_broker, first_on, after_first, retry_on, unavailable,
}
use karpenter_provider_rafay.Rafay.BrokerClient.Calls.{Outcome-cases}

-- The number of a connection that there is, is one that has been given.
abbrev pub IsGiven : Client → Type 0
IsGiven c = elim c.conn [ none ↦ Unit | some n ↦ n < c.next_conn ]

module _ (dials : ℕ → Option String) (code_of : BrokerError → Option ℕ) {A : Type 0}
    (call : ℕ → Outcome A) where
  -- The connection that a call is made on: the cached one, or one that is dialled.
  abbrev pub IsReached : Client → ℕ → Type 0
  IsReached c n =
      (c.conn ≡ some n) ⊎ ((c.conn ≡ none) × (dials c.next_conn ≡ none) × (n ≡ c.next_conn))

  -- The first call decides: it succeeds, or fails with another code than Unavailable.
  abbrev pub IsFinal : Outcome A → Type 0
  IsFinal r =
      ((a : A) × (r ≡ ok a)) ⊎ ((e : BrokerError) × (r ≡ error e) × (code_of e ≢ some unavailable))

  -- The first call has failed as Unavailable: its connection is closed, and the call is made again on
  -- another one, or that cannot be dialled.
  abbrev pub IsRepeated : Client → ℕ → Outcome A × Client → Type 0
  IsRepeated c n r =
      (e : BrokerError) × (call n ≡ error e)
      × (code_of e ≡ some unavailable)
      × (r.1.closed ≡ n ∷ c.closed)
      × (m : ℕ) × (n < m)
      × (((dials m ≡ none) × (r.0 ≡ call m) × (r.1.calls ≡ m ∷ n ∷ c.calls) × (r.1.conn ≡ some m))
          ⊎ ((x : String) × (dials m ≡ some x)
              × (r.0 ≡ error (dial x))
              × (r.1.calls ≡ n ∷ c.calls)
              × (r.1.conn ≡ none)))

  abbrev pub IsRetried : Client → Outcome A × Client → Type 0
  IsRetried c r =
      ((x : String) × (c.conn ≡ none) × (dials c.next_conn ≡ some x) × (r ≡ (error (dial x), c)))
      ⊎ ((n : ℕ) × IsReached c n
          × ((IsFinal (call n)
                × (r.0 ≡ call n)
                × (r.1.calls ≡ n ∷ c.calls)
                × (r.1.conn ≡ some n)
                × (r.1.closed ≡ c.closed))
              ⊎ IsRepeated c n r))

  redial_code :
      (e : BrokerError) → should_redial dials code_of e ≡ true → code_of e ≡ some unavailable
  unfolding should_redial
  redial_code e h = ground arith

  no_redial_code :
      (e : BrokerError) → should_redial dials code_of e ≡ false → code_of e ≢ some unavailable
  unfolding should_redial
  no_redial_code e h k = ground (arith, k)

  -- The second attempt, for a client without a connection.
  retry_on-lem :
      (c : Client)
      → c.conn ≡ none
      → let r = retry_on dials code_of call (get_conn dials code_of c) in
        (r.1.closed ≡ c.closed)
        × (((dials c.next_conn ≡ none)
              × (r.0 ≡ call c.next_conn)
              × (r.1.calls ≡ c.next_conn ∷ c.calls)
              × (r.1.conn ≡ some c.next_conn))
            ⊎ ((x : String) × (dials c.next_conn ≡ some x)
                × (r.0 ≡ error (dial x))
                × (r.1.calls ≡ c.calls)
                × (r.1.conn ≡ none)))
  unfolding retry_on get_conn
  retry_on-lem c empty = elim (Option-cases (dials c.next_conn)) [
    | inl e ↦ rw (empty, e, get_conn) (refl, inl (refl, refl, refl, refl))
    | inr (x, e) ↦ rw (empty, e, get_conn) (refl, inr (x, refl, refl, refl, empty))
  ]

  -- The client once the first connection is there.
  abbrev Reached : Client → ℕ → Client → Type 0
  Reached c n d =
      (d.conn ≡ some n) × (n < d.next_conn) × (d.closed ≡ c.closed) × (d.calls ≡ c.calls)

  closes_conn :
      (d : Client) (n : ℕ)
      → d.conn ≡ some n
      → record d { conn = none; closed = n ∷ d.closed } ≡ close_conn dials code_of d
  unfolding close_conn
  closes_conn d n h = rw (h, close_conn) refl

  pub after_first_again :
      (d : Client) (e : BrokerError)
      → should_redial dials code_of e ≡ true
      → after_first dials code_of call (error e) d
        ≡ retry_on dials code_of call (get_conn dials code_of (close_conn dials code_of d))
  unfolding after_first
  after_first_again d e h = rw (h, after_first) refl

  again_on :
      (c d : Client) (n : ℕ) (e : BrokerError)
      → call n ≡ error e
      → code_of e ≡ some unavailable
      → n < d.next_conn
      → d.closed ≡ n ∷ c.closed
      → d.calls ≡ n ∷ c.calls
      → d.conn ≡ none
      → IsRepeated c n (retry_on dials code_of call (get_conn dials code_of d))
  again_on c d n e f code given closed calls empty =
      let (closed_still, second) = retry_on-lem d empty in
      (
        e,
        f,
        code,
        closed_still ∙ closed,
        d.next_conn,
        given,
        elim second [
          | inl (dialled, out, more, conn) ↦
              inl (dialled, out, more ∙ ap (λ (l : List ℕ). d.next_conn ∷ l) calls, conn)
          | inr (x, failed, out, same, conn) ↦ inr (x, failed, out, same ∙ calls, conn)
        ],
      )

  after_first-lem :
      (c d : Client) (n : ℕ)
      → IsReached c n
      → Reached c n d
      → IsRetried c (after_first dials code_of call (call n) (record d { calls = n ∷ d.calls }))
  unfolding after_first
  after_first-lem c d n r (open_conn, given, closed, calls) =
      elim (Outcome-cases dials code_of call (call n)) [
        | inl (a, e) ↦ inr (
          n,
          r,
          inl (
              rw (e, after_first)
                (inl (a, refl), refl, ap (λ (l : List ℕ). n ∷ l) calls, open_conn, closed)),
        )
        | inr (x, e) ↦ elim (Bool-cases (should_redial dials code_of x)) [
          | inr stays ↦ inr (
            n,
            r,
            inl (
                rw (e, stays, after_first)
                  (
                    inr (x, refl, no_redial_code x stays),
                    refl,
                    ap (λ (l : List ℕ). n ∷ l) calls,
                    open_conn,
                    closed,
                  )),
          )
          | inl again ↦
              let last = record d { conn = none; calls = n ∷ d.calls; closed = n ∷ d.closed } in
              inr (
                n,
                r,
                inr (
                    subst (IsRepeated c n)
                      (sym (
                        ap
                          (λ o. after_first dials code_of call o (record d { calls = n ∷ d.calls }))
                          e
                        ∙ after_first_again (record d { calls = n ∷ d.calls }) x again
                        ∙ ap (λ k. retry_on dials code_of call (get_conn dials code_of k))
                            (sym (closes_conn (record d { calls = n ∷ d.calls }) n open_conn))))
                      (again_on c last n x e (redial_code x again) given
                        (ap (λ (l : List ℕ). n ∷ l) closed) (ap (λ (l : List ℕ). n ∷ l) calls)
                        refl)),
              )
        ]
      ]

  below : (c : Client) (n : ℕ) → c.conn ≡ some n → IsGiven c → n < c.next_conn
  below c n e given = ground (arith, e, given)

  -- The three ways of getConn.
  cached : (c : Client) (n : ℕ) → c.conn ≡ some n → get_conn dials code_of c ≡ connected n c
  unfolding get_conn
  cached c n e = ground (arith, e)

  not_dialled :
      (c : Client) (x : String)
      → c.conn ≡ none
      → dials c.next_conn ≡ some x
      → get_conn dials code_of c ≡ dial_failed x c
  unfolding get_conn
  not_dialled c x none_yet e = ground (arith, none_yet, e)

  dialled :
      (c : Client)
      → c.conn ≡ none
      → dials c.next_conn ≡ none
      → get_conn dials code_of c
        ≡ connected c.next_conn (record c { conn = some c.next_conn; next_conn = suc c.next_conn })
  unfolding get_conn
  dialled c none_yet e = ground (arith, none_yet, e)

  -- callBroker, for a client whose connection is one that it has dialled. Without a connection that
  -- can be dialled it makes no call and changes nothing. A first call that succeeds, or fails with
  -- another code than Unavailable, is the only one, and its connection stays. After one that fails as
  -- Unavailable the connection is closed and another one, with a higher number, is dialled: the result
  -- is that of a second call, made on that one, or the error of the dial.
  pub call_broker_retries :
      (c : Client) → IsGiven c → IsRetried c (call_broker dials code_of call c)
  unfolding call_broker first_on
  call_broker_retries c given = elim (Option-cases c.conn) [
    | inr (n, e) ↦
        from_conn c (connected n c) (cached c n e)
          (after_first-lem c c n (inl e) (e, below c n e given, refl, refl))
    | inl none_yet ↦ elim (Option-cases (dials c.next_conn)) [
      | inr (x, e) ↦
          from_conn c (dial_failed x c) (not_dialled c x none_yet e) (inl (x, none_yet, e, refl))
      | inl e ↦
          let d = record c { conn = some c.next_conn; next_conn = suc c.next_conn } in
          from_conn c (connected c.next_conn d) (dialled c none_yet e) (
            after_first-lem c d c.next_conn (inr (none_yet, e, refl))
              (refl, omega arith, refl, refl))
    ]
  ]
    where
      from_conn :
          (c : Client) (g : Got)
          → get_conn dials code_of c ≡ g
          → IsRetried c (first_on dials code_of call g)
          → IsRetried c (first_on dials code_of call (get_conn dials code_of c))
      from_conn c g e h = subst (λ k. IsRetried c (first_on dials code_of call k)) (sym e) h
