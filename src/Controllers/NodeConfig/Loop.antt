-- ===== src/Controllers/NodeConfig/Loop.antt =====
-- Start of the NodeConfig controller: the first sync with its retries, and the syncs after it.
pub mod Runs
pub mod Ends
pub mod Recorded
use karpenter_provider_rafay.Prelude.{
  ℕ, ◌*◌, String, Bool, true, false, List, [], ◌∷◌, ◌++◌, Option, none, some, if◌then◌else◌, ltb,
}
use karpenter_provider_rafay.Controllers.NodeConfig.{
  Manifest, Docs, SyncError, FetchReply, ConfigState, initial_retry_delay, max_retry_delay, sync,
}

-- What one pass of the loop meets: the answer of the broker, those of the API server, whether the
-- context has ended when a sync has failed, and whether the `select` picks its end.
pub record Turn (Body : Type 0) : Type 0 where
  pub reply : FetchReply
  pub accepts : Manifest Body → Bool
  pub ctx_err : Bool
  pub ctx_done : Bool

-- The controller, the local variable `delay` and the waits so far.
pub record Loop (Body : Type 0) : Type 0 where
  pub state : ConfigState Body
  pub delay : ℕ
  pub waits : List ℕ

-- Start before its next pass, or when it has returned nil.
pub data Pass (Body : Type 0) : Type 0 where
  continues returns : Loop Body → Pass Body

-- delay *= 2, at most maxRetryDelay
unfoldable pub next_delay : ℕ → ℕ
next_delay delay = if ltb max_retry_delay (delay * 2) then max_retry_delay else delay * 2

module _ {Body : Type 0} (interval : ℕ) where
  -- The `select`: `delay` is that of the next pass.
  unfoldable pub wait : Bool → ConfigState Body → ℕ → List ℕ → Pass Body
  wait true state delay waits = returns (record { state = state; delay = delay; waits = waits })
  wait false state delay waits = continues (record { state = state; delay = delay; waits = waits })

  -- The rest of a pass, after sync.
  unfoldable pub after_sync :
      Turn Body → Option SyncError × ConfigState Body → Loop Body → Pass Body
  unfolding next_delay wait
  after_sync t (none, state) l =
      wait t.ctx_done state initial_retry_delay (l.waits ++ interval ∷ [])
  after_sync t (some e, state) l =
      if t.ctx_err
      then returns (record l { state = state })
      else wait t.ctx_done state (next_delay l.delay) (l.waits ++ l.delay ∷ [])

  module _ (decoder : String → Docs Body) where
    unfoldable pub turn : Turn Body → Loop Body → Pass Body
    unfolding after_sync sync
    turn t l = after_sync t (sync decoder t.accepts t.reply l.state) l

    -- The loop of Start over the passes that it meets.
    unfoldable pub loop : List (Turn Body) → Pass Body → Pass Body
    unfolding turn
    loop [] p = p
    loop (t ∷ turns) (returns l) = returns l
    loop (t ∷ turns) (continues l) = loop turns (turn t l)

    unfoldable pub start : List (Turn Body) → ConfigState Body → Pass Body
    unfolding loop
    start turns s =
        loop turns (continues (record { state = s; delay = initial_retry_delay; waits = [] }))
