-- ===== src/Controllers/NodeConfig/Loop/Ends.antt =====
-- When the loop of Start returns, and what it has recorded and applied.
use karpenter_provider_rafay.Prelude.{
  ◌≡◌, refl, subst, inl, inr, ℕ, suc, ◌+◌, String, Bool, true, false, List, [], ◌∷◌, ◌++◌, Option,
  none, some, length, length-append, All, Bool-cases, arith,
}
use karpenter_provider_rafay.CloudProvider.Matching.{Any}
use karpenter_provider_rafay.Controllers.NodeConfig.{Docs, SyncError, ConfigState}
use karpenter_provider_rafay.Controllers.NodeConfig.Loop.{
  Turn, Loop, Pass, continues, returns, wait, after_sync, turn, loop, start,
}

-- Start goes on, and has waited so often.
abbrev pub GoesOn : {Body : Type 0} → ℕ → Pass Body → Type 0
GoesOn n (continues l) = length l.waits ≡ n
GoesOn n (returns l) = ⊥

abbrev pub has_returned : {Body : Type 0} → Pass Body → Bool
has_returned (continues l) = false
has_returned (returns l) = true

-- The context has not ended in this pass.
abbrev pub IsLive : {Body : Type 0} → Turn Body → Type 0
IsLive t = (t.ctx_err ≡ false) × (t.ctx_done ≡ false)

-- The context has ended in this pass.
abbrev pub IsOver : {Body : Type 0} → Turn Body → Type 0
IsOver t = t.ctx_done ≡ true

module _ {Body : Type 0} (interval : ℕ) (decoder : String → Docs Body) where
  one_more : (ws : List ℕ) (d : ℕ) → length (ws ++ d ∷ []) ≡ suc (length ws)
  one_more ws d = omega (arith, length-append ws (d ∷ []))

  live-GoesOn :
      (t : Turn Body) (o : Option SyncError × ConfigState Body) (l : Loop Body)
      → IsLive t
      → GoesOn (suc (length l.waits)) (after_sync interval t o l)
  unfolding after_sync wait
  live-GoesOn t (none, s) l (e, d) = rw d (one_more l.waits interval)
  live-GoesOn t (some err, s) l (e, d) = rw (e, d) (one_more l.waits l.delay)

  loop-GoesOn :
      (turns : List (Turn Body)) (p : Pass Body) (n : ℕ)
      → All IsLive turns
      → GoesOn n p
      → GoesOn (length turns + n) (loop interval decoder turns p)
  unfolding loop turn
  loop-GoesOn [] p n all h = subst (λ k. GoesOn k p) (omega arith) h
  loop-GoesOn (t ∷ turns) (returns l) n all h = elim h [ ]
  loop-GoesOn (t ∷ turns) (continues l) n all h =
      subst (λ k. GoesOn k (loop interval decoder turns (turn interval decoder t l)))
        (omega (arith, h))
        (loop-GoesOn turns (turn interval decoder t l) (suc (length l.waits)) all.1
          (live-GoesOn t _ l all.0))

  -- Whatever the broker and the API server answer, Start goes on with one pass and one wait after the
  -- other as long as the context lasts.
  pub start_survives :
      (turns : List (Turn Body)) (s : ConfigState Body)
      → All IsLive turns
      → GoesOn (length turns) (start interval decoder turns s)
  unfolding start
  start_survives turns s all =
      subst (λ k. GoesOn k (start interval decoder turns s)) (omega arith)
        (loop-GoesOn turns _ 0 all refl)

  over_returns :
      (t : Turn Body) (o : Option SyncError × ConfigState Body) (l : Loop Body)
      → IsOver t
      → has_returned (after_sync interval t o l) ≡ true
  unfolding after_sync wait
  over_returns t (none, s) l d = rw d refl
  over_returns t (some e, s) l d = elim (Bool-cases t.ctx_err) [
    | inl c ↦ rw (after_sync, c) refl
    | inr c ↦ rw (after_sync, c, d) refl
  ]

  loop_stays :
      (turns : List (Turn Body)) (p : Pass Body)
      → has_returned p ≡ true
      → has_returned (loop interval decoder turns p) ≡ true
  unfolding loop
  loop_stays [] p h = h
  loop_stays (t ∷ turns) (returns l) h = refl
  loop_stays (t ∷ turns) (continues l) h = cc

  loop_returns :
      (turns : List (Turn Body)) (p : Pass Body)
      → Any IsOver turns
      → has_returned (loop interval decoder turns p) ≡ true
  unfolding loop turn
  loop_returns [] p h = elim h [ ]
  loop_returns (t ∷ turns) (returns l) h = refl
  loop_returns (t ∷ turns) (continues l) (inl over) =
      loop_stays turns (turn interval decoder t l) (over_returns t _ l over)
  loop_returns (t ∷ turns) (continues l) (inr h) = loop_returns turns (turn interval decoder t l) h

  -- Start returns when a `select` picks the end of the context.
  pub start_returns :
      (turns : List (Turn Body)) (s : ConfigState Body)
      → Any IsOver turns
      → has_returned (start interval decoder turns s) ≡ true
  unfolding start
  start_returns turns s h = loop_returns turns _ h
