-- ===== src/Controllers/NodeConfig/Loop/Recorded.antt =====
-- What the loop of Start has applied of the revision that it has recorded.
use karpenter_provider_rafay.Prelude.{
  ◌≡◌, refl, sym, ap, subst, ◌∙◌, ◌⊎◌, inl, inr, ℕ, String, Bool, true, false, List, [], ◌∷◌, ◌++◌,
  Option, none, some, map, Bool-cases,
}
use karpenter_provider_rafay.CloudProvider.Matching.{Any}
use karpenter_provider_rafay.Controllers.NodeConfig.{
  Manifest, Docs, SyncError, FetchReply, ConfigState, sync, stamp, initial_retry_delay,
}
use karpenter_provider_rafay.Controllers.NodeConfig.Sync.{IsSync, Decodes, sync-IsSync}
use karpenter_provider_rafay.Controllers.NodeConfig.Loop.{
  Turn, Loop, Pass, continues, returns, wait, after_sync, turn, loop, start,
}
use karpenter_provider_rafay.Controllers.NodeConfig.Loop.Runs.{loop_of}

module _ {Body : Type 0} where
  append_assoc : (xs ys zs : List (Manifest Body)) → (xs ++ ys) ++ zs ≡ xs ++ (ys ++ zs)
  append_assoc [] ys zs = refl
  append_assoc (x ∷ xs) ys zs = ap (◌∷◌ x) (append_assoc xs ys zs)

  append_none : (xs : List (Manifest Body)) → xs ++ [] ≡ xs
  append_none [] = refl
  append_none (x ∷ xs) = ap (◌∷◌ x) (append_none xs)

  abbrev pub state_of : Pass Body → ConfigState Body
  state_of p = (loop_of p).state

  module _ (interval : ℕ) (decoder : String → Docs Body) where
    wait-state :
        (done : Bool) (s : ConfigState Body) (d : ℕ) (ws : List ℕ)
        → state_of (wait interval done s d ws) ≡ s
    unfolding wait
    wait-state true s d ws = refl
    wait-state false s d ws = refl

    after_sync-state :
        (t : Turn Body) (o : Option SyncError × ConfigState Body) (l : Loop Body)
        → state_of (after_sync interval t o l) ≡ o.1
    unfolding after_sync
    after_sync-state t (none, s) l = wait-state t.ctx_done s _ _
    after_sync-state t (some e, s) l = elim (Bool-cases t.ctx_err) [
      | inl c ↦ rw (after_sync, c) refl
      | inr c ↦ rw (after_sync, c) (wait-state t.ctx_done s _ _)
    ]

    -- The state has these objects applied behind those of the other.
    abbrev pub Extends : ConfigState Body → ConfigState Body → Type 0
    Extends before after = (more : List (Manifest Body)) × (after.applied ≡ before.applied ++ more)

    Extends-trans : (a b c : ConfigState Body) → Extends a b → Extends b c → Extends a c
    Extends-trans a b c (m, h) (k, g) =
        (m ++ k, g ∙ ap (λ xs. xs ++ k) h ∙ append_assoc a.applied m k)

    IsSync-Extends :
        (accepts : Manifest Body → Bool) (reply : FetchReply) (s : ConfigState Body)
        (o : Option SyncError × ConfigState Body)
        → IsSync decoder accepts reply s o
        → Extends s o.1
    IsSync-Extends accepts reply s (e, after) (inl (same, why)) =
        ([], ap (λ (t : ConfigState Body). t.applied) same ∙ sym (append_none s.applied))
    IsSync-Extends accepts reply s (e, after) (inr x) = (map (stamp x.revision) x.done, x.applied)

    -- The objects of a response of one of the passes stand applied under the revision, all of them
    -- and in their order.
    abbrev pub HasRecorded : List (Turn Body) → String → ConfigState Body → Type 0
    HasRecorded turns revision s =
        (objects : List (Manifest Body)) × (earlier : List (Manifest Body)) × (later : List
          (Manifest Body))
        × Any (λ (t : Turn Body). Decodes decoder t.reply revision objects) turns
        × (s.applied ≡ (earlier ++ map (stamp revision) objects) ++ later)

    turn-IsSync :
        (t : Turn Body) (l : Loop Body)
        → (o : Option SyncError × ConfigState Body) × IsSync decoder t.accepts t.reply l.state o
          × (state_of (turn interval decoder t l) ≡ o.1)
    unfolding turn
    turn-IsSync t l = (
      sync decoder t.accepts t.reply l.state,
      sync-IsSync decoder t.accepts l.state t.reply,
      after_sync-state t _ l,
    )

    loop-Extends :
        (turns : List (Turn Body)) (p : Pass Body)
        → Extends (state_of p) (state_of (loop interval decoder turns p))
    unfolding loop
    loop-Extends [] p = ([], sym (append_none (loop_of p).state.applied))
    loop-Extends (t ∷ turns) (returns l) = ([], sym (append_none l.state.applied))
    loop-Extends (t ∷ turns) (continues l) =
        let (o, synced, e) = turn-IsSync t l in
        Extends-trans l.state (state_of (turn interval decoder t l))
          (state_of (loop interval decoder turns (turn interval decoder t l)))
          (subst (Extends l.state) (sym e) (IsSync-Extends t.accepts t.reply l.state o synced))
          (loop-Extends turns (turn interval decoder t l))

    -- One sync, and what has been applied since.
    sync_recorded :
        (t : Turn Body) (s : ConfigState Body) (o : Option SyncError × ConfigState Body)
        (last : ConfigState Body)
        → IsSync decoder t.accepts t.reply s o
        → Extends o.1 last
        → (o.1.last_revision ≡ s.last_revision) ⊎ HasRecorded (t ∷ []) o.1.last_revision last
    sync_recorded t s (e, after) last (inl (same, why)) x =
        inl (ap (λ (u : ConfigState Body). u.last_revision) same)
    sync_recorded t s (e, after) last (inr y) (more, later) = elim y.recorded [
      | inr (failed, kept) ↦ inl kept
      | inl (fine, all, recorded) ↦ inr (
          subst (λ r. HasRecorded (t ∷ []) r last) (sym recorded)
            (
              y.objects,
              s.applied,
              more,
              inl y.decodes,
              later
                  ∙ ap (λ xs. xs ++ more) y.applied
                  ∙ ap (λ xs. (s.applied ++ map (stamp y.revision) xs) ++ more)
                      (sym (y.parts ∙ ap (λ ys. y.done ++ ys) all ∙ append_none y.done)),
            ))
    ]

    widen :
        (t : Turn Body) (turns : List (Turn Body)) (r : String) (s : ConfigState Body)
        → HasRecorded (t ∷ []) r s
        → HasRecorded (t ∷ turns) r s
    widen t turns r s (objs, earlier, later, inl d, applied) =
        (objs, earlier, later, inl d, applied)
    widen t turns r s (objs, earlier, later, inr d, applied) = absurd d

    loop_recorded :
        (turns : List (Turn Body)) (p : Pass Body)
        → ((state_of (loop interval decoder turns p)).last_revision ≡ (state_of p).last_revision)
          ⊎ HasRecorded turns
              (state_of (loop interval decoder turns p)).last_revision
              (state_of (loop interval decoder turns p))
    unfolding loop
    loop_recorded [] p = inl refl
    loop_recorded (t ∷ turns) (returns l) = inl refl
    loop_recorded (t ∷ turns) (continues l) =
        let next = turn interval decoder t l in
        let last = state_of (loop interval decoder turns next) in
        let (o, synced, e) = turn-IsSync t l in
        elim (loop_recorded turns next) [
          | inr (objs, earlier, later, from, applied) ↦
              inr (objs, earlier, later, inr from, applied)
          | inl same ↦
              elim (sync_recorded t l.state o last synced
                (subst (λ u. Extends u last) e (loop-Extends turns next))) [
                  | inl kept ↦ inl (same ∙ ap (λ (u : ConfigState Body). u.last_revision) e ∙ kept)
                  | inr recorded ↦ inr (
                      widen t turns last.last_revision last (
                        subst (λ r. HasRecorded (t ∷ []) r last)
                          (sym (same ∙ ap (λ (u : ConfigState Body). u.last_revision) e)) recorded))
                ]
        ]

    -- What Start has recorded as the last revision is that of a response of one of its passes, with
    -- autoscaling on, whose node classes and then node pools have all been applied, one behind the
    -- other, with the label and this revision: from a controller that has recorded none.
    pub start_recorded :
        (turns : List (Turn Body)) (s : ConfigState Body)
        → s.last_revision ≡ ""
        → ((state_of (start interval decoder turns s)).last_revision ≡ "")
          ⊎ HasRecorded turns
              (state_of (start interval decoder turns s)).last_revision
              (state_of (start interval decoder turns s))
    unfolding start
    start_recorded turns s h =
        elim (loop_recorded turns
          (continues (record { state = s; delay = initial_retry_delay; waits = [] }))) [
            | inl same ↦ inl (same ∙ h)
            | inr recorded ↦ inr recorded
          ]
