-- ===== src/Rafay/Batcher/Swept.antt =====
-- What the loop of pollBatch over the items of a batch finds of one operation.
use karpenter_provider_rafay.Prelude.{
  ℕ, String, ◌≡◌, inl, inr, Bool, true, false, ◌||◌, ◌&&◌, not, List, [], ◌∷◌, ◌++◌, none, some,
  Option-cases, Bool-cases, Dict, lookup, contains, nat_eq, ◌==◌, eq_iff, lookup-insert, arith,
}
use karpenter_provider_rafay.Rafay.Batcher.{BatchItem, ops}
use karpenter_provider_rafay.Rafay.Batcher.Poll.{
  NodeState, succeeded, failed, in_work, NodeResult, Sweep, still_open, sweep_result, sweep_item,
  sweep,
}
use karpenter_provider_rafay.Rafay.Batcher.Waiters.{contains-append}

-- The operation is among the failed ones.
abbrev pub has_failed : String → List (String × String) → Bool
has_failed op [] = false
has_failed op (f ∷ fs) = f.0 == op || has_failed op fs

has_failed-last :
    (op : String) (fs : List (String × String)) (f : String × String)
    → has_failed op (fs ++ f ∷ []) ≡ (has_failed op fs || f.0 == op)
has_failed-last op [] f = ground arith
has_failed-last op (g ∷ fs) f = ground (arith, has_failed-last op fs f)

abbrev pub just_done : ℕ → String → Sweep → Bool
just_done now op w = elim (lookup op w.succeeded) [ none ↦ false | some t ↦ nat_eq t now ]

-- What the loop over the items has found of the operation.
abbrev pub swept : ℕ → String → Sweep → Bool
swept now op w =
    (contains (ops w.remaining) op && not w.all_done)
    || has_failed op w.failed
    || just_done now op w

module _ (now : ℕ) (rm : Dict NodeResult) (op : String) where
  still_open-swept :
      (item : BatchItem) (w : Sweep)
      → (swept now op w || item.operation_id == op) ≡ true
      → swept now op (still_open item w) ≡ true
  unfolding still_open contains
  still_open-swept item w h = ground (arith, h, contains-append op w.remaining (item ∷ []))

  sweep_result-swept :
      (item : BatchItem) (nr : NodeResult) (state : NodeState) (w : Sweep)
      → (swept now op w || item.operation_id == op) ≡ true
      → swept now op (sweep_result now item nr state w) ≡ true
  unfolding sweep_result
  sweep_result-swept item nr succeeded w h =
      ground
        (arith, h, eq_iff item.operation_id op, lookup-insert item.operation_id op now w.succeeded)
  sweep_result-swept item nr failed w h =
      ground (arith, h, has_failed-last op w.failed (item.operation_id, nr.detail))
  sweep_result-swept item nr in_work w h = still_open-swept item w h

  sweep_item-swept :
      (item : BatchItem) (w : Sweep)
      → (swept now op w || item.operation_id == op) ≡ true
      → swept now op (sweep_item now rm item w) ≡ true
  unfolding sweep_item
  sweep_item-swept item w h = elim (Option-cases (lookup item.operation_id rm)) [
    | inl e ↦ rw (e, sweep_item) (still_open-swept item w h)
    | inr (nr, e) ↦ rw (e, sweep_item) (sweep_result-swept item nr nr.state w h)
  ]

  -- After the loop each of the items has succeeded just now, has failed, or is left.
  pub sweep-swept :
      (items : List BatchItem) (w : Sweep)
      → (swept now op w || contains (ops items) op) ≡ true
      → swept now op (sweep now rm items w) ≡ true
  unfolding sweep contains
  sweep-swept [] w h = ground (arith, h)
  sweep-swept (item ∷ items) w h =
      sweep-swept items (sweep_item now rm item w)
        (elim (Bool-cases (swept now op w || item.operation_id == op)) [
          | inl e ↦ ground (arith, sweep_item-swept item w e)
          | inr e ↦ ground (arith, h, e)
        ])
