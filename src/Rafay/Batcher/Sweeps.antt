-- ===== src/Rafay/Batcher/Sweeps.antt =====
-- What the loop of pollBatch over the items of a batch does to the in-flight set, to the items that
-- remain, to the successes and to the failures.
use karpenter_provider_rafay.Prelude.{
  ℕ, String, ◌≡◌, refl, Bool, true, List, [], ◌∷◌, Dict, lookup, erase, is_some, contains, arith,
  ◌==◌, lookup-erase, Option-cases, Bool-cases, ◌∙◌, inl, inr,
}
use karpenter_provider_rafay.Rafay.Batcher.{BatchItem, ops}
use karpenter_provider_rafay.Rafay.Batcher.Waiters.{contains-append}
use karpenter_provider_rafay.Rafay.Batcher.Poll.{
  NodeState, succeeded, failed, in_work, NodeResult, Sweep, still_open, sweep_result, sweep_item,
  sweep,
}

abbrev flies : String → Sweep → Bool
flies op w = is_some (lookup op w.in_flight)

abbrev remains : String → Sweep → Bool
remains op w = contains (ops w.remaining) op

-- One round, seen through the operation `op`.
record Round (op : String) (item : BatchItem) (w w' : Sweep) : Type 0 where
  grounded : flies op w' ≡ true → flies op w ≡ true
  kept : remains op w ≡ true → remains op w' ≡ true
  own : (item.operation_id == op) ≡ true → flies op w' ≡ true → remains op w' ≡ true
  done : w'.all_done ≡ true → (w.all_done ≡ true) × (w'.remaining ≡ w.remaining)

module _ (op : String) (item : BatchItem) (w : Sweep) where
  still_open-Round : Round op item w (still_open item w)
  unfolding still_open contains
  still_open-Round = record {
    grounded = λ h. h;
    kept = λ h. ground (arith, contains-append op w.remaining (item ∷ []));
    own = λ e h. ground (arith, contains-append op w.remaining (item ∷ []));
    done = λ h. cc;
  }

  landed :
      (w' : Sweep)
      → w'.in_flight ≡ erase item.operation_id w.in_flight
      → w'.remaining ≡ w.remaining
      → w'.all_done ≡ w.all_done
      → Round op item w w'
  landed w' f r d = record {
    grounded = λ h. ground (arith, lookup-erase item.operation_id op w.in_flight);
    kept = λ h. rw r h;
    own = λ e h. ground (arith, lookup-erase item.operation_id op w.in_flight);
    done = λ h. (ground arith, r);
  }

  sweep_result-Round :
      (now : ℕ) (nr : NodeResult) (st : NodeState) → Round op item w (sweep_result now item nr st w)
  unfolding sweep_result
  sweep_result-Round now nr succeeded = landed (sweep_result now item nr succeeded w) refl refl refl
  sweep_result-Round now nr failed = landed (sweep_result now item nr failed w) refl refl refl
  sweep_result-Round now nr in_work = still_open-Round

  sweep_item-Round : (now : ℕ) (rm : Dict NodeResult) → Round op item w (sweep_item now rm item w)
  unfolding sweep_item
  sweep_item-Round now rm = elim (Option-cases (lookup item.operation_id rm)) [
    | inl e ↦ rw (e, sweep_item) still_open-Round
    | inr (nr, e) ↦ rw (e, sweep_item) (sweep_result-Round now nr nr.state)
  ]

module _ (now : ℕ) (rm : Dict NodeResult) (op : String) where
  pub sweep_grounded :
      (items : List BatchItem) (w : Sweep)
      → flies op (sweep now rm items w) ≡ true
      → flies op w ≡ true
  unfolding sweep
  sweep_grounded [] w h = h
  sweep_grounded (item ∷ items) w h =
      (sweep_item-Round op item w now rm).grounded
        (sweep_grounded items (sweep_item now rm item w) h)

  sweep_kept :
      (items : List BatchItem) (w : Sweep)
      → remains op w ≡ true
      → remains op (sweep now rm items w) ≡ true
  unfolding sweep
  sweep_kept [] w h = h
  sweep_kept (item ∷ items) w h =
      sweep_kept items (sweep_item now rm item w) ((sweep_item-Round op item w now rm).kept h)

  -- An item whose operation is still in flight after the loop remains.
  pub sweep_own :
      (items : List BatchItem) (w : Sweep)
      → contains (ops items) op ≡ true
      → flies op (sweep now rm items w) ≡ true
      → remains op (sweep now rm items w) ≡ true
  unfolding sweep contains
  sweep_own [] w h f = cc
  sweep_own (item ∷ items) w h f = elim (Bool-cases (item.operation_id == op)) [
    | inl e ↦ sweep_kept items (sweep_item now rm item w) (
        (sweep_item-Round op item w now rm).own e
          (sweep_grounded items (sweep_item now rm item w) f))
    | inr e ↦ sweep_own items (sweep_item now rm item w) (ground arith) f
  ]

-- If the loop ends with `allDone`, nothing was kept back.
pub sweep_done :
    (now : ℕ) (rm : Dict NodeResult) (items : List BatchItem) (w : Sweep)
    → (sweep now rm items w).all_done ≡ true
    → (w.all_done ≡ true) × ((sweep now rm items w).remaining ≡ w.remaining)
unfolding sweep
sweep_done now rm [] w h = (h, refl)
sweep_done now rm (item ∷ items) w h =
    let later = sweep_done now rm items (sweep_item now rm item w) h in
    let this = (sweep_item-Round "" item w now rm).done later.0 in (this.0, later.1 ∙ this.1)
