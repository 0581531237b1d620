-- ===== src/Rafay/Batcher/Accounted.antt =====
-- No operation of a tracked batch is lost: it stays with its batch until a poll reports it as succeeded
-- or the failure handler is called for it.
pub mod Answered
pub mod Steps
pub mod Runs
use mathlib.Core.List.{map-append}
use karpenter_provider_rafay.Prelude.{
  ℕ, suc, ◌-◌, ◌≤◌, String, ◌≡◌, refl, sym, subst, ap, ◌∙◌, ◌⊎◌, inl, inr, Bool, true, false, ◌||◌,
  ◌&&◌, not, List, [], ◌∷◌, ◌++◌, Option, none, some, Option-cases, Bool-cases, Dict, lookup,
  insert, erase, is_some, contains, map, nat_eq, ltb, leb, ◌==◌, eq_iff, eq_refl, lookup-erase,
  lookup-insert, if◌then◌else◌, arith,
}
use karpenter_provider_rafay.Rafay.Batcher.{
  NodeBatcher, BatchItem, InProgressBatch, FailureCall, OpKind, ops, has_succeeded,
  max_consecutive_empty_polls, expired_batch_detail, succeeded_retention,
}
use karpenter_provider_rafay.Rafay.Batcher.Poll.{
  NodeState, succeeded, failed, in_work, NodeResult, PollReply, results, error, Sweep, still_open,
  sweep_result, sweep_item, sweep, sweep_from, result_map, prune_succeeded, notify, fail_items,
  clear_in_flight, drop_batch, is_empty, count_empty_poll, settle, answer_batch, poll_finish,
}
use karpenter_provider_rafay.Rafay.Batcher.Swept.{has_failed, just_done, swept, sweep-swept}
use karpenter_provider_rafay.Rafay.Batcher.Succeeded.{prune_keeps}
use karpenter_provider_rafay.Rafay.Batcher.Waiters.{contains-append}

-- The operation is an item of the batch of this ID.
abbrev pub under_in : String → String → Dict InProgressBatch → Bool
under_in id op m = elim (lookup id m) [ none ↦ false | some bp ↦ contains (ops bp.items) op ]

abbrev pub under : String → String → NodeBatcher → Bool
under id op b = under_in id op b.in_progress

-- The failure handler has been called for the operation.
abbrev pub reports : String → List FailureCall → Bool
reports op [] = false
reports op (c ∷ calls) = c.operation_id == op || reports op calls

-- What may become of the operation: it stays, has succeeded, or is reported as failed.
abbrev pub accounted : String → String → NodeBatcher → List FailureCall → Bool
accounted id op b calls = under id op b || has_succeeded b op || reports op calls

pub reports-append :
    (op : String) (xs ys : List FailureCall)
    → reports op (xs ++ ys) ≡ (reports op xs || reports op ys)
reports-append op [] ys = refl
reports-append op (x ∷ xs) ys = ground (arith, reports-append op xs ys)

reports-items :
    (op detail : String) (kind : OpKind) (items : List BatchItem)
    → reports op
        (map (λ i. record { operation_id = i.operation_id; kind = kind; detail = detail }) items)
      ≡ contains (ops items) op
unfolding contains
reports-items op detail kind [] = refl
reports-items op detail kind (i ∷ items) = ground (arith, reports-items op detail kind items)

reports-failed :
    (op : String) (kind : OpKind) (fs : List (String × String))
    → reports op (map (λ f. record { operation_id = f.0; kind = kind; detail = f.1 }) fs)
      ≡ has_failed op fs
reports-failed op kind [] = refl
reports-failed op kind (f ∷ fs) = ground (arith, reports-failed op kind fs)

not_empty :
    (op : String) (items : List BatchItem) → contains (ops items) op ≡ true → is_empty items ≡ false
unfolding is_empty contains
not_empty op [] h = cc
not_empty op (item ∷ items) h = refl

or_right : (p q : Bool) → q ≡ true → (p || q) ≡ true
or_right p q h = ground arith

-- The same of what a poll returns.
abbrev pub IsAccounted : String → String → NodeBatcher × List FailureCall → Type 0
IsAccounted id op r = accounted id op r.0 r.1 ≡ true

pub stays-IsAccounted :
    (id op : String) (r : NodeBatcher × List FailureCall)
    → under id op r.0 ≡ true
    → IsAccounted id op r
stays-IsAccounted id op r h = rw h refl

pub reports-IsAccounted :
    (id op : String) (r : NodeBatcher × List FailureCall)
    → reports op r.1 ≡ true
    → IsAccounted id op r
reports-IsAccounted id op r h =
    or_right (under id op r.0 || has_succeeded r.0 op) (reports op r.1) h

module _ (id op : String) where
  under-erase :
      (j : String) (m : Dict InProgressBatch)
      → (id == j) ≡ false
      → under_in id op (erase j m) ≡ under_in id op m
  under-erase j m other = ground (arith, lookup-erase j id m, eq_iff id j, eq_iff j id)

  pub under-insert :
      (j : String) (bp : InProgressBatch) (m : Dict InProgressBatch)
      → (id == j) ≡ false
      → under_in id op (insert j bp m) ≡ under_in id op m
  under-insert j bp m other = ground (arith, lookup-insert j id bp m, eq_iff id j, eq_iff j id)

  pub under-insert_self :
      (bp : InProgressBatch) (m : Dict InProgressBatch)
      → under_in id op (insert id bp m) ≡ contains (ops bp.items) op
  under-insert_self bp m = ground (arith, lookup-insert id id bp m, eq_iff id id)

  -- A batch that is dropped is reported item by item.
  pub drop-reports :
      (bp : InProgressBatch) (b : NodeBatcher)
      → b.failure_handler ≡ true
      → contains (ops bp.items) op ≡ true
      → reports op (drop_batch id bp b).1 ≡ true
  unfolding drop_batch fail_items
  drop-reports bp b handler here =
      rw (handler, notify) (reports-items op expired_batch_detail bp.kind bp.items ∙ here)

  module _ (j : String) (other : (id == j) ≡ false) (bp : InProgressBatch) (b : NodeBatcher) where
    -- What is done with another batch.
    pub drop-other : under id op (drop_batch j bp b).0 ≡ under id op b
    unfolding drop_batch clear_in_flight
    drop-other = under-erase j b.in_progress other

    pub settle-other : (now : ℕ) (w : Sweep) → under id op (settle now j bp w b).0 ≡ under id op b
    unfolding settle
    settle-other now w = elim (Bool-cases (w.all_done || is_empty w.remaining)) [
      | inl e ↦ rw e (under-erase j b.in_progress other)
      | inr e ↦
          rw e (
            under-insert j (record bp { items = w.remaining; empty_polls = 0 }) b.in_progress other)
    ]

    pub empty-other : under id op (count_empty_poll j bp b).0 ≡ under id op b
    unfolding count_empty_poll
    empty-other = elim (Bool-cases (leb max_consecutive_empty_polls (suc bp.empty_polls))) [
      | inl e ↦ rw (e, count_empty_poll) (under-erase j b.in_progress other)
      | inr e ↦
          rw (e, count_empty_poll)
            (under-insert j (record bp { empty_polls = suc bp.empty_polls }) b.in_progress other)
    ]

  -- What is done with the batch itself, for a batcher with a failure handler.
  module _ (now : ℕ) (bp : InProgressBatch) (b : NodeBatcher)
      (handler : b.failure_handler ≡ true) where
    settle_kept :
        (w : Sweep)
        → (contains (ops w.remaining) op && not w.all_done) ≡ true
        → under id op (settle now id bp w b).0 ≡ true
    unfolding settle is_empty
    settle_kept w h =
        let open_left : w.all_done ≡ false = ground (arith, h) in
        let some_left = not_empty op w.remaining (ground (arith, h)) in
        rw (open_left, some_left)
          (under-insert_self (record bp { items = w.remaining; empty_polls = 0 }) b.in_progress
            ∙ ground (arith, h))

    settle_failed :
        (w : Sweep) → has_failed op w.failed ≡ true → reports op (settle now id bp w b).1 ≡ true
    unfolding settle
    settle_failed w h = rw (handler, notify) (reports-failed op bp.kind w.failed ∙ h)

    settle_done :
        (w : Sweep) → just_done now op w ≡ true → has_succeeded (settle now id bp w b).0 op ≡ true
    unfolding settle has_succeeded
    settle_done w h = ground (arith, h, prune_keeps now now op w.succeeded)

    settle-IsAccounted :
        (w : Sweep) → swept now op w ≡ true → IsAccounted id op (settle now id bp w b)
    settle-IsAccounted w h = ground (arith, h, settle_kept w, settle_failed w, settle_done w)

    empty-IsAccounted :
        contains (ops bp.items) op ≡ true → IsAccounted id op (count_empty_poll id bp b)
    unfolding count_empty_poll
    empty-IsAccounted here =
        let bumped : InProgressBatch = record bp { empty_polls = suc bp.empty_polls } in
        elim (Bool-cases (leb max_consecutive_empty_polls (suc bp.empty_polls))) [
          | inl e ↦
              rw (e, count_empty_poll)
                (reports-IsAccounted id op (drop_batch id bumped b)
                  (drop-reports bumped b handler here))
          | inr e ↦
              rw (e, count_empty_poll)
                (stays-IsAccounted id op
                  (record b { in_progress = insert id bumped b.in_progress }, [])
                  (under-insert_self bumped b.in_progress ∙ here))
        ]

    pub answer-IsAccounted :
        (rs : List NodeResult)
        → contains (ops bp.items) op ≡ true
        → IsAccounted id op (answer_batch now id rs bp b)
    unfolding answer_batch
    answer-IsAccounted [] here = empty-IsAccounted here
    answer-IsAccounted (r ∷ rs) here =
        settle-IsAccounted _
          (sweep-swept now (result_map (r ∷ rs) []) op bp.items (sweep_from b) (or_right _ _ here))
