-- ===== src/Rafay/Batcher/Accounted/Answered.antt =====
-- The same for the batch of any ID: a poll's answer to it, and its drop.
use karpenter_provider_rafay.Prelude.{
  ℕ, String, ◌≡◌, sym, subst, ◌∙◌, ◌⊎◌, inl, inr, true, false, List, [], ◌∷◌, some, Option-cases,
  Bool-cases, lookup, contains, ◌==◌, eq_iff, arith,
}
use karpenter_provider_rafay.Rafay.Batcher.{NodeBatcher, InProgressBatch, ops}
use karpenter_provider_rafay.Rafay.Batcher.Poll.{
  NodeResult, PollReply, results, error, sweep, sweep_from, result_map, drop_batch, answer_batch,
  poll_finish,
}
use karpenter_provider_rafay.Rafay.Batcher.Accounted.{
  under, IsAccounted, stays-IsAccounted, reports-IsAccounted, empty-other, settle-other,
  answer-IsAccounted, drop-reports, drop-other,
}

module _ (id op : String) where
  answer-other :
      (now : ℕ) (j : String) (rs : List NodeResult) (bp : InProgressBatch) (b : NodeBatcher)
      → (id == j) ≡ false
      → under id op (answer_batch now j rs bp b).0 ≡ under id op b
  unfolding answer_batch
  answer-other now j [] bp b other = empty-other id op j other bp b
  answer-other now j (r ∷ rs) bp b other =
      settle-other id op j other bp b now
        (sweep now (result_map (r ∷ rs) []) bp.items (sweep_from b))

  -- The batch of the ID `j` is the operation's own, or another one.
  same_batch :
      (j : String) (bp : InProgressBatch) (b : NodeBatcher)
      → lookup j b.in_progress ≡ some bp
      → under id op b ≡ true
      → ((j ≡ id) × (contains (ops bp.items) op ≡ true)) ⊎ ((id == j) ≡ false)
  same_batch j bp b e h = elim (Bool-cases (id == j)) [
    | inl same ↦
        let k : j ≡ id = sym ((eq_iff id j).0 same) in
        let found = subst (λ i. lookup i b.in_progress ≡ some bp) k e in
        inl (k, ground (arith, found, h))
    | inr other ↦ inr other
  ]

  answer-any :
      (now : ℕ) (j : String) (rs : List NodeResult) (bp : InProgressBatch) (b : NodeBatcher)
      → lookup j b.in_progress ≡ some bp
      → b.failure_handler ≡ true
      → under id op b ≡ true
      → IsAccounted id op (answer_batch now j rs bp b)
  answer-any now j rs bp b e handler h = elim (same_batch j bp b e h) [
    | inl (k, here) ↦
        subst (λ i. IsAccounted id op (answer_batch now i rs bp b)) (sym k)
          (answer-IsAccounted id op now bp b handler rs here)
    | inr other ↦
        stays-IsAccounted id op (answer_batch now j rs bp b) (answer-other now j rs bp b other ∙ h)
  ]

  pub drop-IsAccounted :
      (j : String) (bp : InProgressBatch) (b : NodeBatcher)
      → lookup j b.in_progress ≡ some bp
      → b.failure_handler ≡ true
      → under id op b ≡ true
      → IsAccounted id op (drop_batch j bp b)
  drop-IsAccounted j bp b e handler h = elim (same_batch j bp b e h) [
    | inl (k, here) ↦
        subst (λ i. IsAccounted id op (drop_batch i bp b)) (sym k)
          (reports-IsAccounted id op (drop_batch id bp b) (drop-reports id op bp b handler here))
    | inr other ↦ stays-IsAccounted id op (drop_batch j bp b) (drop-other id op j other bp b ∙ h)
  ]

-- The answer to a poll of the batch of the ID `j`.
pub poll_finish-IsAccounted :
    (id op : String) (now : ℕ) (j : String) (reply : PollReply) (b : NodeBatcher)
    → b.failure_handler ≡ true
    → under id op b ≡ true
    → IsAccounted id op (poll_finish now j reply b)
unfolding poll_finish
poll_finish-IsAccounted id op now j (error e) b handler h = stays-IsAccounted id op (b, []) h
poll_finish-IsAccounted id op now j (results rs) b handler h =
    elim (Option-cases (lookup j b.in_progress)) [
      | inl e ↦ rw (e, poll_finish) (stays-IsAccounted id op (b, []) h)
      | inr (bp, e) ↦ rw (e, poll_finish) (answer-any id op now j rs bp b e handler h)
    ]
