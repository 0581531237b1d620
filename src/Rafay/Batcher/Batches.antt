-- ===== src/Rafay/Batcher/Batches.antt =====
-- Which batches are formed: how items are collected, and how a batch is split by kind.
use mathlib.Core.List.{Perm, perm_middle}
use mathlib.Core.List.Perm
use karpenter_provider_rafay.Prelude.{
  ℕ, ◌≤◌, ◌<◌, ◌≡◌, refl, sym, subst, ◌∙◌, false, List, [], ◌∷◌, ◌++◌, length, length-append, leb,
  All, Bool-cases, inl, inr, arith,
}
use mathlib.Core.List.{append_assoc}
use karpenter_provider_rafay.Rafay.Batcher.{BatchItem, OpKind}
use karpenter_provider_rafay.Rafay.Batcher.Send.{
  Event, arrives, window_closed, done, collect_more, collect_batch, partition,
}

-- The items that arrive, in their order.
abbrev pub arrivals : List Event → List BatchItem
arrivals [] = []
arrivals (arrives item ∷ events) = item ∷ arrivals events
arrivals (window_closed ∷ events) = arrivals events
arrivals (done ∷ events) = arrivals events

collect_more_lem :
    (max : ℕ) (batch : List BatchItem) (events : List Event)
    → length batch < max
    → let r = collect_more max batch events in
      (length r.0 ≤ max) × (batch ++ arrivals events ≡ r.0 ++ arrivals r.1)
unfolding collect_more
collect_more_lem max batch [] h = (omega arith, refl)
collect_more_lem max batch (window_closed ∷ events) h = (omega arith, refl)
collect_more_lem max batch (done ∷ events) h = (omega arith, refl)
collect_more_lem max batch (arrives item ∷ events) h =
    elim (Bool-cases (leb max (length (batch ++ item ∷ [])))) [
      | inl full ↦
          rw (full, collect_more)
            (
              omega (arith, length-append batch (item ∷ [])),
              sym (append_assoc batch (item ∷ []) (arrivals events)),
            )
      | inr room ↦
          rw (room, collect_more)
            (let later = collect_more_lem max (batch ++ item ∷ []) events (grows room) in
              (later.0, sym (append_assoc batch (item ∷ []) (arrivals events)) ∙ later.1))
    ]
  where
    grows : leb max (length (batch ++ item ∷ [])) ≡ false → length (batch ++ item ∷ []) < max
    grows room = ground arith

-- A batch holds at most `max` items, and the items of the batch, followed by those that arrive
-- after it was closed, are the items that arrived, in their order: none is lost, repeated or
-- overtaken.
pub collect_batch_fifo :
    (max : ℕ) (events : List Event)
    → 0 < max
    → (length (collect_batch max events).0 ≤ max)
      × (arrivals events ≡ (collect_batch max events).0 ++ arrivals (collect_batch max events).1)
unfolding collect_batch
collect_batch_fifo max [] h = (omega arith, refl)
collect_batch_fifo max (window_closed ∷ events) h = collect_batch_fifo max events h
collect_batch_fifo max (done ∷ events) h = (omega arith, refl)
collect_batch_fifo max (arrives item ∷ events) h = elim (Bool-cases (leb max 1)) [
  | inl one ↦ rw (one, collect_batch) (omega arith, refl)
  | inr more ↦ rw (more, collect_batch) (collect_more_lem max (item ∷ []) events (ground arith))
]

abbrev pub SplitsByKind : List BatchItem → List BatchItem × List BatchItem → Type 0
SplitsByKind batch parts =
    All (λ i. i.kind ≡ OpKind.add) parts.0
    × All (λ i. i.kind ≡ OpKind.remove) parts.1
    × Perm batch (parts.0 ++ parts.1)

module _ (item : BatchItem) (batch : List BatchItem) where
  partition-add :
      item.kind ≡ OpKind.add
      → (item ∷ (partition batch).0, (partition batch).1) ≡ partition (item ∷ batch)
  unfolding partition
  partition-add e = ground arith

  partition-remove :
      item.kind ≡ OpKind.remove
      → ((partition batch).0, item ∷ (partition batch).1) ≡ partition (item ∷ batch)
  unfolding partition
  partition-remove e = ground arith

  partition_one :
      (k : OpKind)
      → item.kind ≡ k
      → SplitsByKind batch (partition batch)
      → SplitsByKind (item ∷ batch) (partition (item ∷ batch))
  partition_one OpKind.add e v =
      subst (SplitsByKind (item ∷ batch)) (partition-add e) ((e, v.0), v.1, Perm.cons item v.2)
  partition_one OpKind.remove e v = subst (SplitsByKind (item ∷ batch)) (partition-remove e) (
    v.0,
    (e, v.1),
    Perm.trans (Perm.cons item v.2)
        (Perm.symm (perm_middle (partition batch).0 (partition batch).1)),
  )

-- Each part of a batch holds items of its kind only, and together the parts are the batch.
pub partition_by_kind : (batch : List BatchItem) → SplitsByKind batch (partition batch)
unfolding partition
partition_by_kind [] = (tt, tt, Perm.refl [])
partition_by_kind (item ∷ batch) = partition_one item batch item.kind refl (partition_by_kind batch)
