-- ===== src/Rafay/Batcher/Succeeded.antt =====
-- What the poller records: the operations that the broker reported as SUCCEEDED, no others.
use karpenter_provider_rafay.Prelude.{
  ℕ, ◌-◌, ◌≤◌, String, ◌≡◌, Bool, true, false, ◌||◌, ◌&&◌, List, [], ◌∷◌, none, some, Dict, lookup,
  insert, is_some, contains, ◌==◌, eq_iff, lookup-erase, lookup-insert, Bool-cases, Option-cases,
  inl, inr, arith,
}
use karpenter_provider_rafay.Rafay.Batcher.{
  NodeBatcher, BatchItem, InProgressBatch, ops, has_succeeded, succeeded_retention,
}
use karpenter_provider_rafay.Rafay.Batcher.Poll.{
  NodeState, succeeded, failed, in_work, NodeResult, results, Sweep, still_open, sweep_result,
  sweep_item, sweep, sweep_from, result_map, prune_succeeded, answer_batch, poll_finish,
}

abbrev pub is_succeeded : NodeState → Bool
is_succeeded succeeded = true
is_succeeded failed = false
is_succeeded in_work = false

-- One of the results says that the operation succeeded.
abbrev pub reported : List NodeResult → String → Bool
reported [] op = false
reported (r ∷ rs) op = (r.operation_id == op && is_succeeded r.state) || reported rs op

abbrev done : String → Sweep → Bool
done op w = is_some (lookup op w.succeeded)

abbrev pub maps_to_success : Dict NodeResult → String → Bool
maps_to_success rm op = elim (lookup op rm) [ none ↦ false | some r ↦ is_succeeded r.state ]

prune-lookup :
    (now : ℕ) (op : String) (m : Dict ℕ)
    → is_some (lookup op (prune_succeeded now m)) ≡ true
    → is_some (lookup op m) ≡ true
unfolding prune_succeeded lookup
prune-lookup now op [] h = h
prune-lookup now op ((k, t) ∷ m) h = ground (arith, prune-lookup now op m)

pub prune_keeps :
    (now t : ℕ) (op : String) (m : Dict ℕ)
    → lookup op m ≡ some t
    → now - t ≤ succeeded_retention
    → lookup op (prune_succeeded now m) ≡ some t
unfolding prune_succeeded lookup
prune_keeps now t op [] e h = cc
prune_keeps now t op ((k, u) ∷ m) e h = ground (arith, prune_keeps now t op m)

result_map_reported :
    (rs : List NodeResult) (m : Dict NodeResult) (op : String)
    → maps_to_success (result_map rs m) op ≡ true
    → (reported rs op || maps_to_success m op) ≡ true
unfolding result_map
result_map_reported [] m op h = h
result_map_reported (r ∷ rs) m op h = ground (
  arith,
  result_map_reported rs (insert r.operation_id r m) op,
  lookup-insert r.operation_id op r m,
)

result_map_or :
    (rs : List NodeResult) (before : Bool) (op : String)
    → (maps_to_success (result_map rs []) op || before) ≡ true
    → (reported rs op || before) ≡ true
unfolding lookup
result_map_or rs before op h = elim (Bool-cases (maps_to_success (result_map rs []) op)) [
  | inl e ↦ ground (arith, reported_of_empty e)
  | inr e ↦ ground arith
]
  where
    reported_of_empty : maps_to_success (result_map rs []) op ≡ true → reported rs op ≡ true
    reported_of_empty k = ground (arith, result_map_reported rs [] op k)

module _ (now : ℕ) (rm : Dict NodeResult) (op : String) where
  sweep_item_only :
      (item : BatchItem) (w : Sweep)
      → done op (sweep_item now rm item w) ≡ true
      → (maps_to_success rm op || done op w) ≡ true
  unfolding sweep_item sweep_result still_open
  sweep_item_only item w h =
      ground
        (arith, eq_iff item.operation_id op, lookup-insert item.operation_id op now w.succeeded)

  sweep_only :
      (items : List BatchItem) (w : Sweep)
      → done op (sweep now rm items w) ≡ true
      → (maps_to_success rm op || done op w) ≡ true
  unfolding sweep
  sweep_only [] w h = ground arith
  sweep_only (item ∷ items) w h =
      ground (arith, sweep_only items (sweep_item now rm item w) h, sweep_item_only item w)

answer_batch_only :
    (now : ℕ) (id : String) (rs : List NodeResult) (bp : InProgressBatch) (b : NodeBatcher)
    (op : String)
    → is_some (lookup op (answer_batch now id rs bp b).0.succeeded) ≡ true
    → (reported rs op || is_some (lookup op b.succeeded)) ≡ true
unfolding answer_batch
answer_batch_only now id [] bp b op h = ground arith
answer_batch_only now id (r ∷ rs) bp b op h = from_map (
    sweep_only now rm op bp.items (sweep_from b)
      (prune-lookup now op (sweep now rm bp.items (sweep_from b)).succeeded h))
  where
    rm : Dict NodeResult
    rm = result_map (r ∷ rs) []

    from_map :
        (maps_to_success rm op || is_some (lookup op b.succeeded)) ≡ true
        → (reported (r ∷ rs) op || is_some (lookup op b.succeeded)) ≡ true
    from_map k = result_map_or (r ∷ rs) (is_some (lookup op b.succeeded)) op k

-- If an operation is recorded as succeeded after an answer to a poll, it was before, or the answer
-- reports it as succeeded.
pub succeeded_only_if_reported :
    (now : ℕ) (id : String) (rs : List NodeResult) (b : NodeBatcher) (op : String)
    → has_succeeded (poll_finish now id (results rs) b).0 op ≡ true
    → (reported rs op || has_succeeded b op) ≡ true
unfolding has_succeeded poll_finish
succeeded_only_if_reported now id rs b op h = elim (Option-cases (lookup id b.in_progress)) [
  | inl e ↦ ground (arith, rw (e, poll_finish) at h)
  | inr (bp, e) ↦ answer_batch_only now id rs bp b op (rw (e, poll_finish) at h)
]

module _ (now : ℕ) (rm : Dict NodeResult) (op : String) (said : maps_to_success rm op ≡ true) where
  -- Recorded at this time, and not in flight.
  abbrev Landed : Sweep → Type 0
  Landed w = (lookup op w.succeeded ≡ some now) × (lookup op w.in_flight ≡ none)

  sweep_item_keeps : (item : BatchItem) (w : Sweep) → Landed w → Landed (sweep_item now rm item w)
  unfolding sweep_item sweep_result still_open
  sweep_item_keeps item w h = ground (
    arith,
    lookup-insert item.operation_id op now w.succeeded,
    lookup-erase item.operation_id op w.in_flight,
  )

  sweep_item_lands :
      (item : BatchItem) (w : Sweep) → item.operation_id ≡ op → Landed (sweep_item now rm item w)
  unfolding sweep_item sweep_result still_open
  sweep_item_lands item w e = ground (
    arith,
    eq_iff item.operation_id op,
    lookup-insert item.operation_id op now w.succeeded,
    lookup-erase item.operation_id op w.in_flight,
  )

  sweep_keeps : (items : List BatchItem) (w : Sweep) → Landed w → Landed (sweep now rm items w)
  unfolding sweep
  sweep_keeps [] w h = h
  sweep_keeps (item ∷ items) w h =
      sweep_keeps items (sweep_item now rm item w) (sweep_item_keeps item w h)

  sweep_lands :
      (items : List BatchItem) (w : Sweep)
      → contains (ops items) op ≡ true
      → Landed (sweep now rm items w)
  unfolding sweep contains
  sweep_lands [] w c = cc
  sweep_lands (item ∷ items) w c = elim (Bool-cases (item.operation_id == op)) [
    | inl e ↦
        sweep_keeps items (sweep_item now rm item w)
          (sweep_item_lands item w ((eq_iff item.operation_id op).0 e))
    | inr e ↦ sweep_lands items (sweep_item now rm item w) (ground arith)
  ]

-- When the answer to a poll of a tracked batch says SUCCEEDED of one of its items (in the last
-- result for that operation), the operation is recorded as succeeded and is no longer in flight.
pub reported_is_recorded :
    (now : ℕ) (id : String) (rs : List NodeResult) (b : NodeBatcher) (bp : InProgressBatch)
    (op : String)
    → lookup id b.in_progress ≡ some bp
    → contains (ops bp.items) op ≡ true
    → maps_to_success (result_map rs []) op ≡ true
    → (has_succeeded (poll_finish now id (results rs) b).0 op ≡ true)
      × (lookup op (poll_finish now id (results rs) b).0.in_flight ≡ none)
unfolding poll_finish has_succeeded
reported_is_recorded now id [] b bp op e c said = absurd (nothing said)
  where
    nothing : maps_to_success (result_map [] []) op ≡ true → ⊥
    nothing h = unfold result_map lookup in ground (arith, h)
reported_is_recorded now id (r ∷ rs) b bp op e c said =
    rw (e, poll_finish)
      (
        ground (
          arith,
          prune_keeps now now op (sweep now rm bp.items (sweep_from b)).succeeded landed.0,
        ),
        landed.1,
      )
  where
    rm : Dict NodeResult
    rm = result_map (r ∷ rs) []

    landed : Landed now rm op said (sweep now rm bp.items (sweep_from b))
    landed = sweep_lands now rm op said bp.items (sweep_from b) c
