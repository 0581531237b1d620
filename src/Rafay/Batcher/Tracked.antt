-- ===== src/Rafay/Batcher/Tracked.antt =====
-- The in-flight set and the status poller: an operation that suppresses further sends is followed
-- by the poller in the batch that `opBatch` names.
pub mod Steps
use karpenter_provider_rafay.Prelude.{
  ℕ, suc, ◌+◌, leb, String, ◌≡◌, refl, Bool, true, false, ◌||◌, List, [], ◌∷◌, ◌++◌, Option, none,
  some, Dict, lookup, insert, erase, insert_all, erase_all, is_some, contains, trim_space, arith,
  ◌==◌, eq_iff, lookup-erase, lookup-insert, lookup-erase_all, lookup-insert_all, Option-cases,
  Bool-cases, inl, inr,
}
use karpenter_provider_rafay.Rafay.Batcher.{
  NodeBatcher, BatchItem, InProgressBatch, FailureCall, OpKind, ops, max_consecutive_empty_polls,
}
use karpenter_provider_rafay.Rafay.Batcher.Enqueue.{join_or_queue, deliver_all, resolve_pending}
use karpenter_provider_rafay.Rafay.Batcher.Send.{
  register, resume_items, track_resumed, resume_trimmed, resume_add_batch,
}
use karpenter_provider_rafay.Rafay.Batcher.Poll.{
  NodeResult, PollReply, results, error, PollStart, dropped, Sweep, sweep, sweep_from, result_map,
  is_empty, clear_in_flight, drop_batch, count_empty_poll, settle, answer_batch, poll_start,
  poll_finish,
}
use karpenter_provider_rafay.Rafay.Batcher.Sweeps.{sweep_grounded, sweep_own, sweep_done}

abbrev pub holds : Option InProgressBatch → String → Bool
holds none op = false
holds (some bp) op = contains (ops bp.items) op

-- `opBatch` names a tracked batch, one of whose items is the operation.
abbrev pub follows : NodeBatcher → String → Bool
follows b op = elim (lookup op b.op_batch) [
  | none ↦ false
  | some id ↦ holds (lookup id b.in_progress) op
]

abbrev pub IsTracked : NodeBatcher → Type 0
IsTracked b = (op : String) → is_some (lookup op b.in_flight) ≡ true → follows b op ≡ true

-- The ID of a batch is not the ID of a batch that is tracked.
abbrev pub IsNew : String → NodeBatcher → Type 0
IsNew id b = lookup id b.in_progress ≡ none

-- A batch under a new ID, with its items in flight and `opBatch` set.
module _ (id : String) (entry : InProgressBatch) (b : NodeBatcher) (fresh : IsNew id b) where
  abbrev started : NodeBatcher
  started = record b {
    in_progress = insert id entry b.in_progress;
    in_flight = insert_all (ops entry.items) tt b.in_flight;
    op_batch = insert_all (ops entry.items) id b.op_batch;
  }

  started-follows :
      (op : String)
      → (is_some (lookup op b.in_flight) ≡ true → follows b op ≡ true)
      → is_some (lookup op started.in_flight) ≡ true
      → follows started op ≡ true
  started-follows op v h = elim (Option-cases (lookup op b.op_batch)) [
    | inl e ↦ ground (
      arith,
      lookup-insert_all (ops entry.items) op tt b.in_flight,
      lookup-insert_all (ops entry.items) op id b.op_batch,
      lookup-insert id id entry b.in_progress,
      eq_iff id id,
    )
    | inr (old, e) ↦ ground (
      arith,
      lookup-insert_all (ops entry.items) op tt b.in_flight,
      lookup-insert_all (ops entry.items) op id b.op_batch,
      lookup-insert id id entry b.in_progress,
      lookup-insert id old entry b.in_progress,
      eq_iff id id,
      eq_iff id old,
      fresh,
    )
  ]

pub register-IsTracked :
    (kind : OpKind) (id : String) (batch : List BatchItem) (now : ℕ) (b : NodeBatcher)
    → IsNew id b
    → IsTracked b
    → IsTracked (register kind id batch now b)
unfolding register
register-IsTracked kind id batch now b fresh v op =
    started-follows id
      (record {
        batch_id = id;
        kind = kind;
        items = batch;
        sent_at = now;
        poll_after = now + b.initial_delay;
        empty_polls = 0;
      })
      b fresh op (v op)

track_resumed-IsTracked :
    (id : String) (items : List BatchItem) (now : ℕ) (b : NodeBatcher)
    → IsNew id b
    → IsTracked b
    → IsTracked (track_resumed id items now b)
unfolding track_resumed
track_resumed-IsTracked id items now b fresh v op =
    started-follows id
      (record {
        batch_id = id;
        kind = OpKind.add;
        items = items;
        sent_at = now;
        poll_after = now;
        empty_polls = 0;
      })
      b fresh op (v op)

resume_trimmed-IsTracked :
    (id : String) (items : List BatchItem) (now : ℕ) (b : NodeBatcher)
    → IsTracked b
    → IsTracked (resume_trimmed id items now b).1
unfolding resume_trimmed
resume_trimmed-IsTracked id [] now b v = v
resume_trimmed-IsTracked id (item ∷ items) now b v = elim (Option-cases (lookup id b.in_progress)) [
  | inl e ↦ rw (e, resume_trimmed) (track_resumed-IsTracked id (item ∷ items) now b e v)
  | inr (bp, e) ↦ rw (e, resume_trimmed) v
]

-- ResumeAddBatch refuses a batch ID that is tracked, so it needs no assumption.
pub resume-IsTracked :
    (id : String) (op_ids : List String) (now : ℕ) (b : NodeBatcher)
    → IsTracked b
    → IsTracked (resume_add_batch id op_ids now b).1
unfolding resume_add_batch
resume-IsTracked id op_ids now b v = elim (Bool-cases (trim_space id == "")) [
  | inl e ↦ rw (e, resume_add_batch) v
  | inr e ↦
      rw (e, resume_add_batch)
        (resume_trimmed-IsTracked (trim_space id) (resume_items op_ids) now b v)
]

pub drop-IsTracked :
    (id : String) (bp : InProgressBatch) (b : NodeBatcher)
    → ((op : String) → holds (lookup id b.in_progress) op ≡ holds (some bp) op)
    → IsTracked b
    → IsTracked (drop_batch id bp b).0
unfolding drop_batch clear_in_flight
drop-IsTracked id bp b e v op h = elim (Option-cases (lookup op b.op_batch)) [
  | inl n ↦ ground (arith, v op, lookup-erase_all (ops bp.items) op b.in_flight)
  | inr (old, n) ↦ ground (
    arith,
    v op,
    e op,
    lookup-erase_all (ops bp.items) op b.in_flight,
    lookup-erase_all (ops bp.items) op b.op_batch,
    lookup-erase id old b.in_progress,
    eq_iff id old,
  )
]

count_empty_poll-IsTracked :
    (id : String) (bp : InProgressBatch) (b : NodeBatcher)
    → lookup id b.in_progress ≡ some bp
    → IsTracked b
    → IsTracked (count_empty_poll id bp b).0
unfolding count_empty_poll
count_empty_poll-IsTracked id bp b e v =
    elim (Bool-cases (leb max_consecutive_empty_polls (suc bp.empty_polls))) [
      | inl third ↦
          rw (third, count_empty_poll) (drop-IsTracked id bumped b (λ op. ground (arith, e)) v)
      | inr sooner ↦
          rw (sooner, count_empty_poll)
            (λ op h. elim (Option-cases (lookup op b.op_batch)) [
              | inl n ↦ ground (arith, v op)
              | inr (old, n) ↦
                  ground (arith, v op, lookup-insert id old bumped b.in_progress, eq_iff id old)
            ])
    ]
  where
    bumped : InProgressBatch
    bumped = record bp { empty_polls = suc bp.empty_polls }

is_empty-contains :
    (items : List BatchItem) (op : String) → is_empty items ≡ true → contains (ops items) op ≡ false
unfolding is_empty contains
is_empty-contains [] op h = refl
is_empty-contains (item ∷ items) op h = cc

-- `w` is what the loop over the items of `bp` left.
module _ (now : ℕ) (id : String) (bp : InProgressBatch) (w : Sweep) (b : NodeBatcher) where
  settle-follows :
      (op : String)
      → lookup id b.in_progress ≡ some bp
      → (is_some (lookup op w.in_flight) ≡ true → is_some (lookup op b.in_flight) ≡ true)
      → (contains (ops bp.items) op ≡ true
          → is_some (lookup op w.in_flight) ≡ true
          → contains (ops w.remaining) op ≡ true)
      → (w.all_done ≡ true → w.remaining ≡ [])
      → (is_some (lookup op b.in_flight) ≡ true → follows b op ≡ true)
      → is_some (lookup op w.in_flight) ≡ true
      → follows (settle now id bp w b).0 op ≡ true
  unfolding settle contains
  settle-follows op e grounded own done v h = elim (Option-cases (lookup op b.op_batch)) [
    | inl n ↦ ground arith
    | inr (old, n) ↦ ground (
      arith,
      eq_iff id old,
      is_empty-contains w.remaining op,
      lookup-erase id old b.in_progress,
      lookup-insert id old (record bp { items = w.remaining; empty_polls = 0 }) b.in_progress,
    )
  ]

answer_batch-IsTracked :
    (now : ℕ) (id : String) (rs : List NodeResult) (bp : InProgressBatch) (b : NodeBatcher)
    → lookup id b.in_progress ≡ some bp
    → IsTracked b
    → IsTracked (answer_batch now id rs bp b).0
unfolding answer_batch
answer_batch-IsTracked now id [] bp b e v op h = count_empty_poll-IsTracked id bp b e v op h
answer_batch-IsTracked now id (r ∷ rs) bp b e v op h =
    settle-follows now id bp (sweep now rm bp.items (sweep_from b)) b op e
      (sweep_grounded now rm op bp.items (sweep_from b))
      (sweep_own now rm op bp.items (sweep_from b))
      (λ d. (sweep_done now rm bp.items (sweep_from b) d).1) (v op) (unfold settle in h)
  where
    rm : Dict NodeResult
    rm = result_map (r ∷ rs) []

pub poll_finish-IsTracked :
    (now : ℕ) (id : String) (reply : PollReply) (b : NodeBatcher)
    → IsTracked b
    → IsTracked (poll_finish now id reply b).0
unfolding poll_finish
poll_finish-IsTracked now id (error e) b v = v
poll_finish-IsTracked now id (results rs) b v = elim (Option-cases (lookup id b.in_progress)) [
  | inl e ↦ rw (e, poll_finish) v
  | inr (bp, e) ↦ rw (e, poll_finish) (answer_batch-IsTracked now id rs bp b e v)
]
