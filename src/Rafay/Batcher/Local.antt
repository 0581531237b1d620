-- ===== src/Rafay/Batcher/Local.antt =====
-- The steps of the goroutines that leave the tracked batches alone: those of the callers, and all of the
-- sender but the send itself.
use karpenter_provider_rafay.Prelude.{
  ℕ, String, ◌≡◌, refl, ◌∙◌, List, [], ◌∷◌, lookup, erase, or_else, arith, Option-cases, inl, inr,
}
use karpenter_provider_rafay.Rafay.Batcher.{NodeBatcher, BatchItem, BatchResult, deliver}
use karpenter_provider_rafay.Rafay.Batcher.Enqueue.{
  join_or_queue, deliver_all, resolve_pending, resolve_items,
}
use karpenter_provider_rafay.Rafay.Batcher.System.{
  System, Sender, collecting, sending, resolving, Action, arrive, join, receive, close, sent,
  resolve, advance, poll_starts, poll_answered, resume, take_caller, arrives, joins, take_item,
  receives, closes, resolves, advances, step,
}

pub record SameFlight (a b : NodeBatcher) : Type 0 where
  pub in_flight : b.in_flight ≡ a.in_flight
  pub op_batch : b.op_batch ≡ a.op_batch
  pub in_progress : b.in_progress ≡ a.in_progress
  pub failure_handler : b.failure_handler ≡ a.failure_handler

pub flight : (b : NodeBatcher) → SameFlight b b
flight b = record { in_flight = refl; op_batch = refl; in_progress = refl; failure_handler = refl }

join-SameFlight :
    (item : BatchItem) (ch : ℕ) (b : NodeBatcher) → SameFlight b (join_or_queue item ch b)
unfolding join_or_queue
join-SameFlight item ch b = ground arith

deliver_all-SameFlight :
    (ws : List ℕ) (r : BatchResult) (b : NodeBatcher) → SameFlight b (deliver_all ws r b)
unfolding deliver_all
deliver_all-SameFlight [] r b = flight b
deliver_all-SameFlight (w ∷ ws) r b =
    let rest = deliver_all-SameFlight ws r (deliver w r b) in
    record {
      in_flight = rest.in_flight;
      op_batch = rest.op_batch;
      in_progress = rest.in_progress;
      failure_handler = rest.failure_handler;
    }

pub resolve-SameFlight :
    (op : String) (r : BatchResult) (b : NodeBatcher) → SameFlight b (resolve_pending op r b)
unfolding resolve_pending
resolve-SameFlight op r b =
    let rest =
      deliver_all-SameFlight (or_else (lookup op b.pending) []) r
        (record b { pending = erase op b.pending }) in
    record {
      in_flight = rest.in_flight;
      op_batch = rest.op_batch;
      in_progress = rest.in_progress;
      failure_handler = rest.failure_handler;
    }

pub resolve_items-SameFlight :
    (items : List BatchItem) (r : BatchResult) (b : NodeBatcher)
    → SameFlight b (resolve_items items r b)
unfolding resolve_items
resolve_items-SameFlight [] r b = flight b
resolve_items-SameFlight (i ∷ items) r b =
    let one = resolve-SameFlight i.operation_id r b in
    let rest = resolve_items-SameFlight items r (resolve_pending i.operation_id r b) in
    record {
      in_flight = rest.in_flight ∙ one.in_flight;
      op_batch = rest.op_batch ∙ one.op_batch;
      in_progress = rest.in_progress ∙ one.in_progress;
      failure_handler = rest.failure_handler ∙ one.failure_handler;
    }

-- Neither the batches nor what was reported has changed.
abbrev pub IsSame : System → System → Type 0
IsSame s t = SameFlight s.batcher t.batcher × (t.reported ≡ s.reported)

abbrev pub IsLocal : Action → Type 0
IsLocal (sent reply now) = ⊥
IsLocal (poll_starts now id) = ⊥
IsLocal (poll_answered now id reply) = ⊥
IsLocal (resume id op_ids now) = ⊥
IsLocal _ = Unit

module _ (s : System) where
  arrives-IsSame : (item : BatchItem) → IsSame s (arrives item s)
  unfolding arrives
  arrives-IsSame item = ground arith

  joins-IsSame : (ch : ℕ) → IsSame s (joins ch s)
  unfolding joins
  joins-IsSame ch = elim (Option-cases (take_caller ch s.callers)) [
    | inl e ↦ rw (e, joins) (flight s.batcher, refl)
    | inr ((item, rest), e) ↦ rw (e, joins) (join-SameFlight item ch s.batcher, refl)
  ]

  receives-IsSame : (x : Sender) → IsSame s (receives x s)
  unfolding receives take_item
  receives-IsSame (collecting xs) = ground arith
  receives-IsSame _ = (flight s.batcher, refl)

  closes-IsSame : (x : Sender) → IsSame s (closes x s)
  unfolding closes
  closes-IsSame (collecting []) = (flight s.batcher, refl)
  closes-IsSame (collecting (x ∷ xs)) = (flight s.batcher, refl)
  closes-IsSame _ = (flight s.batcher, refl)

  resolves-IsSame : (x : Sender) → IsSame s (resolves x s)
  unfolding resolves
  resolves-IsSame (resolving ((op, r) ∷ waiters) removes) =
      (resolve-SameFlight op r s.batcher, refl)
  resolves-IsSame _ = (flight s.batcher, refl)

  advances-IsSame : (x : Sender) → IsSame s (advances x s)
  unfolding advances
  advances-IsSame (resolving [] removes) = (flight s.batcher, refl)
  advances-IsSame (sending [] []) = (flight s.batcher, refl)
  advances-IsSame _ = (flight s.batcher, refl)

  pub local-IsSame : (a : Action) → IsLocal a → IsSame s (step a s)
  unfolding step
  local-IsSame (arrive item) h = arrives-IsSame item
  local-IsSame (join ch) h = joins-IsSame ch
  local-IsSame receive h = receives-IsSame s.sender
  local-IsSame close h = closes-IsSame s.sender
  local-IsSame resolve h = resolves-IsSame s.sender
  local-IsSame advance h = advances-IsSame s.sender
  local-IsSame (sent reply now) h = elim h [ ]
  local-IsSame (poll_starts now id) h = elim h [ ]
  local-IsSame (poll_answered now id reply) h = elim h [ ]
  local-IsSame (resume id op_ids now) h = elim h [ ]
