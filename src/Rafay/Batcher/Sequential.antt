-- ===== src/Rafay/Batcher/Sequential.antt =====
-- The steps of the sender for one batch, with nothing in between, and sendBatch as one function.
pub mod Parts
pub mod Listed
pub mod Answered
use karpenter_provider_rafay.Prelude.{ℕ, ◌≡◌, refl, ap, ◌∙◌, List, [], ◌∷◌, ◌++◌, map}
use karpenter_provider_rafay.Rafay.Batcher.{
  NodeBatcher, BatchItem, BatchResult, OpKind, acked, failed_with, send_failed,
}
use karpenter_provider_rafay.Rafay.Batcher.Enqueue.{resolve_items, resolve_pending}
use karpenter_provider_rafay.Rafay.Batcher.Send.{
  SendReply, accepted, error, partition, send_part, send_batch, register, register_and_ack,
  fail_batch_send, finish_send,
}
use karpenter_provider_rafay.Rafay.Batcher.System.{
  System, Sender, collecting, sending, resolving, Action, close, sent, resolve, advance, answers,
  answered, closes, sends, resolves, advances, step, run,
}

run-append : (xs ys : List Action) (s : System) → run (xs ++ ys) s ≡ run ys (run xs s)
unfolding run
run-append [] ys s = refl
run-append (a ∷ xs) ys s = run-append xs ys (step a s)

abbrev pub at_sender : NodeBatcher → Sender → System → System
at_sender b x s = record s { batcher = b; sender = x }

-- The answer to a part, one step for each of its items, and the step to the next part.
unfoldable pub part_actions : SendReply → ℕ → List BatchItem → List Action
part_actions reply now [] = []
part_actions reply now (item ∷ part) =
    sent reply now ∷ resolve ∷ map (λ i. resolve) part ++ advance ∷ []

module _ (s : System) where
  resolves_part :
      (part removes : List BatchItem) (r : BatchResult) (b : NodeBatcher)
      → run
          (map (λ i. resolve) part ++ advance ∷ [])
          (at_sender b (resolving (answers part r) removes) s)
        ≡ at_sender (resolve_items part r b) (sending [] removes) s
  unfolding run step resolves advances resolve_items
  resolves_part [] removes r b = refl
  resolves_part (i ∷ part) removes r b =
      resolves_part part removes r (resolve_pending i.operation_id r b)

  sends_adds :
      (adds removes : List BatchItem) (reply : SendReply) (now : ℕ) (b : NodeBatcher)
      → run (part_actions reply now adds) (at_sender b (sending adds removes) s)
        ≡ at_sender (send_part OpKind.add adds reply now b) (sending [] removes) s
  unfolding part_actions run step sends answered send_part finish_send register_and_ack
      fail_batch_send
  sends_adds [] removes reply now b = refl
  sends_adds (a ∷ adds) removes (accepted id) now b =
      resolves_part (a ∷ adds) removes (acked id) (register OpKind.add id (a ∷ adds) now b)
  sends_adds (a ∷ adds) removes (error e) now b =
      resolves_part (a ∷ adds) removes (failed_with (send_failed OpKind.add e)) b

  sends_removes :
      (removes : List BatchItem) (reply : SendReply) (now : ℕ) (b : NodeBatcher)
      → run (part_actions reply now removes) (at_sender b (sending [] removes) s)
        ≡ at_sender (send_part OpKind.remove removes reply now b) (sending [] []) s
  unfolding part_actions run step sends answered send_part finish_send register_and_ack
      fail_batch_send
  sends_removes [] reply now b = refl
  sends_removes (r ∷ removes) (accepted id) now b =
      resolves_part (r ∷ removes) [] (acked id) (register OpKind.remove id (r ∷ removes) now b)
  sends_removes (r ∷ removes) (error e) now b =
      resolves_part (r ∷ removes) [] (failed_with (send_failed OpKind.remove e)) b

-- The steps of the sender from the close of a batch to the next one.
unfoldable pub batch_actions :
    (OpKind → List BatchItem → SendReply) → ℕ → List BatchItem → List Action
unfolding partition part_actions
batch_actions broker now batch =
    let (adds, removes) = partition batch in
    close
    ∷ (part_actions (broker OpKind.add adds) now adds
        ++ (part_actions (broker OpKind.remove removes) now removes ++ advance ∷ []))

-- The steps of the sender for a collected batch, with no other step in between, do to the batcher what
-- sendBatch does as one function, whatever the broker answers to the parts; the sender is ready for the
-- next batch, and nothing else changes.
pub sender_implements_send_batch :
    (broker : OpKind → List BatchItem → SendReply) (now : ℕ) (item : BatchItem)
    (batch : List BatchItem) (s : System)
    → run
        (batch_actions broker now (item ∷ batch))
        (record s { sender = collecting (item ∷ batch) })
      ≡ at_sender (send_batch broker (item ∷ batch) now s.batcher) (collecting []) s
unfolding batch_actions send_batch closes
sender_implements_send_batch broker now item batch s =
    let parts = partition (item ∷ batch) in
    let adds = part_actions (broker OpKind.add parts.0) now parts.0 in
    let removes = part_actions (broker OpKind.remove parts.1) now parts.1 in
    let between =
      at_sender (send_part OpKind.add parts.0 (broker OpKind.add parts.0) now s.batcher)
        (sending [] parts.1) s in
    unfold run in
    unfold step in
    run-append adds (removes ++ advance ∷ []) (at_sender s.batcher (sending parts.0 parts.1) s)
    ∙ ap (run (removes ++ advance ∷ []))
        (sends_adds s parts.0 parts.1 (broker OpKind.add parts.0) now s.batcher)
    ∙ run-append removes (advance ∷ []) between
    ∙ ap (run (advance ∷ [])) (
        sends_removes s parts.1 (broker OpKind.remove parts.1) now
          (send_part OpKind.add parts.0 (broker OpKind.add parts.0) now s.batcher))
