-- ===== src/Rafay/Batcher/Send.antt =====
-- batchSender, collectBatch, sendBatch and the functions below them, and ResumeAddBatch, of
-- pkg/rafay/batcher.go. What the broker answers to a batch is a parameter.
use karpenter_provider_rafay.Prelude.{
  ℕ, ◌+◌, String, Bool, true, false, List, [], ◌∷◌, ◌++◌, lookup, insert, insert_all, is_some,
  length, leb, ◌==◌, if◌then◌else◌, trim_space,
}
use karpenter_provider_rafay.Rafay.Errors.{BrokerError}
use karpenter_provider_rafay.Rafay.Batcher.{
  NodeBatcher, BatchItem, InProgressBatch, OpKind, send_failed, no_add, no_remove, acked,
  failed_with, ops,
}
use karpenter_provider_rafay.Rafay.Batcher.Enqueue.{resolve_items}

-- What ends the wait for one more item: an item, the window timer, or the end of the context.
pub data Event : Type 0 where
  arrives : BatchItem → Event
  window_closed done : Event

-- The loop of collectBatch after the first item, over the events that its `select` picks. No
-- more events than `events` are seen: the last ones are for the next batch.
unfoldable pub collect_more : ℕ → List BatchItem → List Event → List BatchItem × List Event
collect_more max batch [] = (batch, [])
collect_more max batch (window_closed ∷ events) = (batch, events)
collect_more max batch (done ∷ events) = (batch, events)
collect_more max batch (arrives item ∷ events) =
    let grown = batch ++ item ∷ [] in
    let more = collect_more max grown events in
    if leb max (length grown) then (grown, events) else more

-- collectBatch. The window timer does not run before the first item.
unfoldable pub collect_batch : ℕ → List Event → List BatchItem × List Event
unfolding collect_more
collect_batch max [] = ([], [])
collect_batch max (window_closed ∷ events) = collect_batch max events
collect_batch max (done ∷ events) = ([], events)
collect_batch max (arrives item ∷ events) =
    if leb max 1 then (item ∷ [], events) else collect_more max (item ∷ []) events

unfoldable pub is_remove : OpKind → Bool
is_remove OpKind.remove = true
is_remove OpKind.add = false

-- The two partitions of a batch: (adds, removes).
unfoldable pub partition : List BatchItem → List BatchItem × List BatchItem
unfolding is_remove
partition [] = ([], [])
partition (item ∷ batch) =
    let (adds, removes) = partition batch in
    if is_remove item.kind then (adds, item ∷ removes) else (item ∷ adds, removes)

-- What the broker sends back for a batch: its batch ID, or an error.
pub data SendReply : Type 0 where
  accepted : String → SendReply
  error : BrokerError → SendReply

unfoldable pub fail_batch_send : OpKind → List BatchItem → BrokerError → NodeBatcher → NodeBatcher
unfolding resolve_items
fail_batch_send kind batch e b = resolve_items batch (failed_with (send_failed kind e)) b

-- The part of registerAndAck under `mu`.
unfoldable pub register : OpKind → String → List BatchItem → ℕ → NodeBatcher → NodeBatcher
register kind batch_id batch now b =
    let entry : InProgressBatch = record {
      batch_id = batch_id;
      kind = kind;
      items = batch;
      sent_at = now;
      poll_after = now + b.initial_delay;
      empty_polls = 0;
    } in
    record b {
      in_progress = insert batch_id entry b.in_progress;
      in_flight = insert_all (ops batch) tt b.in_flight;
      op_batch = insert_all (ops batch) batch_id b.op_batch;
    }

unfoldable pub register_and_ack : OpKind → String → List BatchItem → ℕ → NodeBatcher → NodeBatcher
unfolding register resolve_items
register_and_ack kind batch_id batch now b =
    resolve_items batch (acked batch_id) (register kind batch_id batch now b)

-- sendAddBatch and sendRemoveBatch, after the call of the broker.
unfoldable pub finish_send : OpKind → List BatchItem → SendReply → ℕ → NodeBatcher → NodeBatcher
unfolding fail_batch_send register_and_ack
finish_send kind batch (accepted batch_id) now b = register_and_ack kind batch_id batch now b
finish_send kind batch (error e) now b = fail_batch_send kind batch e b

-- `if len(part) > 0 { send }`
unfoldable pub send_part : OpKind → List BatchItem → SendReply → ℕ → NodeBatcher → NodeBatcher
unfolding finish_send
send_part kind [] reply now b = b
send_part kind (item ∷ part) reply now b = finish_send kind (item ∷ part) reply now b

-- sendBatch. `broker` answers each partition, by its kind and items.
unfoldable pub send_batch :
    (OpKind → List BatchItem → SendReply) → List BatchItem → ℕ → NodeBatcher → NodeBatcher
unfolding partition send_part
send_batch broker batch now b =
    let (adds, removes) = partition batch in
    send_part OpKind.remove removes (broker OpKind.remove removes) now
      (send_part OpKind.add adds (broker OpKind.add adds) now b)

-- The items that ResumeAddBatch builds: blank IDs are dropped, the others trimmed.
unfoldable pub resume_items : List String → List BatchItem
unfolding trim_space
resume_items [] = []
resume_items (id ∷ ids) =
    let rest = resume_items ids in
    let item : BatchItem = record {
      operation_id = trim_space id;
      kind = OpKind.add;
      req = no_add;
      remove_req = no_remove;
    } in
    if trim_space id == "" then rest else item ∷ rest

-- The part of ResumeAddBatch under `mu`.
unfoldable pub track_resumed : String → List BatchItem → ℕ → NodeBatcher → NodeBatcher
track_resumed batch_id items now b =
    let entry : InProgressBatch = record {
      batch_id = batch_id;
      kind = OpKind.add;
      items = items;
      sent_at = now;
      poll_after = now;
      empty_polls = 0;
    } in
    record b {
      in_progress = insert batch_id entry b.in_progress;
      in_flight = insert_all (ops items) tt b.in_flight;
      op_batch = insert_all (ops items) batch_id b.op_batch;
    }

unfoldable pub resume_trimmed : String → List BatchItem → ℕ → NodeBatcher → Bool × NodeBatcher
unfolding track_resumed
resume_trimmed batch_id [] now b = (false, b)
resume_trimmed batch_id (item ∷ items) now b =
    if is_some (lookup batch_id b.in_progress)
    then (false, b)
    else (true, track_resumed batch_id (item ∷ items) now b)

-- ResumeAddBatch: whether the batch is newly tracked, and the new state.
unfoldable pub resume_add_batch : String → List String → ℕ → NodeBatcher → Bool × NodeBatcher
unfolding resume_items resume_trimmed trim_space
resume_add_batch batch_id operation_ids now b =
    if trim_space batch_id == ""
    then (false, b)
    else resume_trimmed (trim_space batch_id) (resume_items operation_ids) now b
