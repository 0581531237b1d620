-- ===== src/Rafay/Batcher/Waiters/Steps.antt =====
-- Each step of the goroutines keeps every waiter covered by an item that the sender will reach.
use karpenter_provider_rafay.Prelude.{
  ℕ, String, ◌≡◌, refl, Bool, true, ◌||◌, List, [], ◌∷◌, ◌++◌, lookup, is_some, contains, arith,
  lookup-erase, Option-cases, inl, inr,
}
use karpenter_provider_rafay.Rafay.Batcher.{BatchItem, OpKind, send_failed, acked, failed_with, ops}
use karpenter_provider_rafay.Rafay.Batcher.Send.{SendReply, accepted, error}
use karpenter_provider_rafay.Rafay.Batcher.Poll.{PollStart, stop, ask, dropped, poll_start}
use karpenter_provider_rafay.Rafay.Batcher.System.{
  System, Sender, collecting, sending, resolving, Action, arrive, join, receive, close, sent,
  resolve, advance, poll_starts, poll_answered, resume, take_caller, arrives, joins, take_item,
  receives, closes, answered, sends, resolves, advances, step, run, start,
}
use karpenter_provider_rafay.Rafay.Batcher.Channels.{
  resolve-pending, resolve-queue, register-SameChannels, resume-SameChannels,
  poll_finish-SameChannels, poll_start-SameChannels,
}
use karpenter_provider_rafay.Rafay.Batcher.Channels.Steps.{unchanged}
use karpenter_provider_rafay.Rafay.Batcher.Waiters.{
  in_hand, at_work, IsCovered, contains-append, contains-partition, contains-answers,
  same-IsCovered, join-covers,
}

arrives-IsCovered : (item : BatchItem) (s : System) → IsCovered s → IsCovered (arrives item s)
unfolding arrives
arrives-IsCovered item s v op = ground (arith, v op)

joins-IsCovered : (ch : ℕ) (s : System) → IsCovered s → IsCovered (joins ch s)
unfolding joins
joins-IsCovered ch s v op = elim (Option-cases (take_caller ch s.callers)) [
  | inl e ↦ rw (e, joins) (v op)
  | inr ((item, rest), e) ↦
      rw (e, joins) (join-covers item ch s.batcher op (in_hand s.sender op) (v op))
]

take_item-IsCovered :
    (queue xs : List BatchItem) (s : System)
    → s.batcher.queue ≡ queue
    → s.sender ≡ collecting xs
    → IsCovered s
    → IsCovered (take_item queue xs s)
unfolding take_item contains
take_item-IsCovered [] xs s q e v op h = v op h
take_item-IsCovered (item ∷ rest) xs s q e v op h =
    ground (arith, v op, contains-append op xs (item ∷ []))

receives-IsCovered :
    (x : Sender) (s : System) → s.sender ≡ x → IsCovered s → IsCovered (receives x s)
unfolding receives
receives-IsCovered (collecting xs) s e v = take_item-IsCovered s.batcher.queue xs s refl e v
receives-IsCovered _ s e v = v

closes-IsCovered : (x : Sender) (s : System) → s.sender ≡ x → IsCovered s → IsCovered (closes x s)
unfolding closes
closes-IsCovered (collecting []) s e v = v
closes-IsCovered (collecting (x ∷ xs)) s e v =
    same-IsCovered s (closes (collecting (x ∷ xs)) s) (unchanged s.batcher)
      (λ op h. ground (arith, contains-partition op (x ∷ xs))) v
closes-IsCovered _ s e v = v

answered-IsCovered :
    (kind : OpKind) (part removes : List BatchItem) (reply : SendReply) (now : ℕ) (s : System)
    → ((op : String)
        → in_hand s.sender op ≡ true
        → (contains (ops part) op || contains (ops removes) op) ≡ true)
    → IsCovered s
    → IsCovered (answered kind part removes reply now s)
unfolding answered
answered-IsCovered kind part removes (accepted id) now s hand v =
    same-IsCovered s (answered kind part removes (accepted id) now s)
      (register-SameChannels s.batcher kind id part now)
      (λ op h. ground (arith, hand op h, contains-answers op part (acked id))) v
answered-IsCovered kind part removes (error e) now s hand v =
    same-IsCovered s (answered kind part removes (error e) now s) (unchanged s.batcher)
      (λ op h.
        ground (arith, hand op h, contains-answers op part (failed_with (send_failed kind e))))
      v

sends-IsCovered :
    (x : Sender) (reply : SendReply) (now : ℕ) (s : System)
    → s.sender ≡ x
    → IsCovered s
    → IsCovered (sends x reply now s)
unfolding sends
sends-IsCovered (sending (a ∷ adds) removes) reply now s e v =
    answered-IsCovered OpKind.add (a ∷ adds) removes reply now s (λ op h. ground arith) v
sends-IsCovered (sending [] (r ∷ removes)) reply now s e v =
    answered-IsCovered OpKind.remove (r ∷ removes) [] reply now s
      (λ op h. unfold contains in ground arith) v
sends-IsCovered _ reply now s e v = v

resolves-IsCovered :
    (x : Sender) (s : System) → s.sender ≡ x → IsCovered s → IsCovered (resolves x s)
unfolding resolves contains
resolves-IsCovered (resolving ((op', r) ∷ waiters) removes) s e v op h = ground (
  arith,
  resolve-pending op' r s.batcher,
  resolve-queue op' r s.batcher,
  lookup-erase op' op s.batcher.pending,
  v op,
)
resolves-IsCovered _ s e v op h = v op h

advances-IsCovered :
    (x : Sender) (s : System) → s.sender ≡ x → IsCovered s → IsCovered (advances x s)
unfolding advances contains
advances-IsCovered (resolving [] removes) s e v =
    same-IsCovered s (advances (resolving [] removes) s) (unchanged s.batcher)
      (λ op h. ground arith) v
advances-IsCovered (sending [] []) s e v =
    same-IsCovered s (advances (sending [] []) s) (unchanged s.batcher) (λ op h. ground arith) v
advances-IsCovered _ s e v = v

poll_starts-IsCovered :
    (now : ℕ) (id : String) (s : System) → IsCovered s → IsCovered (step (poll_starts now id) s)
unfolding step
poll_starts-IsCovered now id s v = go (poll_start now id s.batcher) refl
  where
    go : (p : PollStart) → poll_start now id s.batcher ≡ p → IsCovered (step (poll_starts now id) s)
    go stop e = rw (e, step) v
    go ask e = rw (e, step) v
    go (dropped r) e =
        rw (e, step)
          (same-IsCovered s (record s { batcher = r.0; reported = s.reported ++ r.1 })
            (poll_start-SameChannels s.batcher now id r e) (λ op h. h) v)

step-IsCovered : (a : Action) (s : System) → IsCovered s → IsCovered (step a s)
unfolding step
step-IsCovered (arrive item) s v = arrives-IsCovered item s v
step-IsCovered (join ch) s v = joins-IsCovered ch s v
step-IsCovered receive s v = receives-IsCovered s.sender s refl v
step-IsCovered close s v = closes-IsCovered s.sender s refl v
step-IsCovered (sent reply now) s v = sends-IsCovered s.sender reply now s refl v
step-IsCovered resolve s v = resolves-IsCovered s.sender s refl v
step-IsCovered advance s v = advances-IsCovered s.sender s refl v
step-IsCovered (poll_starts now id) s v = poll_starts-IsCovered now id s v
step-IsCovered (poll_answered now id reply) s v =
    same-IsCovered s (step (poll_answered now id reply) s)
      (poll_finish-SameChannels s.batcher now id reply) (λ op h. h) v
step-IsCovered (resume id op_ids now) s v =
    same-IsCovered s (step (resume id op_ids now) s) (resume-SameChannels s.batcher id op_ids now)
      (λ op h. h) v

run-IsCovered : (actions : List Action) (s : System) → IsCovered s → IsCovered (run actions s)
unfolding run
run-IsCovered [] s v = v
run-IsCovered (a ∷ actions) s v = run-IsCovered actions (step a s) (step-IsCovered a s v)

-- From the start of the process, after any interleaving, an operation that callers wait for has an
-- item in the queue or with the batch sender (collected, about to be sent, or about to have its
-- waiters resolved), whatever the broker has answered and whatever was polled or resumed.
pub waiters_are_covered :
    (handler : Bool) (actions : List Action) (op : String)
    → is_some (lookup op (run actions (start handler)).batcher.pending) ≡ true
    → at_work (run actions (start handler)) op ≡ true
waiters_are_covered handler actions =
    run-IsCovered actions (start handler) (λ op h. unfold lookup in cc)
