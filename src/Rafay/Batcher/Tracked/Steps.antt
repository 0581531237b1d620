-- ===== src/Rafay/Batcher/Tracked/Steps.antt =====
-- Each step of the goroutines keeps every in-flight operation followed by the poller, as long as the
-- broker does not acknowledge a batch under the ID of one that is still tracked.
use karpenter_provider_rafay.Prelude.{
  ℕ, String, ◌≡◌, ◌≢◌, refl, ap, Bool, true, List, [], ◌∷◌, none, some, lookup, subst, is_some,
  arith, Option-cases, inl, inr,
}
use karpenter_provider_rafay.Rafay.Batcher.{
  NodeBatcher, BatchItem, InProgressBatch, FailureCall, OpKind,
}
use karpenter_provider_rafay.Rafay.Batcher.Send.{SendReply, accepted, error}
use karpenter_provider_rafay.Rafay.Batcher.Poll.{
  PollStart, stop, ask, dropped, drop_batch, poll_start,
}
use karpenter_provider_rafay.Rafay.Batcher.System.{
  System, Sender, sending, Action, arrive, join, receive, close, sent, resolve, advance,
  poll_starts, poll_answered, resume, answered, sends, step, run, start,
}
use karpenter_provider_rafay.Rafay.Batcher.Local.{SameFlight, IsLocal, local-IsSame}
use karpenter_provider_rafay.Rafay.Batcher.Tracked.{
  holds, follows, IsTracked, IsNew, register-IsTracked, resume-IsTracked, drop-IsTracked,
  poll_finish-IsTracked,
}

same-IsTracked : (a b : NodeBatcher) → SameFlight a b → IsTracked a → IsTracked b
same-IsTracked a b same v op h =
    ground (arith, same.in_flight, same.op_batch, same.in_progress, v op)

-- The part of a batch that an acknowledgement is for gets an ID that is not in use.
abbrev pub IsFresh : Action → System → Type 0
IsFresh (sent (accepted id) now) s = IsNew id s.batcher
IsFresh _ s = Unit

abbrev pub AllFresh : List Action → System → Type 0
AllFresh [] s = Unit
AllFresh (a ∷ actions) s = IsFresh a s × AllFresh actions (step a s)

pub dropped-eq :
    (now : ℕ) (id : String) (b : NodeBatcher) (bp : InProgressBatch)
    (r : NodeBatcher × List FailureCall)
    → lookup id b.in_progress ≡ some bp
    → poll_start now id b ≡ dropped r
    → drop_batch id bp b ≡ r
unfolding poll_start
dropped-eq now id b bp r e h = ground arith

pub not_dropped :
    (now : ℕ) (id : String) (b : NodeBatcher) (r : NodeBatcher × List FailureCall)
    → lookup id b.in_progress ≡ none
    → poll_start now id b ≢ dropped r
unfolding poll_start
not_dropped now id b r e h = ground arith

dropped-IsTracked :
    (now : ℕ) (id : String) (b : NodeBatcher) (r : NodeBatcher × List FailureCall)
    → poll_start now id b ≡ dropped r
    → IsTracked b
    → IsTracked r.0
dropped-IsTracked now id b r h v = elim (Option-cases (lookup id b.in_progress)) [
  | inl e ↦ absurd (not_dropped now id b r e h)
  | inr (bp, e) ↦
      subst (λ (x : NodeBatcher × List FailureCall). IsTracked x.0) (dropped-eq now id b bp r e h)
        (drop-IsTracked id bp b (λ op. ap (λ o. holds o op) e) v)
]

answered-IsTracked :
    (kind : OpKind) (part removes : List BatchItem) (reply : SendReply) (now : ℕ) (s : System)
    → IsFresh (sent reply now) s
    → IsTracked s.batcher
    → IsTracked (answered kind part removes reply now s).batcher
unfolding answered
answered-IsTracked kind part removes (accepted id) now s f v =
    register-IsTracked kind id part now s.batcher f v
answered-IsTracked kind part removes (error e) now s f v = v

sends-IsTracked :
    (x : Sender) (reply : SendReply) (now : ℕ) (s : System)
    → IsFresh (sent reply now) s
    → IsTracked s.batcher
    → IsTracked (sends x reply now s).batcher
unfolding sends
sends-IsTracked (sending (a ∷ adds) removes) reply now s f v =
    answered-IsTracked OpKind.add (a ∷ adds) removes reply now s f v
sends-IsTracked (sending [] (r ∷ removes)) reply now s f v =
    answered-IsTracked OpKind.remove (r ∷ removes) [] reply now s f v
sends-IsTracked _ reply now s f v = v

module _ (s : System) (v : IsTracked s.batcher) where
  local-IsTracked : (a : Action) → IsLocal a → IsTracked (step a s).batcher
  local-IsTracked a l = same-IsTracked s.batcher (step a s).batcher (local-IsSame s a l).0 v

  poll_starts-IsTracked : (now : ℕ) (id : String) → IsTracked (step (poll_starts now id) s).batcher
  unfolding step
  poll_starts-IsTracked now id = go (poll_start now id s.batcher) refl
    where
      go :
          (p : PollStart)
          → poll_start now id s.batcher ≡ p
          → IsTracked (step (poll_starts now id) s).batcher
      go stop e = rw (e, step) v
      go ask e = rw (e, step) v
      go (dropped r) e = rw (e, step) (dropped-IsTracked now id s.batcher r e v)

  step-IsTracked : (a : Action) → IsFresh a s → IsTracked (step a s).batcher
  unfolding step
  step-IsTracked (sent reply now) f = sends-IsTracked s.sender reply now s f v
  step-IsTracked (poll_starts now id) f = poll_starts-IsTracked now id
  step-IsTracked (poll_answered now id reply) f = poll_finish-IsTracked now id reply s.batcher v
  step-IsTracked (resume id op_ids now) f = resume-IsTracked id op_ids now s.batcher v
  step-IsTracked (arrive item) f = local-IsTracked (arrive item) tt
  step-IsTracked (join ch) f = local-IsTracked (join ch) tt
  step-IsTracked receive f = local-IsTracked receive tt
  step-IsTracked close f = local-IsTracked close tt
  step-IsTracked resolve f = local-IsTracked resolve tt
  step-IsTracked advance f = local-IsTracked advance tt

run-IsTracked :
    (actions : List Action) (s : System)
    → AllFresh actions s
    → IsTracked s.batcher
    → IsTracked (run actions s).batcher
unfolding run
run-IsTracked [] s f v = v
run-IsTracked (a ∷ actions) s f v = run-IsTracked actions (step a s) f.1 (step-IsTracked s v a f.0)

-- From the start of the process, after any interleaving in which the broker acknowledges each batch
-- under an ID that is not tracked at that moment, every operation that is in flight (and so keeps
-- further Enqueue calls from sending it) has an entry in `opBatch` that names a tracked batch with
-- the operation among its unresolved items: the poller will see its terminal state or expire it.
pub in_flight_is_tracked :
    (handler : Bool) (actions : List Action) (op : String)
    → AllFresh actions (start handler)
    → is_some (lookup op (run actions (start handler)).batcher.in_flight) ≡ true
    → follows (run actions (start handler)).batcher op ≡ true
in_flight_is_tracked handler actions op f =
    run-IsTracked actions (start handler) f (λ o h. unfold lookup in cc) op
