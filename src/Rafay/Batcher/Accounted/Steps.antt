-- ===== src/Rafay/Batcher/Accounted/Steps.antt =====
-- Through each step of the goroutines an operation of a tracked batch stays with its batch until it has
-- succeeded or the failure handler is called for it.
use karpenter_provider_rafay.Prelude.{
  ℕ, String, ◌≡◌, refl, sym, subst, ◌∙◌, inl, inr, true, List, [], ◌∷◌, ◌++◌, none, Dict, lookup,
  insert, Option-cases, Bool-cases, ◌==◌, eq_iff, arith, trim_space,
}
use karpenter_provider_rafay.Rafay.Batcher.{
  NodeBatcher, BatchItem, InProgressBatch, FailureCall, OpKind,
}
use karpenter_provider_rafay.Rafay.Batcher.Send.{
  SendReply, accepted, error, register, track_resumed, resume_trimmed, resume_items,
  resume_add_batch,
}
use karpenter_provider_rafay.Rafay.Batcher.Poll.{
  PollStart, stop, ask, dropped, poll_start, poll_finish,
}
use karpenter_provider_rafay.Rafay.Batcher.System.{
  System, Sender, sending, Action, arrive, join, receive, close, sent, resolve, advance,
  poll_starts, poll_answered, resume, answered, sends, step,
}
use karpenter_provider_rafay.Rafay.Batcher.Local.{IsLocal, local-IsSame}
use karpenter_provider_rafay.Rafay.Batcher.Tracked.Steps.{IsFresh, dropped-eq, not_dropped}
use karpenter_provider_rafay.Rafay.Batcher.Accounted.{
  under, under_in, reports-append, IsAccounted, stays-IsAccounted, under-insert,
}
use karpenter_provider_rafay.Rafay.Batcher.Accounted.Answered.{
  poll_finish-IsAccounted, drop-IsAccounted,
}

module _ (id op : String) where
  -- The operation stays with the batch, has succeeded, or has been reported as failed.
  abbrev pub IsFollowed : System → Type 0
  IsFollowed s = IsAccounted id op (s.batcher, s.reported)

  append-IsAccounted :
      (before : List FailureCall) (r : NodeBatcher × List FailureCall)
      → IsAccounted id op r
      → IsAccounted id op (r.0, before ++ r.1)
  append-IsAccounted before r h = ground (arith, h, reports-append op before r.1)

  -- A batch under a new ID leaves the tracked ones alone.
  new-under :
      (j : String) (entry : InProgressBatch) (m : Dict InProgressBatch)
      → lookup j m ≡ none
      → under_in id op m ≡ true
      → under_in id op (insert j entry m) ≡ true
  new-under j entry m fresh h = elim (Bool-cases (id == j)) [
    | inl same ↦ absurd (gone (subst (λ i. lookup i m ≡ none) (sym ((eq_iff id j).0 same)) fresh))
    | inr other ↦ under-insert id op j entry m other ∙ h
  ]
    where
      gone : lookup id m ≡ none → ⊥
      gone e = ground (arith, e, h)

  answered-under :
      (kind : OpKind) (part removes : List BatchItem) (reply : SendReply) (now : ℕ) (s : System)
      → IsFresh (sent reply now) s
      → under id op s.batcher ≡ true
      → under id op (answered kind part removes reply now s).batcher ≡ true
  unfolding answered register
  answered-under kind part removes (accepted j) now s f h = new-under j _ s.batcher.in_progress f h
  answered-under kind part removes (error e) now s f h = h

  sends-under :
      (x : Sender) (reply : SendReply) (now : ℕ) (s : System)
      → IsFresh (sent reply now) s
      → under id op s.batcher ≡ true
      → under id op (sends x reply now s).batcher ≡ true
  unfolding sends
  sends-under (sending (a ∷ adds) removes) reply now s f h =
      answered-under OpKind.add (a ∷ adds) removes reply now s f h
  sends-under (sending [] (r ∷ removes)) reply now s f h =
      answered-under OpKind.remove (r ∷ removes) [] reply now s f h
  sends-under _ reply now s f h = h

  resume_trimmed-under :
      (j : String) (items : List BatchItem) (now : ℕ) (b : NodeBatcher)
      → under id op b ≡ true
      → under id op (resume_trimmed j items now b).1 ≡ true
  unfolding resume_trimmed track_resumed
  resume_trimmed-under j [] now b h = h
  resume_trimmed-under j (i ∷ items) now b h = elim (Option-cases (lookup j b.in_progress)) [
    | inl e ↦ rw (e, resume_trimmed) (new-under j _ b.in_progress e h)
    | inr (bp, e) ↦ rw (e, resume_trimmed) h
  ]

  resume-under :
      (j : String) (ids : List String) (now : ℕ) (b : NodeBatcher)
      → under id op b ≡ true
      → under id op (resume_add_batch j ids now b).1 ≡ true
  unfolding resume_add_batch
  resume-under j ids now b h = elim (Bool-cases (trim_space j == "")) [
    | inl e ↦ rw (e, resume_add_batch) h
    | inr e ↦
        rw (e, resume_add_batch) (resume_trimmed-under (trim_space j) (resume_items ids) now b h)
  ]

  poll_start-IsAccounted :
      (now : ℕ) (j : String) (b : NodeBatcher) (r : NodeBatcher × List FailureCall)
      → poll_start now j b ≡ dropped r
      → b.failure_handler ≡ true
      → under id op b ≡ true
      → IsAccounted id op r
  poll_start-IsAccounted now j b r e handler h = elim (Option-cases (lookup j b.in_progress)) [
    | inl n ↦ absurd (not_dropped now j b r n e)
    | inr (bp, n) ↦
        subst (IsAccounted id op) (dropped-eq now j b bp r n e)
          (drop-IsAccounted id op j bp b n handler h)
  ]

  local-IsFollowed :
      (a : Action) (s : System) → IsLocal a → under id op s.batcher ≡ true → IsFollowed (step a s)
  local-IsFollowed a s l h =
      let same = local-IsSame s a l in
      stays-IsAccounted id op ((step a s).batcher, (step a s).reported) (rw same.0.in_progress h)

  poll_starts-IsFollowed :
      (now : ℕ) (j : String) (s : System)
      → s.batcher.failure_handler ≡ true
      → under id op s.batcher ≡ true
      → IsFollowed (step (poll_starts now j) s)
  unfolding step
  poll_starts-IsFollowed now j s handler h = go (poll_start now j s.batcher) refl
    where
      go :
          (p : PollStart) → poll_start now j s.batcher ≡ p → IsFollowed (step (poll_starts now j) s)
      go stop e = rw (e, step) (stays-IsAccounted id op (s.batcher, s.reported) h)
      go ask e = rw (e, step) (stays-IsAccounted id op (s.batcher, s.reported) h)
      go (dropped r) e =
          rw (e, step)
            (append-IsAccounted s.reported r (poll_start-IsAccounted now j s.batcher r e handler h))

  pub step-IsFollowed :
      (a : Action) (s : System)
      → IsFresh a s
      → s.batcher.failure_handler ≡ true
      → under id op s.batcher ≡ true
      → IsFollowed (step a s)
  unfolding step
  step-IsFollowed (sent reply now) s f handler h =
      stays-IsAccounted id op _ (sends-under s.sender reply now s f h)
  step-IsFollowed (poll_starts now j) s f handler h = poll_starts-IsFollowed now j s handler h
  step-IsFollowed (poll_answered now j reply) s f handler h =
      append-IsAccounted s.reported (poll_finish now j reply s.batcher)
        (poll_finish-IsAccounted id op now j reply s.batcher handler h)
  step-IsFollowed (resume j ids now) s f handler h =
      stays-IsAccounted id op _ (resume-under j ids now s.batcher h)
  step-IsFollowed (arrive item) s f handler h = local-IsFollowed (arrive item) s tt h
  step-IsFollowed (join ch) s f handler h = local-IsFollowed (join ch) s tt h
  step-IsFollowed receive s f handler h = local-IsFollowed receive s tt h
  step-IsFollowed close s f handler h = local-IsFollowed close s tt h
  step-IsFollowed resolve s f handler h = local-IsFollowed resolve s tt h
  step-IsFollowed advance s f handler h = local-IsFollowed advance s tt h
