-- ===== src/Rafay/Batcher/Accounted/Runs.antt =====
-- Through a whole run no operation of a tracked batch is lost.
use karpenter_provider_rafay.Prelude.{
  ℕ, suc, String, ◌≡◌, refl, subst, ap, ◌∙◌, ◌⊎◌, inl, inr, Bool, true, ◌||◌, List, [], ◌∷◌, ◌++◌,
  lookup, Option-cases, Bool-cases, leb, ◌==◌, arith, trim_space,
}
use karpenter_provider_rafay.Rafay.Batcher.{
  NodeBatcher, BatchItem, InProgressBatch, FailureCall, has_succeeded, max_consecutive_empty_polls,
}
use karpenter_provider_rafay.Rafay.Batcher.Send.{
  SendReply, accepted, error, register, track_resumed, resume_trimmed, resume_items,
  resume_add_batch,
}
use karpenter_provider_rafay.Rafay.Batcher.Poll.{
  NodeResult, PollStart, PollReply, results, stop, ask, dropped, drop_batch, clear_in_flight,
  settle, count_empty_poll, answer_batch, poll_start, poll_finish,
}
use karpenter_provider_rafay.Rafay.Batcher.Poll
use karpenter_provider_rafay.Rafay.Batcher.System.{
  System, Sender, sending, Action, arrive, join, receive, close, sent, resolve, advance,
  poll_starts, poll_answered, resume, answered, sends, step, run,
}
use karpenter_provider_rafay.Rafay.Batcher.Local.{local-IsSame}
use karpenter_provider_rafay.Rafay.Batcher.Tracked.Steps.{AllFresh, dropped-eq, not_dropped}
use karpenter_provider_rafay.Rafay.Batcher.Accounted.{under, reports}
use karpenter_provider_rafay.Rafay.Batcher.Accounted.Steps.{step-IsFollowed}

-- The failure handler stays as it is.
count_empty_poll-handler :
    (j : String) (bp : InProgressBatch) (b : NodeBatcher)
    → (count_empty_poll j bp b).0.failure_handler ≡ b.failure_handler
unfolding count_empty_poll drop_batch clear_in_flight
count_empty_poll-handler j bp b =
    elim (Bool-cases (leb max_consecutive_empty_polls (suc bp.empty_polls))) [
      | inl e ↦ rw (e, count_empty_poll) refl
      | inr e ↦ rw (e, count_empty_poll) refl
    ]

answer_batch-handler :
    (now : ℕ) (j : String) (rs : List NodeResult) (bp : InProgressBatch) (b : NodeBatcher)
    → (answer_batch now j rs bp b).0.failure_handler ≡ b.failure_handler
unfolding answer_batch settle
answer_batch-handler now j [] bp b = count_empty_poll-handler j bp b
answer_batch-handler now j (r ∷ rs) bp b = refl

poll_finish-handler :
    (now : ℕ) (j : String) (reply : PollReply) (b : NodeBatcher)
    → (poll_finish now j reply b).0.failure_handler ≡ b.failure_handler
unfolding poll_finish
poll_finish-handler now j (Poll.error e) b = refl
poll_finish-handler now j (results rs) b = elim (Option-cases (lookup j b.in_progress)) [
  | inl e ↦ rw (e, poll_finish) refl
  | inr (bp, e) ↦ rw (e, poll_finish) (answer_batch-handler now j rs bp b)
]

dropped-handler :
    (now : ℕ) (j : String) (b : NodeBatcher) (r : NodeBatcher × List FailureCall)
    → poll_start now j b ≡ dropped r
    → r.0.failure_handler ≡ b.failure_handler
unfolding drop_batch clear_in_flight
dropped-handler now j b r e = elim (Option-cases (lookup j b.in_progress)) [
  | inl n ↦ absurd (not_dropped now j b r n e)
  | inr (bp, n) ↦
      subst (λ (x : NodeBatcher × List FailureCall). x.0.failure_handler ≡ b.failure_handler)
        (dropped-eq now j b bp r n e) refl
]

poll_starts-handler :
    (now : ℕ) (j : String) (s : System)
    → (step (poll_starts now j) s).batcher.failure_handler ≡ s.batcher.failure_handler
unfolding step
poll_starts-handler now j s = go (poll_start now j s.batcher) refl
  where
    go :
        (p : PollStart)
        → poll_start now j s.batcher ≡ p
        → (step (poll_starts now j) s).batcher.failure_handler ≡ s.batcher.failure_handler
    go stop e = rw (e, step) refl
    go ask e = rw (e, step) refl
    go (dropped r) e = rw (e, step) (dropped-handler now j s.batcher r e)

sends-handler :
    (x : Sender) (reply : SendReply) (now : ℕ) (s : System)
    → (sends x reply now s).batcher.failure_handler ≡ s.batcher.failure_handler
unfolding sends answered register
sends-handler (sending (a ∷ adds) removes) (accepted j) now s = refl
sends-handler (sending (a ∷ adds) removes) (error e) now s = refl
sends-handler (sending [] (r ∷ removes)) (accepted j) now s = refl
sends-handler (sending [] (r ∷ removes)) (error e) now s = refl
sends-handler _ reply now s = refl

resume_trimmed-handler :
    (j : String) (items : List BatchItem) (now : ℕ) (b : NodeBatcher)
    → (resume_trimmed j items now b).1.failure_handler ≡ b.failure_handler
unfolding resume_trimmed track_resumed
resume_trimmed-handler j [] now b = refl
resume_trimmed-handler j (i ∷ items) now b = elim (Option-cases (lookup j b.in_progress)) [
  | inl e ↦ rw (e, resume_trimmed) refl
  | inr (bp, e) ↦ rw (e, resume_trimmed) refl
]

resume-handler :
    (j : String) (ids : List String) (now : ℕ) (b : NodeBatcher)
    → (resume_add_batch j ids now b).1.failure_handler ≡ b.failure_handler
unfolding resume_add_batch
resume-handler j ids now b = elim (Bool-cases (trim_space j == "")) [
  | inl e ↦ rw (e, resume_add_batch) refl
  | inr e ↦
      rw (e, resume_add_batch) (resume_trimmed-handler (trim_space j) (resume_items ids) now b)
]

pub step-handler :
    (a : Action) (s : System) → (step a s).batcher.failure_handler ≡ s.batcher.failure_handler
unfolding step
step-handler (sent reply now) s = sends-handler s.sender reply now s
step-handler (poll_starts now j) s = poll_starts-handler now j s
step-handler (poll_answered now j reply) s = poll_finish-handler now j reply s.batcher
step-handler (resume j ids now) s = resume-handler j ids now s.batcher
step-handler (arrive item) s = (local-IsSame s (arrive item) tt).0.failure_handler
step-handler (join ch) s = (local-IsSame s (join ch) tt).0.failure_handler
step-handler receive s = (local-IsSame s receive tt).0.failure_handler
step-handler close s = (local-IsSame s close tt).0.failure_handler
step-handler resolve s = (local-IsSame s resolve tt).0.failure_handler
step-handler advance s = (local-IsSame s advance tt).0.failure_handler

-- The operation has succeeded, or the failure handler has been called for it.
abbrev pub ended : String → System → Bool
ended op s = has_succeeded s.batcher op || reports op s.reported

-- From a state in which an operation is an item of a tracked batch, through any interleaving in which the
-- broker acknowledges each batch under an ID that is not tracked at that moment, and with a failure
-- handler set: the operation is still an item of that batch, or it was up to a step of the run after
-- which it is recorded as succeeded or the handler has been called for it.
pub run_loses_nothing :
    (id op : String) (actions : List Action) (s : System)
    → AllFresh actions s
    → s.batcher.failure_handler ≡ true
    → under id op s.batcher ≡ true
    → (under id op (run actions s).batcher ≡ true)
      ⊎ ((before : List Action) × (a : Action) × (after : List Action) × (actions
            ≡ before ++ a ∷ after)
          × (under id op (run before s).batcher ≡ true)
          × (ended op (step a (run before s)) ≡ true))
unfolding run
run_loses_nothing id op [] s f handler h = inl h
run_loses_nothing id op (a ∷ actions) s f handler h =
    elim (Bool-cases (under id op (step a s).batcher)) [
      | inl stays ↦
          elim (run_loses_nothing id op actions (step a s) f.1 (step-handler a s ∙ handler) stays) [
            | inl k ↦ inl k
            | inr (before, last, after, parts, there, k) ↦
                inr (a ∷ before, last, after, ap (◌∷◌ a) parts, there, k)
          ]
      | inr left ↦
          inr
            ([], a, actions, refl, h, ground (arith, left, step-IsFollowed id op a s f.0 handler h))
    ]
