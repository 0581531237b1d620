-- ===== src/Rafay/Batcher/Channels/Steps.antt =====
-- Each step of the goroutines keeps every result channel accounted for once.
use karpenter_provider_rafay.Prelude.{
  ℕ, ◌+◌, String, ◌≡◌, refl, ap, Bool, List, [], ◌∷◌, ◌++◌, ltb, Option-cases, inl, inr, arith,
  erase-IsKeyed,
}
use karpenter_provider_rafay.Rafay.Batcher.{NodeBatcher, BatchItem, OpKind}
use karpenter_provider_rafay.Rafay.Batcher.Send.{SendReply, accepted, error}
use karpenter_provider_rafay.Rafay.Batcher.Poll.{PollStart, stop, ask, dropped, poll_start}
use karpenter_provider_rafay.Rafay.Batcher.System.{
  System, Sender, collecting, sending, resolving, Action, arrive, join, receive, close, sent,
  resolve, advance, poll_starts, poll_answered, resume, take_caller, arrives, joins, receives,
  closes, answered, sends, resolves, advances, step, run, start,
}
use karpenter_provider_rafay.Rafay.Batcher.Channels.{
  written, waiting, with_callers, one_if, IsAccounted, SameChannels, join-IsKeyed, join-next_chan,
  spread-join, resolve-pending, resolve-next_chan, spread-resolve, register-SameChannels,
  resume-SameChannels, poll_finish-SameChannels, poll_start-SameChannels, with_callers-take,
}

arrives-IsAccounted : (item : BatchItem) (s : System) → IsAccounted s → IsAccounted (arrives item s)
unfolding arrives
arrives-IsAccounted item s v = record {
  keyed = ground (arith, v.keyed);
  each = λ c. ground (arith, v.each c);
}

joins-IsAccounted : (ch : ℕ) (s : System) → IsAccounted s → IsAccounted (joins ch s)
unfolding joins
joins-IsAccounted ch s v = elim (Option-cases (take_caller ch s.callers)) [
  | inl e ↦ rw (e, joins) v
  | inr ((item, rest), e) ↦
      rw (e, joins)
        (record {
          keyed = join-IsKeyed item ch s.batcher v.keyed;
          each = λ c. omega (
            arith,
            v.each c,
            spread-join item ch s.batcher c v.keyed,
            with_callers-take ch c s.callers item rest e,
            ap (λ n. one_if (ltb c n)) (join-next_chan item ch s.batcher),
          );
        })
]

same-IsAccounted :
    (s t : System)
    → SameChannels s.batcher t.batcher
    → t.callers ≡ s.callers
    → IsAccounted s
    → IsAccounted t
same-IsAccounted s t same callers v = record {
  keyed = rw same.pending v.keyed;
  each = λ c. rw (same.delivered, same.pending, same.next_chan, callers) (v.each c);
}

abbrev pub unchanged : (b : NodeBatcher) → SameChannels b b
unchanged b = record { delivered = refl; pending = refl; next_chan = refl; queue = refl }

receives-IsAccounted : (x : Sender) (s : System) → IsAccounted s → IsAccounted (receives x s)
unfolding receives
receives-IsAccounted (collecting xs) s v = ground arith
receives-IsAccounted _ s v = v

closes-IsAccounted : (x : Sender) (s : System) → IsAccounted s → IsAccounted (closes x s)
unfolding closes
closes-IsAccounted (collecting []) s v = v
closes-IsAccounted (collecting (x ∷ xs)) s v =
    same-IsAccounted s (closes (collecting (x ∷ xs)) s) (unchanged s.batcher) refl v
closes-IsAccounted _ s v = v

answered-IsAccounted :
    (kind : OpKind) (part removes : List BatchItem) (reply : SendReply) (now : ℕ) (s : System)
    → IsAccounted s
    → IsAccounted (answered kind part removes reply now s)
unfolding answered
answered-IsAccounted kind part removes (accepted id) now s v =
    same-IsAccounted s (answered kind part removes (accepted id) now s)
      (register-SameChannels s.batcher kind id part now) refl v
answered-IsAccounted kind part removes (error e) now s v =
    same-IsAccounted s (answered kind part removes (error e) now s) (unchanged s.batcher) refl v

sends-IsAccounted :
    (x : Sender) (reply : SendReply) (now : ℕ) (s : System)
    → IsAccounted s
    → IsAccounted (sends x reply now s)
unfolding sends
sends-IsAccounted (sending (a ∷ adds) removes) reply now s v =
    answered-IsAccounted OpKind.add (a ∷ adds) removes reply now s v
sends-IsAccounted (sending [] (r ∷ removes)) reply now s v =
    answered-IsAccounted OpKind.remove (r ∷ removes) [] reply now s v
sends-IsAccounted _ reply now s v = v

resolves-IsAccounted : (x : Sender) (s : System) → IsAccounted s → IsAccounted (resolves x s)
unfolding resolves
resolves-IsAccounted (resolving ((op, r) ∷ waiters) removes) s v = record {
  keyed = rw resolve-pending (erase-IsKeyed op s.batcher.pending v.keyed);
  each = λ c. omega (
    arith,
    v.each c,
    spread-resolve op r s.batcher c v.keyed,
    ap (λ n. one_if (ltb c n)) (resolve-next_chan op r s.batcher),
  );
}
resolves-IsAccounted _ s v = v

advances-IsAccounted : (x : Sender) (s : System) → IsAccounted s → IsAccounted (advances x s)
unfolding advances
advances-IsAccounted (resolving [] removes) s v =
    same-IsAccounted s (advances (resolving [] removes) s) (unchanged s.batcher) refl v
advances-IsAccounted (sending [] []) s v =
    same-IsAccounted s (advances (sending [] []) s) (unchanged s.batcher) refl v
advances-IsAccounted _ s v = v

poll_starts-IsAccounted :
    (now : ℕ) (id : String) (s : System) → IsAccounted s → IsAccounted (step (poll_starts now id) s)
unfolding step
poll_starts-IsAccounted now id s v = go (poll_start now id s.batcher) refl
  where
    go :
        (p : PollStart)
        → poll_start now id s.batcher ≡ p
        → IsAccounted (step (poll_starts now id) s)
    go stop e = rw (e, step) v
    go ask e = rw (e, step) v
    go (dropped r) e =
        rw (e, step)
          (same-IsAccounted s (record s { batcher = r.0; reported = s.reported ++ r.1 })
            (poll_start-SameChannels s.batcher now id r e) refl v)

-- Every step of any goroutine keeps each channel accounted for once.
pub step-IsAccounted : (a : Action) (s : System) → IsAccounted s → IsAccounted (step a s)
unfolding step
step-IsAccounted (arrive item) s v = arrives-IsAccounted item s v
step-IsAccounted (join ch) s v = joins-IsAccounted ch s v
step-IsAccounted receive s v = receives-IsAccounted s.sender s v
step-IsAccounted close s v = closes-IsAccounted s.sender s v
step-IsAccounted (sent reply now) s v = sends-IsAccounted s.sender reply now s v
step-IsAccounted resolve s v = resolves-IsAccounted s.sender s v
step-IsAccounted advance s v = advances-IsAccounted s.sender s v
step-IsAccounted (poll_starts now id) s v = poll_starts-IsAccounted now id s v
step-IsAccounted (poll_answered now id reply) s v =
    same-IsAccounted s (step (poll_answered now id reply) s)
      (poll_finish-SameChannels s.batcher now id reply) refl v
step-IsAccounted (resume id op_ids now) s v =
    same-IsAccounted s (step (resume id op_ids now) s) (resume-SameChannels s.batcher id op_ids now)
      refl v

pub run-IsAccounted :
    (actions : List Action) (s : System) → IsAccounted s → IsAccounted (run actions s)
unfolding run
run-IsAccounted [] s v = v
run-IsAccounted (a ∷ actions) s v = run-IsAccounted actions (step a s) (step-IsAccounted a s v)

-- From the start of the process, after any interleaving of the callers, the sender, the poller and
-- the resume, every channel made so far is held by its caller, waits in `pending` or has been
-- written, exactly one of these and exactly once, and no other channel number occurs anywhere. So
-- no channel is ever written twice, and none that waits is lost from `pending`.
pub each_channel_once :
    (handler : Bool) (actions : List Action) (c : ℕ)
    → let s = run actions (start handler) in
      written c s.batcher.delivered + waiting c s.batcher.pending + with_callers c s.callers
      ≡ one_if (ltb c s.batcher.next_chan)
each_channel_once handler actions c =
    (run-IsAccounted actions (start handler) (record { keyed = tt; each = λ k. ground arith })).each
      c
