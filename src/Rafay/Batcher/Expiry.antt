-- ===== src/Rafay/Batcher/Expiry.antt =====
-- The age of the batches that pollAll leaves tracked.
use karpenter_provider_rafay.Prelude.{
  ℕ, suc, ◌-◌, ◌≤◌, ◌<◌, String, ◌≡◌, refl, sym, subst, ap, ◌∙◌, ◌⊎◌, inl, inr, true, false, ◌||◌,
  List, [], ◌∷◌, none, some, Dict, lookup, insert, erase, keys, contains, contains-keys, is_some,
  ltb, leb, ltb→lt, lookup-erase, lookup-insert, ◌==◌, eq_iff, eq_refl, Bool-cases, Option-cases,
  Option, arith,
}
use karpenter_provider_rafay.Rafay.Batcher.{
  NodeBatcher, InProgressBatch, FailureCall, max_batch_age, max_consecutive_empty_polls,
}
use karpenter_provider_rafay.Rafay.Batcher.Poll.{
  NodeResult, PollReply, results, error, Sweep, sweep, sweep_from, result_map, is_empty,
  clear_in_flight, drop_batch, count_empty_poll, settle, answer_batch, poll_start, poll_finish,
  poll_batch, poll_ids, poll_all,
}

-- When it was sent, and when it may be polled first: a tracked batch keeps both.
abbrev times : InProgressBatch → ℕ × ℕ
times bp = (bp.sent_at, bp.poll_after)

-- The batch is not tracked any more, or it has its times.
abbrev IsAged : ℕ × ℕ → Option InProgressBatch → Type 0
IsAged t none = Unit
IsAged t (some bp) = times bp ≡ t

-- What a change of the tracked batches does to that with the ID `other`: nothing, or, to that with the
-- ID `id`, it goes or keeps its times.
abbrev Keeps : String → Dict InProgressBatch → Dict InProgressBatch → Type 0
Keeps id m m' =
    ((other : String) → (id == other) ≡ false → lookup other m' ≡ lookup other m)
    × ((bp : InProgressBatch) → lookup id m ≡ some bp → IsAged (times bp) (lookup id m'))

erase-Keeps : (id : String) (m : Dict InProgressBatch) → Keeps id m (erase id m)
erase-Keeps id m = (
  λ other ne. lookup-erase id other m ∙ rw ne refl,
  λ bp h. rw (lookup-erase id id m, eq_refl id) tt,
)

insert-Keeps :
    (id : String) (bp new : InProgressBatch) (m : Dict InProgressBatch)
    → lookup id m ≡ some bp
    → times new ≡ times bp
    → Keeps id m (insert id new m)
insert-Keeps id bp new m e t = (
  λ other ne. lookup-insert id other new m ∙ rw ne refl,
  λ old h. rw (lookup-insert id id new m, eq_refl id) (t ∙ ap times (some_inj bp old (sym e ∙ h))),
)
  where
    some_inj : (a b : InProgressBatch) → some a ≡ some b → a ≡ b
    some_inj a b g = cc

same-Keeps : (id : String) (m : Dict InProgressBatch) → Keeps id m m
same-Keeps id m = (λ other ne. refl, λ bp h. rw h refl)

module _ (id : String) (b : NodeBatcher) where
  drop-Keeps : (bp : InProgressBatch) → Keeps id b.in_progress (drop_batch id bp b).0.in_progress
  unfolding drop_batch clear_in_flight
  drop-Keeps bp = erase-Keeps id b.in_progress

  count-Keeps :
      (bp : InProgressBatch)
      → lookup id b.in_progress ≡ some bp
      → Keeps id b.in_progress (count_empty_poll id bp b).0.in_progress
  unfolding count_empty_poll
  count-Keeps bp e = elim (Bool-cases (leb max_consecutive_empty_polls (suc bp.empty_polls))) [
    | inl third ↦
        rw (count_empty_poll, third) (drop-Keeps (record bp { empty_polls = suc bp.empty_polls }))
    | inr sooner ↦
        rw (count_empty_poll, sooner)
          (insert-Keeps id bp (record bp { empty_polls = suc bp.empty_polls }) b.in_progress e refl)
  ]

  settle-Keeps :
      (now : ℕ) (bp : InProgressBatch) (w : Sweep)
      → lookup id b.in_progress ≡ some bp
      → Keeps id b.in_progress (settle now id bp w b).0.in_progress
  unfolding settle
  settle-Keeps now bp w e = elim (Bool-cases (w.all_done || is_empty w.remaining)) [
    | inl done ↦ rw (settle, done) (erase-Keeps id b.in_progress)
    | inr going ↦
        rw (settle, going)
          (insert-Keeps id bp (record bp { items = w.remaining; empty_polls = 0 }) b.in_progress e
            refl)
  ]

  answer-Keeps :
      (now : ℕ) (rs : List NodeResult) (bp : InProgressBatch)
      → lookup id b.in_progress ≡ some bp
      → Keeps id b.in_progress (answer_batch now id rs bp b).0.in_progress
  unfolding answer_batch
  answer-Keeps now [] bp e = count-Keeps bp e
  answer-Keeps now (r ∷ rs) bp e =
      settle-Keeps now bp (sweep now (result_map (r ∷ rs) []) bp.items (sweep_from b)) e

  finish-Keeps :
      (now : ℕ) (reply : PollReply)
      → Keeps id b.in_progress (poll_finish now id reply b).0.in_progress
  unfolding poll_finish
  finish-Keeps now (error e) = same-Keeps id b.in_progress
  finish-Keeps now (results rs) = elim (Option-cases (lookup id b.in_progress)) [
    | inl e ↦ subst KeepsTracked (sym (unknown e)) (same-Keeps id b.in_progress)
    | inr (bp, e) ↦ subst KeepsTracked (sym (known bp e)) (answer-Keeps now rs bp e)
  ]
    where
      KeepsTracked : NodeBatcher × List FailureCall → Type 0
      KeepsTracked r = Keeps id b.in_progress r.0.in_progress

      unknown : lookup id b.in_progress ≡ none → poll_finish now id (results rs) b ≡ (b, [])
      unknown e = rw (poll_finish, e) refl

      known :
          (bp : InProgressBatch)
          → lookup id b.in_progress ≡ some bp
          → poll_finish now id (results rs) b ≡ answer_batch now id rs bp b
      known bp e = rw (poll_finish, e) refl

-- No time has come yet to poll the batch, or it is not too old.
abbrev pub IsFresh : ℕ → Option InProgressBatch → Type 0
IsFresh now none = Unit
IsFresh now (some bp) = (now < bp.poll_after) ⊎ (now - bp.sent_at ≤ max_batch_age)

same_times :
    (now : ℕ) (bp : InProgressBatch) (o : Option InProgressBatch)
    → IsFresh now (some bp)
    → IsAged (times bp) o
    → IsFresh now o
same_times now bp none f t = tt
same_times now bp (some new) (inl f) t =
    inl (subst (λ n. now < n) (sym (ap (λ (x : ℕ × ℕ). x.1) t)) f)
same_times now bp (some new) (inr f) t =
    inr (subst (λ n. now - n ≤ max_batch_age) (sym (ap (λ (x : ℕ × ℕ). x.0) t)) f)

module _ (now : ℕ) (id : String) (reply : PollReply) (b : NodeBatcher) where
  -- pollBatch leaves the other batches as they are, and its own gone or fresh.
  polled :
      ((other : String)
        → (id == other) ≡ false
        → lookup other (poll_batch now id reply b).0.in_progress ≡ lookup other b.in_progress)
      × IsFresh now (lookup id (poll_batch now id reply b).0.in_progress)
  unfolding poll_batch poll_start drop_batch clear_in_flight
  polled = elim (Option-cases (lookup id b.in_progress)) [
    | inl e ↦ rw (poll_batch, poll_start, e) (λ other ne. refl, rw e tt)
    | inr (bp, e) ↦ elim (Bool-cases (ltb now bp.poll_after)) [
      | inl early ↦
          rw (poll_batch, poll_start, e, early)
            (λ other ne. refl, rw e (inl (ltb→lt now bp.poll_after early)))
      | inr due ↦ elim (Bool-cases (ltb max_batch_age (now - bp.sent_at))) [
        | inl old ↦
            let k = drop-Keeps id b bp in rw (poll_batch, poll_start, e, due, old) (k.0, gone bp)
        | inr young ↦
            let k = finish-Keeps id b now reply in
            rw (poll_batch, poll_start, e, due, young)
              (k.0, same_times now bp _ (inr (at_most young)) (k.1 bp e))
      ]
    ]
  ]
    where
      at_most : {n : ℕ} → ltb max_batch_age n ≡ false → n ≤ max_batch_age
      at_most e = ground (arith, e)

      gone : (bp : InProgressBatch) → IsFresh now (lookup id (drop_batch id bp b).0.in_progress)
      gone bp = rw (lookup-erase id id b.in_progress, eq_refl id) tt

module _ (now : ℕ) (broker : String → PollReply) where
  -- A batch that is fresh stays so, or goes.
  ids_keep :
      (ids : List String) (b : NodeBatcher) (k : String)
      → IsFresh now (lookup k b.in_progress)
      → IsFresh now (lookup k (poll_ids now ids broker b).0.in_progress)
  unfolding poll_ids
  ids_keep [] b k f = f
  ids_keep (id ∷ ids) b k f =
      ids_keep ids (poll_batch now id (broker id) b).0 k (elim (Bool-cases (id == k)) [
        | inl e ↦
            subst (λ j. IsFresh now (lookup j (poll_batch now id (broker id) b).0.in_progress))
              ((eq_iff id k).0 e) (polled now id (broker id) b).1
        | inr e ↦ subst (IsFresh now) (sym ((polled now id (broker id) b).0 k e)) f
      ])

  ids-IsFresh :
      (ids : List String) (b : NodeBatcher) (k : String)
      → contains ids k ≡ true
      → IsFresh now (lookup k (poll_ids now ids broker b).0.in_progress)
  unfolding poll_ids contains
  ids-IsFresh [] b k h = cc
  ids-IsFresh (id ∷ ids) b k h = elim (Bool-cases (id == k)) [
    | inl e ↦ ids_keep ids (poll_batch now id (broker id) b).0 k (
        subst (λ j. IsFresh now (lookup j (poll_batch now id (broker id) b).0.in_progress))
          ((eq_iff id k).0 e) (polled now id (broker id) b).1)
    | inr e ↦ ids-IsFresh ids (poll_batch now id (broker id) b).0 k (rw e at h)
  ]

  -- A batch that pollAll leaves tracked is one that may not be polled yet, or that was sent at most
  -- two hours ago: whatever the broker answers, and in whatever order the map of batches is walked, an
  -- unresolved batch is dropped by the first poll after that time.
  pub poll_all_drops_old :
      (order : List String → List String) (b : NodeBatcher) (id : String) (bp : InProgressBatch)
      → ((ks : List String) (k : String) → contains (order ks) k ≡ contains ks k)
      → lookup id (poll_all now order broker b).0.in_progress ≡ some bp
      → (now < bp.poll_after) ⊎ (now - bp.sent_at ≤ max_batch_age)
  unfolding poll_all
  poll_all_drops_old order b id bp walk h =
      subst (IsFresh now) h (elim (Option-cases (lookup id b.in_progress)) [
        | inl e ↦ ids_keep (order (keys b.in_progress)) b id (rw e tt)
        | inr (old, e) ↦
            ids-IsFresh (order (keys b.in_progress)) b id
              (walk (keys b.in_progress) id ∙ contains-keys b.in_progress id ∙ ap is_some e)
      ])
