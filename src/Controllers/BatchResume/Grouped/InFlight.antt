-- ===== src/Controllers/BatchResume/Grouped/InFlight.antt =====
-- The operations that ResumeAddBatch puts in flight, and those of the pending NodeClaims after Start.
use karpenter_provider_rafay.Prelude.{
  ◌≡◌, ◌≢◌, refl, sym, ◌∙◌, inl, inr, ℕ, String, Bool, true, false, ◌||◌, List, [], ◌∷◌, none, Dict,
  lookup, insert, or_else, is_some, contains, trim_space, ◌==◌, eq_iff, eq_refl, Bool-cases,
  Option-cases, lookup-insert, lookup-insert_all, arith,
}
use karpenter_provider_rafay.Kube.{NodeClaim, listed}
use karpenter_provider_rafay.CloudProvider.Matching.{Any}
use karpenter_provider_rafay.Rafay.Batcher.{NodeBatcher, BatchItem, ops}
use karpenter_provider_rafay.Rafay.Batcher.Send.{
  resume_items, track_resumed, resume_trimmed, resume_add_batch,
}
use karpenter_provider_rafay.Rafay.Batcher.Tracked.{IsTracked, follows, resume-IsTracked}
use karpenter_provider_rafay.Controllers.BatchResume.{
  batch_of, is_skipped, group, resume_all, start,
}
use karpenter_provider_rafay.Controllers.BatchResume.Grouped.{
  HasTrimmedKeys, IsWaiting, group-HasTrimmedKeys, group_names, names, or_true_right,
}

abbrev flies : String → NodeBatcher → Bool
flies op b = is_some (lookup op b.in_flight)

-- The operation is an item of the batch.
abbrev has_item : String → List BatchItem → Bool
has_item op items = contains (ops items) op

module _ (id : String) (items : List BatchItem) (now : ℕ) (b : NodeBatcher) (op : String) where
  tracked_flies : flies op (track_resumed id items now b) ≡ (has_item op items || flies op b)
  unfolding track_resumed
  tracked_flies = ground (arith, lookup-insert_all (ops items) op tt b.in_flight)

insert_apart :
    {V : Type 0} (id other : String) (v : V) (m : Dict V)
    → (id == other) ≡ false
    → lookup other m ≡ none
    → lookup other (insert id v m) ≡ none
insert_apart id other v m ne h = lookup-insert id other v m ∙ rw ne h

module _ (id : String) (now : ℕ) (b : NodeBatcher) (op : String) where
  trimmed_keeps :
      (items : List BatchItem)
      → flies op b ≡ true
      → flies op (resume_trimmed id items now b).1 ≡ true
  unfolding resume_trimmed
  trimmed_keeps [] h = h
  trimmed_keeps (item ∷ items) h = ground (arith, tracked_flies id (item ∷ items) now b op)

  trimmed_adds :
      (items : List BatchItem)
      → has_item op items ≡ true
      → lookup id b.in_progress ≡ none
      → flies op (resume_trimmed id items now b).1 ≡ true
  unfolding resume_trimmed contains
  trimmed_adds [] h fresh = cc
  trimmed_adds (item ∷ items) h fresh =
      rw (resume_trimmed, fresh) (tracked_flies id (item ∷ items) now b op ∙ rw h refl)

  -- Another batch that is not tracked stays so.
  trimmed_apart :
      (items : List BatchItem) (other : String)
      → (id == other) ≡ false
      → lookup other b.in_progress ≡ none
      → lookup other (resume_trimmed id items now b).1.in_progress ≡ none
  unfolding resume_trimmed track_resumed
  trimmed_apart [] other ne fresh = fresh
  trimmed_apart (item ∷ items) other ne fresh = elim (Option-cases (lookup id b.in_progress)) [
    | inl e ↦ rw (resume_trimmed, e) (insert_apart id other _ b.in_progress ne fresh)
    | inr (entry, e) ↦ rw (resume_trimmed, e) fresh
  ]

module _ (id : String) (ids : List String) (now : ℕ) (b : NodeBatcher) (op : String) where
  resume_keeps : flies op b ≡ true → flies op (resume_add_batch id ids now b).1 ≡ true
  unfolding resume_add_batch
  resume_keeps h = elim (Bool-cases (trim_space id == "")) [
    | inl e ↦ rw (resume_add_batch, e) h
    | inr e ↦ rw (resume_add_batch, e) (trimmed_keeps (trim_space id) now b op (resume_items ids) h)
  ]

  resume_adds :
      trim_space id ≡ id
      → id ≢ ""
      → has_item op (resume_items ids) ≡ true
      → lookup id b.in_progress ≡ none
      → flies op (resume_add_batch id ids now b).1 ≡ true
  unfolding resume_add_batch
  resume_adds trimmed named item fresh = elim (Bool-cases (trim_space id == "")) [
    | inl e ↦ absurd (named (sym trimmed ∙ (eq_iff (trim_space id) "").0 e))
    | inr e ↦
        rw (resume_add_batch, e)
          (trimmed_adds (trim_space id) now b op (resume_items ids) item (rw trimmed fresh))
  ]

  resume_apart :
      (other : String)
      → trim_space id ≡ id
      → (id == other) ≡ false
      → lookup other b.in_progress ≡ none
      → lookup other (resume_add_batch id ids now b).1.in_progress ≡ none
  unfolding resume_add_batch
  resume_apart other trimmed ne fresh = elim (Bool-cases (trim_space id == "")) [
    | inl e ↦ rw (resume_add_batch, e) fresh
    | inr e ↦
        rw (resume_add_batch, e)
          (trimmed_apart (trim_space id) now b op (resume_items ids) other (rw trimmed ne) fresh)
  ]

resume_items-has_item :
    (uid : String) (ids : List String)
    → trim_space uid ≢ ""
    → contains ids uid ≡ true
    → has_item (trim_space uid) (resume_items ids) ≡ true
unfolding resume_items contains
resume_items-has_item uid [] ne h = cc
resume_items-has_item uid (x ∷ ids) ne h = elim (Bool-cases (x == uid)) [
  | inl e ↦
      rw ((eq_iff x uid).0 e)
        (ground (arith, eq_iff (trim_space uid) "", ne, eq_refl (trim_space uid)))
  | inr e ↦ ground (arith, resume_items-has_item uid ids ne, h, e)
]

-- The visit of the keys, from a batcher in which the batch is not tracked.
module _ (m : Dict (List String)) (keys : HasTrimmedKeys m) (now : ℕ) (id op : String) where
  all_keeps :
      (order : List String) (b : NodeBatcher)
      → flies op b ≡ true
      → flies op (resume_all order m now b) ≡ true
  unfolding resume_all
  all_keeps [] b h = h
  all_keeps (k ∷ order) b h =
      all_keeps order (resume_add_batch k (or_else (lookup k m) []) now b).1
        (resume_keeps k (or_else (lookup k m) []) now b op h)

  all_adds :
      (order : List String) (b : NodeBatcher)
      → ((k : String) → contains order k ≡ true → is_some (lookup k m) ≡ true)
      → id ≢ ""
      → has_item op (resume_items (or_else (lookup id m) [])) ≡ true
      → lookup id b.in_progress ≡ none
      → contains order id ≡ true
      → flies op (resume_all order m now b) ≡ true
  unfolding resume_all contains
  all_adds [] b own named item fresh h = cc
  all_adds (k ∷ order) b own named item fresh h =
      let ids = or_else (lookup k m) [] in
      let trimmed = keys k (own k (rw (eq_refl k) refl)) in
      elim (Bool-cases (k == id)) [
        | inl e ↦
            let same = (eq_iff k id).0 e in
            all_keeps order (resume_add_batch k ids now b).1
              (resume_adds k ids now b op trimmed (rw same named) (rw same item) (rw same fresh))
        | inr e ↦
            all_adds order (resume_add_batch k ids now b).1
              (λ j g. own j (rw g (or_true_right (k == j)))) named item
              (resume_apart k ids now b op id trimmed e fresh) (rw e at h)
      ]

all_IsTracked :
    (order : List String) (m : Dict (List String)) (now : ℕ) (b : NodeBatcher)
    → IsTracked b
    → IsTracked (resume_all order m now b)
unfolding resume_all
all_IsTracked [] m now b v = v
all_IsTracked (k ∷ order) m now b v =
    all_IsTracked order m now (resume_add_batch k (or_else (lookup k m) []) now b).1
      (resume-IsTracked k (or_else (lookup k m) []) now b v)

no_entry : false ≡ true → ⊥
no_entry h = cc

not_skipped_named : (nc : NodeClaim) → is_skipped nc ≡ false → batch_of nc ≢ ""
unfolding is_skipped
not_skipped_named nc h = λ e. ground (arith, eq_iff (batch_of nc) "", h, e)

waiting_named :
    (id uid : String) (claims : List NodeClaim) → Any (IsWaiting id uid) claims → id ≢ ""
waiting_named id uid [] h = elim h [ ]
waiting_named id uid (nc ∷ claims) (inl (live, of_id, of_uid)) =
    λ e. not_skipped_named nc live (of_id ∙ e)
waiting_named id uid (nc ∷ claims) (inr h) = waiting_named id uid claims h

names_key :
    (id uid : String) (m : Dict (List String))
    → names id uid m ≡ true
    → is_some (lookup id m) ≡ true
unfolding contains
names_key id uid m h = ground (arith, h)

-- After Start, the operation of every listed NodeClaim that is pending, is not being deleted and
-- names its batch is in flight and followed by the poller, in whatever order Go visits the batches:
-- the batch is not tracked before, and the UID is not blank.
pub start_resumes_pending :
    (order : Dict (List String) → List String) (claims : List NodeClaim) (now : ℕ) (b : NodeBatcher)
    (id uid : String)
    → ((m : Dict (List String)) (k : String) → contains (order m) k ≡ is_some (lookup k m))
    → IsTracked b
    → lookup id b.in_progress ≡ none
    → trim_space uid ≢ ""
    → Any (IsWaiting id uid) claims
    → (is_some (lookup (trim_space uid) (start order (listed claims) now b).in_flight) ≡ true)
      × (follows (start order (listed claims) now b) (trim_space uid) ≡ true)
unfolding start
start_resumes_pending order claims now b id uid range v fresh named waiting =
    let m = group claims [] in
    let held = group_names id uid claims [] waiting in
    let flying =
      all_adds m (group-HasTrimmedKeys claims [] (λ k g. absurd (no_entry g))) now id
        (trim_space uid) (order m) b (λ k g. sym (range m k) ∙ g)
        (waiting_named id uid claims waiting)
        (resume_items-has_item uid (or_else (lookup id m) []) named held) fresh
        (range m id ∙ names_key id uid m held) in
    (flying, all_IsTracked (order m) m now b v (trim_space uid) flying)
