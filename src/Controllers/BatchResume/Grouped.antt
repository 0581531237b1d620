-- ===== src/Controllers/BatchResume/Grouped.antt =====
-- The groups of NodeClaims by batch that Start of the batch resume builds.
pub mod InFlight
use karpenter_provider_rafay.Prelude.{
  ◌≡◌, ◌≢◌, refl, sym, ap, ◌∙◌, ◌⊎◌, inl, inr, ℕ, String, Bool, true, false, ◌||◌, ◌&&◌, not, subst,
  List, [], ◌∷◌, ◌++◌, Option, none, some, Dict, lookup, insert, insert_all, or_else, is_some,
  contains, trim_space, trim_space_twice, ◌==◌, eq_iff, eq_refl, Bool-cases, Option-cases,
  if◌then◌else◌, lookup-insert, lookup-insert_all, arith,
}
use karpenter_provider_rafay.Kube.{NodeClaim, listed, label}
use karpenter_provider_rafay.CloudProvider.{batch_id_annotation_key}
use karpenter_provider_rafay.CloudProvider.Matching.{Any}
use karpenter_provider_rafay.Rafay.Batcher.{NodeBatcher, BatchItem, ops}
use karpenter_provider_rafay.Rafay.Batcher.Send.{
  resume_items, track_resumed, resume_trimmed, resume_add_batch,
}
use karpenter_provider_rafay.Rafay.Batcher.Tracked.{IsTracked, follows, resume-IsTracked}
use karpenter_provider_rafay.Controllers.BatchResume.{
  batch_of, is_skipped, append_to, add_claim, group, resume_all, start,
}

-- An entry of byBatch names the operation.
or_false : (a b : Bool) → (a || (b || false)) ≡ (a || (true && b))
or_false a b = ground arith

or_false_right : (a : Bool) → a ≡ (a || false)
or_false_right a = ground arith

or_true_right : (a : Bool) → (a || true) ≡ true
or_true_right a = ground arith

abbrev names : String → String → Dict (List String) → Bool
names id uid m = contains (or_else (lookup id m) []) uid

contains-append :
    (xs ys : List String) (a : String) → contains (xs ++ ys) a ≡ (contains xs a || contains ys a)
unfolding contains
contains-append [] ys a = refl
contains-append (x ∷ xs) ys a = ground (arith, contains-append xs ys a)

names-append_to :
    (k v id uid : String) (m : Dict (List String))
    → names id uid (append_to k v m) ≡ (names id uid m || ((k == id) && (v == uid)))
unfolding append_to contains
names-append_to k v id uid m = elim (Bool-cases (k == id)) [
  | inl e ↦
      rw (lookup-insert k id (or_else (lookup k m) [] ++ v ∷ []) m, e, sym ((eq_iff k id).0 e))
        (contains-append (or_else (lookup k m) []) (v ∷ []) uid ∙ or_false _ _)
  | inr e ↦ rw (lookup-insert k id (or_else (lookup k m) [] ++ v ∷ []) m, e) (or_false_right _)
]

add_claim_keeps :
    (nc : NodeClaim) (m : Dict (List String)) (id uid : String)
    → names id uid m ≡ true
    → names id uid (add_claim nc m) ≡ true
unfolding add_claim contains
add_claim_keeps nc m id uid h = elim (Bool-cases (is_skipped nc)) [
  | inl e ↦ rw (add_claim, e) h
  | inr e ↦ rw (add_claim, e) (names-append_to (batch_of nc) nc.uid id uid m ∙ rw h refl)
]

-- The NodeClaim is not passed over, and has the batch and the UID.
abbrev pub IsWaiting : String → String → NodeClaim → Type 0
IsWaiting id uid nc = (is_skipped nc ≡ false) × (batch_of nc ≡ id) × (nc.uid ≡ uid)

add_claim_adds :
    (nc : NodeClaim) (m : Dict (List String)) (id uid : String)
    → IsWaiting id uid nc
    → names id uid (add_claim nc m) ≡ true
unfolding add_claim contains
add_claim_adds nc m id uid (live, of_id, of_uid) =
    rw (add_claim, live)
      (names-append_to (batch_of nc) nc.uid id uid m
        ∙ rw (of_id, of_uid, eq_refl id, eq_refl uid) (or_true_right _))

module _ (id uid : String) where
  group_keeps :
      (claims : List NodeClaim) (m : Dict (List String))
      → names id uid m ≡ true
      → names id uid (group claims m) ≡ true
  unfolding group
  group_keeps [] m h = h
  group_keeps (nc ∷ claims) m h =
      group_keeps claims (add_claim nc m) (add_claim_keeps nc m id uid h)

  group_names :
      (claims : List NodeClaim) (m : Dict (List String))
      → Any (IsWaiting id uid) claims
      → names id uid (group claims m) ≡ true
  unfolding group
  group_names [] m h = elim h [ ]
  group_names (nc ∷ claims) m (inl h) =
      group_keeps claims (add_claim nc m) (add_claim_adds nc m id uid h)
  group_names (nc ∷ claims) m (inr h) = group_names claims (add_claim nc m) h

-- The keys of byBatch are trimmed.
abbrev HasTrimmedKeys : Dict (List String) → Type 0
HasTrimmedKeys m = (k : String) → is_some (lookup k m) ≡ true → trim_space k ≡ k

add_claim-HasTrimmedKeys :
    (nc : NodeClaim) (m : Dict (List String)) → HasTrimmedKeys m → HasTrimmedKeys (add_claim nc m)
unfolding batch_of trim_space append_to lookup add_claim
add_claim-HasTrimmedKeys nc m v k h = elim (Bool-cases (is_skipped nc)) [
  | inl e ↦ v k (rw (add_claim, e) at h)
  | inr e ↦ appended (rw (add_claim, e) at h)
]
  where
    uids : List String
    uids = or_else (lookup (batch_of nc) m) [] ++ nc.uid ∷ []

    appended : is_some (lookup k (append_to (batch_of nc) nc.uid m)) ≡ true → trim_space k ≡ k
    appended g = elim (Bool-cases (batch_of nc == k)) [
      | inl e ↦
          subst (λ j. trim_space j ≡ j) ((eq_iff (batch_of nc) k).0 e)
            (trim_space_twice (label batch_id_annotation_key nc.annotations))
      | inr e ↦ v k (rw (append_to, lookup-insert (batch_of nc) k uids m, e) at g)
    ]

group-HasTrimmedKeys :
    (claims : List NodeClaim) (m : Dict (List String))
    → HasTrimmedKeys m
    → HasTrimmedKeys (group claims m)
unfolding group
group-HasTrimmedKeys [] m v = v
group-HasTrimmedKeys (nc ∷ claims) m v =
    group-HasTrimmedKeys claims (add_claim nc m) (add_claim-HasTrimmedKeys nc m v)
