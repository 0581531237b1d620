-- ===== src/Controllers/BatchResume.antt =====
-- pkg/controllers/batchresume/controller.go: handing the batcher the add batches that an earlier
-- process sent.
pub mod Grouped
use karpenter_provider_rafay.Prelude.{
  ℕ, String, Bool, true, false, ◌||◌, not, List, [], ◌∷◌, ◌++◌, Option, Dict, lookup, insert,
  or_else, trim_space, ◌==◌, if◌then◌else◌,
}
use karpenter_provider_rafay.Kube.{NodeClaim, Listing, listed, list_error, label}
use karpenter_provider_rafay.CloudProvider.{is_pending, batch_id_annotation_key}
use karpenter_provider_rafay.Rafay.Batcher.{NodeBatcher}
use karpenter_provider_rafay.Rafay.Batcher.Send.{resume_add_batch}

-- The batch of a NodeClaim.
unfoldable pub batch_of : NodeClaim → String
unfolding trim_space
batch_of nc = trim_space (label batch_id_annotation_key nc.annotations)

-- The NodeClaims that the loop passes over.
unfoldable pub is_skipped : NodeClaim → Bool
unfolding is_pending batch_of
is_skipped nc = nc.deleting || not (is_pending nc.provider_id) || batch_of nc == ""

-- byBatch[batchID] = append(byBatch[batchID], uid)
unfoldable pub append_to : String → String → Dict (List String) → Dict (List String)
unfolding insert lookup
append_to batch_id uid by_batch =
    insert batch_id (or_else (lookup batch_id by_batch) [] ++ uid ∷ []) by_batch

-- One NodeClaim of the loop that fills byBatch.
unfoldable pub add_claim : NodeClaim → Dict (List String) → Dict (List String)
unfolding append_to is_skipped batch_of
add_claim nc by_batch = if is_skipped nc then by_batch else append_to (batch_of nc) nc.uid by_batch

unfoldable pub group : List NodeClaim → Dict (List String) → Dict (List String)
unfolding add_claim
group [] by_batch = by_batch
group (nc ∷ claims) by_batch = group claims (add_claim nc by_batch)

-- for batchID, ops := range byBatch, in the order in which Go visits the keys; the counts are only
-- logged.
unfoldable pub resume_all : List String → Dict (List String) → ℕ → NodeBatcher → NodeBatcher
unfolding resume_add_batch lookup
resume_all [] by_batch now b = b
resume_all (id ∷ order) by_batch now b =
    resume_all order by_batch now (resume_add_batch id (or_else (lookup id by_batch) []) now b).1

-- Start, whose result is always nil. `order` is the order of the keys of a map.
unfoldable pub start :
    (Dict (List String) → List String) → Listing NodeClaim → ℕ → NodeBatcher → NodeBatcher
unfolding group resume_all
start order (list_error e) now b = b
start order (listed claims) now b =
    let by_batch = group claims [] in resume_all (order by_batch) by_batch now b
