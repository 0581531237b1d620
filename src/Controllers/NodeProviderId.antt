-- ===== src/Controllers/NodeProviderId.antt =====
-- pkg/controllers/nodeproviderid/controller.go: giving a pending NodeClaim the provider ID of the
-- node that joined for it; Watch has the NodeClaims that an event of a node wakes.
pub mod Unique
pub mod Joins
pub mod Watch
use karpenter_provider_rafay.Prelude.{
  ℕ, String, ◌≡◌, Bool, true, false, ◌||◌, ◌&&◌, not, List, [], ◌∷◌, Option, none, some, contains,
  map, keep, ◌==◌, if◌then◌else◌,
}
use karpenter_provider_rafay.Kube.{
  NodeClaim, Node, Listing, listed, list_error, label, matching_label, node_pool_label_key,
}
use karpenter_provider_rafay.CloudProvider.{
  nodepool_name_label, sku_name_label, is_pending, is_real, node_claim_skus, first_candidate,
  is_candidate,
}

-- The keys of usedIDs: the real IDs of all NodeClaims.
unfoldable pub used_ids : List NodeClaim → List String
unfolding is_real
used_ids [] = []
used_ids (c ∷ cs) =
    let rest = used_ids cs in if is_real c.provider_id then c.provider_id ∷ rest else rest

-- What the API server answers to the status patch.
pub data PatchReply : Type 0 where
  patched conflict gone : PatchReply
  patch_failed : String → PatchReply

-- The result of Reconcile, and the provider ID that it writes.
pub data Reconciled : Type 0 where
  nothing requeue_now requeue_later : Reconciled
  error : String → Reconciled
  assigned : String → Reconciled

unfoldable pub find_node : NodeClaim → List NodeClaim → List Node → String
unfolding first_candidate used_ids matching_label node_claim_skus
find_node nc claims nodes =
    first_candidate (node_claim_skus nc) (used_ids claims) nc.created
      (matching_label nodepool_name_label (label node_pool_label_key nc.labels) nodes)

unfoldable pub write : String → PatchReply → Reconciled
write id patched = assigned id
write id conflict = requeue_now
write id gone = nothing
write id (patch_failed e) = error e

unfoldable pub has_no : List String → Bool
has_no [] = true
has_no (x ∷ xs) = false

unfoldable pub assign : NodeClaim → Listing NodeClaim → Listing Node → PatchReply → Reconciled
unfolding find_node write
assign nc (list_error e) nodes reply = error e
assign nc (listed claims) (list_error e) reply = error e
assign nc (listed claims) (listed nodes) reply =
    if find_node nc claims nodes == ""
    then requeue_later
    else write (find_node nc claims nodes) reply

-- Reconcile, from what the API server lists and answers.
unfoldable pub reconcile : NodeClaim → Listing NodeClaim → Listing Node → PatchReply → Reconciled
unfolding assign has_no is_pending
reconcile nc claims nodes reply =
    if not (is_pending nc.provider_id)
    then nothing
    else if nc.deleting
    then nothing
    else if label node_pool_label_key nc.labels == "" || has_no (node_claim_skus nc)
    then nothing
    else assign nc claims nodes reply

-- The NodeClaims in the API server after the patch of one of them, told by its UID.
unfoldable pub set_provider_id : String → String → List NodeClaim → List NodeClaim
set_provider_id uid id [] = []
set_provider_id uid id (c ∷ cs) =
    let rest = set_provider_id uid id cs in
    if c.uid == uid then record c { provider_id = id } ∷ cs else c ∷ rest

unfoldable pub after : NodeClaim → Reconciled → List NodeClaim → List NodeClaim
unfolding set_provider_id
after nc (assigned id) claims = set_provider_id nc.uid id claims
after nc _ claims = claims

-- One pass of the controller, for the stored NodeClaim `nc`: the NodeClaims are read uncached.
unfoldable pub pass : NodeClaim → Listing Node → PatchReply → List NodeClaim → List NodeClaim
unfolding reconcile after
pass nc nodes reply claims = after nc (reconcile nc (listed claims) nodes reply) claims

-- nodesToNodeClaims: the names of the NodeClaims to reconcile when a node appears.
unfoldable pub nodes_to_node_claims : Node → Listing NodeClaim → List String
nodes_to_node_claims node (list_error e) = []
nodes_to_node_claims node (listed claims) =
    let pool = label nodepool_name_label node.labels in
    let sku = label sku_name_label node.labels in
    if pool == "" || sku == ""
    then []
    else map (λ c. c.name)
        (keep
          (λ c.
            is_pending c.provider_id
            && label node_pool_label_key c.labels == pool
            && contains (node_claim_skus c) sku)
          claims)
