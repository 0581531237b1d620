-- ===== src/CloudProvider.antt =====
-- pkg/cloudprovider/cloudprovider.go: matching nodes to NodeClaims, Delete, Get and List, and the
-- failure handler of the batcher.
pub mod Matching
pub mod Deletion
pub mod Instances
pub mod Inventory
pub mod Create
use Prim.Native.String.{◌++◌}
use karpenter_provider_rafay.Prelude.{
  ℕ, String, Bool, true, false, ◌||◌, ◌&&◌, not, List, [], ◌∷◌, Option, none, some, Dict, lookup,
  insert, or_else, contains, keep, map, ltb, has_prefix, ◌==◌, if◌then◌else◌,
}
use karpenter_provider_rafay.Kube.{
  NodeClaim, Node, NodeClassRef, Listing, listed, list_error, label, matching_label,
  node_pool_label_key, label_instance_type,
}
use karpenter_provider_rafay.Rafay.Batcher.{
  NodeBatcher, BatchResult, BatchError, OpKind, RemoveNodesRequest, has_succeeded,
}
use karpenter_provider_rafay.Rafay.Batcher.Enqueue.{enqueue_remove}

abbrev pub rafay_provider_prefix : String
rafay_provider_prefix = "rafay://"

abbrev pub pending_provider_id_prefix : String
pending_provider_id_prefix = "rafay://pending/"

abbrev pub adopted_provider_id_annotation_key : String
adopted_provider_id_annotation_key = "karpenter.rafay.io/adopted-provider-id"

abbrev pub batch_id_annotation_key : String
batch_id_annotation_key = "karpenter.rafay.io/batch-id"

abbrev pub nodepool_name_label : String
nodepool_name_label = "nodepoolname"

abbrev pub sku_name_label : String
sku_name_label = "sku_name"

-- strings.HasPrefix(id, PendingProviderIDPrefix)
unfoldable pub is_pending : String → Bool
is_pending id = has_prefix id pending_provider_id_prefix

-- `pid != "" && !strings.HasPrefix(pid, PendingProviderIDPrefix)`
unfoldable pub is_real : String → Bool
is_real id = not (id == "") && not (is_pending id)

class_skus : Option NodeClassRef → List String
class_skus none = []
class_skus (some ref) = if ref.name == "" then [] else ref.name ∷ []

-- NodeClaimSKUs: the keys of the set.
unfoldable pub node_claim_skus : NodeClaim → List String
unfolding class_skus
node_claim_skus nc =
    let named = class_skus nc.node_class_ref in
    let it = label label_instance_type nc.labels in if it == "" then named else it ∷ named

-- The keys of usedIDs: the real IDs of the other NodeClaims.
unfoldable pub used_by_others : NodeClaim → List NodeClaim → List String
used_by_others nc [] = []
used_by_others nc (c ∷ cs) =
    let rest = used_by_others nc cs in
    if c.uid == nc.uid then rest else if is_real c.provider_id then c.provider_id ∷ rest else rest

-- A node that the loop does not pass over: an accepted SKU, an ID that is set and not used, and
-- created after the NodeClaim.
unfoldable pub is_candidate : List String → List String → ℕ → Node → Bool
is_candidate skus used created n =
    contains skus (label sku_name_label n.labels)
    && not (n.provider_id == "" || contains used n.provider_id)
    && ltb created n.created

-- The ID of the first such node, or the empty string.
unfoldable pub first_candidate : List String → List String → ℕ → List Node → String
unfolding is_candidate
first_candidate skus used created [] = ""
first_candidate skus used created (n ∷ nodes) =
    let rest = first_candidate skus used created nodes in
    if is_candidate skus used created n then n.provider_id else rest

pub data Found : Type 0 where
  found : String → Found
  failed : String → Found

unfoldable pub is_nil : List String → Bool
is_nil [] = true
is_nil (x ∷ xs) = false

unfoldable pub find_in : NodeClaim → List NodeClaim → Listing Node → Found
unfolding matching_label first_candidate used_by_others node_claim_skus
find_in nc claims (list_error e) = failed e
find_in nc claims (listed nodes) = found (
    first_candidate (node_claim_skus nc) (used_by_others nc claims) nc.created
      (matching_label nodepool_name_label (label node_pool_label_key nc.labels) nodes))

unfoldable pub search_in : NodeClaim → Listing NodeClaim → Listing Node → Found
unfolding find_in
search_in nc (list_error e) nodes = failed e
search_in nc (listed claims) nodes = find_in nc claims nodes

-- findNodeProviderID, from what the API server lists.
unfoldable pub find_node_provider_id : NodeClaim → Listing NodeClaim → Listing Node → Found
unfolding search_in is_nil node_claim_skus
find_node_provider_id nc claims nodes =
    if label node_pool_label_key nc.labels == "" || is_nil (node_claim_skus nc)
    then found ""
    else search_in nc claims nodes

-- The outcome of Delete: nil, a NodeClaimNotFoundError, the error of the batch, or ctx.Err().
pub data Deleted : Type 0 where
  requeue not_found ctx_error : Deleted
  send_error : BatchError → Deleted

-- What Delete has done when it returns, or when it waits for the result on a channel. `cancelled`
-- is what it asks the broker to cancel.
pub data DeleteStep : Type 0 where
  returns : Deleted → List String → DeleteStep
  waits : ℕ → NodeBatcher → DeleteStep

unfoldable pub real_id : Found → String
real_id (found id) = id
real_id (failed e) = ""

unfoldable pub remove_operation_id : NodeClaim → String
remove_operation_id nc = nc.uid ++ "-remove"

-- The part of Delete that sends the removal of the node with an ID.
unfoldable pub send_remove : String → String → NodeClaim → String → NodeBatcher → DeleteStep
unfolding remove_operation_id enqueue_remove
send_remove cluster_id project_id nc id b =
    let (ch, after) =
      enqueue_remove (remove_operation_id nc)
        (record {
          cluster_id = cluster_id;
          project_id = project_id;
          instance_type = label label_instance_type nc.labels;
          node_pool_name = label node_pool_label_key nc.labels;
          provider_id = id;
        })
        b in
    waits ch after

-- Delete up to its `select`, for a NodeClaim that is not nil.
unfoldable pub delete_start :
    String → String → NodeClaim → Listing NodeClaim → Listing Node → NodeBatcher → DeleteStep
unfolding send_remove real_id find_node_provider_id is_pending remove_operation_id has_succeeded
delete_start cluster_id project_id nc claims nodes b =
    let joined = real_id (find_node_provider_id nc claims nodes) in
    if nc.provider_id == ""
    then returns not_found []
    else if has_succeeded b (remove_operation_id nc)
    then returns not_found []
    else if is_pending nc.provider_id
    then if joined == ""
      then returns not_found (nc.uid ∷ [])
      else send_remove cluster_id project_id nc joined b
    else send_remove cluster_id project_id nc nc.provider_id b

-- What the `select` picks: the end of the context, or the result on the channel.
pub data Wait : Type 0 where
  ctx_done : Wait
  result : BatchResult → Wait

unfoldable pub delete_finish : Wait → Deleted
delete_finish ctx_done = ctx_error
delete_finish (result r) = elim r.err [ none ↦ requeue | some e ↦ send_error e ]

-- NewBatchFailureHandler: the NodeClaim that it asks the API server to delete, if any.
unfoldable pub claim_to_delete : String → List NodeClaim → Option NodeClaim
claim_to_delete op [] = none
claim_to_delete op (nc ∷ claims) =
    let rest = claim_to_delete op claims in
    if not (nc.uid == op)
    then rest
    else if is_real nc.provider_id || nc.deleting
    then none
    else some nc

unfoldable pub batch_failure_handler : OpKind → String → Listing NodeClaim → Option NodeClaim
unfolding claim_to_delete
batch_failure_handler OpKind.remove op claims = none
batch_failure_handler OpKind.add op (list_error e) = none
batch_failure_handler OpKind.add op (listed claims) = claim_to_delete op claims

-- The provider IDs of the instances that listNodesFromKube returns.
unfoldable pub list_nodes_from_kube : List Node → List String
list_nodes_from_kube nodes =
    map (λ n. n.provider_id)
      (keep (λ n. not (n.provider_id == "" || not (has_prefix n.provider_id rafay_provider_prefix)))
        nodes)

-- The answer of Get: a provider ID that exists, not found, or an error of the List call.
pub data GetResult : Type 0 where
  exists : String → GetResult
  missing : GetResult
  empty_id : GetResult
  get_failed : String → GetResult

unfoldable pub get_node_from_kube : String → List Node → GetResult
get_node_from_kube id [] = missing
get_node_from_kube id (n ∷ nodes) =
    let rest = get_node_from_kube id nodes in
    if n.provider_id == id then exists n.provider_id else rest

look_up : String → Listing Node → GetResult
unfolding get_node_from_kube
look_up id (list_error e) = get_failed e
look_up id (listed nodes) = get_node_from_kube id nodes

-- Get with the broker client, whose GetNode is not supported.
unfoldable pub get : String → Listing Node → GetResult
unfolding look_up is_pending
get id nodes = if id == "" then empty_id else if is_pending id then exists id else look_up id nodes
