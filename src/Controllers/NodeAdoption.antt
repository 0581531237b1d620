-- ===== src/Controllers/NodeAdoption.antt =====
-- pkg/controllers/nodeadoption/controller.go: NodeClaims for the worker nodes that a cluster already
-- has. The claim that is made for a node stands in Claim, one pass over the nodes in Pass, and the watch
-- of the nodes in Watch.
pub mod Claim
pub mod Watch
pub mod Pass
pub mod Sound
pub mod Adopted
use karpenter_provider_rafay.Prelude.{
  ℕ, suc, ◌+◌, String, Bool, true, false, ◌||◌, ◌&&◌, not, List, [], ◌∷◌, Option, none, some, Dict,
  lookup, is_some, contains, keep, ltb, has_prefix, ◌==◌, if◌then◌else◌,
}
use karpenter_provider_rafay.Kube.{NodeClaim, NodeClassRef, Node, label, node_pool_label_key}
use karpenter_provider_rafay.CloudProvider.{
  nodepool_name_label, sku_name_label, is_pending, is_real, node_claim_skus,
  adopted_provider_id_annotation_key,
}
use karpenter_provider_rafay.Rafay.ProviderId.{provider_id_prefix}

abbrev pub auto_scaling_annotation_key : String
auto_scaling_annotation_key = "karpenter.rafay.io/auto-scaling"

abbrev pub rafay_group : String
rafay_group = "karpenter.rafay.io"

-- A requirement of a pool's template.
pub record Requirement : Type 0 where
  pub key : String
  pub operator : String
  pub values : List String
  pub min_values : Option ℕ

pub record NodePool : Type 0 where
  pub name : String
  pub uid : String
  pub deleting : Bool
  pub annotations : Dict String
  -- spec.template: the reference to the node class, the labels, the annotations, the requirements
  pub node_class_ref : Option NodeClassRef
  pub labels : Dict String
  pub template_annotations : Dict String
  pub requirements : List Requirement

-- The early returns of Reconcile: a pool whose nodes are left alone.
unfoldable pub ours : Option NodeClassRef → Bool
ours none = false
ours (some ref) = ref.group == rafay_group && ref.kind == "RafayNodeClass"

unfoldable pub adopts_into : NodePool → Bool
unfolding ours
adopts_into pool =
    not pool.deleting
    && ours pool.node_class_ref
    && not (label auto_scaling_annotation_key pool.annotations == "false")

-- isControlPlane
unfoldable pub is_control_plane : Node → Bool
is_control_plane node =
    is_some (lookup "node-role.kubernetes.io/control-plane" node.labels)
    || is_some (lookup "node-role.kubernetes.io/master" node.labels)

-- claimedIDs: the IDs that NodeClaims carry or were created to adopt.
unfoldable pub claimed_ids : List NodeClaim → List String
claimed_ids [] = []
claimed_ids (nc ∷ claims) =
    let rest = claimed_ids claims in
    let adopted = label adopted_provider_id_annotation_key nc.annotations in
    let with_adopted = if adopted == "" then rest else adopted ∷ rest in
    if is_real nc.provider_id then nc.provider_id ∷ with_adopted else with_adopted

-- pendingClaims: those of the pool that wait for their node.
unfoldable pub pending_claims : NodePool → List NodeClaim → List NodeClaim
pending_claims pool claims =
    keep
      (λ nc.
        label node_pool_label_key nc.labels == pool.name
        && is_pending nc.provider_id
        && not nc.deleting)
      claims

-- claimedByPendingClaim
unfoldable pub claimed_by_pending_claim : List NodeClaim → Node → String → Bool
claimed_by_pending_claim [] node sku = false
claimed_by_pending_claim (nc ∷ pending) node sku =
    (contains (node_claim_skus nc) sku && ltb nc.created node.created)
    || claimed_by_pending_claim pending node sku

-- nodeToNodePool: the pool to reconcile when a node changes.
unfoldable pub node_to_node_pool : Node → Option String
node_to_node_pool node =
    let pool = label nodepool_name_label node.labels in if pool == "" then none else some pool

-- What the loop of Reconcile does with a node, up to the look at its instance type: `continue`,
-- `skipped++`, `notReady++`, or to go on.
pub data Verdict : Type 0 where
  passed_over skipped not_ready considered : Verdict

unfoldable pub screen : List NodeClaim → List String → Node → Verdict
unfolding is_control_plane claimed_by_pending_claim
screen pending claimed node =
    let id = node.provider_id in
    let sku = label sku_name_label node.labels in
    if node.deleting
    then passed_over
    else if is_control_plane node
    then skipped
    else if not node.ready
    then if id == "" || not (contains claimed id) then not_ready else passed_over
    else if sku == ""
    then skipped
    else if not (id == "") && not (has_prefix id provider_id_prefix)
    then passed_over
    else if not (id == "") && contains claimed id
    then passed_over
    else if claimed_by_pending_claim pending node sku
    then passed_over
    else considered
