-- ===== src/Controllers/NodeAdoption/Claim.antt =====
-- adoptedNodeClaim, wellKnownNodeLabels, capacityTypeOf, pinInstanceType, validateAdoptable and
-- prepareNode of pkg/controllers/nodeadoption/controller.go.
use Prim.Native.String.{◌++◌}
use karpenter_provider_rafay.Prelude.{
  assign, String, Bool, ◌&&◌, not, List, [], ◌∷◌, Option, none, some, Dict, insert, keep, ◌==◌,
  if◌then◌else◌,
}
use mathlib.Core.List.{◌++◌ as append}
use karpenter_provider_rafay.Kube.{
  NodeClassRef, Node, label, node_pool_label_key, label_instance_type,
}
use karpenter_provider_rafay.Rafay.ProviderId.{build_provider_id}
use karpenter_provider_rafay.Controllers.NodeAdoption.{NodePool, Requirement}

abbrev pub adopted_node_annotation_key : String
adopted_node_annotation_key = "karpenter.rafay.io/adopted-node"

abbrev pub capacity_type_label_key : String
capacity_type_label_key = "karpenter.sh/capacity-type"

abbrev pub node_registered_label_key : String
node_registered_label_key = "karpenter.sh/registered"

-- An instance type: its name and the capacity types of its offerings.
pub record InstanceType : Type 0 where
  pub name : String
  pub offerings : List String

-- The NodeClaim to create, without the fields of the template's spec that are copied as they are.
-- Its taints and startup taints are always dropped.
pub record NewClaim : Type 0 where
  pub generate_name : String
  pub owner_name : String
  pub owner_uid : String
  pub requirements : List Requirement
  pub labels : Dict String
  pub annotations : Dict String

unfoldable pub capacity_type_of : InstanceType → String
capacity_type_of it = elim it.offerings [
  | [] ↦ "on-demand"
  | ct ∷ _ ↦ if ct == "" then "on-demand" else ct
]

-- The labels of the node that are copied.
unfoldable pub copied_labels : List String → Node → Dict String → Dict String
unfolding insert
copied_labels [] node labels = labels
copied_labels (key ∷ ks) node labels =
    let v = label key node.labels in
    copied_labels ks node (if v == "" then labels else insert key v labels)

abbrev pub copied_keys : List String
copied_keys =
    "kubernetes.io/arch" ∷ "kubernetes.io/os" ∷ "topology.kubernetes.io/zone"
    ∷ "topology.kubernetes.io/region" ∷ []

unfoldable pub well_known_node_labels : Node → String → InstanceType → Dict String
unfolding capacity_type_of copied_labels insert
well_known_node_labels node sku it =
    copied_labels copied_keys node
      (insert capacity_type_label_key (capacity_type_of it) (insert label_instance_type sku []))

unfoldable pub pin_instance_type : List Requirement → String → List Requirement
pin_instance_type reqs sku = append (keep (λ r. not (r.key == label_instance_type)) reqs) (
    record { key = label_instance_type; operator = "In"; values = sku ∷ []; min_values = none }
    ∷ [])

class_name : Option NodeClassRef → String
class_name none = ""
class_name (some ref) = ref.name

-- `class_key` is karpv1.NodeClassLabelKey of the group and the kind of the pool's node class.
unfoldable pub adopted_node_claim : String → NodePool → Node → String → InstanceType → NewClaim
unfolding assign well_known_node_labels pin_instance_type class_name insert
adopted_node_claim class_key pool node sku it = record {
  generate_name = pool.name ++ "-";
  owner_name = pool.name;
  owner_uid = pool.uid;
  requirements = pin_instance_type pool.requirements sku;
  labels =
      assign (assign pool.labels (well_known_node_labels node sku it)) (
        insert node_pool_label_key pool.name
          (insert class_key (class_name pool.node_class_ref) []));
  annotations = insert adopted_node_annotation_key node.name pool.template_annotations;
}

-- prepareNode: the provider ID and the node as it is patched, if it is patched, or an error.
pub data Prepared : Type 0 where
  prepared : String → Option Node → Prepared
  cannot_build : Prepared
  patch_error : String → Prepared

unfoldable pub registered : Node → Node
registered node =
    if label node_registered_label_key node.labels == "true"
    then node
    else record node { labels = insert node_registered_label_key "true" node.labels }

-- equalNodes
unfoldable pub equal_nodes : Node → Node → Bool
equal_nodes a b =
    a.provider_id == b.provider_id
    && label node_registered_label_key a.labels == label node_registered_label_key b.labels

-- The patch, to which the API server answers with an error or none.
unfoldable pub patch_node : Node → Node → String → (Node → Option String) → Prepared
unfolding equal_nodes
patch_node stored patched id answer =
    if equal_nodes stored patched
    then prepared id none
    else elim (answer patched) [ none ↦ prepared id (some patched) | some e ↦ patch_error e ]

unfoldable pub prepare_node : Node → String → String → (Node → Option String) → Prepared
unfolding patch_node registered build_provider_id
prepare_node node pool_name sku answer =
    let built = build_provider_id pool_name sku node.name in
    if node.provider_id == ""
    then if built == ""
      then cannot_build
      else patch_node node (registered (record node { provider_id = built })) built answer
    else patch_node node (registered node) node.provider_id answer
