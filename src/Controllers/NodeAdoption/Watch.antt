-- ===== src/Controllers/NodeAdoption/Watch.antt =====
-- pkg/controllers/nodeadoption/controller.go: when the controller runs, and the pools that it
-- reconciles when a node changes.
use karpenter_provider_rafay.Prelude.{
  ◌≡◌, ◌≢◌, String, Bool, true, false, ◌&&◌, not, List, Option, none, some, trim_space, ◌==◌,
  eq_iff, if◌then◌else◌, arith,
}
use karpenter_provider_rafay.Kube.{NodeClaim, Node, label}
use karpenter_provider_rafay.CloudProvider.{nodepool_name_label, sku_name_label}
use karpenter_provider_rafay.Controllers.NodeAdoption.{considered, screen, node_to_node_pool}

-- EnabledFromEnv, for the value of the variable; `parse` is strconv.ParseBool.
unfoldable pub adoption_enabled : (String → Option Bool) → String → Bool
unfolding trim_space
adoption_enabled parse value =
    let raw = trim_space value in
    if raw == "" then true else elim (parse raw) [ none ↦ true | some enabled ↦ enabled ]

-- rafayNodePredicate
unfoldable pub is_rafay_node : Node → Bool
is_rafay_node node =
    not (label nodepool_name_label node.labels == "")
    && not (label sku_name_label node.labels == "")

-- The watch of the nodes: the pool that an event of a node enqueues.
unfoldable pub watched : Node → Option String
unfolding is_rafay_node node_to_node_pool
watched node = if is_rafay_node node then node_to_node_pool node else none

considered-has_sku :
    (pending : List NodeClaim) (claimed : List String) (node : Node)
    → screen pending claimed node ≡ considered
    → (label sku_name_label node.labels == "") ≡ false
unfolding screen
considered-has_sku pending claimed node h = ground arith

-- The watch misses no node that a pass goes on to adopt: an event of a node with the label of a pool,
-- which the guards of the loop let through, enqueues that pool.
pub considered_is_watched :
    (pool : String) (pending : List NodeClaim) (claimed : List String) (node : Node)
    → label nodepool_name_label node.labels ≡ pool
    → pool ≢ ""
    → screen pending claimed node ≡ considered
    → watched node ≡ some pool
unfolding watched
considered_is_watched pool pending claimed node in_pool named h =
    let sku = considered-has_sku pending claimed node h in
    rw (in_pool, watched, sku) (ground (arith, eq_iff pool "", named))
