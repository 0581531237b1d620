-- ===== src/Controllers/NodeProviderId/Watch.antt =====
-- The watch of the nodes by the NodeProviderIDController: which NodeClaims a node wakes.
use karpenter_provider_rafay.Prelude.{
  ◌≡◌, ◌≢◌, refl, sym, inl, inr, String, Bool, true, false, ◌&&◌, not, List, [], ◌∷◌, map, keep,
  contains, ◌==◌, eq_iff, eq_refl, if◌then◌else◌, arith,
}
use karpenter_provider_rafay.Kube.{NodeClaim, Node, Listing, listed, label, node_pool_label_key}
use karpenter_provider_rafay.CloudProvider.{
  nodepool_name_label, sku_name_label, is_pending, node_claim_skus, is_candidate,
}
use karpenter_provider_rafay.CloudProvider.Matching.{Any}
use karpenter_provider_rafay.Controllers.NodeProviderId.{nodes_to_node_claims}
use karpenter_provider_rafay.Controllers.NodeProviderId.Joins.{Joins}

-- rafayNodePredicate
unfoldable pub is_rafay_node_with_id : Node → Bool
is_rafay_node_with_id node =
    not (node.provider_id == "")
    && not (label nodepool_name_label node.labels == "")
    && not (label sku_name_label node.labels == "")

-- The names of the NodeClaims that an event of a node enqueues.
unfoldable pub watched : Node → Listing NodeClaim → List String
unfolding is_rafay_node_with_id nodes_to_node_claims
watched node claims = if is_rafay_node_with_id node then nodes_to_node_claims node claims else []

-- A NodeClaim that passes the test is among those that are kept.
kept_name :
    (p : NodeClaim → Bool) (nc : NodeClaim) (claims : List NodeClaim)
    → p nc ≡ true
    → Any (λ c. c ≡ nc) claims
    → contains (map (λ c. c.name) (keep p claims)) nc.name ≡ true
unfolding keep contains
kept_name p nc [] h none = absurd none
kept_name p nc (c ∷ claims) h (inl e) = rw (e, h) (ground (arith, eq_refl nc.name))
kept_name p nc (c ∷ claims) h (inr later) =
    let rest = kept_name p nc claims h later in ground (arith, rest)

Joins-candidate :
    (nc : NodeClaim) (claims : List NodeClaim) (node : Node)
    → Joins nc claims node
    → (contains (node_claim_skus nc) (label sku_name_label node.labels) ≡ true)
      × ((node.provider_id == "") ≡ false)
unfolding is_candidate
Joins-candidate nc claims node (pool, h) = ground arith

not_empty : (s : String) → s ≢ "" → (s == "") ≡ false
not_empty s named = ground (arith, eq_iff s "", named)

-- The test of nodesToNodeClaims.
abbrev is_wanted : Node → NodeClaim → Bool
is_wanted node c =
    is_pending c.provider_id
    && label node_pool_label_key c.labels == label nodepool_name_label node.labels
    && contains (node_claim_skus c) (label sku_name_label node.labels)

Joins-wanted :
    (nc : NodeClaim) (claims : List NodeClaim) (node : Node)
    → is_pending nc.provider_id ≡ true
    → Joins nc claims node
    → is_wanted node nc ≡ true
Joins-wanted nc claims node pending joins =
    let sku = (Joins-candidate nc claims node joins).0 in
    let pool = (eq_iff _ _).0 joins.0 in
    rw (pending, sym pool, sku, eq_refl (label nodepool_name_label node.labels)) refl

-- The watch misses no node that joins for a pending NodeClaim: an event of the node, which has the
-- labels of a pool and of a SKU, enqueues each listed NodeClaim that it joins for.
pub watched-wakes_claim :
    (nc : NodeClaim) (claims : List NodeClaim) (node : Node)
    → is_pending nc.provider_id ≡ true
    → label nodepool_name_label node.labels ≢ ""
    → label sku_name_label node.labels ≢ ""
    → Joins nc claims node
    → Any (λ c. c ≡ nc) claims
    → contains (watched node (listed claims)) nc.name ≡ true
unfolding watched nodes_to_node_claims is_rafay_node_with_id
watched-wakes_claim nc claims node pending pool sku joins there =
    let facts = Joins-candidate nc claims node joins in
    rw (watched, facts.1, not_empty _ pool, not_empty _ sku)
      (kept_name (is_wanted node) nc claims (Joins-wanted nc claims node pending joins) there)
