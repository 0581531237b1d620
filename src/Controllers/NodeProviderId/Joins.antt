-- ===== src/Controllers/NodeProviderId/Joins.antt =====
-- When Reconcile of the NodeProviderIDController does give a NodeClaim an ID.
use karpenter_provider_rafay.Prelude.{
  ◌≡◌, ◌≢◌, inl, inr, Bool, true, false, List, [], ◌∷◌, All, keep, ◌==◌, eq_iff, Bool-cases, arith,
}
use karpenter_provider_rafay.Kube.{
  NodeClaim, Node, listed, label, matching_label, node_pool_label_key,
}
use karpenter_provider_rafay.CloudProvider.{
  nodepool_name_label, is_pending, node_claim_skus, is_candidate,
}
use karpenter_provider_rafay.CloudProvider.Matching.{Any, first_candidate_complete}
use karpenter_provider_rafay.Controllers.NodeProviderId.{
  used_ids, find_node, patched, assigned, assign, has_no, reconcile,
}

-- A node that passes both tests is not among those that fail the second.
passed_not_failed :
    (p q : Node → Bool) (nodes : List Node)
    → All (λ n. q n ≡ false) (keep p nodes)
    → Any (λ n. (p n ≡ true) × (q n ≡ true)) nodes
    → ⊥
unfolding keep
passed_not_failed p q [] none h = h
passed_not_failed p q (n ∷ nodes) all (inl h) = ground (arith, h.0, h.1)
passed_not_failed p q (n ∷ nodes) all (inr h) = elim (Bool-cases (p n)) [
  | inl e ↦ passed_not_failed p q nodes (rw e at all).1 h
  | inr e ↦ passed_not_failed p q nodes (rw e at all) h
]

-- A node of the pool that the loop does not pass over.
abbrev pub Joins : NodeClaim → List NodeClaim → Node → Type 0
Joins nc claims n =
    ((label nodepool_name_label n.labels == label node_pool_label_key nc.labels) ≡ true)
    × (is_candidate (node_claim_skus nc) (used_ids claims) nc.created n ≡ true)

module _ (nc : NodeClaim) (claims : List NodeClaim) (nodes : List Node) where
  pub find_node_lem : Any (Joins nc claims) nodes → (find_node nc claims nodes == "") ≡ false
  unfolding find_node matching_label
  find_node_lem some_node = elim (Bool-cases (find_node nc claims nodes == "")) [
    | inl e ↦ absurd (
        passed_not_failed _ _ nodes
          (first_candidate_complete (node_claim_skus nc) (used_ids claims) nc.created
            (matching_label nodepool_name_label (label node_pool_label_key nc.labels) nodes)
            ((eq_iff _ _).0 e))
          some_node)
    | inr e ↦ e
  ]

  -- A pending NodeClaim of a pool, with a node that joined for it, gets an ID.
  pub reconcile-Joins :
      is_pending nc.provider_id ≡ true
      → nc.deleting ≡ false
      → label node_pool_label_key nc.labels ≢ ""
      → has_no (node_claim_skus nc) ≡ false
      → Any (Joins nc claims) nodes
      → reconcile nc (listed claims) (listed nodes) patched ≡ assigned (find_node nc claims nodes)
  unfolding reconcile assign
  reconcile-Joins pending live pool skus some_node =
      ground (arith, find_node_lem some_node, eq_iff (label node_pool_label_key nc.labels) "")
