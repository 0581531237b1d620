-- ===== src/CloudProvider/Create/Joined.antt =====
-- From Create to the NodeProviderIDController: the NodeClaim that Create returns gets the provider ID
-- of a node that joins for it.
use karpenter_provider_rafay.Prelude.{
  ℕ, ◌<◌, ◌≡◌, ◌≢◌, refl, sym, subst, ◌∙◌, inl, inr, true, false, List, none, some, Dict, lookup,
  lookup-assign, contains, ltb, lt→ltb, ◌==◌, eq_iff, eq_refl, Option-cases, String,
  has_prefix-append, arith,
}
use karpenter_provider_rafay.Kube.{
  NodeClaim, Node, listed, label, node_pool_label_key, label_instance_type,
}
use karpenter_provider_rafay.Rafay.Batcher.{BatchResult}
use karpenter_provider_rafay.CloudProvider.{
  nodepool_name_label, sku_name_label, pending_provider_id_prefix, is_pending, node_claim_skus,
  is_candidate,
}
use karpenter_provider_rafay.CloudProvider.Matching.{Any, Any-map}
use karpenter_provider_rafay.CloudProvider.Instances.{
  InstanceTypeSpec, InstanceType, Amounts, requirements_of, requirements_to_labels,
  to_instance_type,
}
use karpenter_provider_rafay.CloudProvider.Instances.Labels.{
  lookup-requirements_to_labels, no_pool_requirement, instance_type_label, to_instance_type-spec,
}
use karpenter_provider_rafay.CloudProvider.Create.{
  created, failed, CreateError, result, launched, create_finish,
}
use karpenter_provider_rafay.Controllers.NodeProviderId.{
  used_ids, find_node, patched, assigned, reconcile, has_no,
}
use karpenter_provider_rafay.Controllers.NodeProviderId.Joins.{
  Joins, reconcile-Joins, find_node_lem,
}

named_sku :
    (nc : NodeClaim) (name : String)
    → label label_instance_type nc.labels ≡ name
    → name ≢ ""
    → (contains (node_claim_skus nc) name ≡ true) × (has_no (node_claim_skus nc) ≡ false)
unfolding node_claim_skus contains has_no
named_sku nc name h ne = rw h (ground (arith, eq_iff name "", eq_refl name))

-- A node that joins for the NodeClaim: of its pool and of the selected type, with an ID that no
-- NodeClaim has, and created after the NodeClaim.
abbrev pub IsOfClaim : NodeClaim → String → List NodeClaim → Node → Type 0
IsOfClaim nc sku claims n =
    (label nodepool_name_label n.labels ≡ label node_pool_label_key nc.labels)
    × (label sku_name_label n.labels ≡ sku)
    × (n.provider_id ≢ "")
    × (contains (used_ids claims) n.provider_id ≡ false)
    × (nc.created < n.created)

abbrev IsAssigned : NodeClaim → List NodeClaim → List Node → Type 0
IsAssigned nc claims nodes =
    (reconcile nc (listed claims) (listed nodes) patched ≡ assigned (find_node nc claims nodes))
    × ((find_node nc claims nodes == "") ≡ false)

module _ {Quantity Price : Type 0} (amounts : Amounts Quantity Price) (s : InstanceTypeSpec)
    (it : InstanceType Quantity Price) (made : to_instance_type amounts s ≡ some it) where
  -- The labels that the selected type brings: its name, and none for the pool.
  type_name_label :
      lookup label_instance_type (requirements_to_labels it.requirements) ≡ some it.name
  type_name_label =
      let facts = to_instance_type-spec amounts s it made in
      rw (facts.1, facts.0) (instance_type_label s)

  type_pool_label : lookup node_pool_label_key (requirements_to_labels it.requirements) ≡ none
  type_pool_label =
      let facts = to_instance_type-spec amounts s it made in
      rw facts.1 (
        lookup-requirements_to_labels node_pool_label_key (requirements_of s)
          (no_pool_requirement s))

  module _ (nc : NodeClaim) (batch_id : String) where
    launched_pool :
        label node_pool_label_key (launched nc it batch_id).labels
        ≡ label node_pool_label_key nc.labels
    unfolding launched
    launched_pool =
        rw
          (
            lookup-assign node_pool_label_key nc.labels (requirements_to_labels it.requirements),
            type_pool_label,
          )
          refl

    launched_type : label label_instance_type (launched nc it batch_id).labels ≡ it.name
    unfolding launched
    launched_type =
        rw
          (
            lookup-assign label_instance_type nc.labels (requirements_to_labels it.requirements),
            type_name_label,
          )
          refl

    launched_pending : is_pending (launched nc it batch_id).provider_id ≡ true
    unfolding launched is_pending
    launched_pending = has_prefix-append pending_provider_id_prefix nc.uid

    launched_live : nc.deleting ≡ false → (launched nc it batch_id).deleting ≡ false
    unfolding launched
    launched_live live = live

    launched_later : (t : ℕ) → nc.created < t → ltb (launched nc it batch_id).created t ≡ true
    unfolding launched
    launched_later t later = lt→ltb nc.created t later

    launched-Joins :
        (claims : List NodeClaim) (n : Node)
        → it.name ≢ ""
        → IsOfClaim nc it.name claims n
        → Joins (launched nc it batch_id) claims n
    unfolding is_candidate
    launched-Joins claims n named (pool, sku, id, unused, later) =
        let skus = named_sku (launched nc it batch_id) it.name launched_type named in
        (
          (eq_iff _ _).1 (pool ∙ sym launched_pool),
          rw sku (
              ground (
                arith,
                skus.0,
                unused,
                eq_iff n.provider_id "",
                id,
                launched_later n.created later,
              )),
        )

    launched-IsAssigned :
        (claims : List NodeClaim) (nodes : List Node)
        → nc.deleting ≡ false
        → label node_pool_label_key nc.labels ≢ ""
        → it.name ≢ ""
        → Any (IsOfClaim nc it.name claims) nodes
        → IsAssigned (launched nc it batch_id) claims nodes
    launched-IsAssigned claims nodes live pool named some_node =
        let out = launched nc it batch_id in
        let skus = named_sku out it.name launched_type named in
        let joins = Any-map nodes (λ n. launched-Joins claims n named) some_node in
        (
          reconcile-Joins out claims nodes launched_pending (launched_live live)
              (rw launched_pool pool) skus.1 joins,
          find_node_lem out claims nodes joins,
        )

created_claim :
    {Quantity : Type 0} {a b : NodeClaim} {c d : Dict Quantity} → created a c ≡ created b d → a ≡ b
created_claim h = cc

created_failed :
    {Quantity : Type 0} {a : NodeClaim} {c : Dict Quantity} {e : CreateError}
    → failed e ≡ created a c
    → ⊥
created_failed h = cc

created_launched :
    {Quantity Price : Type 0} (it : InstanceType Quantity Price) (nc : NodeClaim) (r : BatchResult)
    (out : NodeClaim) (capacity : Dict Quantity)
    → create_finish nc it (result r) ≡ created out capacity
    → launched nc it r.batch_id ≡ out
unfolding create_finish
created_launched it nc r out capacity h = elim (Option-cases r.err) [
  | inl e ↦ created_claim (rw (e, create_finish) at h)
  | inr (a, e) ↦ absurd (created_failed (rw (e, create_finish) at h))
]

-- A NodeClaim that Create returns, with an instance type made from a spec of the node class, gets an
-- ID from the NodeProviderIDController as soon as a node of its pool and of the selected type, which
-- is younger than the NodeClaim and has an ID that no NodeClaim has, is listed, and the API server
-- takes the patch: the NodeClaim is not being deleted, and it has a pool and the type a name.
pub create_then_assigned :
    {Quantity Price : Type 0} (amounts : Amounts Quantity Price) (s : InstanceTypeSpec)
    (it : InstanceType Quantity Price) (nc out : NodeClaim) (r : BatchResult)
    (capacity : Dict Quantity) (claims : List NodeClaim) (nodes : List Node)
    → to_instance_type amounts s ≡ some it
    → create_finish nc it (result r) ≡ created out capacity
    → nc.deleting ≡ false
    → label node_pool_label_key nc.labels ≢ ""
    → it.name ≢ ""
    → Any (IsOfClaim nc it.name claims) nodes
    → (reconcile out (listed claims) (listed nodes) patched ≡ assigned (find_node out claims nodes))
      × ((find_node out claims nodes == "") ≡ false)
create_then_assigned amounts s it nc out r capacity claims nodes made h live pool named some_node =
    subst (λ c. IsAssigned c claims nodes) (created_launched it nc r out capacity h)
      (launched-IsAssigned amounts s it made nc r.batch_id claims nodes live pool named some_node)
