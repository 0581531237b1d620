-- ===== src/CloudProvider/Create/Supplied.antt =====
-- The instance types that Karpenter's scheduler is offered for a NodePool, and the choice of Create.
use karpenter_provider_rafay.Prelude.{
  ℕ, String, ◌≡◌, refl, sym, ap, subst, inl, inr, Bool, true, ◌&&◌, List, [], ◌∷◌, ◌++◌, Option,
  none, some, keep, Bool-cases, ◌∙◌,
}
use karpenter_provider_rafay.Kube.{NodeClaim, NodeClassRef}
use karpenter_provider_rafay.Rafay.Batcher.{NodeBatcher}
use karpenter_provider_rafay.CloudProvider.Matching.{Any}
use karpenter_provider_rafay.CloudProvider.Instances.{
  InstanceTypeSpec, InstanceType, to_instance_types, filter_compatible,
}
use karpenter_provider_rafay.CloudProvider.Instances.Cheapest.{IsOrder}
use karpenter_provider_rafay.CloudProvider.Create.{
  get_error, waits, class_specs, World, resolve_node_class, create_start, PoolTemplate,
  resolve_node_class_from_pool, offered, types_of, get_instance_types,
}
use karpenter_provider_rafay.CloudProvider.Create.Outcomes.{create_sends-IsBestFit}

-- An element of what a filter keeps.
kept_passes :
    {A : Type 0} (p : A → Bool) (xs before after : List A) (a : A)
    → keep p xs ≡ before ++ a ∷ after
    → Any (λ x. x ≡ a) xs × (p a ≡ true)
unfolding keep
kept_passes p [] [] after a e = cc
kept_passes p [] (b ∷ before) after a e = cc
kept_passes p (x ∷ xs) [] after a e = elim (Bool-cases (p x)) [
  | inl kept ↦
      let first : x ≡ a = cc (rw (kept, keep) at e) in
      (inl first, subst (λ y. p y ≡ true) first kept)
  | inr out ↦ let k = kept_passes p xs [] after a (rw (out, keep) at e) in (inr k.0, k.1)
]
kept_passes p (x ∷ xs) (b ∷ before) after a e = elim (Bool-cases (p x)) [
  | inl kept ↦
      let rest : keep p xs ≡ before ++ a ∷ after = cc (rw (kept, keep) at e) in
      let k = kept_passes p xs before after a rest in (inr k.0, k.1)
  | inr out ↦ let k = kept_passes p xs (b ∷ before) after a (rw (out, keep) at e) in (inr k.0, k.1)
]

module _ {Quantity Price : Type 0} (world : World Quantity Price) where
  same_class :
      (nc : NodeClaim) (pool : PoolTemplate)
      → pool.node_class_ref ≡ nc.node_class_ref
      → resolve_node_class_from_pool world.node_class pool
        ≡ resolve_node_class world.node_class nc.node_class_ref
  unfolding resolve_node_class_from_pool resolve_node_class
  same_class nc pool e = rw (e) (same (nc.node_class_ref))
    where
      same :
          (r : Option NodeClassRef)
          → elim r [ none ↦ get_error "no nodeClassRef" | some ref ↦ world.node_class ref.name ]
            ≡ resolve_node_class world.node_class r
      same none = refl
      same (some ref) = refl

  types_of-specs :
      (specs : List InstanceTypeSpec) (t : InstanceType Quantity Price)
      (types : List (InstanceType Quantity Price))
      → to_instance_types world.amounts specs ≡ some types
      → Any (λ x. x ≡ t) types
      → types_of world (class_specs specs) ≡ offered types
  unfolding types_of to_instance_types
  types_of-specs [] t types e h =
      let empty : [] ≡ types = cc e in absurd (subst (Any (λ x. x ≡ t)) (sym empty) h)
  types_of-specs (s ∷ specs) t types e h = rw (e, types_of) refl

  module _ (cluster project : String) (nc : NodeClaim) (b : NodeBatcher) where
    -- If Create asks the broker for a node of some type, GetInstanceTypes offers that type for every
    -- NodePool with the node class of the NodeClaim, and the type passes Karpenter's tests for the
    -- NodeClaim, where prices are ordered.
    pub create_sends_offered :
        (order : IsOrder world.amounts) (pool : PoolTemplate) (ch : ℕ)
        (selected : InstanceType Quantity Price) (after : NodeBatcher)
        → pool.node_class_ref ≡ nc.node_class_ref
        → create_start world cluster project nc b ≡ waits ch selected after
        → (types : List (InstanceType Quantity Price)) × (get_instance_types world (some pool)
            ≡ offered types)
          × Any (λ t. t ≡ selected) types
          × ((world.compatible selected && world.fits selected) ≡ true)
    unfolding get_instance_types filter_compatible
    create_sends_offered order pool ch selected after same e =
        let best =
          (create_sends-IsBestFit world cluster project nc b order ch selected after e).0 in
        let k =
          kept_passes (λ it. world.compatible it && world.fits it) best.types best.first.before
            best.first.after selected best.first.parts in
        (
          best.types,
          ap (types_of world) (same_class nc pool same ∙ best.of_class)
              ∙ types_of-specs best.specs selected best.types best.converted k.0,
          k.0,
          k.1,
        )
