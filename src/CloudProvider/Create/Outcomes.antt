-- ===== src/CloudProvider/Create/Outcomes.antt =====
-- What Create asks for and what it answers, on each of its ways out.
use karpenter_provider_rafay.Prelude.{
  ◌≡◌, ◌≢◌, refl, subst, Dict, inl, inr, List, [], ◌∷◌, some, ◌==◌, eq_iff, Bool-cases,
  Option-cases, String, ℕ, arith,
}
use karpenter_provider_rafay.Kube.{NodeClaim, label, node_pool_label_key}
use karpenter_provider_rafay.Rafay.Batcher.{NodeBatcher}
use karpenter_provider_rafay.Rafay.Batcher.Enqueue.{enqueue}
use karpenter_provider_rafay.CloudProvider.{adopted_provider_id_annotation_key}
use karpenter_provider_rafay.CloudProvider.Instances.{
  InstanceTypeSpec, InstanceType, to_instance_types, filter_compatible, sort_stable,
}
use karpenter_provider_rafay.CloudProvider.Instances.Cheapest.{
  IsOrder, IsFirstCheapest, HeadIsCheapest, sort_stable-HeadIsCheapest,
}
use karpenter_provider_rafay.CloudProvider.Create.{
  created, Choice, chosen, refused, returns, waits, ClassReply, class_specs, get_error, World,
  resolve_node_class, first_of, choose_from, choose_in, choose, create_with, adopted, adopted,
  create_start,
}

module _ {Quantity Price : Type 0} (world : World Quantity Price) where
  -- The instance type is the first cheapest of those of the NodeClaim's class that are compatible with
  -- it and hold what it requests.
  pub record IsBestFit (nc : NodeClaim) (selected : InstanceType Quantity Price) : Type 0 where
    pub specs : List InstanceTypeSpec
    pub types : List (InstanceType Quantity Price)
    pub of_class : resolve_node_class world.node_class nc.node_class_ref ≡ class_specs specs
    pub converted : to_instance_types world.amounts specs ≡ some types
    pub first :
        IsFirstCheapest world.amounts selected (filter_compatible world.compatible world.fits types)

  first_of-IsFirstCheapest :
      (sorted types : List (InstanceType Quantity Price)) (selected : InstanceType Quantity Price)
      → HeadIsCheapest world.amounts types sorted
      → first_of world sorted ≡ chosen selected
      → IsFirstCheapest world.amounts selected types
  unfolding first_of
  first_of-IsFirstCheapest [] types selected h e = cc
  first_of-IsFirstCheapest (s ∷ sorted) types selected h e =
      subst (λ t. IsFirstCheapest world.amounts t types) (cc e) h

  choose_from-IsFirstCheapest :
      (order : IsOrder world.amounts) (specs : List InstanceTypeSpec)
      (selected : InstanceType Quantity Price)
      → choose_from world specs ≡ chosen selected
      → (types : List (InstanceType Quantity Price)) × (to_instance_types world.amounts specs
          ≡ some types)
        × IsFirstCheapest world.amounts selected
            (filter_compatible world.compatible world.fits types)
  unfolding choose_from
  choose_from-IsFirstCheapest order [] selected e = cc
  choose_from-IsFirstCheapest order (s ∷ specs) selected e =
      elim (Option-cases (to_instance_types world.amounts (s ∷ specs))) [
        | inl bad ↦ absurd (ground (arith, rw (bad, choose_from) at e))
        | inr (types, ok) ↦ (
          types,
          ok,
          first_of-IsFirstCheapest
              (sort_stable world.amounts (filter_compatible world.compatible world.fits types))
              (filter_compatible world.compatible world.fits types) selected
              (sort_stable-HeadIsCheapest world.amounts order
                (filter_compatible world.compatible world.fits types))
              (rw (ok, choose_from) at e),
        )
      ]

  choose_in-IsBestFit :
      (order : IsOrder world.amounts) (nc : NodeClaim) (reply : ClassReply)
      (selected : InstanceType Quantity Price)
      → resolve_node_class world.node_class nc.node_class_ref ≡ reply
      → choose_in world reply ≡ chosen selected
      → IsBestFit nc selected
  unfolding choose_in
  choose_in-IsBestFit order nc (get_error x) selected r e = cc
  choose_in-IsBestFit order nc (class_specs specs) selected r e =
      let k = choose_from-IsFirstCheapest order specs selected e in
      record { specs = specs; types = k.0; of_class = r; converted = k.1; first = k.2 }

  choose-IsBestFit :
      (order : IsOrder world.amounts) (nc : NodeClaim) (selected : InstanceType Quantity Price)
      → choose world nc ≡ chosen selected
      → IsBestFit nc selected
  unfolding choose
  choose-IsBestFit order nc selected e =
      choose_in-IsBestFit order nc (resolve_node_class world.node_class nc.node_class_ref) selected
        refl e

  module _ (cluster project : String) (nc : NodeClaim) (b : NodeBatcher) where
    sends :
        (c : Choice Quantity Price) (ch : ℕ) (selected : InstanceType Quantity Price)
        (after : NodeBatcher)
        → create_with world cluster project nc c b ≡ waits ch selected after
        → (c ≡ chosen selected)
          × (label adopted_provider_id_annotation_key nc.annotations ≡ "")
          × (enqueue nc.uid
                (record {
                  cluster_id = cluster;
                  project_id = project;
                  instance_type = selected.name;
                  node_pool_name = label node_pool_label_key nc.labels;
                  operation_id = nc.uid;
                })
                b
              ≡ (ch, after))
    unfolding create_with
    sends (refused r) ch selected after e = cc
    sends (chosen t) ch selected after e =
        ground (arith, eq_iff (label adopted_provider_id_annotation_key nc.annotations) "")

    -- If Create asks the broker for a node, it does so under the NodeClaim's UID, for a NodeClaim that
    -- adopts no node, and for the first cheapest of the instance types of its class that are
    -- compatible with it and hold what it requests,
    -- where prices are ordered.
    pub create_sends-IsBestFit :
        (order : IsOrder world.amounts) (ch : ℕ) (selected : InstanceType Quantity Price)
        (after : NodeBatcher)
        → create_start world cluster project nc b ≡ waits ch selected after
        → IsBestFit nc selected
          × (label adopted_provider_id_annotation_key nc.annotations ≡ "")
          × (enqueue nc.uid
                (record {
                  cluster_id = cluster;
                  project_id = project;
                  instance_type = selected.name;
                  node_pool_name = label node_pool_label_key nc.labels;
                  operation_id = nc.uid;
                })
                b
              ≡ (ch, after))
    unfolding create_start
    create_sends-IsBestFit order ch selected after e =
        let k = sends (choose world nc) ch selected after e in
        (choose-IsBestFit order nc selected k.0, k.1, k.2)

    returned :
        (c : Choice Quantity Price) (out : NodeClaim) (capacity : Dict Quantity)
        → create_with world cluster project nc c b ≡ returns (created out capacity)
        → (label adopted_provider_id_annotation_key nc.annotations ≢ "")
          × (out
              ≡ record nc { provider_id = label adopted_provider_id_annotation_key nc.annotations })
    unfolding create_with adopted
    returned (refused r) out capacity e = cc
    returned (chosen t) out capacity e =
        elim (Bool-cases (label adopted_provider_id_annotation_key nc.annotations == "")) [
          | inl unset ↦ absurd (ground (arith, e, unset))
          | inr set ↦ (
            λ h. ground (
              arith,
              eq_iff (label adopted_provider_id_annotation_key nc.annotations) "",
              h,
              set,
            ),
            ground (arith, e, set),
          )
        ]

    -- If Create returns a NodeClaim without waiting for the broker, the NodeClaim adopts a node: it is
    -- returned as it is but for the provider ID, which is the one of its annotation.
    pub create_adopts :
        (out : NodeClaim) (capacity : Dict Quantity)
        → create_start world cluster project nc b ≡ returns (created out capacity)
        → (label adopted_provider_id_annotation_key nc.annotations ≢ "")
          × (out
              ≡ record nc { provider_id = label adopted_provider_id_annotation_key nc.annotations })
    unfolding create_start
    create_adopts out capacity e = returned (choose world nc) out capacity e
