-- ===== src/Tests/Create/Supply.antt =====
-- What the scheduler is offered, and what Get and List answer, at the parent's data.
use karpenter_provider_rafay.Prelude.{
  ℕ, String, ◌≡◌, refl, List, [], ◌∷◌, some, ◌&&◌, true, keep, has_prefix, lookup, ◌++◌,
}
use karpenter_provider_rafay.Kube.{listed}
use karpenter_provider_rafay.Rafay.Batcher.{new_node_batcher}
use karpenter_provider_rafay.Rafay.Batcher.Enqueue.{enqueue}
use karpenter_provider_rafay.CloudProvider.{is_pending}
use karpenter_provider_rafay.CloudProvider.Matching.{Any}
use karpenter_provider_rafay.CloudProvider.Instances.{
  InstanceType, sort_stable, requirements_of, to_instance_types, filter_compatible,
}
use karpenter_provider_rafay.CloudProvider.Create.{
  create_start, PoolTemplate, offered, get_instance_types,
}
use karpenter_provider_rafay.CloudProvider.Create.Supplied.{create_sends_offered}
use karpenter_provider_rafay.CloudProvider.Inventory.{
  KubeNode, Texts, broker_client, instance_of, get_by_client, list_by_client, list_from_nodes,
}
use karpenter_provider_rafay.CloudProvider.Inventory.Found.{instance_at, listed_is_got}
use karpenter_provider_rafay.Tests.CloudProvider.{node}
use karpenter_provider_rafay.Tests.Create.{world, small, new_claim, sent, order}

abbrev pool : PoolTemplate
pool = record { name = "p"; node_class_ref = new_claim.node_class_ref }

create_sends_offered_example :
    (types : List (InstanceType ℕ ℕ)) × (get_instance_types world (some pool) ≡ offered types)
    × Any (λ t. t ≡ small) types
    × ((world.compatible small && world.fits small) ≡ true)
unfolding create_start sort_stable lookup requirements_of keep enqueue to_instance_types
    filter_compatible
create_sends_offered_example =
    create_sends_offered world "cl" "pr" new_claim new_node_batcher order pool 0 small sent refl
      refl

-- Quantities are texts.
abbrev texts : Texts String
texts = record { text = λ q. q; parse_quantity = λ s. some s }

abbrev master : KubeNode String
master = record { node = record node { provider_id = "" }; capacity = [] }

abbrev worker : KubeNode String
worker = record { node = node; capacity = ("cpu", "4") ∷ [] }

listed_is_got_example :
    (get_by_client texts broker_client "rafay://p/small/h1" (listed (master ∷ worker ∷ []))
      ≡ instance_of (instance_at worker))
    × (list_by_client texts broker_client "c" (listed (master ∷ worker ∷ []))
        ≡ listed
            (list_from_nodes texts (master ∷ []) ++ instance_at worker ∷ list_from_nodes texts []))
unfolding has_prefix is_pending
listed_is_got_example =
    listed_is_got texts (λ q. refl) "c" (master ∷ []) [] worker refl refl refl (refl, tt)
