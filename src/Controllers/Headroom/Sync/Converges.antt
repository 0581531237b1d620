-- ===== src/Controllers/Headroom/Sync/Converges.antt =====
-- A sync of the headroom controller brings the Deployments to the policy.
use karpenter_provider_rafay.Prelude.{◌≡◌, List, none, some, Dict, lookup}
use mathlib.Core.List.{◌++◌ as append}
use karpenter_provider_rafay.Kube.{listed}
use karpenter_provider_rafay.Controllers.Headroom.{Numbers, PoolPolicy}
use karpenter_provider_rafay.Controllers.Headroom.Sync.{
  Deployment, PoolNode, Answers, deployment_name, desired_deployment, apply,
}

module _ {Quantity Fraction Buffer : Type 0} (num : Numbers Quantity Fraction Buffer) where
  module _ (a : Answers) where
    -- The nodes of the pool can be listed, and the write of its Deployment is taken.
    abbrev IsClean : PoolPolicy Quantity Fraction → Type 0
    IsClean p =
        (nodes : List PoolNode) × (a.nodes p.name ≡ listed nodes)
        × (a.apply (deployment_name p.name) ≡ none)

    -- The Deployment of the pool is the one that the policy and its nodes ask for.
    abbrev pub IsInPlace : Dict (Deployment Quantity) → PoolPolicy Quantity Fraction → Type 0
    IsInPlace deps p =
        (nodes : List PoolNode) × (a.nodes p.name ≡ listed nodes)
        × (lookup (deployment_name p.name) deps ≡ some (desired_deployment num p nodes))
