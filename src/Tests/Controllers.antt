-- ===== src/Tests/Controllers.antt =====
-- The NodeAdoptionController on concrete objects.
use karpenter_provider_rafay.Prelude.{
  refl, ◌≤◌, ◌+◌, true, false, [], ◌∷◌, some, none, lookup, keep, All, contains,
}
use karpenter_provider_rafay.Kube.{listed, matching_label}
use karpenter_provider_rafay.Controllers.NodeAdoption.{NodePool, rafay_group, claimed_ids}
use karpenter_provider_rafay.Controllers.NodeAdoption.Pass.{World, reconcile}
use karpenter_provider_rafay.Controllers.NodeAdoption.Adopted.{
  IsAdoption, progress, adopts_qualified_nodes, adopters, one_if, adopts_once,
}
use karpenter_provider_rafay.Tests.CloudProvider.{distinct, claim, node}

abbrev pub world : World
world = record {
  class_key = "karpenter.rafay.io/rafaynodeclass";
  instance_types = listed (record { name = "small"; offerings = "on-demand" ∷ [] } ∷ []);
  satisfies_pool = λ labels reqs. true;
  has_offering = λ it labels. true;
  patch = λ n. none;
  create = λ c. none;
}

abbrev pool : NodePool
pool = record {
  name = "p";
  uid = "q1";
  deleting = false;
  annotations = [];
  node_class_ref = some (record { group = rafay_group; kind = "RafayNodeClass"; name = "small" });
  labels = [];
  template_annotations = [];
  requirements = [];
}

adopts_qualified_nodes_example :
    All
      (IsAdoption pool (node ∷ []) [])
      (progress (reconcile world pool (listed (node ∷ [])) (listed [])))
adopts_qualified_nodes_example = adopts_qualified_nodes world pool (node ∷ []) []

adopts_once_example :
    adopters "rafay://p/small/h1"
        (progress (reconcile world pool (listed (node ∷ [])) (listed (claim ∷ []))))
      + one_if (contains (claimed_ids (claim ∷ [])) "rafay://p/small/h1")
    ≤ 1
unfolding matching_label keep lookup
adopts_once_example =
    adopts_once world pool "rafay://p/small/h1" (claim ∷ []) (node ∷ [])
      (λ e. absurd (distinct "rafay://p/small/h1" "" refl e), tt)
