-- ===== src/Tests/Create.antt =====
-- Create and the readiness of a node class on a concrete class, and a node that joins afterwards.
mod Supply
use karpenter_provider_rafay.Prelude.{
  ℕ, ◌+◌, ◌≡◌, refl, inl, Bool, true, false, String, List, [], ◌∷◌, some, none, ltb, ◌==◌, is_some,
  ◌||◌, if◌then◌else◌, lookup, keep, has_prefix, arith,
}
use karpenter_provider_rafay.Kube.{NodeClaim, listed, label, node_pool_label_key}
use karpenter_provider_rafay.Rafay.Batcher.{NodeBatcher, AddNodesRequest, new_node_batcher, acked}
use karpenter_provider_rafay.Rafay.Batcher.Enqueue.{enqueue}
use karpenter_provider_rafay.CloudProvider.{adopted_provider_id_annotation_key, is_pending}
use karpenter_provider_rafay.CloudProvider.Instances.{
  InstanceTypeSpec, InstanceType, Amounts, requirements_of, to_instance_type, to_instance_types,
  filter_compatible, sort_stable,
}
use karpenter_provider_rafay.CloudProvider.Instances.Cheapest.{IsOrder}
use karpenter_provider_rafay.CloudProvider.Create.{
  World, class_specs, get_error, launched, create_start, create_finish, choose_from,
}
use karpenter_provider_rafay.CloudProvider.Create.Outcomes.{IsBestFit, create_sends-IsBestFit}
use karpenter_provider_rafay.CloudProvider.Create.Joined.{create_then_assigned}
use karpenter_provider_rafay.Controllers.NodeProviderId.{
  reconcile, patched, assigned, find_node, used_ids,
}
use karpenter_provider_rafay.Controllers.RafayNodeClass.{
  Ready, unset, is_true, validation_failed, validate_node_class, reconcile_class, ready_after,
}
use karpenter_provider_rafay.Controllers.RafayNodeClass.Offers.{
  has_unnamed, is_types_error, validate_node_class-choose_from, ready_means_offered,
}
use karpenter_provider_rafay.Tests.CloudProvider.{node, distinct}

abbrev pub amounts : Amounts ℕ ℕ
amounts = record {
  parse_quantity = λ s. if s == "2" then some 2 else if s == "4" then some 4 else none;
  positive = λ q. ltb 0 q;
  hundred_ten = 110;
  price = λ cpu mem. cpu + mem;
  zero_price = 0;
  less = ltb;
}

abbrev pub spec : String → String → InstanceTypeSpec
spec name cpu = record {
  name = name;
  cpu = cpu;
  memory = "4";
  gpu = "";
  zone = "";
  architectures = [];
  operating_systems = [];
}

abbrev pub specs : List InstanceTypeSpec
specs = spec "large" "4" ∷ spec "small" "2" ∷ []

abbrev pub small : InstanceType ℕ ℕ
small = record {
  name = "small";
  requirements = requirements_of (spec "small" "2");
  offerings = 6 ∷ [];
  capacity = ("cpu", 2) ∷ ("memory", 4) ∷ ("pods", 110) ∷ [];
}

abbrev pub world : World ℕ ℕ
world = record {
  amounts = amounts;
  node_class = λ n. if n == "c" then class_specs specs else get_error "not found";
  compatible = λ t. true;
  fits = λ t. true;
}

less_trans_nat : (a b c : ℕ) → ltb a b ≡ true → ltb b c ≡ true → ltb a c ≡ true
less_trans_nat a b c h k = ground (arith, h, k)

not_less_trans_nat : (a b c : ℕ) → ltb a b ≡ false → ltb b c ≡ false → ltb a c ≡ false
not_less_trans_nat a b c h k = ground (arith, h, k)

pub order : IsOrder amounts
order = record { less_trans = less_trans_nat; not_less_trans = not_less_trans_nat }

abbrev pub new_claim : NodeClaim
new_claim = record {
  name = "p-1";
  uid = "u1";
  labels = (node_pool_label_key, "p") ∷ [];
  annotations = [];
  node_class_ref = some (record { group = "g"; kind = "RafayNodeClass"; name = "c" });
  provider_id = "";
  deleting = false;
  created = 10;
}

abbrev request : AddNodesRequest
request = record {
  cluster_id = "cl";
  project_id = "pr";
  instance_type = "small";
  node_pool_name = "p";
  operation_id = "u1";
}

abbrev pub sent : NodeBatcher
sent = (enqueue "u1" request new_node_batcher).1

create_sends-IsBestFit_example :
    IsBestFit world new_claim small
    × (label adopted_provider_id_annotation_key new_claim.annotations ≡ "")
    × (enqueue "u1" request new_node_batcher ≡ (0, sent))
unfolding create_start sort_stable lookup requirements_of keep enqueue to_instance_types
    filter_compatible
create_sends-IsBestFit_example =
    create_sends-IsBestFit world "cl" "pr" new_claim new_node_batcher order 0 small sent refl

abbrev pub out : NodeClaim
out = launched new_claim small "b1"

create_then_assigned_example :
    (reconcile out (listed (out ∷ [])) (listed (node ∷ [])) patched
      ≡ assigned (find_node out (out ∷ []) (node ∷ [])))
    × ((find_node out (out ∷ []) (node ∷ []) == "") ≡ false)
unfolding create_finish to_instance_type lookup has_prefix used_ids is_pending
create_then_assigned_example =
    create_then_assigned amounts (spec "small" "2") small new_claim out (acked "b1") small.capacity
      (out ∷ []) (node ∷ []) refl refl refl (distinct "p" "" refl) (distinct "small" "" refl)
      (inl (refl, refl, distinct "rafay://p/small/h1" "" refl, refl, omega arith))

validate_node_class-choose_from_example :
    is_some (validate_node_class amounts.parse_quantity (spec "bad" "x" ∷ [])) ≡ (
      has_unnamed (spec "bad" "x" ∷ []) || is_types_error (choose_from world (spec "bad" "x" ∷ [])))
validate_node_class-choose_from_example =
    validate_node_class-choose_from world (spec "bad" "x" ∷ [])

-- The condition changes unless it is True already.
abbrev changed : Ready → Ready → Bool
changed is_true is_true = false
changed _ _ = true

changed_reports : (r s : Ready) → changed r s ≡ false → r ≡ s
changed_reports is_true is_true h = refl
changed_reports is_true unset h = cc
changed_reports is_true (validation_failed e) h = cc
changed_reports unset s h = cc
changed_reports (validation_failed e) s h = cc

ready_means_offered_example :
    (has_unnamed specs ≡ false) × (is_types_error (choose_from world specs) ≡ false)
unfolding reconcile_class ready_after
ready_means_offered_example = ready_means_offered world changed changed_reports specs unset refl
