-- ===== src/Tests/Fleet.antt =====
-- NodeClaims that are made, launched, assigned and adopted, one after the other and in a race.
use karpenter_provider_rafay.Prelude.{
  ℕ, ◌≤◌, ◌≡◌, refl, String, false, List, [], ◌∷◌, some, lookup, keep, contains, has_prefix, arith,
}
use karpenter_provider_rafay.Kube.{NodeClaim, listed, node_pool_label_key, matching_label}
use karpenter_provider_rafay.Rafay.Batcher.{new_node_batcher, acked}
use karpenter_provider_rafay.Rafay.Batcher.Enqueue.{enqueue}
use karpenter_provider_rafay.CloudProvider.{adopted_provider_id_annotation_key, is_real, is_pending}
use karpenter_provider_rafay.CloudProvider.Instances.{
  requirements_of, to_instance_types, filter_compatible, sort_stable,
}
use karpenter_provider_rafay.CloudProvider.Create.{result, choose}
use karpenter_provider_rafay.Controllers.NodeProviderId.{reconcile, patched, pass}
use karpenter_provider_rafay.Controllers.NodeProviderId.Unique.{holders}
use karpenter_provider_rafay.Controllers.NodeAdoption.{
  NodePool, rafay_group, claimed_ids, pending_claims,
}
use karpenter_provider_rafay.Controllers.NodeAdoption.Claim.{NewClaim}
use karpenter_provider_rafay.Controllers.NodeAdoption.Pass.{reconcile as adopt_into}
use karpenter_provider_rafay.Controllers.Fleet.{
  Identity, Call, Action, provisions, launches, assigns, adopts, step, run,
}
use karpenter_provider_rafay.Controllers.Fleet.Speakers.{speakers}
use karpenter_provider_rafay.Controllers.Fleet.Unique.{run_keeps_unique}
use karpenter_provider_rafay.Controllers.Fleet.Shared.{adopted_and_assigned}
use karpenter_provider_rafay.Tests.CloudProvider.{claim, node, distinct}
use karpenter_provider_rafay.Tests.Create.{world, new_claim, small, out}
use karpenter_provider_rafay.Tests.Controllers

abbrev call : Call ℕ ℕ
call = record {
  cluster_id = "cl";
  project_id = "pr";
  world = world;
  batcher = new_node_batcher;
  wait = result (acked "b1");
}

abbrev pool : NodePool
pool = record {
  name = "p";
  uid = "q1";
  deleting = false;
  annotations = [];
  node_class_ref = some (record { group = rafay_group; kind = "RafayNodeClass"; name = "c" });
  labels = [];
  template_annotations = [];
  requirements = [];
}

abbrev second : NewClaim → Identity
second c = record { name = "p-2"; uid = "u2"; created = 25 }

abbrev machine : String
machine = "rafay://p/small/h1"

-- A NodeClaim is made, launched and assigned the node; then a pass adopts nothing.
abbrev in_turn : List (Action ℕ ℕ)
in_turn =
    provisions new_claim
    ∷ launches call "u1"
    ∷ assigns out (listed (node ∷ [])) patched
    ∷ adopts Controllers.world pool (node ∷ []) second
    ∷ []

-- The node is adopted while Create of the other NodeClaim waits for the broker.
abbrev race : List (Action ℕ ℕ)
race =
    provisions new_claim
    ∷ adopts Controllers.world pool (node ∷ []) second
    ∷ launches call "u1"
    ∷ assigns out (listed (node ∷ [])) patched
    ∷ launches call "u2"
    ∷ []

in_turn_once : speakers machine (run in_turn []) ≡ 1
unfolding run lookup keep contains has_prefix is_real is_pending sort_stable requirements_of
    to_instance_types filter_compatible enqueue adopt_into claimed_ids
in_turn_once = refl

race_twice : holders machine (run race []) ≡ 2
unfolding run lookup keep contains has_prefix is_real is_pending sort_stable requirements_of
    to_instance_types filter_compatible enqueue adopt_into claimed_ids pending_claims
race_twice = refl

run_keeps_unique_example : speakers machine (run in_turn []) ≤ 1
unfolding is_real has_prefix is_pending step pass matching_label keep lookup to_instance_types
    sort_stable filter_compatible
run_keeps_unique_example =
    run_keeps_unique machine in_turn [] refl
      (tt, (tt, ((λ h. cc, tt), ((λ e. absurd (distinct machine "" refl e), tt), tt))))
      (omega arith)

abbrev adopting : NodeClaim
adopting = record {
  name = "p-2";
  uid = "u2";
  labels = (node_pool_label_key, "p") ∷ [];
  annotations = (adopted_provider_id_annotation_key, machine) ∷ [];
  node_class_ref = new_claim.node_class_ref;
  provider_id = "";
  deleting = false;
  created = 25;
}

adopted_and_assigned_example :
    2
    ≤ holders machine (
        run
          (assigns claim (listed (node ∷ [])) patched ∷ launches call "u2" ∷ [])
          (claim ∷ adopting ∷ []))
unfolding reconcile lookup keep contains has_prefix is_real choose sort_stable requirements_of
    to_instance_types filter_compatible
adopted_and_assigned_example =
    adopted_and_assigned call small claim adopting [] (node ∷ []) machine refl refl
      (distinct "u1" "u2" refl) refl refl refl
