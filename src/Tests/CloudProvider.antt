-- ===== src/Tests/CloudProvider.antt =====
-- The cloud provider and the NodeProviderIDController on concrete NodeClaims and nodes.
use Prim.Native.String.{◌++◌}
use karpenter_provider_rafay.Prelude.{
  ◌≡◌, ◌≢◌, refl, ◌≤◌, ◌⊎◌, true, false, String, List, [], ◌∷◌, some, none, contains, ◌==◌, eq_iff,
  lookup, keep, has_prefix, arith,
}
use karpenter_provider_rafay.Kube.{
  NodeClaim, Node, listed, node_pool_label_key, label_instance_type,
}
use karpenter_provider_rafay.Rafay.Batcher.{
  NodeBatcher, OpKind, new_node_batcher, acked, has_succeeded,
}
use karpenter_provider_rafay.Rafay.Batcher.Enqueue.{enqueue_remove}
use karpenter_provider_rafay.Rafay.ProviderId.{build_provider_id, parse_provider_id}
use karpenter_provider_rafay.Rafay.ProviderId.RoundTrip.{parse-build}
use karpenter_provider_rafay.CloudProvider.{
  is_pending, is_real, find_node_provider_id, real_id, not_found, waits, remove_operation_id,
  send_remove, delete_start, batch_failure_handler,
}
use karpenter_provider_rafay.CloudProvider.Matching.{Any}
use karpenter_provider_rafay.CloudProvider.Deletion.{
  delete_reports_gone, IsTarget, delete_removes_own_node, failure_handler_safe,
}
use karpenter_provider_rafay.Controllers.NodeProviderId.{patched}
use karpenter_provider_rafay.Controllers.NodeProviderId.Unique.{
  holders, Pass, passes, passes_keep_unique,
}

-- The test tells two texts apart.
pub distinct : (s t : String) → (s == t) ≡ false → s ≢ t
distinct s t h e = ground (arith, eq_iff s t)

-- A pending NodeClaim of the pool "p", and a node that has joined for it.
abbrev pub claim : NodeClaim
claim = record {
  name = "p-1";
  uid = "u1";
  labels = (node_pool_label_key, "p") ∷ (label_instance_type, "small") ∷ [];
  annotations = [];
  node_class_ref = none;
  provider_id = "rafay://pending/u1";
  deleting = false;
  created = 10;
}

abbrev pub node : Node
node = record {
  name = "h1";
  labels = ("nodepoolname", "p") ∷ ("sku_name", "small") ∷ [];
  provider_id = "rafay://p/small/h1";
  ready = true;
  deleting = false;
  created = 20;
}

abbrev claims : List NodeClaim
claims = claim ∷ []

abbrev nodes : List Node
nodes = node ∷ []

abbrev one : List String
one = "u1" ∷ []

-- No node has joined: the add is cancelled.
delete_reports_gone_example :
    (not_found ≡ not_found)
    × (((claim.provider_id ≡ "") × (one ≡ []))
        ⊎ (((has_succeeded new_node_batcher (remove_operation_id claim) ≡ true) × (one ≡ []))
            ⊎ ((is_pending claim.provider_id ≡ true)
                × (real_id (find_node_provider_id claim (listed claims) (listed [])) ≡ "")
                × (one ≡ claim.uid ∷ []))))
unfolding delete_start lookup has_prefix find_node_provider_id keep
delete_reports_gone_example =
    delete_reports_gone "c" "j" claim new_node_batcher (listed claims) (listed []) not_found one
      refl

abbrev after_delete : NodeBatcher
after_delete =
    (enqueue_remove "u1-remove"
      (record {
        cluster_id = "c";
        project_id = "j";
        instance_type = "small";
        node_pool_name = "p";
        provider_id = "rafay://p/small/h1";
      })
      new_node_batcher).1

delete_removes_own_node_example :
    (id : String) × (send_remove "c" "j" claim id new_node_batcher ≡ waits 0 after_delete)
    × IsTarget "c" "j" claim new_node_batcher claims nodes id
unfolding delete_start lookup has_prefix find_node_provider_id keep contains
delete_removes_own_node_example =
    delete_removes_own_node "c" "j" claim new_node_batcher claims nodes 0 after_delete refl

abbrev removing : NodeBatcher
removing = record new_node_batcher {
  in_flight = ("u1-remove", tt) ∷ [];
  op_batch = ("u1-remove", "b7") ∷ [];
}

abbrev after_again : NodeBatcher
after_again = record removing { next_chan = 1; delivered = (0, acked "b7") ∷ [] }

failure_handler_safe_example :
    (OpKind.add ≡ OpKind.add)
    × (claim.uid ≡ "u1")
    × (is_real claim.provider_id ≡ false)
    × (claim.deleting ≡ false)
    × Any (λ c. c ≡ claim) claims
unfolding batch_failure_handler has_prefix is_real is_pending
failure_handler_safe_example = failure_handler_safe OpKind.add "u1" claims claim refl

abbrev two_passes : List Pass
two_passes =
    record { claim = claim; nodes = listed nodes; reply = patched }
    ∷ record { claim = claim; nodes = listed nodes; reply = patched }
    ∷ []

passes_keep_unique_example : holders "rafay://p/small/h1" (passes two_passes claims) ≤ 1
unfolding has_prefix is_real is_pending
passes_keep_unique_example = passes_keep_unique "rafay://p/small/h1" two_passes claims (omega arith)

parse-build_example :
    parse_provider_id (build_provider_id "p" "small" "h1") ≡ some ("p", "small" ++ ("/" ++ "h1"))
parse-build_example = parse-build "p" "small" "h1" refl refl refl refl
