-- ===== src/Tests/Headroom/Stored.antt =====
-- The stored Deployment and the watches of the headroom controller, with the numbers of the parent.
use karpenter_provider_rafay.Prelude.{
  ℕ, ◌≡◌, refl, String, [], ◌∷◌, none, lookup, keep, keys, contains,
}
use karpenter_provider_rafay.Controllers.Headroom.Config.{min_pods_of, parse_tolerations}
use karpenter_provider_rafay.Controllers.Headroom.Template.{Stored, mutate}
use karpenter_provider_rafay.Controllers.Headroom.Template.Owned.{summary, refill, mutate_settles}
use karpenter_provider_rafay.Controllers.Headroom.Watches.{
  Meta, config_map_changed, node_changed, deployment_changed, enqueued,
}
use karpenter_provider_rafay.Controllers.Headroom.Watches.Covers.{
  sync_requests, policy_meta, mutated_meta, changes_are_seen,
}
use karpenter_provider_rafay.Controllers.Headroom.Sync.{PoolNode, filter_ready, desired_deployment}
use karpenter_provider_rafay.Controllers.Headroom.Sync.Results.{reconcile_result}
use karpenter_provider_rafay.Tests.Headroom.{numbers, policy, with_policy}

abbrev ready_node : PoolNode
ready_node = record {
  conditions =
      record { kind = "DiskPressure"; status = "False" }
      ∷ record { kind = "Ready"; status = "True" }
      ∷ [];
  allocatable = record { cpu_milli = 4000; mem_bytes = 8000; extended = [] };
}

-- A Deployment that is not stored yet.
abbrev absent_deployment : Stored ℕ String
absent_deployment = record {
  labels = [];
  selector = none;
  replicas = none;
  template = record {
    labels = [];
    priority_class_name = "";
    preemption_policy = none;
    grace_period = none;
    node_selector = [];
    tolerations = [];
    spreads = [];
    containers = [];
    rest = "";
  };
  rest = "";
}

mutate_settles_example :
    let made = mutate numbers "" policy (ready_node ∷ []) absent_deployment in
    let stored = refill "uid" "restartPolicy" "terminationMessagePath" made in
    (summary made ≡ desired_deployment numbers policy (ready_node ∷ []))
    × (mutate numbers "" policy (ready_node ∷ []) stored ≡ stored)
mutate_settles_example =
    mutate_settles numbers "" policy (ready_node ∷ []) absent_deployment "uid" "restartPolicy"
      "terminationMessagePath"

-- A node that is not ready counts for nothing.
not_ready_is_left_out :
    filter_ready (record ready_node { conditions = [] } ∷ ready_node ∷ []) ≡ ready_node ∷ []
unfolding filter_ready keep
not_ready_is_left_out = refl

abbrev node_meta : Meta
node_meta = record { name = "n"; namespace = ""; labels = ("karpenter.sh/nodepool", "p") ∷ [] }

changes_are_seen_example :
    (enqueued "karpenter" "config" (config_map_changed (policy_meta "config" []))
      ≡ record { name = "headroom-policy"; namespace = "config" } ∷ [])
    × (enqueued "karpenter" "config" (node_changed node_meta) ≡ sync_requests)
    × (enqueued "karpenter" "config" (
          deployment_changed (
            mutated_meta numbers "" policy
              (ready_node ∷ [])
              "karpenter"
              "headroom-p"
              absent_deployment))
        ≡ sync_requests)
unfolding reconcile_result lookup keep contains keys min_pods_of parse_tolerations
changes_are_seen_example =
    changes_are_seen numbers "" policy (ready_node ∷ []) with_policy.policy (policy ∷ [])
      absent_deployment "karpenter" "config" "headroom-p" [] node_meta refl refl

-- A node that has left its pool makes no request.
relabelled_is_not_seen :
    enqueued "karpenter" "config" (node_changed (record node_meta { labels = [] })) ≡ []
unfolding enqueued lookup
relabelled_is_not_seen = refl
