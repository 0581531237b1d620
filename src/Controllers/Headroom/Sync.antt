-- ===== src/Controllers/Headroom/Sync.antt =====
-- Reconcile, loadPools, reconcilePool, cleanupLegacyPods, cleanupStaleDeployments and
-- ensurePriorityClass of pkg/controllers/headroom/controller.go.
-- The API server's answers are functions of the object's name; `none` is success.
pub mod Kept
pub mod Results
pub mod Loaded
pub mod Converges
use Prim.Native.String.{◌++◌}
use karpenter_provider_rafay.Prelude.{
  ℕ, String, Bool, true, false, ◌||◌, ◌&&◌, not, List, [], ◌∷◌, Option, none, some, Dict, lookup,
  insert, contains, keep, map, length, ◌==◌, if◌then◌else◌,
}
use mathlib.Core.List.{◌++◌ as append}
use karpenter_provider_rafay.Kube.{Listing, listed, list_error}
use karpenter_provider_rafay.Controllers.Headroom.{TolerationYaml, Numbers, PoolPolicy}
use karpenter_provider_rafay.Controllers.Headroom.Config.{
  ConfigError, Result, ok, error, parse_headroom_config,
}
use karpenter_provider_rafay.Controllers.Headroom.Replicas.{
  Allocatable, PoolAllocatable, sum_allocatable, desired_replicas, per_pod_requests,
}

-- A Deployment of the pod namespace, as far as the controller writes or reads it. `headroom` says
-- that it has the headroom label with the value "true", `pool` is its headroom-pool label.
pub record Deployment (Quantity : Type 0) : Type 0 where
  pub headroom : Bool
  pub pool : String
  pub replicas : ℕ
  pub node_selector : String
  pub tolerations : List TolerationYaml
  pub requests : Dict Quantity

-- A pod of the pod namespace with the headroom label: its name, and whether it has an owner.
pub record Pod : Type 0 where
  pub name : String
  pub owned : Bool

-- A condition of a node: its type and its status.
pub record NodeCondition : Type 0 where
  pub kind : String
  pub status : String

-- A node of a pool.
pub record PoolNode : Type 0 where
  pub conditions : List NodeCondition
  pub allocatable : Allocatable

-- The answer to the Get of the ConfigMap.
pub data ConfigMapReply : Type 0 where
  config_map : Dict String → ConfigMapReply
  absent : ConfigMapReply
  get_error : String → ConfigMapReply

pub record Answers : Type 0 where
  pub policy : ConfigMapReply
  pub nodes : String → Listing PoolNode
  pub apply : String → Option String
  pub list_pods : Option String
  pub delete_pod : String → Option String
  pub list_deployments : Option String
  pub delete_deployment : String → Option String

-- The state of the cluster that a sync changes: the Deployments by name, and the headroom pods.
pub record Cluster (Quantity : Type 0) : Type 0 where
  pub deployments : Dict (Deployment Quantity)
  pub pods : List Pod

unfoldable pub deployment_name : String → String
deployment_name pool_name = "headroom-" ++ pool_name

unfoldable pub is_set : Option String → Bool
is_set none = false
is_set (some e) = true

-- cleanupLegacyPods: the pods that are left.
unfoldable pub cleanup_legacy_pods : Answers → List Pod → List Pod
unfolding is_set
cleanup_legacy_pods a pods = keep (λ p. p.owned || is_set (a.delete_pod p.name)) pods

-- cleanupStaleDeployments: the Deployments that are left, for the names of the configured pools.
unfoldable pub cleanup_stale :
    {Quantity : Type 0}
    → Answers
    → List String
    → Dict (Deployment Quantity)
    → Dict (Deployment Quantity)
unfolding is_set contains
cleanup_stale a configured [] = []
cleanup_stale a configured ((name, d) ∷ deps) =
    let rest = cleanup_stale a configured deps in
    if d.headroom && not (contains configured d.pool) && not (is_set (a.delete_deployment name))
    then rest
    else (name, d) ∷ rest

-- The first Ready condition decides.
unfoldable pub is_node_ready : List NodeCondition → Bool
is_node_ready [] = false
is_node_ready (c ∷ cs) =
    let rest = is_node_ready cs in if c.kind == "Ready" then c.status == "True" else rest

unfoldable pub filter_ready : List PoolNode → List PoolNode
unfolding is_node_ready
filter_ready nodes = keep (λ n. is_node_ready n.conditions) nodes

unfoldable pub ready_allocatable : List PoolNode → List Allocatable
unfolding filter_ready
ready_allocatable nodes = map (λ n. n.allocatable) (filter_ready nodes)

module _ {Quantity Fraction Buffer : Type 0} (num : Numbers Quantity Fraction Buffer) where
  -- What the function given to CreateOrUpdate writes.
  unfoldable pub desired_deployment :
      PoolPolicy Quantity Fraction → List PoolNode → Deployment Quantity
  unfolding ready_allocatable sum_allocatable desired_replicas per_pod_requests
  desired_deployment pool nodes =
      let total = sum_allocatable (ready_allocatable nodes) in
      record {
        headroom = true;
        pool = pool.name;
        replicas = desired_replicas num pool total (length (ready_allocatable nodes));
        node_selector = pool.name;
        tolerations = pool.tolerations;
        requests = per_pod_requests num pool total.gpu_key;
      }

  unfoldable pub apply :
      Answers
      → String
      → Deployment Quantity
      → Dict (Deployment Quantity)
      → Dict (Deployment Quantity)
  unfolding insert is_set
  apply a name d deps = if is_set (a.apply name) then deps else insert name d deps

  unfoldable pub from_nodes :
      Answers
      → PoolPolicy Quantity Fraction
      → Listing PoolNode
      → Dict (Deployment Quantity)
      → Dict (Deployment Quantity)
  unfolding desired_deployment deployment_name apply
  from_nodes a pool (list_error e) deps = deps
  from_nodes a pool (listed nodes) deps =
      apply a (deployment_name pool.name) (desired_deployment pool nodes) deps

  -- reconcilePool: the Deployments afterwards.
  unfoldable pub reconcile_pool :
      Answers
      → PoolPolicy Quantity Fraction
      → Dict (Deployment Quantity)
      → Dict (Deployment Quantity)
  unfolding from_nodes
  reconcile_pool a pool deps = from_nodes a pool (a.nodes pool.name) deps

  unfoldable pub reconcile_pools :
      Answers
      → List (PoolPolicy Quantity Fraction)
      → Dict (Deployment Quantity)
      → Dict (Deployment Quantity)
  unfolding reconcile_pool
  reconcile_pools a [] deps = deps
  reconcile_pools a (pool ∷ pools) deps = reconcile_pools a pools (reconcile_pool a pool deps)

  -- loadPools
  unfoldable pub load_pools :
      ConfigMapReply → Result (List (PoolPolicy Quantity Fraction)) × Option String
  unfolding parse_headroom_config
  load_pools absent = (ok [], none)
  load_pools (get_error e) = (ok [], some e)
  load_pools (config_map m) = (parse_headroom_config num m, none)

  unfoldable pub sync_pods : Answers → List Pod → List Pod
  unfolding cleanup_legacy_pods
  sync_pods a pods = elim a.list_pods [ none ↦ cleanup_legacy_pods a pods | some e ↦ pods ]

  unfoldable pub sync_deployments :
      Answers
      → List (PoolPolicy Quantity Fraction)
      → Dict (Deployment Quantity)
      → Dict (Deployment Quantity)
  unfolding reconcile_pools cleanup_stale
  sync_deployments a pools deps =
      let applied = reconcile_pools a pools deps in
      elim a.list_deployments [
        | none ↦ cleanup_stale a (map (λ p. p.name) pools) applied
        | some e ↦ applied
      ]

  unfoldable pub sync :
      Answers
      → Result (List (PoolPolicy Quantity Fraction)) × Option String
      → Cluster Quantity
      → Cluster Quantity
  unfolding sync_deployments sync_pods
  sync a (_, some e) c = c
  sync a (error e, none) c = c
  sync a (ok pools, none) c = record {
    deployments = sync_deployments a pools c.deployments;
    pods = sync_pods a c.pods;
  }

  -- Reconcile: the cluster afterwards.
  unfoldable pub reconcile : Answers → Cluster Quantity → Cluster Quantity
  unfolding sync load_pools
  reconcile a c = sync a (load_pools a.policy) c
