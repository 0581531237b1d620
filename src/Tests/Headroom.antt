-- ===== src/Tests/Headroom.antt =====
-- The headroom controller with numbers for its quantities, fractions and buffers.
mod Stored
use karpenter_provider_rafay.Prelude.{
  pos, ℕ, ◌≡◌, refl, ◌≤◌, ◌*◌, ◌/◌, ◌⊎◌, true, false, String, List, [], ◌∷◌, Option, some, none,
  lookup, keep, keys, All, contains, ltb, leb, nat_eq, ◌==◌, if◌then◌else◌,
}
use karpenter_provider_rafay.Kube.{listed}
use karpenter_provider_rafay.Controllers.Headroom.{PoolPolicyYaml, Numbers, PoolPolicy}
use karpenter_provider_rafay.Controllers.Headroom.Config.{
  ok, candidate_keys, pools_at, parse_headroom_config, unmarshal_pools, min_pods_of,
  parse_tolerations,
}
use karpenter_provider_rafay.Controllers.Headroom.Config.Contract.{
  off_only_if_clean, IsWellFormed, unmarshal-IsWellFormed,
}
use karpenter_provider_rafay.Controllers.Headroom.Replicas.{
  PoolAllocatable, desired_replicas, cpu_replicas, memory_replicas, gpu_replicas,
  max_headroom_replicas, desired_replicas_bounds,
}
use karpenter_provider_rafay.Controllers.Headroom.Sync.{
  Deployment, Answers, absent, config_map, Cluster, reconcile, load_pools,
}
use karpenter_provider_rafay.Controllers.Headroom.Sync.Kept.{pool_names, removed_only_if_unnamed}

abbrev pool_yaml : PoolPolicyYaml
pool_yaml = record {
  name = "p";
  cpu = "10%";
  memory = "";
  pod_cpu = "";
  pod_memory = "";
  gpu = "";
  pod_gpu = "";
  min_pods = pos 1;
  tolerations = [];
}

abbrev decode_text : String → Option (List PoolPolicyYaml)
decode_text t =
    if t == "pools" then some (pool_yaml ∷ []) else if t == "pools: []" then some [] else none

-- Every quantity is read as 500 and every fraction as 10 percent.
abbrev pub numbers : Numbers ℕ ℕ ℕ
numbers = record {
  parse_quantity = λ s. some 500;
  zero_quantity = 0;
  below = ltb;
  negative = λ q. false;
  is_zero = λ q. nat_eq q 0;
  value = pos;
  milli_value = pos;
  parse_float = λ s. some 10;
  zero_fraction = 0;
  in_percent_range = λ f. leb f 100;
  hundredth = λ f. f;
  positive = λ f. ltb 0 f;
  scaled = λ a f. a * f;
  positive_buffer = λ b. ltb 0 b;
  ceil_quotient = λ b p. some (b / p);
  decode = decode_text;
}

off_only_if_clean_example :
    All
      (λ k. pools_at numbers (("policy", "pools: []") ∷ []) k ≡ ok [])
      (candidate_keys (("policy", "pools: []") ∷ []))
unfolding parse_headroom_config lookup keep contains keys
off_only_if_clean_example = off_only_if_clean numbers (("policy", "pools: []") ∷ []) refl

abbrev pub policy : PoolPolicy ℕ ℕ
policy = record {
  name = "p";
  cpu = 10;
  memory = 0;
  gpu = 0;
  pod_cpu = 500;
  pod_memory = 500;
  pod_gpu = 0;
  min_pods = 1;
  tolerations = [];
}

unmarshal-IsWellFormed_example : IsWellFormed numbers [] (policy ∷ [])
unfolding unmarshal_pools contains min_pods_of parse_tolerations
unmarshal-IsWellFormed_example = unmarshal-IsWellFormed numbers "pools" (policy ∷ []) refl

abbrev two : ℕ
two = 2

abbrev total : PoolAllocatable
total = record { cpu_milli = 4000; mem_bytes = 8000; gpu = 0; gpu_key = "" }

desired_replicas_bounds_example :
    let n = desired_replicas numbers policy total two in
    (n ≤ max_headroom_replicas)
    × ((n ≡ max_headroom_replicas) ⊎ (policy.min_pods ≤ n))
    × (((two ≡ 0) × (n ≤ policy.min_pods))
        ⊎ ((cpu_replicas numbers policy total ≤ n)
            × (memory_replicas numbers policy total ≤ n)
            × (gpu_replicas numbers policy total ≤ n)))
desired_replicas_bounds_example = desired_replicas_bounds numbers policy total two

abbrev answers : Answers
answers = record {
  policy = absent;
  nodes = λ p. listed [];
  apply = λ n. none;
  list_pods = none;
  delete_pod = λ n. none;
  list_deployments = none;
  delete_deployment = λ n. none;
}

abbrev old : Deployment ℕ
old = record {
  headroom = true;
  pool = "p";
  replicas = 3;
  node_selector = "p";
  tolerations = [];
  requests = [];
}

abbrev cluster : Cluster ℕ
cluster = record { deployments = ("headroom-p", old) ∷ []; pods = [] }

removed_only_if_unnamed_example :
    (pools : List (PoolPolicy ℕ ℕ)) × (load_pools numbers answers.policy ≡ (ok pools, none))
    × (old.headroom ≡ true)
    × (contains (pool_names numbers pools) old.pool ≡ false)
unfolding reconcile lookup contains
removed_only_if_unnamed_example =
    removed_only_if_unnamed numbers answers cluster "headroom-p" old refl refl

abbrev pub with_policy : Answers
with_policy = record answers { policy = config_map (("policy", "pools") ∷ []) }
