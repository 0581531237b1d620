-- ===== src/Controllers/Headroom/Replicas.antt =====
-- sumAllocatable, desiredReplicas, ceilDiv and perPodRequests of
-- pkg/controllers/headroom/controller.go. The sums are those of int64, which a pool does not reach.
use karpenter_provider_rafay.Prelude.{
  ℤ, pos, negsuc, ℕ, zero, suc, ◌+◌, ◌≤◌, String, ◌≡◌, ◌⊎◌, inl, inr, ◌||◌, ◌&&◌, not, List, [],
  ◌∷◌, none, some, Dict, lookup, ltb, nat_eq, ◌==◌, Option-cases, if◌then◌else◌, arith,
}
use karpenter_provider_rafay.Controllers.Headroom.{Numbers, PoolPolicy}

abbrev pub max_headroom_replicas : ℕ
max_headroom_replicas = 5000

abbrev pub gpu_resource_names : List String
gpu_resource_names = "nvidia.com/gpu" ∷ "amd.com/gpu" ∷ []

-- status.allocatable of a ready node: milli-CPUs, bytes and extended resources.
pub record Allocatable : Type 0 where
  pub cpu_milli : ℕ
  pub mem_bytes : ℕ
  pub extended : Dict ℕ

pub record PoolAllocatable : Type 0 where
  pub cpu_milli : ℕ
  pub mem_bytes : ℕ
  pub gpu : ℕ
  pub gpu_key : String

unfoldable pub add_gpu : List String → Allocatable → PoolAllocatable → PoolAllocatable
add_gpu [] alloc total = total
add_gpu (key ∷ ks) alloc total = elim (lookup key alloc.extended) [
  | none ↦ add_gpu ks alloc total
  | some zero ↦ add_gpu ks alloc total
  | some (suc q) ↦ add_gpu ks alloc (record total { gpu = total.gpu + suc q; gpu_key = key })
]

unfoldable pub sum_from : List Allocatable → PoolAllocatable → PoolAllocatable
unfolding add_gpu
sum_from [] total = total
sum_from (alloc ∷ nodes) total = sum_from nodes (
    add_gpu gpu_resource_names alloc (record total {
      cpu_milli = total.cpu_milli + alloc.cpu_milli;
      mem_bytes = total.mem_bytes + alloc.mem_bytes;
    }))

unfoldable pub sum_allocatable : List Allocatable → PoolAllocatable
unfolding sum_from
sum_allocatable nodes =
    sum_from nodes (record { cpu_milli = 0; mem_bytes = 0; gpu = 0; gpu_key = "" })

unfoldable pub max : ℕ → ℕ → ℕ
max a b = if ltb a b then b else a

module _ {Quantity Fraction Buffer : Type 0} (num : Numbers Quantity Fraction Buffer) where
  unfoldable pub ceil_div : Buffer → ℤ → ℕ
  ceil_div buffer (negsuc n) = 0
  ceil_div buffer (pos per_pod) =
      if nat_eq per_pod 0 || not (num.positive_buffer buffer)
      then 0
      else elim (num.ceil_quotient buffer per_pod) [
        | none ↦ max_headroom_replicas
        | some n ↦ if ltb max_headroom_replicas n then max_headroom_replicas else n
      ]

  -- The three resources, each if it is configured.
  unfoldable pub cpu_replicas : PoolPolicy Quantity Fraction → PoolAllocatable → ℕ
  unfolding ceil_div
  cpu_replicas pool total =
      if num.positive pool.cpu
      then ceil_div (num.scaled total.cpu_milli pool.cpu) (num.milli_value pool.pod_cpu)
      else 0

  unfoldable pub memory_replicas : PoolPolicy Quantity Fraction → PoolAllocatable → ℕ
  unfolding ceil_div
  memory_replicas pool total =
      if num.positive pool.memory
      then ceil_div (num.scaled total.mem_bytes pool.memory) (num.value pool.pod_memory)
      else 0

  unfoldable pub gpu_replicas : PoolPolicy Quantity Fraction → PoolAllocatable → ℕ
  unfolding ceil_div
  gpu_replicas pool total =
      if num.positive pool.gpu && not (num.is_zero pool.pod_gpu)
      then ceil_div (num.scaled total.gpu pool.gpu) (num.value pool.pod_gpu)
      else 0

  unfoldable pub buffer_replicas : PoolPolicy Quantity Fraction → PoolAllocatable → ℕ → ℕ
  unfolding cpu_replicas memory_replicas gpu_replicas max
  buffer_replicas pool total zero = 0
  buffer_replicas pool total (suc ready_nodes) =
      max (max (max 0 (cpu_replicas pool total)) (memory_replicas pool total))
        (gpu_replicas pool total)

  unfoldable pub desired_replicas : PoolPolicy Quantity Fraction → PoolAllocatable → ℕ → ℕ
  unfolding buffer_replicas max
  desired_replicas pool total ready_nodes =
      let n = max (buffer_replicas pool total ready_nodes) pool.min_pods in
      if ltb max_headroom_replicas n then max_headroom_replicas else n

  -- perPodRequests
  unfoldable pub per_pod_requests : PoolPolicy Quantity Fraction → String → Dict Quantity
  per_pod_requests pool gpu_key =
      let base = ("cpu", pool.pod_cpu) ∷ ("memory", pool.pod_memory) ∷ [] in
      if not (num.is_zero pool.pod_gpu) && not (gpu_key == "")
      then (gpu_key, pool.pod_gpu) ∷ base
      else base

  ceil_div_bound : (buffer : Buffer) (per_pod : ℤ) → ceil_div buffer per_pod ≤ max_headroom_replicas
  unfolding ceil_div
  ceil_div_bound buffer (negsuc n) = omega arith
  ceil_div_bound buffer (pos n) = elim (Option-cases (num.ceil_quotient buffer n)) [
    | inl e ↦ rw (e, ceil_div) (ground arith)
    | inr (q, e) ↦ rw (e, ceil_div) (ground arith)
  ]

  capped :
      (a b c m : ℕ)
      → a ≤ max_headroom_replicas
      → b ≤ max_headroom_replicas
      → c ≤ max_headroom_replicas
      → let all = max (max (max (max 0 a) b) c) m in
        let n = if ltb max_headroom_replicas all then max_headroom_replicas else all in
        (n ≤ max_headroom_replicas)
        × ((n ≡ max_headroom_replicas) ⊎ (m ≤ n))
        × (a ≤ n)
        × (b ≤ n)
        × (c ≤ n)
  unfolding max
  capped a b c m ha hb hc = ground arith

  parts_bound :
      (pool : PoolPolicy Quantity Fraction) (total : PoolAllocatable)
      → (cpu_replicas pool total ≤ max_headroom_replicas)
        × (memory_replicas pool total ≤ max_headroom_replicas)
        × (gpu_replicas pool total ≤ max_headroom_replicas)
  unfolding cpu_replicas memory_replicas gpu_replicas
  parts_bound pool total = ground (
    arith,
    ceil_div_bound (num.scaled total.cpu_milli pool.cpu) (num.milli_value pool.pod_cpu),
    ceil_div_bound (num.scaled total.mem_bytes pool.memory) (num.value pool.pod_memory),
    ceil_div_bound (num.scaled total.gpu pool.gpu) (num.value pool.pod_gpu),
  )

  -- The replica count is at most the cap; it is the cap or reaches minPods; and it reaches the buffer
  -- of each resource, unless no node is ready, when it is at most minPods.
  pub desired_replicas_bounds :
      (pool : PoolPolicy Quantity Fraction) (total : PoolAllocatable) (ready_nodes : ℕ)
      → let n = desired_replicas pool total ready_nodes in
        (n ≤ max_headroom_replicas)
        × ((n ≡ max_headroom_replicas) ⊎ (pool.min_pods ≤ n))
        × (((ready_nodes ≡ 0) × (n ≤ pool.min_pods))
            ⊎ ((cpu_replicas pool total ≤ n)
                × (memory_replicas pool total ≤ n)
                × (gpu_replicas pool total ≤ n)))
  unfolding desired_replicas buffer_replicas max
  desired_replicas_bounds pool total zero = ground arith
  desired_replicas_bounds pool total (suc k) =
      let b = parts_bound pool total in
      let c =
        capped (cpu_replicas pool total) (memory_replicas pool total) (gpu_replicas pool total)
          pool.min_pods b.0 b.1 b.2 in
      (c.0, c.1, inr (c.2, c.3, c.4))
