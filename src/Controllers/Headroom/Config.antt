-- ===== src/Controllers/Headroom/Config.antt =====
-- pkg/controllers/headroom/config.go
pub mod Contract
use karpenter_provider_rafay.Prelude.{
  ℤ, pos, negsuc, ℕ, text_le, trim_percent, String, Bool, true, false, ◌||◌, ◌&&◌, not, List, [],
  ◌∷◌, ◌++◌, Option, none, some, Dict, lookup, is_some, keys, contains, keep, trim_space, ◌==◌,
  if◌then◌else◌,
}
use karpenter_provider_rafay.Controllers.Headroom.{
  TolerationYaml, PoolPolicyYaml, Numbers, PoolPolicy,
}

pub data ConfigError : Type 0 where
  invalid_yaml : ConfigError
  duplicate : String → ConfigError
  invalid : String → String → ConfigError

pub data Result (A : Type 0) : Type 0 where
  ok : A → Result A
  error : ConfigError → Result A

unfoldable pub and_then : {A B : Type 0} → Result A → (A → Result B) → Result B
and_then (ok a) f = f a
and_then (error e) f = error e

abbrev pub well_known_keys : List String
well_known_keys = "policy" ∷ "config" ∷ []

abbrev pub default_pod_cpu : String
default_pod_cpu = "500m"

abbrev pub default_pod_memory : String
default_pod_memory = "512Mi"

abbrev pub min_pod_cpu : String
min_pod_cpu = "1m"

abbrev pub min_pod_memory : String
min_pod_memory = "1Mi"

-- The part of candidateKeys with the well-known keys, and isWellKnownKey.
unfoldable pub known_keys : {A : Type 0} → Dict A → List String
known_keys data_ = keep (λ k. is_some (lookup k data_)) well_known_keys

unfoldable pub is_well_known_key : String → Bool
unfolding contains
is_well_known_key key = contains well_known_keys key

-- sort.Strings
unfoldable pub insert_sorted : String → List String → List String
unfolding text_le
insert_sorted k [] = k ∷ []
insert_sorted k (x ∷ xs) =
    let rest = insert_sorted k xs in if text_le k x then k ∷ x ∷ xs else x ∷ rest

unfoldable pub sort : List String → List String
unfolding insert_sorted
sort [] = []
sort (x ∷ xs) = insert_sorted x (sort xs)

-- candidateKeys
unfoldable pub candidate_keys : Dict String → List String
unfolding known_keys is_well_known_key sort
candidate_keys m = known_keys m ++ sort (keep (λ k. not (is_well_known_key k)) (keys m))

-- The operators and effects that parseTolerations lets through.
unfoldable pub valid_toleration : TolerationYaml → Bool
unfolding contains
valid_toleration t =
    contains ("" ∷ "Exists" ∷ "Equal" ∷ []) t.operator
    && contains ("" ∷ "NoSchedule" ∷ "PreferNoSchedule" ∷ "NoExecute" ∷ []) t.effect

unfoldable pub parse_tolerations : List TolerationYaml → Option (List TolerationYaml)
unfolding valid_toleration
parse_tolerations [] = some []
parse_tolerations (t ∷ ts) = elim (parse_tolerations ts) [
  | none ↦ none
  | some rest ↦ if valid_toleration t then some (t ∷ rest) else none
]

-- `if err != nil { return nil, fmt.Errorf("pool %q <field>: …") }`
unfoldable pub or_invalid : {A : Type 0} → String → String → Option A → Result A
or_invalid pool field none = error (invalid pool field)
or_invalid pool field (some a) = ok a

unfoldable pub min_pods_of : ℤ → Option ℕ
min_pods_of (pos n) = some n
min_pods_of (negsuc n) = none

-- The fractions and the sizes of a pool.
pub record Fractions (Fraction : Type 0) : Type 0 where
  pub cpu : Fraction
  pub memory : Fraction
  pub gpu : Fraction

pub record Sizes (Quantity : Type 0) : Type 0 where
  pub pod_cpu : Quantity
  pub pod_memory : Quantity
  pub pod_gpu : Quantity

module _ {Quantity Fraction Buffer : Type 0} (num : Numbers Quantity Fraction Buffer) where
  -- parsePercent
  unfoldable pub parse_percent : String → Option Fraction
  unfolding trim_space trim_percent
  parse_percent s =
      let t = trim_space s in
      if t == ""
      then some num.zero_fraction
      else elim (num.parse_float (trim_space (trim_percent t))) [
        | none ↦ none
        | some v ↦ if num.in_percent_range v then some (num.hundredth v) else none
      ]

  unfoldable pub parse_quantity : String → String → Option Quantity
  unfolding trim_space
  parse_quantity s def =
      let t = trim_space s in
      let u = if t == "" then def else t in
      if u == "" then some num.zero_quantity else num.parse_quantity u

  -- `parsed.PodCPU.Cmp(minPodCPUQuantity) < 0`, where MustParse has given the minimum.
  unfoldable pub at_least : String → Quantity → Option Quantity
  at_least least q = elim (num.parse_quantity least) [
    | none ↦ none
    | some m ↦ if num.below q m then none else some q
  ]

  unfoldable pub not_negative : Quantity → Option Quantity
  not_negative q = if num.negative q then none else some q

  -- A per-pod size: it is read and compared with its minimum.
  unfoldable pub size_at_least : String → String → String → String → String → Result Quantity
  unfolding and_then or_invalid parse_quantity at_least
  size_at_least pool field text def least =
      and_then (or_invalid pool field (parse_quantity text def))
        λ q. or_invalid pool field (at_least least q)

  unfoldable pub gpu_size : String → String → Result Quantity
  unfolding and_then or_invalid parse_quantity not_negative
  gpu_size pool text =
      and_then (or_invalid pool "podGPU" (parse_quantity text ""))
        λ q. or_invalid pool "podGPU" (not_negative q)

  -- The checks of the fractions of one pool in unmarshalPools, in their order.
  unfoldable pub parse_fractions : PoolPolicyYaml → Result (Fractions Fraction)
  unfolding and_then or_invalid parse_percent
  parse_fractions p = and_then (or_invalid p.name "cpu" (parse_percent p.cpu)) λ cpu.
      and_then (or_invalid p.name "memory" (parse_percent p.memory)) λ memory.
        and_then
          (or_invalid p.name "gpu"
            (if p.gpu == "" then some num.zero_fraction else parse_percent p.gpu))
          λ gpu. ok (record { cpu = cpu; memory = memory; gpu = gpu })

  -- Those of its sizes.
  unfoldable pub parse_sizes : PoolPolicyYaml → Result (Sizes Quantity)
  unfolding and_then size_at_least gpu_size
  parse_sizes p =
      and_then (size_at_least p.name "podCPU" p.pod_cpu default_pod_cpu min_pod_cpu) λ pod_cpu.
        and_then (size_at_least p.name "podMemory" p.pod_memory default_pod_memory min_pod_memory)
          λ pod_memory.
            and_then (gpu_size p.name p.pod_gpu) λ pod_gpu.
              ok (record { pod_cpu = pod_cpu; pod_memory = pod_memory; pod_gpu = pod_gpu })

  -- All of them.
  unfoldable pub parse_pool : PoolPolicyYaml → Result (PoolPolicy Quantity Fraction)
  unfolding and_then or_invalid parse_fractions parse_sizes
  parse_pool p = and_then (parse_fractions p) λ f. and_then (parse_sizes p) λ s.
      and_then (or_invalid p.name "minPods" (min_pods_of p.min_pods)) λ min_pods.
        and_then (or_invalid p.name "tolerations" (parse_tolerations p.tolerations)) λ tolerations.
          ok (record {
            name = p.name;
            cpu = f.cpu;
            memory = f.memory;
            gpu = f.gpu;
            pod_cpu = s.pod_cpu;
            pod_memory = s.pod_memory;
            pod_gpu = s.pod_gpu;
            min_pods = min_pods;
            tolerations = tolerations;
          })

  -- The loop of unmarshalPools: a pool without a name is passed over.
  unfoldable pub parse_pools :
      List String → List PoolPolicyYaml → Result (List (PoolPolicy Quantity Fraction))
  unfolding parse_pool contains and_then
  parse_pools seen [] = ok []
  parse_pools seen (p ∷ ps) =
      let skip = parse_pools seen ps in
      let go_on = parse_pools (p.name ∷ seen) ps in
      if p.name == ""
      then skip
      else if contains seen p.name
      then error (duplicate p.name)
      else and_then (parse_pool p) λ parsed. and_then go_on λ rest. ok (parsed ∷ rest)

  unfoldable pub unmarshal_pools : String → Result (List (PoolPolicy Quantity Fraction))
  unfolding parse_pools
  unmarshal_pools text = elim (num.decode text) [
    | none ↦ error invalid_yaml
    | some pools ↦ parse_pools [] pools
  ]

  -- data[key], for a key of the map
  unfoldable pub pools_at : Dict String → String → Result (List (PoolPolicy Quantity Fraction))
  unfolding unmarshal_pools
  pools_at m key = elim (lookup key m) [
    | none ↦ unmarshal_pools ""
    | some text ↦ unmarshal_pools text
  ]

  -- The loop of parseHeadroomConfig, with an error of the keys seen so far, if there is one.
  unfoldable pub scan_keys :
      Dict String → List String → Option ConfigError → Result (List (PoolPolicy Quantity Fraction))
  unfolding pools_at
  scan_keys m [] none = ok []
  scan_keys m [] (some e) = error e
  scan_keys m (key ∷ ks) err = elim (pools_at m key) [
    | error e ↦ scan_keys m ks (some e)
    | ok [] ↦ scan_keys m ks err
    | ok (p ∷ ps) ↦ ok (p ∷ ps)
  ]

  unfoldable pub parse_headroom_config : Dict String → Result (List (PoolPolicy Quantity Fraction))
  unfolding scan_keys candidate_keys
  parse_headroom_config m = scan_keys m (candidate_keys m) none
