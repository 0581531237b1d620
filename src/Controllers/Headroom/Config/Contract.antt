-- ===== src/Controllers/Headroom/Config/Contract.antt =====
-- What parseHeadroomConfig promises to its caller, who removes what the policy does not name.
use karpenter_provider_rafay.Prelude.{
  String, ◌≡◌, refl, ◌⊎◌, inl, inr, Bool, true, false, not, List, [], ◌∷◌, Option, none, some, Dict,
  contains, ◌==◌, Bool-cases, Option-cases, All, arith,
}
use karpenter_provider_rafay.Controllers.Headroom.{PoolPolicyYaml, Numbers, PoolPolicy}
use karpenter_provider_rafay.Controllers.Headroom.Config.{
  ConfigError, Result, ok, error, candidate_keys, pools_at, scan_keys, parse_headroom_config,
  parse_pool, parse_pools, unmarshal_pools, and_then, or_invalid, at_least, not_negative,
  min_pod_cpu, min_pod_memory, Sizes, parse_sizes, size_at_least, gpu_size, default_pod_cpu,
  default_pod_memory,
}

module _ {Quantity Fraction Buffer : Type 0} (num : Numbers Quantity Fraction Buffer) where
  abbrev pub Parsed : Type 0
  Parsed = Result (List (PoolPolicy Quantity Fraction))

  pub Parsed-cases :
      (r : Parsed)
      → ((e : ConfigError) × (r ≡ error e))
        ⊎ ((r ≡ ok [])
            ⊎ ((p : PoolPolicy Quantity Fraction) × (ps : List (PoolPolicy Quantity Fraction)) × (r
                  ≡ ok (p ∷ ps))))
  Parsed-cases (error e) = inl (e, refl)
  Parsed-cases (ok []) = inr (inl refl)
  Parsed-cases (ok (p ∷ ps)) = inr (inr (p, ps, refl))

  scan_off :
      (m : Dict String) (ks : List String) (err : Option ConfigError)
      → scan_keys num m ks err ≡ ok []
      → (err ≡ none) × All (λ k. pools_at num m k ≡ ok []) ks
  unfolding scan_keys
  scan_off m [] none h = (refl, tt)
  scan_off m [] (some e) h = cc
  scan_off m (k ∷ ks) err h = elim (Parsed-cases (pools_at num m k)) [
    | inl (e, r) ↦ absurd (ground (arith, (scan_off m ks (some e) (rw (r, scan_keys) at h)).0))
    | inr (inl r) ↦ let rest = scan_off m ks err (rw (r, scan_keys) at h) in (rest.0, (r, rest.1))
    | inr (inr (p, ps, r)) ↦ absurd (ground (arith, rw (r, scan_keys) at h))
  ]

  -- The policy is read as "no pools" only if every key of the ConfigMap that is looked at parses and
  -- declares none: a key that does not parse is never taken for an empty policy.
  pub off_only_if_clean :
      (m : Dict String)
      → parse_headroom_config num m ≡ ok []
      → All (λ k. pools_at num m k ≡ ok []) (candidate_keys m)
  unfolding parse_headroom_config
  off_only_if_clean m h = (scan_off m (candidate_keys m) none h).1

  -- A policy names each of its pools once, and no pool has an empty name.
  abbrev pub IsWellNamed : List String → List (PoolPolicy Quantity Fraction) → Type 0
  IsWellNamed seen [] = Unit
  IsWellNamed seen (p ∷ ps) =
      ((p.name == "") ≡ false) × (contains seen p.name ≡ false) × IsWellNamed (p.name ∷ seen) ps

  -- What every success has.
  unfoldable Holds : {A : Type 0} → (A → Type 0) → Result A → Type 0
  Holds P (ok a) = P a
  Holds P (error e) = Unit

  Holds-and_then :
      {A B : Type 0} (P : B → Type 0) (r : Result A) (f : A → Result B)
      → ((a : A) → r ≡ ok a → Holds P (f a))
      → Holds P (and_then r f)
  unfolding and_then Holds
  Holds-and_then P (ok a) f h = h a refl
  Holds-and_then P (error e) f h = tt

  -- The size is at least the one that the text says.
  abbrev pub at_least_size : String → Quantity → Bool
  at_least_size least q = elim (num.parse_quantity least) [
    | none ↦ false
    | some m ↦ not (num.below q m)
  ]

  abbrev pub IsSized : PoolPolicy Quantity Fraction → Type 0
  IsSized p =
      (at_least_size min_pod_cpu p.pod_cpu ≡ true)
      × (at_least_size min_pod_memory p.pod_memory ≡ true)
      × (num.negative p.pod_gpu ≡ false)

  abbrev Wanted : PoolPolicyYaml → PoolPolicy Quantity Fraction → Type 0
  Wanted p out = (out.name ≡ p.name) × IsSized out

  size_at_least-lem :
      (pool field text def least : String) (q : Quantity)
      → size_at_least num pool field text def least ≡ ok q
      → at_least_size least q ≡ true
  unfolding size_at_least and_then or_invalid at_least
  size_at_least-lem pool field text def least q h = ground arith

  gpu_size-lem :
      (pool text : String) (q : Quantity) → gpu_size num pool text ≡ ok q → num.negative q ≡ false
  unfolding gpu_size and_then or_invalid not_negative
  gpu_size-lem pool text q h = ground arith

  abbrev IsMeasured : Sizes Quantity → Type 0
  IsMeasured s =
      (at_least_size min_pod_cpu s.pod_cpu ≡ true)
      × (at_least_size min_pod_memory s.pod_memory ≡ true)
      × (num.negative s.pod_gpu ≡ false)

  -- Where the sizes of a pool come from.
  parse_sizes-parts :
      (p : PoolPolicyYaml) (s : Sizes Quantity)
      → parse_sizes num p ≡ ok s
      → (size_at_least num p.name "podCPU" p.pod_cpu default_pod_cpu min_pod_cpu ≡ ok s.pod_cpu)
        × (size_at_least num p.name "podMemory" p.pod_memory default_pod_memory min_pod_memory
            ≡ ok s.pod_memory)
        × (gpu_size num p.name p.pod_gpu ≡ ok s.pod_gpu)
  unfolding parse_sizes and_then
  parse_sizes-parts p s h = ground arith

  parse_sizes-IsMeasured :
      (p : PoolPolicyYaml) (s : Sizes Quantity) → parse_sizes num p ≡ ok s → IsMeasured s
  parse_sizes-IsMeasured p s h =
      let k = parse_sizes-parts p s h in
      (
        size_at_least-lem p.name "podCPU" p.pod_cpu default_pod_cpu min_pod_cpu s.pod_cpu k.0,
        size_at_least-lem p.name "podMemory" p.pod_memory default_pod_memory min_pod_memory
            s.pod_memory k.1,
        gpu_size-lem p.name p.pod_gpu s.pod_gpu k.2,
      )

  parse_pool-sizes :
      (p : PoolPolicyYaml) (out : PoolPolicy Quantity Fraction)
      → parse_pool num p ≡ ok out
      → (out.name ≡ p.name)
        × (parse_sizes num p
            ≡ ok (record {
              pod_cpu = out.pod_cpu;
              pod_memory = out.pod_memory;
              pod_gpu = out.pod_gpu;
            }))
  unfolding parse_pool and_then
  parse_pool-sizes p out h = ground arith

  parse_pool-Wanted :
      (p : PoolPolicyYaml) (out : PoolPolicy Quantity Fraction)
      → parse_pool num p ≡ ok out
      → Wanted p out
  parse_pool-Wanted p out h =
      let k = parse_pool-sizes p out h in (k.0, parse_sizes-IsMeasured p _ k.1)

  Holds-elim : {A : Type 0} (P : A → Type 0) (r : Result A) (a : A) → Holds P r → r ≡ ok a → P a
  unfolding Holds
  Holds-elim P (ok b) a h e = ground (arith, h, e)
  Holds-elim P (error x) a h e = cc

  abbrev pub IsWellFormed : List String → List (PoolPolicy Quantity Fraction) → Type 0
  IsWellFormed seen ps = IsWellNamed seen ps × All IsSized ps

  grows :
      (seen : List String) (name : String) (out : PoolPolicy Quantity Fraction)
      (rest : List (PoolPolicy Quantity Fraction))
      → (name == "") ≡ false
      → contains seen name ≡ false
      → (out.name ≡ name) × IsSized out
      → IsWellFormed (name ∷ seen) rest
      → Holds (IsWellFormed seen) (ok (out ∷ rest))
  unfolding Holds
  grows seen name out rest named fresh w h = rw (w.0) ((named, fresh, h.0), (w.1, h.1))

  no_pools : (seen : List String) → Holds (IsWellFormed seen) (ok [])
  unfolding Holds
  no_pools seen = (tt, tt)

  failed : {A : Type 0} (P : A → Type 0) (e : ConfigError) → Holds P (error e)
  unfolding Holds
  failed P e = tt

  parse_pools-Holds :
      (seen : List String) (ps : List PoolPolicyYaml)
      → Holds (IsWellFormed seen) (parse_pools num seen ps)
  unfolding parse_pools contains
  parse_pools-Holds seen [] = no_pools seen
  parse_pools-Holds seen (p ∷ ps) = elim (Bool-cases (p.name == "")) [
    | inl skip ↦ rw (skip, parse_pools) (parse_pools-Holds seen ps)
    | inr named ↦ elim (Bool-cases (contains seen p.name)) [
      | inl twice ↦ rw (named, twice, parse_pools) (failed (IsWellFormed seen) _)
      | inr fresh ↦
          rw (named, fresh, parse_pools)
            (Holds-and_then (IsWellFormed seen) (parse_pool num p) _ λ out e0.
              Holds-and_then (IsWellFormed seen) (parse_pools num (p.name ∷ seen) ps) _ λ rest e1.
                grows seen p.name out rest named fresh (parse_pool-Wanted p out e0) (
                  Holds-elim (IsWellFormed (p.name ∷ seen)) (parse_pools num (p.name ∷ seen) ps)
                    rest (parse_pools-Holds (p.name ∷ seen) ps) e1))
    ]
  ]

  -- The pools of a ConfigMap value that parses have names, each another one, per-pod sizes that are
  -- at least the minima, and no negative GPU count.
  pub unmarshal-IsWellFormed :
      (text : String) (pools : List (PoolPolicy Quantity Fraction))
      → unmarshal_pools num text ≡ ok pools
      → IsWellFormed [] pools
  unfolding unmarshal_pools
  unmarshal-IsWellFormed text pools h = elim (Option-cases (num.decode text)) [
    | inl e ↦ absurd (ground (arith, rw (e, unmarshal_pools) at h))
    | inr (ps, e) ↦
        Holds-elim (IsWellFormed []) (parse_pools num [] ps) pools (parse_pools-Holds [] ps)
          (rw (e, unmarshal_pools) at h)
  ]
