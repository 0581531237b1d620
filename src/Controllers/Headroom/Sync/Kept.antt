-- ===== src/Controllers/Headroom/Sync/Kept.antt =====
-- Which Deployments a sync of the headroom controller removes, and which it leaves in place.
use karpenter_provider_rafay.Prelude.{
  String, ◌≡◌, ◌≢◌, refl, ◌∙◌, ap, ◌⊎◌, inl, inr, Bool, true, false, ◌&&◌, not, List, [], ◌∷◌, All,
  Option, none, some, Dict, lookup, insert, lookup-insert, contains, map, ◌==◌, eq_iff, Bool-cases,
  Option-cases, arith,
}
use karpenter_provider_rafay.Kube.{Listing, listed, list_error}
use karpenter_provider_rafay.Controllers.Headroom.{Numbers, PoolPolicy}
use karpenter_provider_rafay.Controllers.Headroom.Config.{Result, ok, error}
use karpenter_provider_rafay.Controllers.Headroom.Sync.{
  Deployment, PoolNode, Answers, Cluster, is_set, deployment_name, cleanup_stale,
  desired_deployment, apply, from_nodes, reconcile_pool, reconcile_pools, load_pools,
  sync_deployments, sync, reconcile,
}

cleanup_removes :
    {Quantity : Type 0} (a : Answers) (configured : List String) (name : String)
    (d : Deployment Quantity) (deps : Dict (Deployment Quantity))
    → lookup name deps ≡ some d
    → lookup name (cleanup_stale a configured deps) ≡ none
    → (d.headroom ≡ true) × (contains configured d.pool ≡ false)
unfolding cleanup_stale lookup
cleanup_removes a configured name d [] h r = cc
cleanup_removes a configured name d ((k, e) ∷ deps) h r = elim (Bool-cases (k == name)) [
  | inl same ↦ elim (Bool-cases goes) [
    | inl gone ↦ here gone (rw (same, lookup) at h)
    | inr stays ↦ absurd (taken (rw (same, lookup) at (rw (stays, cleanup_stale) at r)))
  ]
  | inr other ↦
      cleanup_removes a configured name d deps (rw (other, lookup) at h) (elim (Bool-cases goes) [
        | inl gone ↦ rw (gone, cleanup_stale) at r
        | inr stays ↦ rw (other, lookup) at (rw (stays, cleanup_stale) at r)
      ])
]
  where
    goes : Bool
    goes = e.headroom && not (contains configured e.pool) && not (is_set (a.delete_deployment k))

    here :
        goes ≡ true → some e ≡ some d → (d.headroom ≡ true) × (contains configured d.pool ≡ false)
    here g i = ground (arith, i, g)

    taken : some e ≢ none
    taken i = ground (arith, i)

module _ {Quantity Fraction Buffer : Type 0} (num : Numbers Quantity Fraction Buffer) where
  abbrev pub pool_names : List (PoolPolicy Quantity Fraction) → List String
  pool_names = map λ p. p.name

  -- The entry is the old one, or it is of a configured pool.
  abbrev From : List String → Deployment Quantity → Deployment Quantity → Type 0
  From names d e = (e ≡ d) ⊎ (contains names e.pool ≡ true)

  reconcile_pool-From :
      (a : Answers) (pool : PoolPolicy Quantity Fraction) (name : String) (names : List String)
      (d : Deployment Quantity) (deps : Dict (Deployment Quantity))
      → contains names pool.name ≡ true
      → lookup name deps ≡ some d
      → (e : Deployment Quantity) × (lookup name (reconcile_pool num a pool deps) ≡ some e)
        × From names d e
  unfolding reconcile_pool from_nodes apply desired_deployment
  reconcile_pool-From a pool name names d deps c h = from_nodes-From (a.nodes pool.name)
    where
      wrote :
          (x : Deployment Quantity)
          → x.pool ≡ pool.name
          → (e : Deployment Quantity) × (lookup name (insert (deployment_name pool.name) x deps)
              ≡ some e)
            × From names d e
      wrote x p = elim (Bool-cases (deployment_name pool.name == name)) [
        | inl same ↦ (
          x,
          ground (arith, lookup-insert (deployment_name pool.name) name x deps, same),
          inr (ap (contains names) p ∙ c),
        )
        | inr other ↦ (
          d,
          ground (arith, lookup-insert (deployment_name pool.name) name x deps, other, h),
          inl refl,
        )
      ]

      from_nodes-From :
          (l : Listing PoolNode)
          → (e : Deployment Quantity) × (lookup name (from_nodes num a pool l deps) ≡ some e)
            × From names d e
      from_nodes-From (list_error x) = (d, h, inl refl)
      from_nodes-From (listed nodes) = elim (Option-cases (a.apply (deployment_name pool.name))) [
        | inl e ↦ rw (e, apply) (wrote (desired_deployment num pool nodes) refl)
        | inr (x, e) ↦ rw (e, apply) (d, h, inl refl)
      ]

  reconcile_pools-From :
      (a : Answers) (pools : List (PoolPolicy Quantity Fraction)) (name : String)
      (names : List String) (d e : Deployment Quantity) (deps : Dict (Deployment Quantity))
      → All (λ p. contains names p.name ≡ true) pools
      → From names d e
      → lookup name deps ≡ some e
      → (f : Deployment Quantity) × (lookup name (reconcile_pools num a pools deps) ≡ some f)
        × From names d f
  unfolding reconcile_pools
  reconcile_pools-From a [] name names d e deps c i h = (e, h, i)
  reconcile_pools-From a (pool ∷ pools) name names d e deps c i h =
      let next = reconcile_pool-From a pool name names e deps c.0 h in
      reconcile_pools-From a pools name names d next.0 (reconcile_pool num a pool deps) c.1
        (both i next.2) next.1
    where
      both : {g : Deployment Quantity} → From names d e → From names e g → From names d g
      both (inl p) (inl q) = inl (q ∙ p)
      both (inr p) (inl q) = inr (ap (λ (x : Deployment Quantity). contains names x.pool) q ∙ p)
      both p (inr q) = inr q

  pub All-named :
      (pools : List (PoolPolicy Quantity Fraction)) (names : List String)
      → ((x : String) → contains (pool_names pools) x ≡ true → contains names x ≡ true)
      → All (λ p. contains names p.name ≡ true) pools
  unfolding contains
  All-named [] names h = tt
  All-named (p ∷ pools) names h = (
    h p.name (ground (arith, eq_iff p.name p.name)),
    All-named pools names (λ x k. h x (ground (arith, k))),
  )

  -- What the Deployment is when the stale ones are removed tells what it was.
  decide :
      (names : List String) (d f : Deployment Quantity)
      → From names d f
      → (f.headroom ≡ true) × (contains names f.pool ≡ false)
      → (d.headroom ≡ true) × (contains names d.pool ≡ false)
  decide names d f (inl e) k = ground (arith, e, k)
  decide names d f (inr e) k = ground (arith, e, k)

  -- A sync removes a Deployment only if the policy was read without an error and does not name the
  -- Deployment's pool, and the Deployment carries the headroom label.
  pub removed_only_if_unnamed :
      (a : Answers) (c : Cluster Quantity) (name : String) (d : Deployment Quantity)
      → lookup name c.deployments ≡ some d
      → lookup name (reconcile num a c).deployments ≡ none
      → (pools : List (PoolPolicy Quantity Fraction)) × (load_pools num a.policy ≡ (ok pools, none))
        × (d.headroom ≡ true)
        × (contains (pool_names pools) d.pool ≡ false)
  unfolding reconcile sync sync_deployments
  removed_only_if_unnamed a c name d h r = go (load_pools num a.policy) refl r
    where
      named :
          (pools : List (PoolPolicy Quantity Fraction))
          → All (λ p. contains (pool_names pools) p.name ≡ true) pools
      named pools = All-named pools (pool_names pools) (λ x k. k)

      removed :
          (pools : List (PoolPolicy Quantity Fraction))
          → lookup name (sync_deployments num a pools c.deployments) ≡ none
          → (d.headroom ≡ true) × (contains (pool_names pools) d.pool ≡ false)
      removed pools g =
          let kept =
            reconcile_pools-From a pools name (pool_names pools) d d c.deployments (named pools)
              (inl refl) h in
          elim (Option-cases a.list_deployments) [
            | inl e ↦ decide (pool_names pools) d kept.0 kept.2 (
                cleanup_removes a (pool_names pools) name kept.0
                  (reconcile_pools num a pools c.deployments) kept.1
                  (rw (e, sync_deployments) at g))
            | inr (x, e) ↦ absurd (ground (arith, kept.1, rw (e, sync_deployments) at g))
          ]

      go :
          (l : Result (List (PoolPolicy Quantity Fraction)) × Option String)
          → load_pools num a.policy ≡ l
          → lookup name (sync num a l c).deployments ≡ none
          → (pools : List (PoolPolicy Quantity Fraction)) × (load_pools num a.policy
              ≡ (ok pools, none))
            × (d.headroom ≡ true)
            × (contains (pool_names pools) d.pool ≡ false)
      go (ok pools, none) e g = let k = removed pools g in (pools, e, k.0, k.1)
      go (ok pools, some x) e g = absurd (ground (arith, h, g))
      go (error x, none) e g = absurd (ground (arith, h, g))
      go (error x, some y) e g = absurd (ground (arith, h, g))
