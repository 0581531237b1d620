-- ===== src/Controllers/Headroom/Sync/Results.antt =====
-- What Reconcile of pkg/controllers/headroom/controller.go returns.
use karpenter_provider_rafay.Prelude.{String, List, [], ◌∷◌, Option, none, some}
use mathlib.Core.List.{◌++◌ as append}
use karpenter_provider_rafay.Kube.{listed, list_error}
use karpenter_provider_rafay.Controllers.Headroom.{Numbers, PoolPolicy}
use karpenter_provider_rafay.Controllers.Headroom.Config.{ConfigError, Result, ok, error}
use karpenter_provider_rafay.Controllers.Headroom.Sync.{Answers, deployment_name, load_pools}

-- An error of a sync that goes on after it.
pub data SyncFailure : Type 0 where
  pool_failed : String → String → SyncFailure
  pods_failed deployments_failed : String → SyncFailure

-- The result of Reconcile: the next sync after the interval, or an error.
pub data SyncResult : Type 0 where
  requeue_after : SyncResult
  get_failed : String → SyncResult
  policy_failed : ConfigError → SyncResult
  joined : List SyncFailure → SyncResult

module _ {Quantity Fraction Buffer : Type 0} (num : Numbers Quantity Fraction Buffer) where
  -- The error of reconcilePool, that of one pool, if there is one.
  unfoldable pub pool_errors : Answers → List (PoolPolicy Quantity Fraction) → List SyncFailure
  unfolding deployment_name
  pool_errors a [] = []
  pool_errors a (pool ∷ pools) =
      let rest = pool_errors a pools in
      elim (a.nodes pool.name) [
        | list_error e ↦ pool_failed pool.name e ∷ rest
        | listed nodes ↦ elim (a.apply (deployment_name pool.name)) [
          | some e ↦ pool_failed pool.name e ∷ rest
          | none ↦ rest
        ]
      ]

  -- The errors that Reconcile joins: those of the pools, and those of the two lists for the removals,
  -- whose single failures are only logged.
  unfoldable pub sync_errors : Answers → List (PoolPolicy Quantity Fraction) → List SyncFailure
  unfolding pool_errors
  sync_errors a pools = append (pool_errors a pools) (
      append (elim a.list_pods [ none ↦ [] | some e ↦ pods_failed e ∷ [] ])
        (elim a.list_deployments [ none ↦ [] | some e ↦ deployments_failed e ∷ [] ]))

  unfoldable pub result_of :
      Answers → Result (List (PoolPolicy Quantity Fraction)) × Option String → SyncResult
  unfolding sync_errors
  result_of a (_, some e) = get_failed e
  result_of a (error e, none) = policy_failed e
  result_of a (ok pools, none) = elim (sync_errors a pools) [
    | [] ↦ requeue_after
    | e ∷ es ↦ joined (e ∷ es)
  ]

  -- What Reconcile returns.
  unfoldable pub reconcile_result : Answers → SyncResult
  unfolding result_of load_pools
  reconcile_result a = result_of a (load_pools num a.policy)
