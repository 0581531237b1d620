-- ===== src/Wiring.antt =====
-- cmd/controller/main.go: what main wires once the broker client is configured. The controllers of
-- Karpenter itself are a parameter.
pub mod Reports
use karpenter_provider_rafay.Prelude.{
  ℕ, ℤ, String, Bool, true, false, List, [], ◌∷◌, ◌++◌, Option, none, some, map, trim_space, ◌==◌,
  if◌then◌else◌,
}
use karpenter_provider_rafay.Rafay.Batcher.{NodeBatcher, new_node_batcher, set_failure_handler}
use karpenter_provider_rafay.Rafay.Batcher.System.{System, collecting}
use karpenter_provider_rafay.Controllers.NodeAdoption.Watch.{adoption_enabled}
use karpenter_provider_rafay.Controllers.NodeConfig.{enabled_from_env, sync_interval_from_env}

abbrev pub default_headroom_namespace : String
default_headroom_namespace = "karpenter"

pub data Controller (Core : Type 0) : Type 0 where
  rafay_node_class node_provider_id node_adoption batch_resume : Controller Core
  -- its namespace for pods, and that of its ConfigMap
  headroom : String → String → Controller Core
  -- its sync interval
  node_config : ℕ → Controller Core
  core : Core → Controller Core

-- What main does to the batcher, and what it gives to the operator.
pub data Act (Core : Type 0) : Type 0 where
  sets_failure_handler starts_batcher : Act Core
  starts_controllers : List (Controller Core) → Act Core

-- `get` is os.Getenv; the parsers are strconv.ParseBool and time.ParseDuration.
pub record Env : Type 0 where
  pub get : String → String
  pub parse_bool : String → Option Bool
  pub parse_duration : String → Option ℤ

unfoldable pub or_default : String → String → String
unfolding trim_space
or_default value default = if trim_space value == "" then default else trim_space value

module _ {Core : Type 0} (env : Env) where
  unfoldable pub headroom_controller : Controller Core
  unfolding or_default
  headroom_controller =
      let namespace = or_default (env.get "HEADROOM_NAMESPACE") default_headroom_namespace in
      headroom namespace (or_default (env.get "HEADROOM_CONFIG_NAMESPACE") namespace)

  unfoldable pub adoption_controllers : List (Controller Core)
  unfolding adoption_enabled
  adoption_controllers =
      if adoption_enabled env.parse_bool (env.get "KARPENTER_ADOPT_EXISTING_NODES")
      then node_adoption ∷ []
      else []

  unfoldable pub config_controllers : List (Controller Core)
  unfolding enabled_from_env sync_interval_from_env
  config_controllers =
      if enabled_from_env env.parse_bool (env.get "KARPENTER_CONFIG_BOOTSTRAP")
      then node_config
          (sync_interval_from_env env.parse_duration (env.get "KARPENTER_CONFIG_SYNC_INTERVAL"))
        ∷ []
      else []

  -- allCtrls
  unfoldable pub all_controllers : List Core → List (Controller Core)
  unfolding headroom_controller adoption_controllers config_controllers
  all_controllers cores =
      (((rafay_node_class ∷ node_provider_id ∷ headroom_controller ∷ []) ++ adoption_controllers)
        ++ config_controllers)
      ++ (batch_resume ∷ map core cores)

  unfoldable pub main_acts : List Core → List (Act Core)
  unfolding all_controllers
  main_acts cores =
      sets_failure_handler ∷ starts_batcher ∷ starts_controllers (all_controllers cores) ∷ []

-- The state in which the goroutines of the batcher start, if they do.
unfoldable pub batcher_at_start : {Core : Type 0} → List (Act Core) → NodeBatcher → Option System
unfolding set_failure_handler
batcher_at_start [] b = none
batcher_at_start (sets_failure_handler ∷ acts) b =
    batcher_at_start acts (set_failure_handler true b)
batcher_at_start (starts_batcher ∷ acts) b =
    some (record { batcher = b; callers = []; sender = collecting []; reported = [] })
batcher_at_start (starts_controllers cs ∷ acts) b = batcher_at_start acts b
