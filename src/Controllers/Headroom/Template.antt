-- ===== src/Controllers/Headroom/Template.antt =====
-- pkg/controllers/headroom/controller.go: the function that reconcilePool gives to CreateOrUpdate, on
-- the whole Deployment as it is stored. `Rest` stands for the fields that the controller does not own,
-- such as those that the API server defaults.
pub mod Owned
use karpenter_provider_rafay.Prelude.{
  ℕ, String, Bool, true, List, [], ◌∷◌, Option, none, some, Dict, lookup, length, ◌==◌,
}
use karpenter_provider_rafay.Kube.{label, node_pool_label_key}
use karpenter_provider_rafay.Controllers.Headroom.{TolerationYaml, Numbers, PoolPolicy}
use karpenter_provider_rafay.Controllers.Headroom.Priority.{preempt_never}
use karpenter_provider_rafay.Controllers.Headroom.Replicas.{
  sum_allocatable, desired_replicas, per_pod_requests,
}
use karpenter_provider_rafay.Controllers.Headroom.Sync.{PoolNode, Deployment, ready_allocatable}

abbrev pub headroom_label : String
headroom_label = "rafay.io/headroom"

abbrev pub headroom_pool_label : String
headroom_pool_label = "rafay.io/headroom-pool"

abbrev pub pause_image : String
pause_image = "registry.k8s.io/pause:3.9"

abbrev pub priority_class_name : String
priority_class_name = "rafay-headroom"

pub record Container (Quantity Rest : Type 0) : Type 0 where
  pub name : String
  pub image : String
  pub image_pull_policy : String
  pub requests : Dict Quantity
  pub limits : Dict Quantity
  pub rest : Rest

-- A TopologySpreadConstraint.
pub record Spread : Type 0 where
  pub max_skew : ℕ
  pub topology_key : String
  pub when_unsatisfiable : String
  pub match_labels : Dict String

pub record PodTemplate (Quantity Rest : Type 0) : Type 0 where
  pub labels : Dict String
  pub priority_class_name : String
  pub preemption_policy : Option String
  pub grace_period : Option ℕ
  pub node_selector : Dict String
  pub tolerations : List TolerationYaml
  pub spreads : List Spread
  pub containers : List (Container Quantity Rest)
  pub rest : Rest

pub record Stored (Quantity Rest : Type 0) : Type 0 where
  pub labels : Dict String
  pub selector : Option (Dict String)
  pub replicas : Option ℕ
  pub template : PodTemplate Quantity Rest
  pub rest : Rest

abbrev pub pod_labels : String → Dict String
pod_labels pool = (headroom_label, "true") ∷ (headroom_pool_label, pool) ∷ []

abbrev pub spread_of : String → Spread
spread_of pool = record {
  max_skew = 1;
  topology_key = "kubernetes.io/hostname";
  when_unsatisfiable = "ScheduleAnyway";
  match_labels = (headroom_pool_label, pool) ∷ [];
}

module _ {Quantity Rest : Type 0} where
  -- The fields of the container that the controller owns.
  unfoldable pub own_container : Dict Quantity → Container Quantity Rest → Container Quantity Rest
  own_container requests c = record c {
    name = "pause";
    image = pause_image;
    image_pull_policy = "IfNotPresent";
    requests = requests;
    limits = requests;
  }

  -- A template that has not one container gets one with the zero value, `rest` its other fields.
  unfoldable pub own_containers :
      Rest → Dict Quantity → List (Container Quantity Rest) → List (Container Quantity Rest)
  unfolding own_container
  own_containers rest requests (c ∷ []) = own_container requests c ∷ []
  own_containers rest requests _ =
      own_container requests (record {
        name = "";
        image = "";
        image_pull_policy = "";
        requests = [];
        limits = [];
        rest = rest;
      })
      ∷ []

  unfoldable pub own_template :
      Rest
      → String
      → List TolerationYaml
      → Dict Quantity
      → PodTemplate Quantity Rest
      → PodTemplate Quantity Rest
  unfolding own_containers
  own_template rest pool tolerations requests t = record t {
    labels = pod_labels pool;
    priority_class_name = priority_class_name;
    preemption_policy = some preempt_never;
    grace_period = some 0;
    node_selector = (node_pool_label_key, pool) ∷ [];
    tolerations = tolerations;
    spreads = spread_of pool ∷ [];
    containers = own_containers rest requests t.containers;
  }

-- The selector cannot change once it is set.
unfoldable pub own_selector : Dict String → Option (Dict String) → Option (Dict String)
own_selector labels none = some labels
own_selector labels (some s) = some s

module _ {Quantity Fraction Buffer Rest : Type 0} (num : Numbers Quantity Fraction Buffer)
    (rest : Rest) (pool : PoolPolicy Quantity Fraction) (nodes : List PoolNode) where
  abbrev pub replicas_for : ℕ
  replicas_for =
      desired_replicas num pool (sum_allocatable (ready_allocatable nodes))
        (length (ready_allocatable nodes))

  abbrev pub requests_for : Dict Quantity
  requests_for = per_pod_requests num pool (sum_allocatable (ready_allocatable nodes)).gpu_key

  -- The function: what it makes of the Deployment as it was fetched.
  unfoldable pub mutate : Stored Quantity Rest → Stored Quantity Rest
  unfolding own_template own_selector ready_allocatable sum_allocatable desired_replicas
      per_pod_requests
  mutate d = record d {
    labels = pod_labels pool.name;
    selector = own_selector (pod_labels pool.name) d.selector;
    replicas = some replicas_for;
    template = own_template rest pool.name pool.tolerations requests_for d.template;
  }
