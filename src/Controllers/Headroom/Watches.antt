-- ===== src/Controllers/Headroom/Watches.antt =====
-- Register and mapToSyncRequest of pkg/controllers/headroom/controller.go: the events that make a
-- request, and the request.
pub mod Covers
use karpenter_provider_rafay.Prelude.{
  String, Bool, not, ◌&&◌, List, [], ◌∷◌, Dict, lookup, or_else, ◌==◌, if◌then◌else◌,
}
use karpenter_provider_rafay.Kube.{label, node_pool_label_key}
use karpenter_provider_rafay.Controllers.Headroom.Template.{headroom_label}

abbrev pub config_map_name : String
config_map_name = "headroom-policy"

abbrev pub sync_request_name : String
sync_request_name = "headroom-sync"

-- The metadata of an object of which the cluster reports a change.
pub record Meta : Type 0 where
  pub name : String
  pub namespace : String
  pub labels : Dict String

-- The three kinds of object that the controller watches, as they are after the change: the predicates
-- of an update read the new object.
pub data Event : Type 0 where
  config_map_changed : Meta → Event
  node_changed : Meta → Event
  deployment_changed : Meta → Event

-- The namespaced name of a reconcile.Request.
pub record Request : Type 0 where
  pub name : String
  pub namespace : String

-- mapToSyncRequest
unfoldable pub map_to_sync_request : Meta → List Request
map_to_sync_request o = record { name = sync_request_name; namespace = "" } ∷ []

unfoldable pub config_map_predicate : String → Meta → Bool
config_map_predicate config_namespace o =
    (o.name == config_map_name) && (o.namespace == config_namespace)

unfoldable pub pool_node_predicate : Meta → Bool
unfolding lookup
pool_node_predicate o = not (label node_pool_label_key o.labels == "")

unfoldable pub headroom_deployment_predicate : String → Meta → Bool
unfolding lookup
headroom_deployment_predicate pod_namespace o =
    (o.namespace == pod_namespace) && (label headroom_label o.labels == "true")

-- What an event puts into the queue, for the pod namespace and the config namespace: a ConfigMap its
-- own name, a Node or a Deployment the request of mapToSyncRequest.
unfoldable pub enqueued : String → String → Event → List Request
unfolding map_to_sync_request config_map_predicate pool_node_predicate headroom_deployment_predicate
enqueued pod_namespace config_namespace (config_map_changed o) =
    if config_map_predicate config_namespace o
    then record { name = o.name; namespace = o.namespace } ∷ []
    else []
enqueued pod_namespace config_namespace (node_changed o) =
    if pool_node_predicate o then map_to_sync_request o else []
enqueued pod_namespace config_namespace (deployment_changed o) =
    if headroom_deployment_predicate pod_namespace o then map_to_sync_request o else []
