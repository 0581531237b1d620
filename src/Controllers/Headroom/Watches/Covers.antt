-- ===== src/Controllers/Headroom/Watches/Covers.antt =====
-- Which objects of those that a sync reads or writes make a request by an event: an object counts as it is
-- after an update, so one that has lost its label makes none.
use karpenter_provider_rafay.Prelude.{
  String, ◌≡◌, refl, inl, inr, true, false, List, [], ◌∷◌, none, Dict, lookup, contains, Bool-cases,
  ◌==◌, eq_iff, subst, eq_refl,
}
use karpenter_provider_rafay.Kube.{label, node_pool_label_key}
use karpenter_provider_rafay.Controllers.Headroom.{Numbers, PoolPolicy}
use karpenter_provider_rafay.Controllers.Headroom.Config.{ok}
use karpenter_provider_rafay.Controllers.Headroom.Config.Contract.{IsWellNamed}
use karpenter_provider_rafay.Controllers.Headroom.Sync.{ConfigMapReply, PoolNode, load_pools}
use karpenter_provider_rafay.Controllers.Headroom.Sync.Kept.{pool_names}
use karpenter_provider_rafay.Controllers.Headroom.Sync.Loaded.{loaded-IsWellNamed}
use karpenter_provider_rafay.Controllers.Headroom.Template.{Stored, mutate}
use karpenter_provider_rafay.Controllers.Headroom.Watches.{
  config_map_name, Meta, Request, node_changed, deployment_changed, config_map_changed, enqueued,
  config_map_predicate, map_to_sync_request, pool_node_predicate, headroom_deployment_predicate,
}

-- The synthetic request, alone.
abbrev pub sync_requests : List Request
sync_requests = record { name = "headroom-sync"; namespace = "" } ∷ []

abbrev pub policy_meta : String → Dict String → Meta
policy_meta config labels = record { name = config_map_name; namespace = config; labels = labels }

policy_is_watched :
    (pods config : String) (labels : Dict String)
    → enqueued pods config (config_map_changed (policy_meta config labels))
      ≡ record { name = "headroom-policy"; namespace = config } ∷ []
unfolding enqueued config_map_predicate
policy_is_watched pods config labels = rw (eq_refl config) refl

module _ {Quantity Fraction Buffer : Type 0} (num : Numbers Quantity Fraction Buffer) where
  named_not_empty :
      (seen : List String) (ps : List (PoolPolicy Quantity Fraction)) (x : String)
      → IsWellNamed num seen ps
      → contains (pool_names num ps) x ≡ true
      → (x == "") ≡ false
  unfolding contains
  named_not_empty seen [] x w h = cc
  named_not_empty seen (p ∷ ps) x w h = elim (Bool-cases (p.name == x)) [
    | inl e ↦ subst (λ t. (t == "") ≡ false) ((eq_iff p.name x).0 e) w.0
    | inr e ↦ named_not_empty (p.name ∷ seen) ps x w.2 (rw (e, contains) at h)
  ]

  -- A loaded policy's pools: a Node that carries the label of one makes the request of a sync.
  node_of_pool :
      (r : ConfigMapReply) (ps : List (PoolPolicy Quantity Fraction)) (pods config : String)
      (o : Meta)
      → load_pools num r ≡ (ok ps, none)
      → contains (pool_names num ps) (label node_pool_label_key o.labels) ≡ true
      → enqueued pods config (node_changed o) ≡ sync_requests
  unfolding enqueued map_to_sync_request pool_node_predicate
  node_of_pool r ps pods config o loaded named =
      let e =
        named_not_empty [] ps (label node_pool_label_key o.labels)
          (loaded-IsWellNamed num r ps loaded) named in
      rw (e) refl

module _ {Quantity Fraction Buffer Rest : Type 0} (num : Numbers Quantity Fraction Buffer)
    (rest : Rest) (pool : PoolPolicy Quantity Fraction) (nodes : List PoolNode) where
  abbrev pub mutated_meta : String → String → Stored Quantity Rest → Meta
  mutated_meta pods name d = record {
    name = name;
    namespace = pods;
    labels = (mutate num rest pool nodes d).labels;
  }

  mutated_is_watched :
      (d : Stored Quantity Rest) (pods config name : String)
      → enqueued pods config (deployment_changed (mutated_meta pods name d)) ≡ sync_requests
  unfolding enqueued map_to_sync_request headroom_deployment_predicate mutate lookup
  mutated_is_watched d pods config name = rw (eq_refl pods) refl

  -- The policy's ConfigMap makes the request of its own name, whatever its labels; a Node that carries
  -- the label of a pool of a loaded policy makes the one request of a sync, of the name "headroom-sync";
  -- and so does a Deployment of the pod namespace with the labels that the sync of a pool writes,
  -- whatever the Deployment was and whatever its name.
  pub changes_are_seen :
      (r : ConfigMapReply) (ps : List (PoolPolicy Quantity Fraction)) (d : Stored Quantity Rest)
      (pods config name : String) (labels : Dict String) (node : Meta)
      → load_pools num r ≡ (ok ps, none)
      → contains (pool_names num ps) (label node_pool_label_key node.labels) ≡ true
      → (enqueued pods config (config_map_changed (policy_meta config labels))
          ≡ record { name = "headroom-policy"; namespace = config } ∷ [])
        × (enqueued pods config (node_changed node) ≡ sync_requests)
        × (enqueued pods config (deployment_changed (mutated_meta pods name d)) ≡ sync_requests)
  changes_are_seen r ps d pods config name labels node loaded named = (
    policy_is_watched pods config labels,
    node_of_pool num r ps pods config node loaded named,
    mutated_is_watched d pods config name,
  )
