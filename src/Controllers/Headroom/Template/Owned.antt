-- ===== src/Controllers/Headroom/Template/Owned.antt =====
-- What the function of reconcilePool makes of a Deployment, and when it leaves it alone.
use karpenter_provider_rafay.Prelude.{
  ℕ, String, ◌≡◌, refl, List, [], ◌∷◌, Option, none, some, Dict, lookup, ◌==◌, arith,
}
use karpenter_provider_rafay.Kube.{label, node_pool_label_key}
use karpenter_provider_rafay.Controllers.Headroom.{Numbers, PoolPolicy}
use karpenter_provider_rafay.Controllers.Headroom.Sync.{PoolNode, Deployment, desired_deployment}
use karpenter_provider_rafay.Controllers.Headroom.Template.{
  headroom_label, headroom_pool_label, Container, Stored, pod_labels, own_containers, own_selector,
  mutate, requests_for,
}

value_of : Option ℕ → ℕ
value_of none = 1
value_of (some n) = n

own_selector_again :
    (labels : Dict String) (s : Option (Dict String))
    → own_selector labels (own_selector labels s) ≡ own_selector labels s
unfolding own_selector
own_selector_again labels none = refl
own_selector_again labels (some s) = refl

module _ {Quantity Rest : Type 0} where
  first_requests : List (Container Quantity Rest) → Dict Quantity
  first_requests [] = []
  first_requests (c ∷ cs) = c.requests

  -- The Deployment as far as a sync of the controller reads or writes it.
  unfoldable pub summary : Stored Quantity Rest → Deployment Quantity
  unfolding first_requests value_of lookup
  summary d = record {
    headroom = label headroom_label d.labels == "true";
    pool = label headroom_pool_label d.labels;
    replicas = value_of d.replicas;
    node_selector = label node_pool_label_key d.template.node_selector;
    tolerations = d.template.tolerations;
    requests = first_requests d.template.containers;
  }

  -- The Deployment with other values in the fields that the controller does not own.
  unfoldable pub refill_containers :
      Rest → List (Container Quantity Rest) → List (Container Quantity Rest)
  refill_containers r [] = []
  refill_containers r (c ∷ cs) = record c { rest = r } ∷ refill_containers r cs

  unfoldable pub refill : Rest → Rest → Rest → Stored Quantity Rest → Stored Quantity Rest
  unfolding refill_containers
  refill of_dep of_template of_container d = record d {
    rest = of_dep;
    template = record d.template {
      rest = of_template;
      containers = refill_containers of_container d.template.containers;
    };
  }

  module _ (rest : Rest) (requests : Dict Quantity) where
    own_containers_again :
        (r : Rest) (cs : List (Container Quantity Rest))
        → own_containers rest requests (refill_containers r (own_containers rest requests cs))
          ≡ refill_containers r (own_containers rest requests cs)
    unfolding own_containers refill_containers
    own_containers_again r [] = refl
    own_containers_again r (c ∷ []) = refl
    own_containers_again r (c ∷ b ∷ cs) = refl

    first_requests-own :
        (cs : List (Container Quantity Rest))
        → first_requests (own_containers rest requests cs) ≡ requests
    unfolding own_containers first_requests
    first_requests-own [] = refl
    first_requests-own (c ∷ []) = refl
    first_requests-own (c ∷ b ∷ cs) = refl

module _ {Quantity Fraction Buffer Rest : Type 0} (num : Numbers Quantity Fraction Buffer)
    (rest : Rest) (pool : PoolPolicy Quantity Fraction) (nodes : List PoolNode) where
  mutate-summary :
      (d : Stored Quantity Rest)
      → summary (mutate num rest pool nodes d) ≡ desired_deployment num pool nodes
  unfolding summary mutate desired_deployment
  mutate-summary d =
      ground
        (arith, first_requests-own rest (requests_for num rest pool nodes) d.template.containers)

  mutate_again :
      (d : Stored Quantity Rest) (a b c : Rest)
      → mutate num rest pool nodes (refill a b c (mutate num rest pool nodes d))
        ≡ refill a b c (mutate num rest pool nodes d)
  unfolding mutate refill
  mutate_again d a b c =
      rw
        (
          own_containers_again rest (requests_for num rest pool nodes) c d.template.containers,
          own_selector_again (pod_labels pool.name) d.selector,
        )
        refl

  -- What the function that is given to CreateOrUpdate makes of any stored Deployment is, as far as a
  -- sync reads or writes it, the desired Deployment of the pool for these nodes; and it changes
  -- nothing in a Deployment that it has made if only fields that the controller does not own got other
  -- values since, those of the Deployment, of its pod template and of its container.
  pub mutate_settles :
      (d : Stored Quantity Rest) (a b c : Rest)
      → (summary (mutate num rest pool nodes d) ≡ desired_deployment num pool nodes)
        × (mutate num rest pool nodes (refill a b c (mutate num rest pool nodes d))
            ≡ refill a b c (mutate num rest pool nodes d))
  mutate_settles d a b c = (mutate-summary d, mutate_again d a b c)
