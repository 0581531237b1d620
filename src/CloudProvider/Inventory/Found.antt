-- ===== src/CloudProvider/Inventory/Found.antt =====
-- With the broker client, what Get and List say of a node of the cluster.
use karpenter_provider_rafay.Prelude.{
  String, ◌≡◌, refl, true, false, List, [], ◌∷◌, ◌++◌, some, Dict, All, map, keep, has_prefix, ◌==◌,
  eq_refl, arith,
}
use karpenter_provider_rafay.Kube.{Node, listed}
use karpenter_provider_rafay.CloudProvider.{
  rafay_provider_prefix, is_pending, GetResult, exists, missing, empty_id, get_failed,
  get_node_from_kube, get, list_nodes_from_kube,
}
use karpenter_provider_rafay.CloudProvider.Inventory.{
  KubeNode, Instance, Texts, broker_client, Got, instance_of, id_is_empty, not_found, get_error,
  parsed_capacity, capacity_texts, from_kube, get_from_nodes, get_by_client, list_from_nodes,
  list_by_client, node_info_to_node_claim, kube_node_to_node_info, got_from, get_from_kube,
  listed_from, list_from_kube,
}

abbrev pub instance_at : {Quantity : Type 0} → KubeNode Quantity → Instance Quantity
instance_at n = record { provider_id = n.node.provider_id; capacity = n.capacity }

module _ {Quantity : Type 0} (texts : Texts Quantity)
    (reads : (q : Quantity) → texts.parse_quantity (texts.text q) ≡ some q) where
  parsed-texts : (m : Dict Quantity) → parsed_capacity texts (capacity_texts texts m) ≡ m
  unfolding parsed_capacity capacity_texts
  parsed-texts [] = refl
  parsed-texts ((k, q) ∷ m) = rw (reads q, parsed-texts m) refl

  from_kube-instance : (n : KubeNode Quantity) → from_kube texts n ≡ instance_at n
  unfolding from_kube node_info_to_node_claim kube_node_to_node_info
  from_kube-instance n = rw (parsed-texts n.capacity) refl

  get-first :
      (id : String) (before after : List (KubeNode Quantity)) (n : KubeNode Quantity)
      → n.node.provider_id ≡ id
      → All (λ m. (m.node.provider_id == id) ≡ false) before
      → get_from_nodes texts id (before ++ n ∷ after) ≡ instance_of (instance_at n)
  unfolding get_from_nodes
  get-first id [] after n e h = rw (e, eq_refl id, parsed-texts n.capacity) refl
  get-first id (m ∷ before) after n e h = rw (h.0) (get-first id before after n e h.1)

  list-append :
      (xs ys : List (KubeNode Quantity))
      → list_from_nodes texts (xs ++ ys) ≡ list_from_nodes texts xs ++ list_from_nodes texts ys
  unfolding list_from_nodes
  list-append [] ys = refl
  list-append (n ∷ xs) ys = ground (arith, list-append xs ys)

  -- With the broker client, a node whose ID starts with "rafay://" and is not a placeholder, and that
  -- no node before it has, is what Get answers for its ID, with its ID and its capacity, and is listed so
  -- in its place by List, if a quantity is read back from its text.
  pub listed_is_got :
      (cluster : String) (before after : List (KubeNode Quantity)) (n : KubeNode Quantity)
      → has_prefix n.node.provider_id rafay_provider_prefix ≡ true
      → (n.node.provider_id == "") ≡ false
      → is_pending n.node.provider_id ≡ false
      → All (λ m. (m.node.provider_id == n.node.provider_id) ≡ false) before
      → (get_by_client texts broker_client n.node.provider_id (listed (before ++ n ∷ after))
          ≡ instance_of (instance_at n))
        × (list_by_client texts broker_client cluster (listed (before ++ n ∷ after))
            ≡ listed (list_from_nodes texts before ++ instance_at n ∷ list_from_nodes texts after))
  unfolding get_by_client list_by_client got_from get_from_kube listed_from list_from_kube
      list_from_nodes
  listed_is_got cluster before after n prefix set real fresh = (
    rw (set, real, get-first n.node.provider_id before after n refl fresh) refl,
    rw (list-append before (n ∷ after), set, prefix, from_kube-instance n) refl,
  )

-- What Get answers as far as the ID goes.
view : {Quantity : Type 0} → Got Quantity → GetResult
view (instance_of i) = exists i.provider_id
view id_is_empty = empty_id
view not_found = missing
view (get_error e) = get_failed e

ids : {Quantity : Type 0} → List (KubeNode Quantity) → List Node
ids nodes = map (λ n. n.node) nodes

module _ {Quantity : Type 0} (texts : Texts Quantity) where
  get_from_nodes-view :
      (id : String) (nodes : List (KubeNode Quantity))
      → view (get_from_nodes texts id nodes) ≡ get_node_from_kube id (ids nodes)
  unfolding get_from_nodes get_node_from_kube view ids from_kube node_info_to_node_claim
      kube_node_to_node_info
  get_from_nodes-view id [] = refl
  get_from_nodes-view id (n ∷ nodes) = ground (arith, get_from_nodes-view id nodes)

  -- With the broker client, Get answers with the capacities left out what `CloudProvider.get` does.
  get-view :
      (id : String) (nodes : List (KubeNode Quantity))
      → view (get_by_client texts broker_client id (listed nodes)) ≡ get id (listed (ids nodes))
  unfolding get_by_client got_from get_from_kube get view
  get-view id nodes = ground (arith, get_from_nodes-view id nodes)

  -- List, with the capacities left out, lists what `list_nodes_from_kube` does.
  list-view :
      (nodes : List (KubeNode Quantity))
      → map (λ i. i.provider_id) (list_from_nodes texts nodes) ≡ list_nodes_from_kube (ids nodes)
  unfolding list_from_nodes list_nodes_from_kube ids keep from_kube node_info_to_node_claim
      kube_node_to_node_info
  list-view [] = refl
  list-view (n ∷ nodes) = ground (arith, list-view nodes)
