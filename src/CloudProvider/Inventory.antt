-- ===== src/CloudProvider/Inventory.antt =====
-- Get and List of pkg/cloudprovider/cloudprovider.go with the capacities: nodeInfoToNodeClaim,
-- kubeNodeToNodeInfo, and the interface Client of pkg/rafay/client.go, which the BrokerClient of
-- pkg/rafay/brokerclient.go fills without support for either call.
pub mod Found
use karpenter_provider_rafay.Prelude.{
  String, Bool, not, ◌||◌, List, [], ◌∷◌, Option, none, some, Dict, map, keep, has_prefix, ◌==◌,
  if◌then◌else◌,
}
use karpenter_provider_rafay.Kube.{Node, Listing, listed, list_error}
use karpenter_provider_rafay.CloudProvider.{rafay_provider_prefix, is_pending}

pub record NodeInfo : Type 0 where
  pub provider_id : String
  pub capacity : Dict String

-- A node with the capacity of its status.
pub record KubeNode (Quantity : Type 0) : Type 0 where
  pub node : Node
  pub capacity : Dict Quantity

-- A NodeClaim that Get and List return: only its status is set.
pub record Instance (Quantity : Type 0) : Type 0 where
  pub provider_id : String
  pub capacity : Dict Quantity

-- Quantity.String and resource.ParseQuantity, `none` where it fails.
pub record Texts (Quantity : Type 0) : Type 0 where
  pub text : Quantity → String
  pub parse_quantity : String → Option Quantity

-- What a call of the Client returns: an answer that is not nil, an error that says that the call is not supported,
-- ErrNodeNotFound, or another error.
pub data ClientReply (A : Type 0) : Type 0 where
  answered : A → ClientReply A
  unsupported node_not_found : ClientReply A
  client_error : String → ClientReply A

-- The interface Client.
pub record Client : Type 0 where
  pub get_node : String → ClientReply NodeInfo
  pub list_nodes : String → ClientReply (List NodeInfo)

-- GetNode and ListNodes of the BrokerClient.
abbrev pub broker_client : Client
broker_client = record { get_node = λ id. unsupported; list_nodes = λ cluster. unsupported }

pub data Got (Quantity : Type 0) : Type 0 where
  instance_of : Instance Quantity → Got Quantity
  id_is_empty not_found : Got Quantity
  get_error : String → Got Quantity

module _ {Quantity : Type 0} (texts : Texts Quantity) where
  -- Values that do not parse are left out.
  unfoldable pub parsed_capacity : Dict String → Dict Quantity
  parsed_capacity [] = []
  parsed_capacity ((k, v) ∷ m) =
      let rest = parsed_capacity m in
      elim (texts.parse_quantity v) [ none ↦ rest | some q ↦ (k, q) ∷ rest ]

  unfoldable pub node_info_to_node_claim : NodeInfo → Instance Quantity
  unfolding parsed_capacity
  node_info_to_node_claim n = record {
    provider_id = n.provider_id;
    capacity = parsed_capacity n.capacity;
  }

  unfoldable pub capacity_texts : Dict Quantity → Dict String
  capacity_texts [] = []
  capacity_texts ((k, q) ∷ m) = (k, texts.text q) ∷ capacity_texts m

  unfoldable pub kube_node_to_node_info : KubeNode Quantity → NodeInfo
  unfolding capacity_texts
  kube_node_to_node_info n = record {
    provider_id = n.node.provider_id;
    capacity = capacity_texts n.capacity;
  }

  unfoldable pub from_kube : KubeNode Quantity → Instance Quantity
  unfolding node_info_to_node_claim kube_node_to_node_info
  from_kube n = node_info_to_node_claim (kube_node_to_node_info n)

  -- getNodeFromKube
  unfoldable pub get_from_nodes : String → List (KubeNode Quantity) → Got Quantity
  unfolding from_kube
  get_from_nodes id [] = not_found
  get_from_nodes id (n ∷ nodes) =
      let rest = get_from_nodes id nodes in
      if n.node.provider_id == id then instance_of (from_kube n) else rest

  unfoldable pub get_from_kube : String → Listing (KubeNode Quantity) → Got Quantity
  unfolding get_from_nodes
  get_from_kube id (list_error e) = get_error e
  get_from_kube id (listed nodes) = get_from_nodes id nodes

  unfoldable pub got_from :
      String → Listing (KubeNode Quantity) → ClientReply NodeInfo → Got Quantity
  unfolding get_from_kube node_info_to_node_claim
  got_from id nodes (answered info) = instance_of (node_info_to_node_claim info)
  got_from id nodes unsupported = get_from_kube id nodes
  got_from id nodes node_not_found = not_found
  got_from id nodes (client_error e) = get_error e

  -- Get
  unfoldable pub get_by_client : Client → String → Listing (KubeNode Quantity) → Got Quantity
  unfolding got_from is_pending
  get_by_client client id nodes =
      if id == ""
      then id_is_empty
      else if is_pending id
      then instance_of (record { provider_id = id; capacity = [] })
      else got_from id nodes (client.get_node id)

  -- listNodesFromKube
  unfoldable pub list_from_nodes : List (KubeNode Quantity) → List (Instance Quantity)
  unfolding from_kube
  list_from_nodes [] = []
  list_from_nodes (n ∷ nodes) =
      let rest = list_from_nodes nodes in
      if n.node.provider_id == "" || not (has_prefix n.node.provider_id rafay_provider_prefix)
      then rest
      else from_kube n ∷ rest

  unfoldable pub list_from_kube : Listing (KubeNode Quantity) → Listing (Instance Quantity)
  unfolding list_from_nodes
  list_from_kube (list_error e) = list_error e
  list_from_kube (listed nodes) = listed (list_from_nodes nodes)

  unfoldable pub listed_from :
      Listing (KubeNode Quantity) → ClientReply (List NodeInfo) → Listing (Instance Quantity)
  unfolding list_from_kube node_info_to_node_claim
  listed_from nodes (answered infos) = listed (map node_info_to_node_claim infos)
  listed_from nodes unsupported = list_from_kube nodes
  listed_from nodes node_not_found = list_error "node not found"
  listed_from nodes (client_error e) = list_error e

  -- List
  unfoldable pub list_by_client :
      Client → String → Listing (KubeNode Quantity) → Listing (Instance Quantity)
  unfolding listed_from
  list_by_client client cluster_id nodes = listed_from nodes (client.list_nodes cluster_id)
