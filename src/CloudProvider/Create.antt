-- ===== src/CloudProvider/Create.antt =====
-- Create of pkg/cloudprovider/cloudprovider.go, with the lookup of the node class.
pub mod Outcomes
pub mod Supplied
pub mod Joined
use Prim.Native.String.{◌++◌}
use karpenter_provider_rafay.Prelude.{
  ℕ, String, Bool, true, false, List, [], ◌∷◌, Option, none, some, Dict, insert, assign, ◌==◌,
  if◌then◌else◌,
}
use karpenter_provider_rafay.Kube.{NodeClaim, NodeClassRef, label, node_pool_label_key}
use karpenter_provider_rafay.Rafay.Batcher.{NodeBatcher, BatchResult, BatchError}
use karpenter_provider_rafay.Rafay.Batcher.Enqueue.{enqueue}
use karpenter_provider_rafay.CloudProvider.{
  pending_provider_id_prefix, adopted_provider_id_annotation_key, batch_id_annotation_key,
}
use karpenter_provider_rafay.CloudProvider.Instances.{
  InstanceTypeSpec, InstanceType, Amounts, to_instance_types, filter_compatible, sort_stable,
  requirements_to_labels,
}

-- What Create returns: the NodeClaim and its capacity, or an error.
pub data CreateError : Type 0 where
  class_error : String → CreateError
  types_error : CreateError
  insufficient_capacity : CreateError
  add_nodes_failed : BatchError → CreateError
  ctx_error : CreateError

pub data Created (Quantity : Type 0) : Type 0 where
  created : NodeClaim → Dict Quantity → Created Quantity
  failed : CreateError → Created Quantity

-- The choice of an instance type.
pub data Choice (Quantity Price : Type 0) : Type 0 where
  chosen : InstanceType Quantity Price → Choice Quantity Price
  refused : CreateError → Choice Quantity Price

-- What Create has done when it returns, or when it waits on a channel with a type selected.
pub data CreateStep (Quantity Price : Type 0) : Type 0 where
  returns : Created Quantity → CreateStep Quantity Price
  waits : ℕ → InstanceType Quantity Price → NodeBatcher → CreateStep Quantity Price

-- The API server's answer to the Get of a RafayNodeClass: its instance types, or an error.
pub data ClassReply : Type 0 where
  class_specs : List InstanceTypeSpec → ClassReply
  get_error : String → ClassReply

-- What Create depends on: the node classes, and Karpenter's tests for this NodeClaim.
pub record World (Quantity Price : Type 0) : Type 0 where
  pub amounts : Amounts Quantity Price
  pub node_class : String → ClassReply
  pub compatible : InstanceType Quantity Price → Bool
  pub fits : InstanceType Quantity Price → Bool

-- resolveNodeClassFromNodeClaim
unfoldable pub resolve_node_class : (String → ClassReply) → Option NodeClassRef → ClassReply
resolve_node_class classes none = get_error "no nodeClassRef"
resolve_node_class classes (some ref) = classes ref.name

module _ {Quantity Price : Type 0} (world : World Quantity Price) where
  unfoldable pub first_of : List (InstanceType Quantity Price) → Choice Quantity Price
  first_of [] = refused insufficient_capacity
  first_of (selected ∷ types) = chosen selected

  -- getInstanceTypes, the filter, the sort and the choice
  unfoldable pub choose_from : List InstanceTypeSpec → Choice Quantity Price
  unfolding first_of
  choose_from [] = refused types_error
  choose_from (s ∷ specs) = elim (to_instance_types world.amounts (s ∷ specs)) [
    | none ↦ refused types_error
    | some types ↦
        first_of (sort_stable world.amounts (filter_compatible world.compatible world.fits types))
  ]

  unfoldable pub choose_in : ClassReply → Choice Quantity Price
  unfolding choose_from
  choose_in (get_error e) = refused (class_error e)
  choose_in (class_specs specs) = choose_from specs

  unfoldable pub choose : NodeClaim → Choice Quantity Price
  unfolding choose_in resolve_node_class
  choose nc = choose_in (resolve_node_class world.node_class nc.node_class_ref)

  unfoldable pub adopted : NodeClaim → String → InstanceType Quantity Price → Created Quantity
  adopted nc adopted_id selected =
      created (record nc { provider_id = adopted_id }) selected.capacity

  -- Create up to its `select`, for the selected type.
  unfoldable pub create_with :
      String → String → NodeClaim → Choice Quantity Price → NodeBatcher → CreateStep Quantity Price
  unfolding adopted
  create_with cluster_id project_id nc (refused e) b = returns (failed e)
  create_with cluster_id project_id nc (chosen selected) b =
      let adopted_id = label adopted_provider_id_annotation_key nc.annotations in
      let (ch, after) =
        enqueue nc.uid
          (record {
            cluster_id = cluster_id;
            project_id = project_id;
            instance_type = selected.name;
            node_pool_name = label node_pool_label_key nc.labels;
            operation_id = nc.uid;
          })
          b in
      if adopted_id == "" then waits ch selected after else returns (adopted nc adopted_id selected)

  unfoldable pub create_start :
      String → String → NodeClaim → NodeBatcher → CreateStep Quantity Price
  unfolding create_with choose
  create_start cluster_id project_id nc b = create_with cluster_id project_id nc (choose nc) b

-- The NodeClaim that is returned when the broker has acknowledged the add in a batch.
unfoldable pub launched :
    {Quantity Price : Type 0} → NodeClaim → InstanceType Quantity Price → String → NodeClaim
unfolding requirements_to_labels assign
launched nc selected batch_id = record nc {
  provider_id = pending_provider_id_prefix ++ nc.uid;
  labels = assign nc.labels (requirements_to_labels selected.requirements);
  annotations =
      if batch_id == ""
      then nc.annotations
      else assign nc.annotations ((batch_id_annotation_key, batch_id) ∷ []);
}

-- A NodePool: its name, and the node class that its template names.
pub record PoolTemplate : Type 0 where
  pub name : String
  pub node_class_ref : Option NodeClassRef

-- resolveNodeClassFromNodePool
unfoldable pub resolve_node_class_from_pool : (String → ClassReply) → PoolTemplate → ClassReply
resolve_node_class_from_pool classes pool = elim pool.node_class_ref [
  | none ↦ get_error "no nodeClassRef"
  | some ref ↦ classes ref.name
]

-- What GetInstanceTypes returns.
pub data Offered (Quantity Price : Type 0) : Type 0 where
  no_node_pool : Offered Quantity Price
  offered : List (InstanceType Quantity Price) → Offered Quantity Price
  not_offered : CreateError → Offered Quantity Price

module _ {Quantity Price : Type 0} (world : World Quantity Price) where
  -- getInstanceTypes
  unfoldable pub types_of : ClassReply → Offered Quantity Price
  unfolding to_instance_types
  types_of (get_error e) = not_offered (class_error e)
  types_of (class_specs []) = not_offered types_error
  types_of (class_specs (s ∷ specs)) = elim (to_instance_types world.amounts (s ∷ specs)) [
    | none ↦ not_offered types_error
    | some types ↦ offered types
  ]

  -- GetInstanceTypes, for a NodePool or nil
  unfoldable pub get_instance_types : Option PoolTemplate → Offered Quantity Price
  unfolding types_of resolve_node_class_from_pool
  get_instance_types none = no_node_pool
  get_instance_types (some pool) = types_of (resolve_node_class_from_pool world.node_class pool)

-- What the `select` picks: the end of the context, or the result on the channel.
pub data CreateWait : Type 0 where
  ctx_done : CreateWait
  result : BatchResult → CreateWait

unfoldable pub create_finish :
    {Quantity Price : Type 0}
    → NodeClaim
    → InstanceType Quantity Price
    → CreateWait
    → Created Quantity
unfolding launched
create_finish nc selected ctx_done = failed ctx_error
create_finish nc selected (result r) = elim r.err [
  | some e ↦ failed (add_nodes_failed e)
  | none ↦ created (launched nc selected r.batch_id) selected.capacity
]
