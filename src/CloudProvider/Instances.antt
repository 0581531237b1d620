-- ===== src/CloudProvider/Instances.antt =====
-- The instance types of a RafayNodeClass (pkg/apis/v1alpha1/rafaynodeclass.go) and what
-- pkg/cloudprovider/cloudprovider.go makes of them: rafayInstanceTypesToKarpenter,
-- cheapestOffering, requirementsToLabels, filterCompatibleInstanceTypes and the sort of Create.
pub mod Cheapest
pub mod Labels
use karpenter_provider_rafay.Prelude.{
  ℕ, String, Bool, true, false, ◌||◌, ◌&&◌, not, List, [], ◌∷◌, Option, none, some, Dict, insert,
  contains, keep, map, trim_space, ◌==◌, if◌then◌else◌, length, nat_eq, ltb,
}
use mathlib.Core.List.{◌++◌}
use karpenter_provider_rafay.Kube.{label_instance_type}

abbrev pub label_topology_zone : String
label_topology_zone = "topology.kubernetes.io/zone"

abbrev pub capacity_type_label_key : String
capacity_type_label_key = "karpenter.sh/capacity-type"

abbrev pub label_arch : String
label_arch = "kubernetes.io/arch"

abbrev pub label_os : String
label_os = "kubernetes.io/os"

abbrev pub temporary_gpu_resource_name : String
temporary_gpu_resource_name = "nvidia.com/gpu"

pub record InstanceTypeSpec : Type 0 where
  pub name : String
  pub cpu : String
  pub memory : String
  pub gpu : String
  pub zone : String
  pub architectures : List String
  pub operating_systems : List String

-- A requirement with the operator In; its values are a set.
pub record InRequirement : Type 0 where
  pub key : String
  pub values : List String

-- An instance type: the prices of its offerings, whose requirements are its own, and its capacity.
pub record InstanceType (Quantity Price : Type 0) : Type 0 where
  pub name : String
  pub requirements : List InRequirement
  pub offerings : List Price
  pub capacity : Dict Quantity

-- Quantities and prices: `none` is an error of resource.ParseQuantity, `price` the synthetic cost of a
-- CPU and a memory quantity, and `less` the order of prices.
pub record Amounts (Quantity Price : Type 0) : Type 0 where
  pub parse_quantity : String → Option Quantity
  pub positive : Quantity → Bool
  pub hundred_ten : Quantity
  pub price : Quantity → Quantity → Price
  pub zero_price : Price
  pub less : Price → Price → Bool

-- The values of a set that is made from a list, each once.
unfoldable pub as_set : List String → List String
unfolding contains
as_set [] = []
as_set (x ∷ xs) = let rest = as_set xs in if contains xs x then rest else x ∷ rest

-- The values that are not blank, trimmed.
unfoldable pub trimmed_values : List String → List String
unfolding trim_space
trimmed_values [] = []
trimmed_values (a ∷ values) =
    let rest = trimmed_values values in if trim_space a == "" then rest else trim_space a ∷ rest

unfoldable pub no_values : List String → Bool
no_values [] = true
no_values (x ∷ xs) = false

-- reqs.Add of a requirement with these values, unless there are none.
unfoldable pub optional_requirement : String → List String → List InRequirement
unfolding trimmed_values as_set no_values
optional_requirement key values =
    let vals = trimmed_values values in
    if no_values vals then [] else record { key = key; values = as_set vals } ∷ []

unfoldable pub requirements_of : InstanceTypeSpec → List InRequirement
unfolding optional_requirement
requirements_of s =
    record { key = label_instance_type; values = s.name ∷ [] }
      ∷ record {
        key = label_topology_zone;
        values = (if s.zone == "" then "default" else s.zone) ∷ [];
      }
      ∷ record { key = capacity_type_label_key; values = "on-demand" ∷ [] }
      ∷ optional_requirement label_arch s.architectures
    ++ optional_requirement label_os s.operating_systems

-- requirementsToLabels: a requirement on the architecture or the system with several values gives no
-- label.
unfoldable pub requirement_label : InRequirement → Dict String → Dict String
unfolding insert
requirement_label r labels = elim r.values [
  | [] ↦ labels
  | v ∷ vals ↦
      if (r.key == label_arch || r.key == label_os) && not (no_values vals)
      then labels
      else insert r.key v labels
]

unfoldable pub requirements_to_labels : List InRequirement → Dict String
unfolding requirement_label
requirements_to_labels [] = []
requirements_to_labels (r ∷ reqs) = requirement_label r (requirements_to_labels reqs)

module _ {Quantity Price : Type 0} (amounts : Amounts Quantity Price) where
  -- The capacity with the GPU count: none is an invalid one, and a count that is not positive is
  -- dropped.
  unfoldable pub with_gpu : String → Dict Quantity → Option (Dict Quantity)
  unfolding insert
  with_gpu gpu capacity = if gpu == "" then some capacity else elim (amounts.parse_quantity gpu) [
    | none ↦ none
    | some q ↦
        some
          (if amounts.positive q then insert temporary_gpu_resource_name q capacity else capacity)
  ]

  unfoldable pub type_with :
      InstanceTypeSpec → Quantity → Quantity → Option (InstanceType Quantity Price)
  unfolding with_gpu requirements_of
  type_with s cpu mem =
      elim (with_gpu s.gpu (("cpu", cpu) ∷ ("memory", mem) ∷ ("pods", amounts.hundred_ten) ∷ [])) [
        | none ↦ none
        | some capacity ↦ some (record {
          name = s.name;
          requirements = requirements_of s;
          offerings = amounts.price cpu mem ∷ [];
          capacity = capacity;
        })
      ]

  unfoldable pub to_instance_type : InstanceTypeSpec → Option (InstanceType Quantity Price)
  unfolding type_with
  to_instance_type s = elim (amounts.parse_quantity s.cpu) [
    | none ↦ none
    | some cpu ↦ elim (amounts.parse_quantity s.memory) [
      | none ↦ none
      | some mem ↦ type_with s cpu mem
    ]
  ]

  -- rafayInstanceTypesToKarpenter; `none` is its error.
  unfoldable pub to_instance_types :
      List InstanceTypeSpec → Option (List (InstanceType Quantity Price))
  unfolding to_instance_type
  to_instance_types [] = some []
  to_instance_types (s ∷ specs) = elim (to_instance_type s) [
    | none ↦ none
    | some it ↦ elim (to_instance_types specs) [ none ↦ none | some rest ↦ some (it ∷ rest) ]
  ]

  unfoldable pub cheapest_offering : InstanceType Quantity Price → Price
  cheapest_offering it = elim it.offerings [ [] ↦ amounts.zero_price | p ∷ _ ↦ p ]

  -- sort.SliceStable by the price: an element goes before those that are not cheaper.
  unfoldable pub insert_type :
      InstanceType Quantity Price
      → List (InstanceType Quantity Price)
      → List (InstanceType Quantity Price)
  unfolding cheapest_offering
  insert_type x [] = x ∷ []
  insert_type x (y ∷ ys) =
      let rest = insert_type x ys in
      if amounts.less (cheapest_offering y) (cheapest_offering x) then y ∷ rest else x ∷ y ∷ ys

  unfoldable pub sort_stable :
      List (InstanceType Quantity Price) → List (InstanceType Quantity Price)
  unfolding insert_type
  sort_stable [] = []
  sort_stable (x ∷ xs) = insert_type x (sort_stable xs)

-- filterCompatibleInstanceTypes: `compatible` and `fits` are Karpenter's tests of the requirements and
-- the resource requests of the NodeClaim.
unfoldable pub filter_compatible :
    {Quantity Price : Type 0}
    → (InstanceType Quantity Price → Bool)
    → (InstanceType Quantity Price → Bool)
    → List (InstanceType Quantity Price)
    → List (InstanceType Quantity Price)
filter_compatible compatible fits types = keep (λ it. compatible it && fits it) types
