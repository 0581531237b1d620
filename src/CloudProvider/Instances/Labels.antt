-- ===== src/CloudProvider/Instances/Labels.antt =====
-- The labels that the requirements of an instance type bring.
use karpenter_provider_rafay.Prelude.{
  ◌≡◌, refl, ◌∙◌, inl, inr, false, List, [], ◌∷◌, ◌++◌, none, some, Dict, lookup, lookup-insert,
  All, ◌==◌, Bool-cases, String, arith,
}
use karpenter_provider_rafay.Kube.{node_pool_label_key, label_instance_type}
use karpenter_provider_rafay.CloudProvider.Instances.{
  InstanceTypeSpec, InRequirement, InstanceType, Amounts, label_arch, label_os, no_values,
  optional_requirement, requirements_of, requirement_label, requirements_to_labels,
  to_instance_type, type_with, trimmed_values,
}

lookup-requirement_label :
    (j : String) (r : InRequirement) (labels : Dict String)
    → (r.key == j) ≡ false
    → lookup j (requirement_label r labels) ≡ lookup j labels
unfolding requirement_label
lookup-requirement_label j r labels h = go r.values
  where
    go :
        (vals : List String)
        → lookup j (requirement_label (record { key = r.key; values = vals }) labels)
          ≡ lookup j labels
    go [] = refl
    go (v ∷ vals) = ground (arith, lookup-insert r.key j v labels)

-- A key that no requirement has is no label.
pub lookup-requirements_to_labels :
    (j : String) (reqs : List InRequirement)
    → All (λ r. (r.key == j) ≡ false) reqs
    → lookup j (requirements_to_labels reqs) ≡ none
unfolding requirements_to_labels lookup
lookup-requirements_to_labels j [] h = refl
lookup-requirements_to_labels j (r ∷ reqs) h =
    lookup-requirement_label j r (requirements_to_labels reqs) h.0
    ∙ lookup-requirements_to_labels j reqs h.1

All-append :
    (P : InRequirement → Type 0) (xs ys : List InRequirement)
    → All P xs
    → All P ys
    → All P (xs ++ ys)
All-append P [] ys h k = k
All-append P (x ∷ xs) ys h k = (h.0, All-append P xs ys h.1 k)

optional_requirement-key :
    (j key : String) (values : List String)
    → (key == j) ≡ false
    → All (λ r. (r.key == j) ≡ false) (optional_requirement key values)
unfolding optional_requirement
optional_requirement-key j key values h = elim (Bool-cases (no_values (trimmed_values values))) [
  | inl e ↦ rw e tt
  | inr e ↦ rw e (h, tt)
]

name_label :
    (name : String) (reqs : List InRequirement)
    → lookup label_instance_type
        (requirements_to_labels (record { key = label_instance_type; values = name ∷ [] } ∷ reqs))
      ≡ some name
unfolding requirements_to_labels requirement_label
name_label name reqs =
    lookup-insert label_instance_type label_instance_type name (requirements_to_labels reqs)

module _ (s : InstanceTypeSpec) where
  pub no_pool_requirement : All (λ r. (r.key == node_pool_label_key) ≡ false) (requirements_of s)
  unfolding requirements_of
  no_pool_requirement = (
    refl,
    (
      refl,
      (
        refl,
        All-append (λ r. (r.key == node_pool_label_key) ≡ false)
            (optional_requirement label_arch s.architectures)
            (optional_requirement label_os s.operating_systems)
            (optional_requirement-key node_pool_label_key label_arch s.architectures refl)
            (optional_requirement-key node_pool_label_key label_os s.operating_systems refl),
      ),
    ),
  )

  pub instance_type_label :
      lookup label_instance_type (requirements_to_labels (requirements_of s)) ≡ some s.name
  unfolding requirements_of
  instance_type_label = name_label s.name _

-- What the conversion takes over from the spec.
pub to_instance_type-spec :
    {Quantity Price : Type 0} (amounts : Amounts Quantity Price) (s : InstanceTypeSpec)
    (it : InstanceType Quantity Price)
    → to_instance_type amounts s ≡ some it
    → (it.name ≡ s.name) × (it.requirements ≡ requirements_of s)
unfolding to_instance_type type_with
to_instance_type-spec amounts s it h = ground arith
