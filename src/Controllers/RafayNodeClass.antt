-- ===== src/Controllers/RafayNodeClass.antt =====
-- pkg/controllers/rafaynodeclass/controller.go: the Ready condition of a RafayNodeClass.
pub mod Offers
use karpenter_provider_rafay.Prelude.{
  ◌≡◌, ◌≢◌, refl, ℕ, ◌+◌, String, ◌⊎◌, inl, inr, Bool, true, false, not, List, [], ◌∷◌, Option,
  none, some, All, ◌==◌, eq_iff, is_some, Bool-cases, Option-cases, if◌then◌else◌, ◌&&◌, ◌||◌,
  arith,
}
use karpenter_provider_rafay.CloudProvider.Instances.{
  InstanceTypeSpec, InstanceType, Amounts, with_gpu, type_with, to_instance_type, to_instance_types,
}

-- The message of validateNodeClass, by the entry that it names: its index or its name.
pub data Invalid : Type 0 where
  no_types : Invalid
  empty_name : ℕ → Invalid
  invalid_cpu invalid_memory invalid_gpu : String → Invalid

module _ {Quantity : Type 0} (parse_quantity : String → Option Quantity) where
  -- The body of the loop.
  unfoldable pub validate_entry : ℕ → InstanceTypeSpec → Option Invalid
  validate_entry i s =
      if s.name == ""
      then some (empty_name i)
      else if not (is_some (parse_quantity s.cpu))
      then some (invalid_cpu s.name)
      else if not (is_some (parse_quantity s.memory))
      then some (invalid_memory s.name)
      else if not (s.gpu == "") && not (is_some (parse_quantity s.gpu))
      then some (invalid_gpu s.name)
      else none

  unfoldable pub validate_entries : ℕ → List InstanceTypeSpec → Option Invalid
  unfolding validate_entry
  validate_entries i [] = none
  validate_entries i (s ∷ specs) = elim (validate_entry i s) [
    | some e ↦ some e
    | none ↦ validate_entries (i + 1) specs
  ]

  -- validateNodeClass; `none` is the empty message.
  unfoldable pub validate_node_class : List InstanceTypeSpec → Option Invalid
  unfolding validate_entries
  validate_node_class [] = some no_types
  validate_node_class (s ∷ specs) = validate_entries 0 (s ∷ specs)

-- The Ready condition of the status.
pub data Ready : Type 0 where
  unset is_true : Ready
  validation_failed : Invalid → Ready

-- Reconcile's outcome, with the condition that is stored: `changed` tells whether the setting of the
-- condition changes it, `patch_ok` whether the API server takes the patch.
pub data ClassReconciled : Type 0 where
  unchanged patch_error : ClassReconciled
  patched : Ready → ClassReconciled

unfoldable pub condition_for : Option Invalid → Ready
condition_for none = is_true
condition_for (some e) = validation_failed e

module _ {Quantity : Type 0} (parse_quantity : String → Option Quantity)
    (changed : Ready → Ready → Bool) where
  unfoldable pub reconcile_class : Bool → List InstanceTypeSpec → Ready → Bool → ClassReconciled
  unfolding condition_for validate_node_class
  reconcile_class deleting specs stored patch_ok =
      let ready = condition_for (validate_node_class parse_quantity specs) in
      if deleting
      then unchanged
      else if not (changed stored ready)
      then unchanged
      else if patch_ok
      then patched ready
      else patch_error

unfoldable pub ready_after : Ready → ClassReconciled → Ready
ready_after stored (patched ready) = ready
ready_after stored _ = stored
