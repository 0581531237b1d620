-- ===== src/Controllers/RafayNodeClass/Offers.antt =====
-- The validation of validateNodeClass against the conversion of Create.
use karpenter_provider_rafay.Prelude.{
  ◌≡◌, refl, sym, ap, ◌∙◌, ℕ, ◌+◌, String, Bool, true, false, not, List, [], ◌∷◌, Option, none,
  some, ◌==◌, is_some, Bool-cases, Option-cases, inl, inr, ◌&&◌, ◌||◌, arith,
}
use karpenter_provider_rafay.CloudProvider.Instances.{
  InstanceTypeSpec, InstanceType, Amounts, with_gpu, type_with, to_instance_type, to_instance_types,
}
use karpenter_provider_rafay.CloudProvider.Create.{
  types_error, World, Choice, refused, first_of, choose_from,
}
use karpenter_provider_rafay.Controllers.RafayNodeClass.{
  Invalid, Ready, is_true, reconcile_class, ready_after, validate_entry, validate_entries,
  validate_node_class, condition_for,
}

-- Some entry has no name.
abbrev pub has_unnamed : List InstanceTypeSpec → Bool
has_unnamed [] = false
has_unnamed (s ∷ specs) = s.name == "" || has_unnamed specs

abbrev pub is_types_error : {Quantity Price : Type 0} → Choice Quantity Price → Bool
is_types_error (refused types_error) = true
is_types_error _ = false

module _ {Quantity Price : Type 0} (amounts : Amounts Quantity Price) where
  with_gpu_lem :
      (gpu : String) (capacity : List (String × Quantity))
      → is_some (with_gpu amounts gpu capacity)
        ≡ (gpu == "" || is_some (amounts.parse_quantity gpu))
  unfolding with_gpu
  with_gpu_lem gpu capacity = ground arith

  type_with_lem :
      (s : InstanceTypeSpec) (cpu mem : Quantity)
      → is_some (type_with amounts s cpu mem)
        ≡ (s.gpu == "" || is_some (amounts.parse_quantity s.gpu))
  unfolding type_with
  type_with_lem s cpu mem = ground (
    arith,
    with_gpu_lem s.gpu (("cpu", cpu) ∷ ("memory", mem) ∷ ("pods", amounts.hundred_ten) ∷ []),
  )

  convertible :
      (s : InstanceTypeSpec)
      → is_some (to_instance_type amounts s) ≡ (
          is_some (amounts.parse_quantity s.cpu)
          && is_some (amounts.parse_quantity s.memory)
          && (s.gpu == "" || is_some (amounts.parse_quantity s.gpu)))
  unfolding to_instance_type
  convertible s = elim (Option-cases (amounts.parse_quantity s.cpu)) [
    | inl e ↦ rw (to_instance_type, e) refl
    | inr (cpu, e) ↦ elim (Option-cases (amounts.parse_quantity s.memory)) [
      | inl f ↦ rw (to_instance_type, e, f) refl
      | inr (mem, f) ↦ rw (to_instance_type, e, f) (type_with_lem s cpu mem)
    ]
  ]

  validate_entry_lem :
      (i : ℕ) (s : InstanceTypeSpec)
      → is_some (validate_entry amounts.parse_quantity i s)
        ≡ (s.name == "" || not (is_some (to_instance_type amounts s)))
  unfolding validate_entry
  validate_entry_lem i s = rw (convertible s) (ground arith)

  validate_entries_lem :
      (i : ℕ) (specs : List InstanceTypeSpec)
      → is_some (validate_entries amounts.parse_quantity i specs)
        ≡ (has_unnamed specs || not (is_some (to_instance_types amounts specs)))
  unfolding validate_entries to_instance_types
  validate_entries_lem i [] = refl
  validate_entries_lem i (s ∷ specs) =
      ground (arith, validate_entry_lem i s, validate_entries_lem (i + 1) specs)

module _ {Quantity Price : Type 0} (world : World Quantity Price) where
  first_of_lem :
      (types : List (InstanceType Quantity Price)) → is_types_error (first_of world types) ≡ false
  unfolding first_of
  first_of_lem [] = refl
  first_of_lem (t ∷ types) = refl

  -- The instance types of a class fail validateNodeClass exactly when Create finds them invalid or one
  -- of them has no name.
  pub validate_node_class-choose_from :
      (specs : List InstanceTypeSpec)
      → is_some (validate_node_class world.amounts.parse_quantity specs)
        ≡ (has_unnamed specs || is_types_error (choose_from world specs))
  unfolding validate_node_class choose_from
  validate_node_class-choose_from [] = refl
  validate_node_class-choose_from (s ∷ specs) =
      validate_entries_lem world.amounts 0 (s ∷ specs)
      ∙ ap (λ b. has_unnamed (s ∷ specs) || b) (sym choice)
    where
      choice :
          is_types_error (choose_from world (s ∷ specs))
          ≡ not (is_some (to_instance_types world.amounts (s ∷ specs)))
      choice = elim (Option-cases (to_instance_types world.amounts (s ∷ specs))) [
        | inl e ↦ rw (choose_from, e) refl
        | inr (types, e) ↦ rw (choose_from, e) (first_of_lem _)
      ]

  module _ (changed : Ready → Ready → Bool)
      (reports : (r s : Ready) → changed r s ≡ false → r ≡ s) where
    stored_condition :
        (specs : List InstanceTypeSpec) (stored : Ready)
        → ready_after stored
            (reconcile_class world.amounts.parse_quantity changed false specs stored true)
          ≡ condition_for (validate_node_class world.amounts.parse_quantity specs)
    unfolding reconcile_class ready_after
    stored_condition specs stored =
        let ready = condition_for (validate_node_class world.amounts.parse_quantity specs) in
        elim (Bool-cases (changed stored ready)) [
          | inl e ↦ rw (reconcile_class, e) refl
          | inr e ↦ rw (reconcile_class, e) (reports stored ready e)
        ]

    condition_is_true : (e : Option Invalid) → condition_for e ≡ is_true → is_some e ≡ false
    unfolding condition_for
    condition_is_true none h = refl
    condition_is_true (some i) h = cc

    -- A class that is Ready after Reconcile has stored its condition is one whose instance types all
    -- have a name, and Create does not find them invalid: the condition changes unless it is stored
    -- already.
    pub ready_means_offered :
        (specs : List InstanceTypeSpec) (stored : Ready)
        → ready_after stored
            (reconcile_class world.amounts.parse_quantity changed false specs stored true)
          ≡ is_true
        → (has_unnamed specs ≡ false) × (is_types_error (choose_from world specs) ≡ false)
    ready_means_offered specs stored h = both (
        sym (validate_node_class-choose_from specs)
        ∙ condition_is_true (validate_node_class world.amounts.parse_quantity specs)
            (sym (stored_condition specs stored) ∙ h))
      where
        both : {a b : Bool} → (a || b) ≡ false → (a ≡ false) × (b ≡ false)
        both e = ground (arith, e)
