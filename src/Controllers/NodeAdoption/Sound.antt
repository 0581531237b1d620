-- ===== src/Controllers/NodeAdoption/Sound.antt =====
-- Which NodeClaims a pass of the NodeAdoptionController creates, and for which nodes.
use karpenter_provider_rafay.Prelude.{
  String, ◌≡◌, refl, ◌∙◌, ap, ◌⊎◌, inl, inr, true, false, ◌||◌, not, List, ◌∷◌, Option, none, some,
  contains, lookup-insert, ◌==◌, eq_refl, Bool-cases, Option-cases, if◌then◌else◌, arith,
}
use karpenter_provider_rafay.Kube.{NodeClaim, Node, Listing, listed, list_error, label}
use karpenter_provider_rafay.CloudProvider.{sku_name_label, adopted_provider_id_annotation_key}
use karpenter_provider_rafay.Rafay.ProviderId.{build_provider_id}
use karpenter_provider_rafay.Controllers.NodeAdoption.{
  NodePool, is_control_plane, claimed_by_pending_claim, Verdict, passed_over, skipped, not_ready,
  considered, screen,
}
use karpenter_provider_rafay.Controllers.NodeAdoption.Claim.{
  NewClaim, InstanceType, adopted_node_claim, Prepared, prepared, cannot_build, patch_error,
  patch_node, prepare_node,
}
use karpenter_provider_rafay.Controllers.NodeAdoption.Pass.{
  World, Progress, Round, goes_on, aborts, create_claim, with_id, patched, after_prepare, adopt,
  validate_adoptable, adopt_if, find_type, consider, act,
}

-- The provider ID that the node has, or is given.
abbrev pub target : NodePool → Node → String
target pool node =
    if node.provider_id == ""
    then build_provider_id pool.name (label sku_name_label node.labels) node.name
    else node.provider_id

abbrev pub adopts_id : NewClaim → String
adopts_id c = label adopted_provider_id_annotation_key c.annotations

-- What the guards have found of a node that is considered.
abbrev pub Passed : List NodeClaim → List String → Node → Type 0
Passed pending claimed node =
    (node.deleting ≡ false)
    × (is_control_plane node ≡ false)
    × (node.ready ≡ true)
    × (claimed_by_pending_claim pending node (label sku_name_label node.labels) ≡ false)
    × ((node.provider_id == "" || not (contains claimed node.provider_id)) ≡ true)

pub screen-Passed :
    (pending : List NodeClaim) (claimed : List String) (node : Node)
    → screen pending claimed node ≡ considered
    → Passed pending claimed node
unfolding screen
screen-Passed pending claimed node h = ground arith

abbrev pub Kept : Progress → Progress → Type 0
Kept s next = (next.created ≡ s.created) × (next.claimed ≡ s.claimed)

abbrev pub Grown : NodePool → Node → Progress → Progress → Type 0
Grown pool node s next =
    (c : NewClaim) × (next.created ≡ c ∷ s.created)
    × (next.claimed ≡ target pool node ∷ s.claimed)
    × (adopts_id c ≡ target pool node)

adopts_id-with_id : (id : String) (c : NewClaim) → adopts_id (with_id id c) ≡ id
adopts_id-with_id id c = ground (
  arith,
  lookup-insert adopted_provider_id_annotation_key adopted_provider_id_annotation_key id
      c.annotations,
  eq_refl adopted_provider_id_annotation_key,
)

patch_node-id :
    (stored patched : Node) (id out : String) (answer : Node → Option String) (p : Option Node)
    → patch_node stored patched id answer ≡ prepared out p
    → out ≡ id
unfolding patch_node
patch_node-id stored patched id out answer p h = ground arith

-- A node that has a provider ID keeps it; otherwise it gets the one that the platform would write.
prepare_node-id :
    (pool : NodePool) (node : Node) (answer : Node → Option String) (id : String) (p : Option Node)
    → prepare_node node pool.name (label sku_name_label node.labels) answer ≡ prepared id p
    → id ≡ target pool node
unfolding prepare_node patch_node
prepare_node-id pool node answer id p h = ground arith

abbrev pub progress_of : Round → Progress
progress_of (goes_on s) = s
progress_of (aborts e s) = s

module _ (world : World) (pool : NodePool) (node : Node) where
  module _ (id : String) (e : id ≡ target pool node) (c : NewClaim) where
    create_claim_lem :
        (s t : Progress)
        → Kept s t
        → Kept s (create_claim world (with_id id c) id t)
          ⊎ Grown pool node s (create_claim world (with_id id c) id t)
    unfolding create_claim
    create_claim_lem s t k = elim (Option-cases (world.create (with_id id c))) [
      | inl ok ↦
          rw (ok, create_claim)
            (inr (
              with_id id c,
              ap (λ (l : List NewClaim). with_id id c ∷ l) k.0,
              ap (λ (l : List String). id ∷ l) k.1 ∙ ap (λ (x : String). x ∷ s.claimed) e,
              adopts_id-with_id id c ∙ e,
            ))
      | inr (x, err) ↦ rw (err, create_claim) (inl k)
    ]

  patched-Kept : (p : Option Node) (s : Progress) → Kept s (patched p s)
  unfolding patched
  patched-Kept none s = (refl, refl)
  patched-Kept (some n) s = (refl, refl)

  after_prepare_lem :
      (c : NewClaim) (r : Prepared) (s : Progress)
      → ((id : String) (p : Option Node) → r ≡ prepared id p → id ≡ target pool node)
      → Kept s (after_prepare world c r s) ⊎ Grown pool node s (after_prepare world c r s)
  unfolding after_prepare
  after_prepare_lem c (prepared id p) s h =
      create_claim_lem id (h id p refl) c s (patched p s) (patched-Kept p s)
  after_prepare_lem c cannot_build s h = inl (refl, refl)
  after_prepare_lem c (patch_error e) s h = inl (refl, refl)

  adopt_lem :
      (t : Option InstanceType) (s : Progress)
      → Kept s (adopt_if world pool node t s) ⊎ Grown pool node s (adopt_if world pool node t s)
  unfolding adopt_if adopt
  adopt_lem none s = inl (refl, refl)
  adopt_lem (some it) s = elim (Bool-cases (validate_adoptable world pool it claim.labels)) [
    | inl ok ↦
        rw (ok, adopt)
          (after_prepare_lem claim (prepare_node node pool.name sku world.patch) s
            (prepare_node-id pool node world.patch))
    | inr bad ↦ rw (bad, adopt) (inl (refl, refl))
  ]
    where
      sku : String
      sku = label sku_name_label node.labels

      claim : NewClaim
      claim = adopted_node_claim world.class_key pool node sku it

  consider_lem :
      (types : Listing InstanceType) (s : Progress)
      → Kept s (progress_of (consider world pool node types s))
        ⊎ Grown pool node s (progress_of (consider world pool node types s))
  unfolding consider
  consider_lem (list_error e) s = inl (refl, refl)
  consider_lem (listed types) s = adopt_lem (find_type (label sku_name_label node.labels) types) s

  -- A round changes neither the claimed IDs nor the NodeClaims created, or it considers the node and
  -- creates one NodeClaim, for the node's ID.
  pub round_lem :
      (v : Verdict) (s : Progress)
      → Kept s (progress_of (act world pool node v s))
        ⊎ ((v ≡ considered) × Grown pool node s (progress_of (act world pool node v s)))
  unfolding act
  round_lem passed_over s = inl (refl, refl)
  round_lem skipped s = inl (refl, refl)
  round_lem not_ready s = inl (refl, refl)
  round_lem considered s = elim (consider_lem world.instance_types s) [
    | inl k ↦ inl k
    | inr g ↦ inr (refl, g)
  ]
