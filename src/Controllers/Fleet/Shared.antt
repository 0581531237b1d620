-- ===== src/Controllers/Fleet/Shared.antt =====
-- The race between an adoption and an assignment: usedIDs of the NodeProviderIDController has the
-- status of the NodeClaims only, and not the annotation of an adoption.
use karpenter_provider_rafay.Prelude.{
  ◌≤◌, String, ◌≡◌, ◌≢◌, refl, sym, subst, ◌∙◌, true, false, List, [], ◌∷◌, ◌==◌, eq_iff, eq_refl,
  arith,
}
use karpenter_provider_rafay.Kube.{NodeClaim, Node, listed, label}
use karpenter_provider_rafay.CloudProvider.{is_real, adopted_provider_id_annotation_key}
use karpenter_provider_rafay.CloudProvider.Instances.{InstanceType}
use karpenter_provider_rafay.CloudProvider.Create.{
  Choice, chosen, choose, adopted, create_start, create_with,
}
use karpenter_provider_rafay.Controllers.NodeProviderId.{
  patched, assigned, reconcile, set_provider_id, after, pass,
}
use karpenter_provider_rafay.Controllers.NodeProviderId.Unique.{holders}
use karpenter_provider_rafay.Controllers.Fleet.{
  Call, after_start, create, launched_or, launch, assigns, launches, step, run,
}

module _ {Quantity Price : Type 0} (call : Call Quantity Price) (it : InstanceType Quantity Price)
    (b : NodeClaim)
    (adopts : (label adopted_provider_id_annotation_key b.annotations == "") ≡ false) where
  with-adopted :
      (launched_or b (
        after_start b call.wait (
          create_with call.world call.cluster_id call.project_id b
            (chosen it)
            call.batcher))).provider_id
      ≡ label adopted_provider_id_annotation_key b.annotations
  unfolding after_start create_with launched_or adopted
  with-adopted = rw (adopts, create_with) refl

  -- Create of a NodeClaim that adopts a machine gives it the machine's ID.
  create-adopted :
      choose call.world b ≡ chosen it
      → (launched_or b (create call b)).provider_id
        ≡ label adopted_provider_id_annotation_key b.annotations
  unfolding create create_start
  create-adopted chose =
      subst
        (λ (ch : Choice Quantity Price).
          (launched_or b (
            after_start b call.wait (
              create_with call.world call.cluster_id call.project_id b ch
                call.batcher))).provider_id
          ≡ label adopted_provider_id_annotation_key b.annotations)
        (sym chose) with-adopted

pass-assigned :
    (nc : NodeClaim) (claims : List NodeClaim) (nodes : List Node) (id : String)
    → reconcile nc (listed (nc ∷ claims)) (listed nodes) patched ≡ assigned id
    → pass nc (listed nodes) patched (nc ∷ claims) ≡ record nc { provider_id = id } ∷ claims
unfolding pass after set_provider_id
pass-assigned nc claims nodes id e = rw (e, pass) (rw (eq_refl nc.uid) refl)

launch_second :
    {Quantity Price : Type 0} (call : Call Quantity Price) (a b : NodeClaim) (rest : List NodeClaim)
    → (a.uid == b.uid) ≡ false
    → (b.provider_id == "") ≡ true
    → launch call b.uid (a ∷ b ∷ rest) ≡ a ∷ launched_or b (create call b) ∷ rest
unfolding launch
launch_second call a b rest other fresh = rw (other, fresh, eq_refl b.uid) refl

-- Where a pass assigns an ID to a pending NodeClaim, and another NodeClaim that is not launched yet
-- was made to adopt the node with that ID, both carry it once the other is launched.
pub adopted_and_assigned :
    {Quantity Price : Type 0} (call : Call Quantity Price) (it : InstanceType Quantity Price)
    (nc b : NodeClaim) (rest : List NodeClaim) (nodes : List Node) (id : String)
    → reconcile nc (listed (nc ∷ b ∷ rest)) (listed nodes) patched ≡ assigned id
    → is_real id ≡ true
    → nc.uid ≢ b.uid
    → b.provider_id ≡ ""
    → label adopted_provider_id_annotation_key b.annotations ≡ id
    → choose call.world b ≡ chosen it
    → 2
      ≤ holders id
          (run (assigns nc (listed nodes) patched ∷ launches call b.uid ∷ []) (nc ∷ b ∷ rest))
unfolding run step is_real
adopted_and_assigned call it nc b rest nodes id e real other fresh adopts chose =
    let some_id : (label adopted_provider_id_annotation_key b.annotations == "") ≡ false =
      ground (arith, real, adopts) in
    let carried = create-adopted call it b some_id chose ∙ adopts in
    let distinct : (nc.uid == b.uid) ≡ false = ground (arith, eq_iff nc.uid b.uid, other) in
    let unset : (b.provider_id == "") ≡ true = (eq_iff b.provider_id "").1 fresh in
    rw
      (
        pass-assigned nc (b ∷ rest) nodes id e,
        launch_second call (record nc { provider_id = id }) b rest distinct unset,
      )
      (ground (arith, carried, real, eq_refl id))
