-- ===== src/Controllers/Fleet/Unique.antt =====
-- One machine, one NodeClaim, under all the code that writes provider IDs.
use karpenter_provider_rafay.Prelude.{
  ◌≤◌, String, ◌≡◌, refl, ◌⊎◌, inl, inr, true, List, [], ◌∷◌, ◌++◌, map, All, ◌==◌, eq_iff,
  if◌then◌else◌, arith,
}
use karpenter_provider_rafay.Kube.{NodeClaim, Node, Listing, listed, list_error, label}
use karpenter_provider_rafay.CloudProvider.{is_real, adopted_provider_id_annotation_key}
use karpenter_provider_rafay.Controllers.NodeProviderId.{
  PatchReply, Reconciled, assigned, reconcile, set_provider_id, after, pass,
}
use karpenter_provider_rafay.Controllers.NodeProviderId.Unique.{
  holders, assigned_is_free, no_nodes_no_assignment,
}
use karpenter_provider_rafay.Controllers.NodeAdoption.{NodePool}
use karpenter_provider_rafay.Controllers.NodeAdoption.Claim.{NewClaim}
use karpenter_provider_rafay.Controllers.NodeAdoption.Pass.{World, reconcile as adopt_into}
use karpenter_provider_rafay.Controllers.NodeAdoption.Adopted.{
  progress, NotBuilt, pool_nodes, adopts_once,
}
use karpenter_provider_rafay.Controllers.Fleet.Speakers.{
  speakers, IsSettled, IsSettled-speakers, speakers-claimed, speakers-set, speakers-remove,
  speakers-stored, speakers-launch,
}
use karpenter_provider_rafay.Controllers.Fleet.{
  Identity, stored, Action, provisions, launches, assigns, adopts, removes, step, run,
}

after-cases :
    (nc : NodeClaim) (r : Reconciled) (claims : List NodeClaim)
    → (after nc r claims ≡ claims)
      ⊎ ((id : String) × (r ≡ assigned id) × (after nc r claims ≡ set_provider_id nc.uid id claims))
unfolding after
after-cases nc (assigned id) claims = inr (id, refl, refl)
after-cases nc _ claims = inl refl

-- A pass changes nothing, or it writes an ID that no NodeClaim carries.
pass-cases :
    (nc : NodeClaim) (claims : List NodeClaim) (nodes : Listing Node) (reply : PatchReply)
    → (pass nc nodes reply claims ≡ claims)
      ⊎ ((id : String) × (pass nc nodes reply claims ≡ set_provider_id nc.uid id claims)
          × (holders id claims ≡ 0))
unfolding pass
pass-cases nc claims (listed nodes) reply =
    elim (after-cases nc (reconcile nc (listed claims) (listed nodes) reply) claims) [
      | inl same ↦ inl same
      | inr (id, e, set) ↦ inr (id, set, (assigned_is_free nc claims nodes reply id e).2)
    ]
pass-cases nc claims (list_error err) reply =
    elim (after-cases nc (reconcile nc (listed claims) (list_error err) reply) claims) [
      | inl same ↦ inl same
      | inr (id, e, set) ↦ absurd (no_nodes_no_assignment nc claims err reply id e)
    ]

module _ (p : String) (real : is_real p ≡ true) where
  speakers-pass :
      (nc : NodeClaim) (claims : List NodeClaim) (nodes : Listing Node) (reply : PatchReply)
      → IsSettled p claims
      → speakers p claims ≤ 1
      → speakers p (pass nc nodes reply claims) ≤ 1
  speakers-pass nc claims nodes reply settled h = elim (pass-cases nc claims nodes reply) [
    | inl same ↦ rw same h
    | inr (id, set, free) ↦ rw set (
        ground (
          arith,
          speakers-set p nc.uid id claims,
          IsSettled-speakers p claims real settled,
          eq_iff id p,
          free,
        ))
  ]

  speakers-adopt :
      (world : World) (pool : NodePool) (nodes : List Node) (identity : NewClaim → Identity)
      (claims : List NodeClaim)
      → All (NotBuilt pool p) (pool_nodes pool nodes)
      → speakers p claims ≤ 1
      → speakers p (
          map
            (stored pool identity)
            (progress (adopt_into world pool (listed nodes) (listed claims)))
          ++ claims)
        ≤ 1
  speakers-adopt world pool nodes identity claims nb h =
      rw (speakers-stored p pool identity _ claims)
        (ground (arith, adopts_once world pool p claims nodes nb, speakers-claimed p claims real))

speakers-provisions :
    (p : String) (c : NodeClaim) (claims : List NodeClaim)
    → is_real p ≡ true
    → speakers p claims ≤ 1
    → speakers p (
        if label adopted_provider_id_annotation_key c.annotations == ""
        then record c { provider_id = "" } ∷ claims
        else claims)
      ≤ 1
unfolding is_real
speakers-provisions p c claims real h =
    let adopts = label adopted_provider_id_annotation_key c.annotations in
    ground (arith, real, h, eq_iff adopts "", eq_iff adopts p, eq_iff p "")

-- What the code relies on and does not itself make sure of: where a pass assigns IDs, the NodeClaims
-- that adopt the machine have been launched; and where a pass adopts, no node would get the ID for
-- want of one.
abbrev pub MayStep :
    {Quantity Price : Type 0} → String → Action Quantity Price → List NodeClaim → Type 0
MayStep id (assigns nc nodes reply) claims = IsSettled id claims
MayStep id (adopts world pool nodes identity) claims =
    All (NotBuilt pool id) (pool_nodes pool nodes)
MayStep id (provisions c) claims = Unit
MayStep id (launches call uid) claims = Unit
MayStep id (removes uid) claims = Unit

abbrev pub IsOrderly :
    {Quantity Price : Type 0} → String → List (Action Quantity Price) → List NodeClaim → Type 0
IsOrderly id [] claims = Unit
IsOrderly id (a ∷ actions) claims = MayStep id a claims × IsOrderly id actions (step a claims)

step_keeps :
    {Quantity Price : Type 0} (id : String) (a : Action Quantity Price) (claims : List NodeClaim)
    → is_real id ≡ true
    → MayStep id a claims
    → speakers id claims ≤ 1
    → speakers id (step a claims) ≤ 1
unfolding step
step_keeps id (assigns nc nodes reply) claims real o h =
    speakers-pass id real nc claims nodes reply o h
step_keeps id (adopts world pool nodes identity) claims real o h =
    speakers-adopt id real world pool nodes identity claims o h
step_keeps id (provisions c) claims real o h = speakers-provisions id c claims real h
step_keeps id (launches call uid) claims real o h =
    omega (arith, speakers-launch id uid call claims)
step_keeps id (removes uid) claims real o h = omega (arith, speakers-remove id uid claims)

-- At most one NodeClaim speaks for a machine, by carrying its ID or by adopting it, after any run of
-- launches, assignments, adoptions, and NodeClaims that Karpenter makes and removes, if it is so
-- before; provided that in each assignment the NodeClaims that adopt the machine have been launched,
-- and that in each adoption no node is given the ID for want of one.
pub run_keeps_unique :
    {Quantity Price : Type 0} (id : String) (actions : List (Action Quantity Price))
    (claims : List NodeClaim)
    → is_real id ≡ true
    → IsOrderly id actions claims
    → speakers id claims ≤ 1
    → speakers id (run actions claims) ≤ 1
unfolding run
run_keeps_unique id [] claims real o h = h
run_keeps_unique id (a ∷ actions) claims real o h =
    run_keeps_unique id actions (step a claims) real o.1 (step_keeps id a claims real o.0 h)
