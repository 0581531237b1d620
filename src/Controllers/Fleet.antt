-- ===== src/Controllers/Fleet.antt =====
-- The NodeClaims of a cluster under all the code that writes their provider IDs: Create of
-- pkg/cloudprovider/cloudprovider.go, and Reconcile of pkg/controllers/nodeproviderid/controller.go
-- and of pkg/controllers/nodeadoption/controller.go. Karpenter makes and removes NodeClaims, calls
-- Create for one that has no provider ID yet, and stores what Create returns.
pub mod Speakers
pub mod Unique
pub mod Shared
use karpenter_provider_rafay.Prelude.{
  ℕ, String, ◌≡◌, Bool, true, false, ◌||◌, ◌&&◌, List, [], ◌∷◌, ◌++◌, map, ◌==◌, if◌then◌else◌,
}
use karpenter_provider_rafay.Kube.{NodeClaim, NodeClassRef, Node, Listing, listed, label}
use karpenter_provider_rafay.CloudProvider.{is_real, adopted_provider_id_annotation_key}
use karpenter_provider_rafay.CloudProvider.Create.{
  World as CreateWorld, Created, created, failed, CreateStep, returns, waits, CreateWait,
  create_start, create_finish,
}
use karpenter_provider_rafay.Rafay.Batcher.{NodeBatcher}
use karpenter_provider_rafay.Controllers.NodeProviderId.{PatchReply, pass}
use karpenter_provider_rafay.Controllers.NodeAdoption.{NodePool}
use karpenter_provider_rafay.Controllers.NodeAdoption.Claim.{NewClaim}
use karpenter_provider_rafay.Controllers.NodeAdoption.Pass.{World, reconcile}
use karpenter_provider_rafay.Controllers.NodeAdoption.Adopted.{progress}

-- What the API server gives a new object.
pub record Identity : Type 0 where
  pub name : String
  pub uid : String
  pub created : ℕ

-- The NodeClaim as it is stored.
unfoldable pub stored : NodePool → (NewClaim → Identity) → NewClaim → NodeClaim
stored pool identity c = record {
  name = (identity c).name;
  uid = (identity c).uid;
  labels = c.labels;
  annotations = c.annotations;
  node_class_ref = pool.node_class_ref;
  provider_id = "";
  deleting = false;
  created = (identity c).created;
}

-- What a call of Create meets: the node classes, the batcher, and what its `select` picks.
pub record Call (Quantity Price : Type 0) : Type 0 where
  pub cluster_id : String
  pub project_id : String
  pub world : CreateWorld Quantity Price
  pub batcher : NodeBatcher
  pub wait : CreateWait

unfoldable pub launched_or : {Quantity : Type 0} → NodeClaim → Created Quantity → NodeClaim
launched_or nc (created out capacity) = out
launched_or nc (failed e) = nc

-- Without the NodeClaim of this UID.
unfoldable pub remove : String → List NodeClaim → List NodeClaim
remove uid [] = []
remove uid (c ∷ claims) = let rest = remove uid claims in if c.uid == uid then claims else c ∷ rest

pub data Action (Quantity Price : Type 0) : Type 0 where
  -- Karpenter makes a NodeClaim that adopts no node
  provisions : NodeClaim → Action Quantity Price
  launches : Call Quantity Price → String → Action Quantity Price
  -- a pass of the NodeProviderIDController
  assigns : NodeClaim → Listing Node → PatchReply → Action Quantity Price
  -- a pass of the NodeAdoptionController
  adopts : World → NodePool → List Node → (NewClaim → Identity) → Action Quantity Price
  removes : String → Action Quantity Price

module _ {Quantity Price : Type 0} where
  -- Create as a whole.
  unfoldable pub after_start : NodeClaim → CreateWait → CreateStep Quantity Price → Created Quantity
  unfolding create_finish
  after_start nc wait (returns out) = out
  after_start nc wait (waits ch selected b) = create_finish nc selected wait

  unfoldable pub create : Call Quantity Price → NodeClaim → Created Quantity
  unfolding after_start create_start
  create call nc =
      after_start nc call.wait
        (create_start call.world call.cluster_id call.project_id nc call.batcher)

  -- The stored NodeClaims after Create of the one with the UID, if it has no provider ID.
  unfoldable pub launch : Call Quantity Price → String → List NodeClaim → List NodeClaim
  unfolding launched_or create
  launch call uid [] = []
  launch call uid (c ∷ claims) =
      let rest = launch call uid claims in
      if c.uid == uid && c.provider_id == ""
      then launched_or c (create call c) ∷ claims
      else c ∷ rest

  unfoldable pub step : Action Quantity Price → List NodeClaim → List NodeClaim
  unfolding launch remove pass stored
  step (provisions c) claims =
      if label adopted_provider_id_annotation_key c.annotations == ""
      then record c { provider_id = "" } ∷ claims
      else claims
  step (launches call uid) claims = launch call uid claims
  step (assigns nc nodes reply) claims = pass nc nodes reply claims
  step (adopts world pool nodes identity) claims =
      map (stored pool identity) (progress (reconcile world pool (listed nodes) (listed claims)))
      ++ claims
  step (removes uid) claims = remove uid claims

  unfoldable pub run : List (Action Quantity Price) → List NodeClaim → List NodeClaim
  unfolding step
  run [] claims = claims
  run (a ∷ actions) claims = run actions (step a claims)
