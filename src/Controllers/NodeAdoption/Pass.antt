-- ===== src/Controllers/NodeAdoption/Pass.antt =====
-- Reconcile of pkg/controllers/nodeadoption/controller.go.
-- The API server's answers to patches and creations are functions of the object; the compatibility
-- of labels with requirements and offerings is Karpenter's scheduling package, a parameter.
use karpenter_provider_rafay.Prelude.{
  ℕ, suc, String, Bool, true, false, ◌&&◌, List, [], ◌∷◌, Option, none, some, Dict, insert, ◌==◌,
  if◌then◌else◌,
}
use karpenter_provider_rafay.Kube.{
  NodeClaim, Node, Listing, listed, list_error, label, matching_label,
}
use karpenter_provider_rafay.CloudProvider.{
  nodepool_name_label, sku_name_label, adopted_provider_id_annotation_key,
}
use karpenter_provider_rafay.Controllers.NodeAdoption.{
  NodePool, Requirement, adopts_into, claimed_ids, pending_claims, Verdict, passed_over, skipped,
  not_ready, considered, screen,
}
use karpenter_provider_rafay.Controllers.NodeAdoption.Claim.{
  InstanceType, NewClaim, adopted_node_claim, Prepared, prepared, cannot_build, patch_error,
  prepare_node,
}

-- What a pass depends on besides the lists: `class_key` for the pool, the instance types of its
-- node class (an error if it cannot be used), the two compatibility tests, and the answers of the
-- API server, `none` for success.
pub record World : Type 0 where
  pub class_key : String
  pub instance_types : Listing InstanceType
  pub satisfies_pool : Dict String → List Requirement → Bool
  pub has_offering : InstanceType → Dict String → Bool
  pub patch : Node → Option String
  pub create : NewClaim → Option String

-- The variables of the loop, with the NodeClaims that were created and the nodes patched.
pub record Progress : Type 0 where
  pub claimed : List String
  pub adopted : ℕ
  pub skips : ℕ
  pub waiting : ℕ
  pub errs : List String
  pub created : List NewClaim
  pub patches : List Node

abbrev skip : Progress → Progress
skip s = record s { skips = suc s.skips }

abbrev fail : String → Progress → Progress
fail e s = record s { errs = e ∷ s.errs }

unfoldable pub find_type : String → List InstanceType → Option InstanceType
find_type sku [] = none
find_type sku (it ∷ types) =
    let rest = find_type sku types in if it.name == sku then some it else rest

-- validateAdoptable
unfoldable pub validate_adoptable : World → NodePool → InstanceType → Dict String → Bool
validate_adoptable world pool it labels =
    world.satisfies_pool labels pool.requirements && world.has_offering it labels

unfoldable pub create_claim : World → NewClaim → String → Progress → Progress
create_claim world claim id s = elim (world.create claim) [
  | some e ↦ fail e s
  | none ↦ record s {
    claimed = id ∷ s.claimed;
    adopted = suc s.adopted;
    created = claim ∷ s.created;
  }
]

abbrev pub with_id : String → NewClaim → NewClaim
with_id id claim = record claim {
  annotations = insert adopted_provider_id_annotation_key id claim.annotations;
}

unfoldable pub patched : Option Node → Progress → Progress
patched none s = s
patched (some node) s = record s { patches = node ∷ s.patches }

unfoldable pub after_prepare : World → NewClaim → Prepared → Progress → Progress
unfolding create_claim patched
after_prepare world claim (prepared id node) s =
    create_claim world (with_id id claim) id (patched node s)
after_prepare world claim cannot_build s = fail "cannot build a provider ID" s
after_prepare world claim (patch_error e) s = fail e s

-- The loop's body behind the guards, for an instance type that was found.
unfoldable pub adopt : World → NodePool → Node → InstanceType → Progress → Progress
unfolding validate_adoptable prepare_node after_prepare adopted_node_claim
adopt world pool node it s =
    let sku = label sku_name_label node.labels in
    let claim = adopted_node_claim world.class_key pool node sku it in
    if validate_adoptable world pool it claim.labels
    then after_prepare world claim (prepare_node node pool.name sku world.patch) s
    else skip s

unfoldable pub adopt_if : World → NodePool → Node → Option InstanceType → Progress → Progress
unfolding adopt
adopt_if world pool node none s = skip s
adopt_if world pool node (some it) s = adopt world pool node it s

-- One round of the loop: an error of GetInstanceTypes ends the pass.
pub data Round : Type 0 where
  goes_on : Progress → Round
  aborts : String → Progress → Round

unfoldable pub consider : World → NodePool → Node → Listing InstanceType → Progress → Round
unfolding adopt_if find_type
consider world pool node (list_error e) s = aborts e s
consider world pool node (listed types) s =
    goes_on (adopt_if world pool node (find_type (label sku_name_label node.labels) types) s)

unfoldable pub act : World → NodePool → Node → Verdict → Progress → Round
unfolding consider
act world pool node passed_over s = goes_on s
act world pool node skipped s = goes_on (skip s)
act world pool node not_ready s = goes_on (record s { waiting = suc s.waiting })
act world pool node considered s = consider world pool node world.instance_types s

unfoldable pub visit : World → NodePool → List NodeClaim → List Node → Progress → Round
unfolding act screen
visit world pool pending [] s = goes_on s
visit world pool pending (node ∷ nodes) s =
    elim (act world pool node (screen pending s.claimed node) s) [
      | goes_on next ↦ visit world pool pending nodes next
      | aborts e last ↦ aborts e last
    ]

abbrev pub at_start : List NodeClaim → Progress
at_start claims = record {
  claimed = claimed_ids claims;
  adopted = 0;
  skips = 0;
  waiting = 0;
  errs = [];
  created = [];
  patches = [];
}

-- The result of Reconcile: nothing to do, an error, the errors of nodes, or a requeue after
-- resyncInterval.
pub data Reconciled : Type 0 where
  ignored : Reconciled
  failed : String → Progress → Reconciled
  node_errors : Progress → Reconciled
  resync : Progress → Reconciled

unfoldable pub has_errors : Progress → Bool
has_errors s = elim s.errs [ [] ↦ false | _ ∷ _ ↦ true ]

unfoldable pub finish : Round → Reconciled
unfolding has_errors
finish (aborts e s) = failed e s
finish (goes_on s) = if has_errors s then node_errors s else resync s

unfoldable pub from_lists : World → NodePool → Listing Node → Listing NodeClaim → Reconciled
unfolding finish visit
from_lists world pool (list_error e) claims = failed e (at_start [])
from_lists world pool (listed nodes) (list_error e) = failed e (at_start [])
from_lists world pool (listed nodes) (listed claims) = finish (
    visit world pool (pending_claims pool claims)
      (matching_label nodepool_name_label pool.name nodes) (at_start claims))

-- Reconcile, from the nodes in the cache and the NodeClaims of the API server.
unfoldable pub reconcile : World → NodePool → Listing Node → Listing NodeClaim → Reconciled
unfolding from_lists adopts_into
reconcile world pool nodes claims =
    if adopts_into pool then from_lists world pool nodes claims else ignored
