-- ===== src/Controllers/NodeProviderId/Unique.antt =====
-- One node, one NodeClaim: the NodeProviderIDController never gives a NodeClaim an ID that another
-- one carries.
use karpenter_provider_rafay.Prelude.{
  ℕ, ◌+◌, ◌≤◌, String, ◌≡◌, ◌≢◌, refl, Bool, true, false, ◌&&◌, List, [], ◌∷◌, contains, ◌==◌,
  eq_iff, if◌then◌else◌, arith,
}
use karpenter_provider_rafay.Kube.{NodeClaim, Node, Listing, listed, list_error}
use karpenter_provider_rafay.CloudProvider.{is_pending, is_real}
use karpenter_provider_rafay.CloudProvider.Matching.{Any, IsMatch, picked_matches, picked_unused}
use karpenter_provider_rafay.Controllers.NodeProviderId.{
  used_ids, PatchReply, patched, conflict, gone, patch_failed, Reconciled, assigned, find_node,
  reconcile, set_provider_id, after, pass,
}

abbrev pub carries : String → NodeClaim → Bool
carries id c = is_real c.provider_id && c.provider_id == id

-- How many NodeClaims carry a real provider ID.
abbrev pub holders : String → List NodeClaim → ℕ
holders id [] = 0
holders id (c ∷ claims) = (if carries id c then 1 else 0) + holders id claims

used_ids_lem :
    (id : String) (claims : List NodeClaim)
    → contains (used_ids claims) id ≡ false
    → holders id claims ≡ 0
unfolding used_ids contains
used_ids_lem id [] h = refl
used_ids_lem id (c ∷ claims) h = ground (arith, used_ids_lem id claims)

holders-set :
    (p uid id : String) (claims : List NodeClaim)
    → holders p (set_provider_id uid id claims) ≤ holders p claims + (if id == p then 1 else 0)
unfolding set_provider_id
holders-set p uid id [] = omega arith
holders-set p uid id (c ∷ claims) = ground (arith, holders-set p uid id claims)

-- What an assignment rests on.
record Assigned (nc : NodeClaim) (claims : List NodeClaim) (nodes : List Node) (id : String)
    : Type 0 where
  pending : is_pending nc.provider_id ≡ true
  alive : nc.deleting ≡ false
  some_id : (id == "") ≡ false
  node : find_node nc claims nodes ≡ id

reconcile-Assigned :
    (nc : NodeClaim) (claims : List NodeClaim) (nodes : List Node) (reply : PatchReply)
    (id : String)
    → reconcile nc (listed claims) (listed nodes) reply ≡ assigned id
    → Assigned nc claims nodes id
unfolding reconcile
reconcile-Assigned nc claims nodes patched id h = ground arith
reconcile-Assigned nc claims nodes conflict id h = ground arith
reconcile-Assigned nc claims nodes gone id h = ground arith
reconcile-Assigned nc claims nodes (patch_failed e) id h = ground arith

pub no_nodes_no_assignment :
    (nc : NodeClaim) (claims : List NodeClaim) (e : String) (reply : PatchReply) (id : String)
    → reconcile nc (listed claims) (list_error e) reply ≢ assigned id
unfolding reconcile
no_nodes_no_assignment nc claims e reply id h = ground arith

-- An ID that Reconcile assigns is that of a node of the NodeClaim's pool, of a SKU that it accepts,
-- created after it; no NodeClaim carries it yet; and the NodeClaim was pending and not being deleted.
pub assigned_is_free :
    (nc : NodeClaim) (claims : List NodeClaim) (nodes : List Node) (reply : PatchReply)
    (id : String)
    → reconcile nc (listed claims) (listed nodes) reply ≡ assigned id
    → (is_pending nc.provider_id ≡ true)
      × (nc.deleting ≡ false)
      × (holders id claims ≡ 0)
      × Any (IsMatch nc id) nodes
unfolding find_node
assigned_is_free nc claims nodes reply id h =
    let a = reconcile-Assigned nc claims nodes reply id h in
    (
      a.pending,
      a.alive,
      used_ids_lem id claims (picked_unused nc (used_ids claims) nodes id a.node (some a.some_id)),
      picked_matches nc (used_ids claims) nodes id a.node (some a.some_id),
    )
  where
    some : (id == "") ≡ false → id ≢ ""
    some e p = ground (arith, eq_iff id "")

module _ (p : String) (nc : NodeClaim) (claims : List NodeClaim) where
  assigned_keeps :
      (id : String)
      → (holders id claims ≡ 0)
      → holders p claims ≤ 1
      → holders p (set_provider_id nc.uid id claims) ≤ 1
  assigned_keeps id free h = ground (arith, holders-set p nc.uid id claims, eq_iff id p)

  after_keeps :
      (nodes : List Node) (reply : PatchReply) (r : Reconciled)
      → reconcile nc (listed claims) (listed nodes) reply ≡ r
      → holders p claims ≤ 1
      → holders p (after nc r claims) ≤ 1
  unfolding after
  after_keeps nodes reply (assigned id) e h =
      assigned_keeps id (assigned_is_free nc claims nodes reply id e).2 h
  after_keeps nodes reply _ e h = h

  after_error_keeps :
      (e : String) (reply : PatchReply) (r : Reconciled)
      → reconcile nc (listed claims) (list_error e) reply ≡ r
      → holders p claims ≤ 1
      → holders p (after nc r claims) ≤ 1
  unfolding after
  after_error_keeps e reply (assigned id) q h =
      absurd (no_nodes_no_assignment nc claims e reply id q)
  after_error_keeps e reply _ q h = h

  pass_keeps :
      (nodes : Listing Node) (reply : PatchReply)
      → holders p claims ≤ 1
      → holders p (pass nc nodes reply claims) ≤ 1
  unfolding pass
  pass_keeps (listed nodes) reply h =
      after_keeps nodes reply (reconcile nc (listed claims) (listed nodes) reply) refl h
  pass_keeps (list_error e) reply h =
      after_error_keeps e reply (reconcile nc (listed claims) (list_error e) reply) refl h

-- A pass: the NodeClaim that it is for, what the cache lists, what the API server answers.
pub record Pass : Type 0 where
  pub claim : NodeClaim
  pub nodes : Listing Node
  pub reply : PatchReply

unfoldable pub passes : List Pass → List NodeClaim → List NodeClaim
unfolding pass
passes [] claims = claims
passes (p ∷ ps) claims = passes ps (pass p.claim p.nodes p.reply claims)

-- If at most one NodeClaim carries a real provider ID, so it stays after any number of passes, for
-- whatever NodeClaims, node lists (stale ones too) and answers to the patches.
pub passes_keep_unique :
    (id : String) (ps : List Pass) (claims : List NodeClaim)
    → holders id claims ≤ 1
    → holders id (passes ps claims) ≤ 1
unfolding passes
passes_keep_unique id [] claims h = h
passes_keep_unique id (p ∷ ps) claims h =
    passes_keep_unique id ps (pass p.claim p.nodes p.reply claims)
      (pass_keeps id p.claim claims p.nodes p.reply h)
