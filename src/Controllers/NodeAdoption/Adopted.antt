-- ===== src/Controllers/NodeAdoption/Adopted.antt =====
-- The NodeClaims of a whole pass of the NodeAdoptionController: one per node, and for nodes that may
-- be adopted only.
use karpenter_provider_rafay.Prelude.{
  ℕ, ◌+◌, ◌≤◌, String, ◌≡◌, ◌≢◌, refl, sym, subst, ◌∙◌, ap, ◌⊎◌, inl, inr, Bool, true, false, List,
  [], ◌∷◌, contains, ◌==◌, eq_iff, Bool-cases, All, if◌then◌else◌, arith,
}
use karpenter_provider_rafay.Kube.{NodeClaim, Node, listed, matching_label}
use karpenter_provider_rafay.CloudProvider.{nodepool_name_label}
use karpenter_provider_rafay.CloudProvider.Matching.{Any}
use karpenter_provider_rafay.Controllers.NodeAdoption.{
  NodePool, adopts_into, claimed_ids, pending_claims, considered, screen,
}
use karpenter_provider_rafay.Controllers.NodeAdoption.Claim.{NewClaim}
use karpenter_provider_rafay.Controllers.NodeAdoption.Pass.{
  World, Progress, Round, goes_on, aborts, act, visit, at_start, Reconciled, ignored, failed,
  node_errors, resync, finish, from_lists, has_errors, reconcile,
}
use karpenter_provider_rafay.Controllers.NodeAdoption.Sound.{
  target, adopts_id, Passed, screen-Passed, Kept, Grown, progress_of, round_lem,
}

Round-cases :
    (r : Round)
    → ((s : Progress) × (r ≡ goes_on s)) ⊎ ((e : String) × (s : Progress) × (r ≡ aborts e s))
Round-cases (goes_on s) = inl (s, refl)
Round-cases (aborts e s) = inr (e, s, refl)

-- Whatever every round keeps, the loop keeps.
module _ (world : World) (pool : NodePool) (pending : List NodeClaim) (Inv : Progress → Type 0)
    (Q : Node → Type 0)
    (step : (node : Node) (s : Progress)
      → Q node
      → Inv s
      → Inv (progress_of (act world pool node (screen pending s.claimed node) s))) where
  visit_keeps :
      (nodes : List Node) (s : Progress)
      → All Q nodes
      → Inv s
      → Inv (progress_of (visit world pool pending nodes s))
  unfolding visit
  visit_keeps [] s q i = i
  visit_keeps (node ∷ nodes) s q i =
      elim (Round-cases (act world pool node (screen pending s.claimed node) s)) [
        | inl (next, e) ↦
            rw (e, visit)
              (visit_keeps nodes next q.1 (subst (λ r. Inv (progress_of r)) e (step node s q.0 i)))
        | inr (err, next, e) ↦
            rw (e, visit) (subst (λ r. Inv (progress_of r)) e (step node s q.0 i))
      ]

-- The NodeClaims that a reconcile has created, whatever its result.
abbrev pub progress : Reconciled → List NewClaim
progress ignored = []
progress (failed e s) = s.created
progress (node_errors s) = s.created
progress (resync s) = s.created

abbrev pub pool_nodes : NodePool → List Node → List Node
pool_nodes pool nodes = matching_label nodepool_name_label pool.name nodes

-- The NodeClaim is for a node of the pool that passed the guards, and binds to the node's ID.
abbrev pub IsAdoption : NodePool → List Node → List NodeClaim → NewClaim → Type 0
IsAdoption pool nodes claims c =
    Any
      (λ n.
        Passed (pending_claims pool claims) (claimed_ids claims) n × (adopts_id c ≡ target pool n))
      (pool_nodes pool nodes)

Any-here :
    (P : Node → Type 0) (n : Node) (nodes : List Node) → Any (λ m. m ≡ n) nodes → P n → Any P nodes
Any-here P n [] h p = elim h [ ]
Any-here P n (m ∷ nodes) (inl e) p = inl (subst P (sym e) p)
Any-here P n (m ∷ nodes) (inr h) p = inr (Any-here P n nodes h p)

All-weaken :
    {P Q : Node → Type 0} (nodes : List Node) → ((n : Node) → P n → Q n) → All P nodes → All Q nodes
All-weaken [] f h = tt
All-weaken (n ∷ nodes) f h = (f n h.0, All-weaken nodes f h.1)

All-self : (nodes : List Node) → All (λ n. Any (λ m. m ≡ n) nodes) nodes
All-self [] = tt
All-self (n ∷ nodes) = (inl refl, All-weaken nodes (λ m h. inr h) (All-self nodes))

module _ (world : World) (pool : NodePool) (nodes : List Node) (claims : List NodeClaim) where
  record Good (s : Progress) : Type 0 where
    grows : (id : String) → contains s.claimed id ≡ false → contains (claimed_ids claims) id ≡ false
    sound : All (IsAdoption pool nodes claims) s.created

  Good-next :
      (node : Node) (s next : Progress)
      → Any (λ m. m ≡ node) (pool_nodes pool nodes)
      → Good s
      → Kept s next
        ⊎ ((screen (pending_claims pool claims) s.claimed node ≡ considered)
            × Grown pool node s next)
      → Good next
  unfolding contains
  Good-next node s next here good (inl k) = record {
    grows = λ id h. good.grows id (sym (ap (λ l. contains l id) k.1) ∙ h);
    sound = subst (All (IsAdoption pool nodes claims)) (sym k.0) good.sound;
  }
  Good-next node s next here good (inr (v, (c, e, f, g))) = record {
    grows = λ id h. good.grows id (contains_tail id (sym (ap (λ l. contains l id) f) ∙ h));
    sound = subst (All (IsAdoption pool nodes claims)) (sym e) (
      Any-here _ node (pool_nodes pool nodes) here
          (still_free (screen-Passed (pending_claims pool claims) s.claimed node v), g),
      good.sound,
    );
  }
    where
      contains_tail :
          (id : String)
          → contains (target pool node ∷ s.claimed) id ≡ false
          → contains s.claimed id ≡ false
      contains_tail id h = ground arith

      still_free :
          Passed (pending_claims pool claims) s.claimed node
          → Passed (pending_claims pool claims) (claimed_ids claims) node
      still_free p = ground (arith, good.grows node.provider_id)

  Good-start : Good (at_start claims)
  Good-start = record { grows = λ id h. h; sound = tt }

  visit-Good : Good (
      progress_of
        (visit world pool (pending_claims pool claims) (pool_nodes pool nodes) (at_start claims)))
  visit-Good =
      visit_keeps world pool (pending_claims pool claims) Good
        (λ n. Any (λ m. m ≡ n) (pool_nodes pool nodes))
        (λ node s here good.
          Good-next node s
            (progress_of
              (act world pool node (screen (pending_claims pool claims) s.claimed node) s))
            here good
            (round_lem world pool node (screen (pending_claims pool claims) s.claimed node) s))
        (pool_nodes pool nodes) (at_start claims) (All-self (pool_nodes pool nodes)) Good-start

created-finish : (r : Round) → progress (finish r) ≡ (progress_of r).created
unfolding finish
created-finish (goes_on s) = elim (Bool-cases (has_errors s)) [
  | inl e ↦ rw (e, finish) refl
  | inr e ↦ rw (e, finish) refl
]
created-finish (aborts e s) = refl

-- Every NodeClaim that a reconcile creates, whatever the API server answers, is for a node of the
-- pool that is Ready, not being deleted, not a control-plane node, awaited by no pending NodeClaim,
-- and whose provider ID, if it has one, no NodeClaim carries or adopts; and it binds to that ID, or
-- to the one built for a node that has none.
pub adopts_qualified_nodes :
    (world : World) (pool : NodePool) (nodes : List Node) (claims : List NodeClaim)
    → All
        (IsAdoption pool nodes claims)
        (progress (reconcile world pool (listed nodes) (listed claims)))
unfolding reconcile from_lists
adopts_qualified_nodes world pool nodes claims = elim (Bool-cases (adopts_into pool)) [
  | inl e ↦
      rw (e, reconcile)
        (subst (All (IsAdoption pool nodes claims))
          (sym (
            created-finish (
              visit world pool (pending_claims pool claims) (pool_nodes pool nodes)
                (at_start claims))))
          (visit-Good world pool nodes claims).sound)
  | inr e ↦ rw (e, reconcile) tt
]

-- How many of the NodeClaims adopt an ID.
abbrev pub adopters : String → List NewClaim → ℕ
adopters id [] = 0
adopters id (c ∷ cs) = (if adopts_id c == id then 1 else 0) + adopters id cs

abbrev pub one_if : Bool → ℕ
one_if b = if b then 1 else 0

-- No node of the list would be given this ID for want of one.
abbrev pub NotBuilt : NodePool → String → Node → Type 0
NotBuilt pool id n = n.provider_id ≡ "" → target pool n ≢ id

module _ (world : World) (pool : NodePool) (id : String) (claims : List NodeClaim) where
  abbrev Counted : Progress → Type 0
  Counted s =
      adopters id s.created + one_if (contains (claimed_ids claims) id)
      ≤ one_if (contains s.claimed id)

  Counted-next :
      (node : Node) (s next : Progress)
      → NotBuilt pool id node
      → Counted s
      → Kept s next
        ⊎ ((screen (pending_claims pool claims) s.claimed node ≡ considered)
            × Grown pool node s next)
      → Counted next
  unfolding contains
  Counted-next node s next nb h (inl k) = ground (arith, k.0, k.1, h)
  Counted-next node s next nb h (inr (v, (c, e, f, g))) =
      rw (e, f, g)
        (elim (Bool-cases (target pool node == id)) [
          | inl same ↦
              ground
                (arith, free same (screen-Passed (pending_claims pool claims) s.claimed node v), h)
          | inr other ↦ ground (arith, h, other)
        ])
    where
      free :
          (target pool node == id) ≡ true
          → Passed (pending_claims pool claims) s.claimed node
          → contains s.claimed id ≡ false
      free same p =
          ground (arith, (eq_iff (target pool node) id).0 same, p, eq_iff node.provider_id "")

  visit-Counted :
      (nodes : List Node)
      → All (NotBuilt pool id) nodes
      → Counted
          (progress_of (visit world pool (pending_claims pool claims) nodes (at_start claims)))
  visit-Counted nodes nb =
      visit_keeps world pool (pending_claims pool claims) Counted (NotBuilt pool id)
        (λ node s q i.
          Counted-next node s
            (progress_of
              (act world pool node (screen (pending_claims pool claims) s.claimed node) s))
            q i (round_lem world pool node (screen (pending_claims pool claims) s.claimed node) s))
        nodes (at_start claims) nb (omega arith)

  -- A reconcile creates at most one NodeClaim for a provider ID, and none for an ID that a NodeClaim
  -- carries or adopts already, provided that it is not the ID built for a node that has none.
  pub adopts_once :
      (nodes : List Node)
      → All (NotBuilt pool id) (pool_nodes pool nodes)
      → adopters id (progress (reconcile world pool (listed nodes) (listed claims)))
          + one_if (contains (claimed_ids claims) id)
        ≤ 1
  unfolding reconcile from_lists
  adopts_once nodes nb = elim (Bool-cases (adopts_into pool)) [
    | inl e ↦
        rw
          (
            e,
            reconcile,
            created-finish (
                visit world pool (pending_claims pool claims) (pool_nodes pool nodes)
                  (at_start claims)),
          )
          (ground (arith, visit-Counted (pool_nodes pool nodes) nb))
    | inr e ↦ rw (e, reconcile) (ground arith)
  ]
