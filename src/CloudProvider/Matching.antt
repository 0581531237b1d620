-- ===== src/CloudProvider/Matching.antt =====
-- Which node findNodeProviderID and the NodeProviderIDController pick.
use karpenter_provider_rafay.Prelude.{
  ℕ, ◌<◌, String, ◌≡◌, ◌≢◌, refl, sym, ◌⊎◌, inl, inr, Bool, true, false, ◌&&◌, not, List, [], ◌∷◌,
  contains, keep, ◌==◌, eq_iff, Bool-cases, All, if◌then◌else◌, subst, arith,
}
use karpenter_provider_rafay.Kube.{
  NodeClaim, Node, listed, label, matching_label, node_pool_label_key,
}
use karpenter_provider_rafay.CloudProvider.{
  nodepool_name_label, sku_name_label, is_real, node_claim_skus, used_by_others, is_candidate,
  first_candidate, found, find_node_provider_id,
}

-- Some element has the property.
abbrev pub Any {ℓ} : {A : Type ℓ} → (A → Type 0) → List A → Type 0
Any P [] = ⊥
Any P (x ∷ xs) = P x ⊎ Any P xs

Any-keep :
    (P : Node → Type 0) (p : Node → Bool) (nodes : List Node)
    → Any P (keep p nodes)
    → Any (λ n. P n × (p n ≡ true)) nodes
unfolding keep
Any-keep P p [] h = h
Any-keep P p (n ∷ nodes) h = go (p n) refl (λ k. Any-keep P p nodes k) h
  where
    go :
        (b : Bool)
        → p n ≡ b
        → (Any P (keep p nodes) → Any (λ n. P n × (p n ≡ true)) nodes)
        → Any P (if b then n ∷ keep p nodes else keep p nodes)
        → Any (λ n. P n × (p n ≡ true)) (n ∷ nodes)
    go true e ih (inl k) = inl (k, e)
    go true e ih (inr k) = inr (ih k)
    go false e ih k = inr (ih k)

pub Any-map :
    {P Q : Node → Type 0} (nodes : List Node) → ((n : Node) → P n → Q n) → Any P nodes → Any Q nodes
Any-map [] f h = h
Any-map (n ∷ nodes) f (inl p) = inl (f n p)
Any-map (n ∷ nodes) f (inr h) = inr (Any-map nodes f h)

module _ (skus used : List String) (created : ℕ) where
  -- The loop returns the ID of a node that it does not pass over.
  pub first_candidate_sound :
      (nodes : List Node) (id : String)
      → first_candidate skus used created nodes ≡ id
      → id ≢ ""
      → Any (λ n. (n.provider_id ≡ id) × (is_candidate skus used created n ≡ true)) nodes
  unfolding first_candidate
  first_candidate_sound [] id h ne = absurd (ne (sym h))
  first_candidate_sound (n ∷ nodes) id h ne = elim (Bool-cases (is_candidate skus used created n)) [
    | inl e ↦ inl (rw (e, first_candidate) at h, e)
    | inr e ↦ inr (first_candidate_sound nodes id (rw (e, first_candidate) at h) ne)
  ]

  -- It returns none only if it passes over all.
  pub first_candidate_complete :
      (nodes : List Node)
      → first_candidate skus used created nodes ≡ ""
      → All (λ n. is_candidate skus used created n ≡ false) nodes
  unfolding first_candidate is_candidate
  first_candidate_complete [] h = tt
  first_candidate_complete (n ∷ nodes) h =
      ground (arith, first_candidate_complete nodes, eq_iff n.provider_id "")

-- Another NodeClaim carries this real ID.
abbrev pub owns : NodeClaim → String → NodeClaim → Bool
owns nc id c = not (c.uid == nc.uid) && is_real c.provider_id && c.provider_id == id

used_by_others_lem :
    (nc : NodeClaim) (id : String) (claims : List NodeClaim)
    → contains (used_by_others nc claims) id ≡ false
    → All (λ c. owns nc id c ≡ false) claims
unfolding used_by_others contains
used_by_others_lem nc id [] h = tt
used_by_others_lem nc id (c ∷ claims) h = ground (arith, used_by_others_lem nc id claims)

-- The node is of the pool and of an accepted SKU, has the ID, and is younger than the NodeClaim.
abbrev pub IsMatch : NodeClaim → String → Node → Type 0
IsMatch nc id n =
    (n.provider_id ≡ id)
    × (label nodepool_name_label n.labels ≡ label node_pool_label_key nc.labels)
    × (contains (node_claim_skus nc) (label sku_name_label n.labels) ≡ true)
    × (nc.created < n.created)

candidate_parts :
    (skus used : List String) (created : ℕ) (n : Node)
    → is_candidate skus used created n ≡ true
    → (contains skus (label sku_name_label n.labels) ≡ true)
      × (contains used n.provider_id ≡ false)
      × (created < n.created)
unfolding is_candidate
candidate_parts skus used created n h = ground arith

Any-elim {ℓ} :
    {P : Node → Type 0} {Q : Type ℓ} (nodes : List Node) → ((n : Node) → P n → Q) → Any P nodes → Q
Any-elim [] f h = elim h [ ]
Any-elim (n ∷ nodes) f (inl p) = f n p
Any-elim (n ∷ nodes) f (inr h) = Any-elim nodes f h

-- A node that the loop picks among the nodes of the pool.
module _ (nc : NodeClaim) (used : List String) (nodes : List Node) (id : String) where
  abbrev pool_nodes : List Node
  pool_nodes = matching_label nodepool_name_label (label node_pool_label_key nc.labels) nodes

  picked :
      first_candidate (node_claim_skus nc) used nc.created pool_nodes ≡ id
      → id ≢ ""
      → Any
          (λ n.
            ((n.provider_id ≡ id) × (is_candidate (node_claim_skus nc) used nc.created n ≡ true))
            × ((label nodepool_name_label n.labels == label node_pool_label_key nc.labels) ≡ true))
          nodes
  unfolding matching_label
  picked h ne =
      Any-keep _ _ nodes
        (first_candidate_sound (node_claim_skus nc) used nc.created pool_nodes id h ne)

  pub picked_matches :
      first_candidate (node_claim_skus nc) used nc.created pool_nodes ≡ id
      → id ≢ ""
      → Any (IsMatch nc id) nodes
  picked_matches h ne =
      Any-map nodes
        (λ n p.
          let parts = candidate_parts (node_claim_skus nc) used nc.created n p.0.1 in
          (p.0.0, (eq_iff _ _).0 p.1, parts.0, parts.2))
        (picked h ne)

  pub picked_unused :
      first_candidate (node_claim_skus nc) used nc.created pool_nodes ≡ id
      → id ≢ ""
      → contains used id ≡ false
  picked_unused h ne =
      Any-elim nodes
        (λ n p.
          subst (λ (i : String). contains used i ≡ false) p.0.0
            (candidate_parts (node_claim_skus nc) used nc.created n p.0.1).1)
        (picked h ne)

find_first :
    (nc : NodeClaim) (claims : List NodeClaim) (nodes : List Node) (id : String)
    → find_node_provider_id nc (listed claims) (listed nodes) ≡ found id
    → id ≢ ""
    → first_candidate
        (node_claim_skus nc)
        (used_by_others nc claims)
        nc.created
        (matching_label nodepool_name_label (label node_pool_label_key nc.labels) nodes)
      ≡ id
unfolding find_node_provider_id
find_first nc claims nodes id h ne = ground arith

-- An ID that findNodeProviderID finds is that of a node that matches the NodeClaim, and no other
-- NodeClaim carries it.
pub find_node_provider_id_sound :
    (nc : NodeClaim) (claims : List NodeClaim) (nodes : List Node) (id : String)
    → find_node_provider_id nc (listed claims) (listed nodes) ≡ found id
    → id ≢ ""
    → Any (IsMatch nc id) nodes × All (λ c. owns nc id c ≡ false) claims
find_node_provider_id_sound nc claims nodes id h ne =
    let first = find_first nc claims nodes id h ne in
    (
      picked_matches nc (used_by_others nc claims) nodes id first ne,
      used_by_others_lem nc id claims
          (picked_unused nc (used_by_others nc claims) nodes id first ne),
    )
