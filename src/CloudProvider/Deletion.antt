-- ===== src/CloudProvider/Deletion.antt =====
-- What Delete and the failure handler of the batcher do to NodeClaims, and how List and Get agree.
use karpenter_provider_rafay.Prelude.{
  ℕ, String, ◌≡◌, ◌≢◌, refl, ◌⊎◌, inl, inr, true, false, List, [], ◌∷◌, some, contains, keep,
  lookup, is_some, or_else, ◌==◌, eq_iff, All, arith,
}
use karpenter_provider_rafay.Kube.{NodeClaim, Node, Listing, listed}
use karpenter_provider_rafay.Rafay.Batcher.{NodeBatcher, OpKind, acked, has_succeeded}
use karpenter_provider_rafay.Rafay.Batcher.Enqueue.{enqueue_remove}
use karpenter_provider_rafay.Rafay.Batcher.Replies.{HasResult, enqueue_in_flight}
use karpenter_provider_rafay.CloudProvider.{
  is_pending, is_real, find_node_provider_id, Found, found, failed, Deleted, not_found, returns,
  waits, real_id, remove_operation_id, send_remove, delete_start, claim_to_delete,
  batch_failure_handler, list_nodes_from_kube, exists, get_node_from_kube, get,
}
use karpenter_provider_rafay.CloudProvider.Matching.{
  Any, IsMatch, owns, find_node_provider_id_sound,
}

module _ (cluster project : String) (nc : NodeClaim) (b : NodeBatcher) where
  -- Delete reports the instance as gone, without sending anything, only if the NodeClaim has no
  -- provider ID, or the broker reported the removal as succeeded, or the NodeClaim is pending and no
  -- joined node was found for it, as when a list fails; only in the last case it asks the broker to
  -- cancel, and only the add of this NodeClaim.
  pub delete_reports_gone :
      (claims : Listing NodeClaim) (nodes : Listing Node) (r : Deleted) (cancelled : List String)
      → delete_start cluster project nc claims nodes b ≡ returns r cancelled
      → (r ≡ not_found)
        × (((nc.provider_id ≡ "") × (cancelled ≡ []))
            ⊎ (((has_succeeded b (remove_operation_id nc) ≡ true) × (cancelled ≡ []))
                ⊎ ((is_pending nc.provider_id ≡ true)
                    × (real_id (find_node_provider_id nc claims nodes) ≡ "")
                    × (cancelled ≡ nc.uid ∷ []))))
  unfolding delete_start send_remove
  delete_reports_gone claims nodes r cancelled h =
      ground (
        arith,
        eq_iff nc.provider_id "",
        eq_iff (real_id (find_node_provider_id nc claims nodes)) "",
      )

  -- The node whose removal Delete sends: the NodeClaim's own, or the one found for a pending claim.
  abbrev pub IsTarget : List NodeClaim → List Node → String → Type 0
  IsTarget claims nodes id =
      ((is_pending nc.provider_id ≡ false) × (id ≡ nc.provider_id))
      ⊎ ((is_pending nc.provider_id ≡ true)
          × Any (IsMatch nc id) nodes
          × All (λ c. owns nc id c ≡ false) claims)

  sends_joined :
      (claims : List NodeClaim) (nodes : List Node) (f : Found)
      → find_node_provider_id nc (listed claims) (listed nodes) ≡ f
      → real_id f ≢ ""
      → Any (IsMatch nc (real_id f)) nodes × All (λ c. owns nc (real_id f) c ≡ false) claims
  unfolding real_id
  sends_joined claims nodes (found id) e ne = find_node_provider_id_sound nc claims nodes id e ne
  sends_joined claims nodes (failed err) e ne = absurd (ne refl)

  sends :
      (claims : List NodeClaim) (nodes : List Node) (ch : ℕ) (after : NodeBatcher)
      → let joined = real_id (find_node_provider_id nc (listed claims) (listed nodes)) in
        delete_start cluster project nc (listed claims) (listed nodes) b ≡ waits ch after
        → ((is_pending nc.provider_id ≡ false)
            × (send_remove cluster project nc nc.provider_id b ≡ waits ch after))
          ⊎ ((is_pending nc.provider_id ≡ true)
              × ((joined == "") ≡ false)
              × (send_remove cluster project nc joined b ≡ waits ch after))
  unfolding delete_start
  sends claims nodes ch after h = ground arith

  -- If Delete sends a removal, it is that of the NodeClaim's own node, or, for a pending NodeClaim,
  -- that of a node that matches the NodeClaim and whose ID no other NodeClaim carries.
  pub delete_removes_own_node :
      (claims : List NodeClaim) (nodes : List Node) (ch : ℕ) (after : NodeBatcher)
      → delete_start cluster project nc (listed claims) (listed nodes) b ≡ waits ch after
      → (id : String) × (send_remove cluster project nc id b ≡ waits ch after)
        × IsTarget claims nodes id
  delete_removes_own_node claims nodes ch after h = elim (sends claims nodes ch after h) [
    | inl (e, s) ↦ (nc.provider_id, s, inl (e, refl))
    | inr (e, ne, s) ↦
        let j =
          sends_joined claims nodes (find_node_provider_id nc (listed claims) (listed nodes)) refl
            (is_set ne) in
        (real_id (find_node_provider_id nc (listed claims) (listed nodes)), s, inr (e, j.0, j.1))
  ]
    where
      is_set : {s : String} → (s == "") ≡ false → s ≢ ""
      is_set {s} e p = ground (arith, eq_iff s "")

  -- While the removal is in flight at the broker, another Delete of a node with a real ID queues
  -- nothing: it gets the batch ID of the first one at once.
  pub delete_again_sends_nothing :
      (id : String) (ch : ℕ) (after : NodeBatcher)
      → is_some (lookup (remove_operation_id nc) b.in_flight) ≡ true
      → send_remove cluster project nc id b ≡ waits ch after
      → HasResult ch
          (acked (or_else (lookup (remove_operation_id nc) b.op_batch) ""))
          after.delivered
        × (after.queue ≡ b.queue)
        × (after.pending ≡ b.pending)
  unfolding send_remove enqueue_remove
  delete_again_sends_nothing id ch after h s = ground (arith, enqueue_in_flight _ b h)

-- The failure handler deletes a NodeClaim only for a failed add, and then the one whose UID is the
-- operation's, and only if it has no real provider ID and is not being deleted.
pub failure_handler_safe :
    (kind : OpKind) (op : String) (claims : List NodeClaim) (nc : NodeClaim)
    → batch_failure_handler kind op (listed claims) ≡ some nc
    → (kind ≡ OpKind.add)
      × (nc.uid ≡ op)
      × (is_real nc.provider_id ≡ false)
      × (nc.deleting ≡ false)
      × Any (λ c. c ≡ nc) claims
unfolding batch_failure_handler claim_to_delete
failure_handler_safe OpKind.remove op claims nc h = cc
failure_handler_safe OpKind.add op [] nc h = cc
failure_handler_safe OpKind.add op (c ∷ claims) nc h =
    ground (arith, failure_handler_safe OpKind.add op claims nc, eq_iff c.uid op)

get_listed :
    (id : String) (nodes : List Node)
    → contains (list_nodes_from_kube nodes) id ≡ true
    → get_node_from_kube id nodes ≡ exists id
unfolding get_node_from_kube list_nodes_from_kube contains keep
get_listed id [] h = cc
get_listed id (n ∷ nodes) h = ground (arith, get_listed id nodes, eq_iff n.provider_id id)

listed_not_empty :
    (id : String) (nodes : List Node)
    → contains (list_nodes_from_kube nodes) id ≡ true
    → (id == "") ≡ false
unfolding list_nodes_from_kube contains keep
listed_not_empty id [] h = cc
listed_not_empty id (n ∷ nodes) h =
    ground (arith, listed_not_empty id nodes, eq_iff n.provider_id id)

-- What List returns, Get reports as existing, from the same nodes.
pub list_then_get :
    (id : String) (nodes : List Node)
    → contains (list_nodes_from_kube nodes) id ≡ true
    → get id (listed nodes) ≡ exists id
unfolding get list_nodes_from_kube
list_then_get id nodes h = ground (arith, get_listed id nodes h, listed_not_empty id nodes h)
