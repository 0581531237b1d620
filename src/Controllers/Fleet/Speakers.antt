-- ===== src/Controllers/Fleet/Speakers.antt =====
-- How many NodeClaims speak for a machine, and how Create and the store of the NodeClaims change it.
use karpenter_provider_rafay.Prelude.{
  ℕ, ◌+◌, ◌≤◌, String, ◌≡◌, refl, inl, inr, Bool, true, false, ◌||◌, List, [], ◌∷◌, ◌++◌, map,
  Option-cases, Bool-cases, All, contains, lookup, lookup-assign, ◌==◌, eq_iff, has_prefix-append,
  arith,
}
use karpenter_provider_rafay.Kube.{NodeClaim, label}
use karpenter_provider_rafay.CloudProvider.{
  is_real, is_pending, adopted_provider_id_annotation_key, batch_id_annotation_key,
  pending_provider_id_prefix,
}
use karpenter_provider_rafay.CloudProvider.Instances.{InstanceType}
use karpenter_provider_rafay.CloudProvider.Create.{
  Choice, chosen, refused, Created, CreateWait, ctx_done, result, choose, adopted, launched,
  create_start, create_with, create_finish,
}
use karpenter_provider_rafay.Controllers.NodeProviderId.{set_provider_id}
use karpenter_provider_rafay.Controllers.NodeProviderId.Unique.{carries, holders}
use karpenter_provider_rafay.Controllers.NodeAdoption.{NodePool, claimed_ids}
use karpenter_provider_rafay.Controllers.NodeAdoption.Claim.{NewClaim}
use karpenter_provider_rafay.Controllers.NodeAdoption.Adopted.{adopters, one_if}
use karpenter_provider_rafay.Controllers.Fleet.{
  Identity, stored, Call, after_start, create, launched_or, launch, remove,
}

-- The NodeClaim carries the ID, or was created to adopt it.
abbrev pub speaks : String → NodeClaim → Bool
speaks id c = carries id c || label adopted_provider_id_annotation_key c.annotations == id

-- How many NodeClaims speak for a machine.
abbrev pub speakers : String → List NodeClaim → ℕ
speakers id [] = 0
speakers id (c ∷ claims) = one_if (speaks id c) + speakers id claims

-- Every NodeClaim that adopts the ID has been launched.
abbrev pub IsSettled : String → List NodeClaim → Type 0
IsSettled id claims =
    All
      (λ c.
        (label adopted_provider_id_annotation_key c.annotations == id) ≡ true
        → (c.provider_id == id) ≡ true)
      claims

pub IsSettled-speakers :
    (id : String) (claims : List NodeClaim)
    → is_real id ≡ true
    → IsSettled id claims
    → speakers id claims ≤ holders id claims
IsSettled-speakers id [] real h = omega arith
IsSettled-speakers id (c ∷ claims) real h =
    ground (arith, h.0, eq_iff c.provider_id id, IsSettled-speakers id claims real h.1)

pub speakers-claimed :
    (id : String) (claims : List NodeClaim)
    → is_real id ≡ true
    → contains (claimed_ids claims) id ≡ false
    → speakers id claims ≡ 0
unfolding claimed_ids contains is_real
speakers-claimed id [] real h = refl
speakers-claimed id (c ∷ claims) real h = ground (
  arith,
  real,
  eq_iff id "",
  speakers-claimed id claims real,
  eq_iff (label adopted_provider_id_annotation_key c.annotations) "",
  eq_iff (label adopted_provider_id_annotation_key c.annotations) id,
)

-- An assignment adds no NodeClaim that speaks for another machine.
pub speakers-set :
    (p uid id : String) (claims : List NodeClaim)
    → speakers p (set_provider_id uid id claims) ≤ speakers p claims + one_if (id == p)
unfolding set_provider_id
speakers-set p uid id [] = omega arith
speakers-set p uid id (c ∷ claims) = ground (arith, speakers-set p uid id claims)

pub speakers-remove :
    (p uid : String) (claims : List NodeClaim) → speakers p (remove uid claims) ≤ speakers p claims
unfolding remove
speakers-remove p uid [] = omega arith
speakers-remove p uid (c ∷ claims) = ground (arith, speakers-remove p uid claims)

pub speakers-stored :
    (p : String) (pool : NodePool) (identity : NewClaim → Identity) (new : List NewClaim)
    (claims : List NodeClaim)
    → speakers p (map (stored pool identity) new ++ claims) ≡ adopters p new + speakers p claims
unfolding stored is_real
speakers-stored p pool identity [] claims = omega arith
speakers-stored p pool identity (c ∷ new) claims =
    ground (arith, speakers-stored p pool identity new claims)

-- What Create returns speaks for no machine that the NodeClaim did not speak for.
abbrev SpeaksLess : {Quantity : Type 0} → String → NodeClaim → Created Quantity → Type 0
SpeaksLess p c out = one_if (speaks p (launched_or c out)) ≤ one_if (speaks p c)

module _ (p : String) {Quantity Price : Type 0} (c : NodeClaim) where
  label-launched :
      (it : InstanceType Quantity Price) (batch_id : String)
      → label adopted_provider_id_annotation_key (launched c it batch_id).annotations
        ≡ label adopted_provider_id_annotation_key c.annotations
  unfolding launched lookup
  label-launched it batch_id = elim (Bool-cases (batch_id == "")) [
    | inl e ↦ rw e refl
    | inr e ↦
        rw
          (
            e,
            lookup-assign adopted_provider_id_annotation_key c.annotations
                ((batch_id_annotation_key, batch_id) ∷ []),
          )
          refl
  ]

  launched_not_real :
      (it : InstanceType Quantity Price) (batch_id : String)
      → is_real (launched c it batch_id).provider_id ≡ false
  unfolding launched is_real is_pending
  launched_not_real it batch_id = ground (arith, has_prefix-append pending_provider_id_prefix c.uid)

  launched-SpeaksLess :
      (it : InstanceType Quantity Price) (batch_id : String)
      → one_if (speaks p (launched c it batch_id)) ≤ one_if (speaks p c)
  launched-SpeaksLess it batch_id =
      ground (arith, label-launched it batch_id, launched_not_real it batch_id)

  finish-SpeaksLess :
      (it : InstanceType Quantity Price) (wait : CreateWait)
      → SpeaksLess p c (create_finish c it wait)
  unfolding create_finish launched_or
  finish-SpeaksLess it ctx_done = omega arith
  finish-SpeaksLess it (result r) = elim (Option-cases r.err) [
    | inl e ↦ rw (e, create_finish) (launched-SpeaksLess it r.batch_id)
    | inr (x, e) ↦ rw (e, create_finish) (omega arith)
  ]

  with-SpeaksLess :
      (call : Call Quantity Price) (choice : Choice Quantity Price)
      → SpeaksLess p c (
          after_start c call.wait
            (create_with call.world call.cluster_id call.project_id c choice call.batcher))
  unfolding after_start create_with adopted launched_or
  with-SpeaksLess call (refused e) = omega arith
  with-SpeaksLess call (chosen it) =
      elim (Bool-cases (label adopted_provider_id_annotation_key c.annotations == "")) [
        | inl e ↦ rw (e, create_with) (finish-SpeaksLess it call.wait)
        | inr e ↦ rw (e, create_with) (ground arith)
      ]

  create-SpeaksLess : (call : Call Quantity Price) → SpeaksLess p c (create call c)
  unfolding create create_start
  create-SpeaksLess call = with-SpeaksLess call (choose call.world c)

pub speakers-launch :
    {Quantity Price : Type 0} (p uid : String) (call : Call Quantity Price)
    (claims : List NodeClaim)
    → speakers p (launch call uid claims) ≤ speakers p claims
unfolding launch
speakers-launch p uid call [] = omega arith
speakers-launch p uid call (c ∷ claims) =
    ground (arith, speakers-launch p uid call claims, create-SpeaksLess p c call)
