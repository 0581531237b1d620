-- ===== src/CloudProvider/Instances/Cheapest.antt =====
-- Which instance type the stable sort puts first.
use karpenter_provider_rafay.Prelude.{
  ◌≡◌, refl, sym, ap, subst, ◌⊎◌, inl, inr, Bool, true, false, List, [], ◌∷◌, ◌++◌, All, Bool-cases,
  arith,
}
use karpenter_provider_rafay.CloudProvider.Instances.{
  InstanceType, Amounts, cheapest_offering, insert_type, sort_stable,
}

module _ {Quantity Price : Type 0} (amounts : Amounts Quantity Price) where
  abbrev pub cheaper : InstanceType Quantity Price → InstanceType Quantity Price → Bool
  cheaper a b = amounts.less (cheapest_offering amounts a) (cheapest_offering amounts b)

  -- The list is `before ++ s ∷ after`, and `s` is cheaper than all before it and none after it is
  -- cheaper: the first of the cheapest.
  pub record IsFirstCheapest (s : InstanceType Quantity Price)
      (types : List (InstanceType Quantity Price)) : Type 0 where
    pub before : List (InstanceType Quantity Price)
    pub after : List (InstanceType Quantity Price)
    pub parts : types ≡ before ++ s ∷ after
    pub dearer : All (λ t. cheaper s t ≡ true) before
    pub not_cheaper : All (λ t. cheaper t s ≡ false) after

  -- The head of a list is the first cheapest of some types.
  abbrev pub HeadIsCheapest :
      List (InstanceType Quantity Price) → List (InstanceType Quantity Price) → Type 0
  HeadIsCheapest types [] = types ≡ []
  HeadIsCheapest types (s ∷ sorted) = IsFirstCheapest s types

-- The order of prices: smaller is transitive, and so is not smaller.
pub record IsOrder {Quantity Price : Type 0} (amounts : Amounts Quantity Price) : Type 0 where
  pub less_trans :
      (a b c : Price) → amounts.less a b ≡ true → amounts.less b c ≡ true → amounts.less a c ≡ true
  pub not_less_trans :
      (a b c : Price)
      → amounts.less a b ≡ false
      → amounts.less b c ≡ false
      → amounts.less a c ≡ false

module _ {Quantity Price : Type 0} (amounts : Amounts Quantity Price)
    (order : IsOrder amounts) where
  -- Nothing of a list is cheaper than `x`, if nothing in it is cheaper than `s`, nor `s` than `x`.
  none_cheaper :
      (s x : InstanceType Quantity Price) (ts : List (InstanceType Quantity Price))
      → All (λ t. cheaper amounts t s ≡ false) ts
      → cheaper amounts s x ≡ false
      → All (λ t. cheaper amounts t x ≡ false) ts
  none_cheaper s x [] h n = tt
  none_cheaper s x (t ∷ ts) h n = (order.not_less_trans _ _ _ h.0 n, none_cheaper s x ts h.1 n)

  none_cheaper_before :
      (s x : InstanceType Quantity Price) (ts rest : List (InstanceType Quantity Price))
      → All (λ t. cheaper amounts s t ≡ true) ts
      → All (λ t. cheaper amounts t x ≡ false) rest
      → cheaper amounts s x ≡ false
      → All (λ t. cheaper amounts t x ≡ false) (ts ++ rest)
  none_cheaper_before s x [] rest h r n = r
  none_cheaper_before s x (t ∷ ts) rest h r n = (
    dearer_not_cheaper (Bool-cases (cheaper amounts t x)),
    none_cheaper_before s x ts rest h.1 r n,
  )
    where
      dearer_not_cheaper :
          (cheaper amounts t x ≡ true) ⊎ (cheaper amounts t x ≡ false) → cheaper amounts t x ≡ false
      dearer_not_cheaper (inl e) = absurd (ground (arith, order.less_trans _ _ _ h.0 e, n))
      dearer_not_cheaper (inr e) = e

  insert-first :
      (x h : InstanceType Quantity Price) (sorted types : List (InstanceType Quantity Price))
      → IsFirstCheapest amounts h types
      → HeadIsCheapest amounts (x ∷ types) (insert_type amounts x (h ∷ sorted))
  unfolding insert_type
  insert-first x h sorted types f = elim (Bool-cases (cheaper amounts h x)) [
    | inl less ↦
        rw (less, insert_type)
          (record {
            before = x ∷ f.before;
            after = f.after;
            parts = ap (λ (l : List (InstanceType Quantity Price)). x ∷ l) f.parts;
            dearer = (less, f.dearer);
            not_cheaper = f.not_cheaper;
          })
    | inr more ↦
        rw (more, insert_type)
          (record {
            before = [];
            after = types;
            parts = refl;
            dearer = tt;
            not_cheaper = subst (All (λ t. cheaper amounts t x ≡ false)) (sym f.parts) (
                none_cheaper_before h x f.before (h ∷ f.after) f.dearer
                  (more, none_cheaper h x f.after f.not_cheaper more) more);
          })
  ]

  insert-head :
      (x : InstanceType Quantity Price) (sorted types : List (InstanceType Quantity Price))
      → HeadIsCheapest amounts types sorted
      → HeadIsCheapest amounts (x ∷ types) (insert_type amounts x sorted)
  insert-head x [] types h =
      unfold insert_type in
      rw h (record { before = []; after = []; parts = refl; dearer = tt; not_cheaper = tt })
  insert-head x (y ∷ sorted) types h = insert-first x y sorted types h

  -- The stable sort puts the first of the cheapest instance types in front.
  pub sort_stable-HeadIsCheapest :
      (types : List (InstanceType Quantity Price))
      → HeadIsCheapest amounts types (sort_stable amounts types)
  unfolding sort_stable
  sort_stable-HeadIsCheapest [] = refl
  sort_stable-HeadIsCheapest (x ∷ types) =
      insert-head x (sort_stable amounts types) types (sort_stable-HeadIsCheapest types)
