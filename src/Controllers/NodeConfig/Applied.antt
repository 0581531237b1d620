-- ===== src/Controllers/NodeConfig/Applied.antt =====
-- What the loop of sync over the decoded objects applies.
use karpenter_provider_rafay.Prelude.{
  ◌≡◌, refl, ap, ◌∙◌, ◌⊎◌, inl, inr, String, Bool, true, false, List, [], ◌∷◌, ◌++◌, Option, none,
  some, map, All, Bool-cases,
}
use karpenter_provider_rafay.Controllers.NodeConfig.{
  Manifest, ConfigState, SyncError, apply_failed, stamp, apply_all,
}

pub some-none : {A : Type 0} {a : A} → some a ≡ none → ⊥
some-none h = cc

module _ {Body : Type 0} where
  append_one :
      (xs ys : List (Manifest Body)) (x : Manifest Body) → (xs ++ x ∷ []) ++ ys ≡ xs ++ x ∷ ys
  append_one [] ys x = refl
  append_one (z ∷ xs) ys x = ap (◌∷◌ z) (append_one xs ys x)

  pub append_nil : (xs : List (Manifest Body)) → xs ≡ xs ++ []
  append_nil [] = refl
  append_nil (x ∷ xs) = ap (◌∷◌ x) (append_nil xs)

  module _ (accepts : Manifest Body → Bool) (revision : String) where
    -- The state after one more patch.
    abbrev with_applied : ConfigState Body → Manifest Body → ConfigState Body
    with_applied s m = record s { applied = s.applied ++ stamp revision m ∷ [] }

    pub apply_all_revision :
        (ms : List (Manifest Body)) (s : ConfigState Body)
        → (apply_all accepts revision ms s).1.last_revision ≡ s.last_revision
    unfolding apply_all
    apply_all_revision [] s = refl
    apply_all_revision (m ∷ ms) s = elim (Bool-cases (accepts (stamp revision m))) [
      | inl e ↦ rw (apply_all, e) (apply_all_revision ms (with_applied s m))
      | inr e ↦ rw (apply_all, e) refl
    ]

    -- The objects that the API server takes up to the first that it refuses: all of them, without an
    -- error, or those before the refused one, whose error is the result.
    abbrev pub StopsAt : List (Manifest Body) → List (Manifest Body) → Option SyncError → Type 0
    StopsAt done left error =
        All (λ m. accepts (stamp revision m) ≡ true) done
        × (((left ≡ []) × (error ≡ none))
            ⊎ ((m : Manifest Body) × (rest : List (Manifest Body)) × (left ≡ m ∷ rest)
                × (accepts (stamp revision m) ≡ false)
                × (error ≡ some (apply_failed m.kind m.name))))

    -- What the loop has applied where it ends, and its error.
    pub apply_all_stops :
        (ms : List (Manifest Body)) (s : ConfigState Body)
        → (done : List (Manifest Body)) × (left : List (Manifest Body)) × (ms ≡ done ++ left)
          × ((apply_all accepts revision ms s).1.applied ≡ s.applied ++ map (stamp revision) done)
          × StopsAt done left (apply_all accepts revision ms s).0
    unfolding apply_all
    apply_all_stops [] s = ([], [], refl, append_nil s.applied, (tt, inl (refl, refl)))
    apply_all_stops (m ∷ ms) s = elim (Bool-cases (accepts (stamp revision m))) [
      | inl e ↦
          let (done, left, parts, applied, (taken, last)) = apply_all_stops ms (with_applied s m) in
          (
            m ∷ done,
            left,
            ap (◌∷◌ m) parts,
            rw (apply_all, e)
                (applied ∙ append_one s.applied (map (stamp revision) done) (stamp revision m)),
            ((e, taken), rw (apply_all, e) last),
          )
      | inr e ↦ (
        [],
        m ∷ ms,
        refl,
        rw (apply_all, e) (append_nil s.applied),
        (tt, inr (m, ms, refl, e, rw (apply_all, e) refl)),
      )
    ]
