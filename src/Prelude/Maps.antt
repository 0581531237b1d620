-- ===== src/Prelude/Maps.antt =====
-- Go's `map[string]V` as an association list: lookup, assignment, delete and the keys.
use Prim.Native.String.{String}
use mathlib.Core.Path.{◌≡◌, refl}
use mathlib.Core.List.{List, [], ◌∷◌}
use mathlib.Core.Option.{Option, none, some}
use native.Mathlib.Omega.{arith}
use text.Mathlib.Text.{◌==◌}
use text.Mathlib.TextEquality.{eq_iff}
use package.karpenter_provider_rafay.Prelude.Tests.{if◌then◌else◌, is_some}
use package.karpenter_provider_rafay.Prelude.Lists.{contains}

-- The first that is there.
abbrev pub or_value {ℓ} : {A : Type ℓ} → Option A → Option A → Option A
or_value none o = o
or_value (some a) o = some a

abbrev pub Dict {ℓ} : Type ℓ → Type ℓ
Dict V = List (String × V)

module _ {ℓ} {V : Type ℓ} where
  -- v, ok := m[k]
  unfoldable pub lookup : String → Dict V → Option V
  lookup k [] = none
  lookup k ((j, v) ∷ m) = if j == k then some v else lookup k m

  -- delete(m, k)
  unfoldable pub erase : String → Dict V → Dict V
  erase k [] = []
  erase k ((j, v) ∷ m) = let rest = erase k m in if j == k then rest else (j, v) ∷ rest

  -- m[k] = v
  unfoldable pub insert : String → V → Dict V → Dict V
  unfolding erase
  insert k v m = (k, v) ∷ erase k m

  -- for _, k := range ks { delete(m, k) }
  unfoldable pub erase_all : List String → Dict V → Dict V
  unfolding erase
  erase_all [] m = m
  erase_all (k ∷ ks) m = erase_all ks (erase k m)

  -- for _, k := range ks { m[k] = v }
  unfoldable pub insert_all : List String → V → Dict V → Dict V
  unfolding insert
  insert_all [] v m = m
  insert_all (k ∷ ks) v m = insert_all ks v (insert k v m)

  unfoldable pub keys : Dict V → List String
  keys [] = []
  keys ((k, v) ∷ m) = k ∷ keys m

  pub lookup-erase :
      (k j : String) (m : Dict V) → lookup j (erase k m) ≡ (if k == j then none else lookup j m)
  unfolding lookup erase
  lookup-erase k j [] = ground arith
  lookup-erase k j ((i, v) ∷ m) =
      ground (arith, lookup-erase k j m, eq_iff i k, eq_iff i j, eq_iff k j)

  pub lookup-insert :
      (k j : String) (v : V) (m : Dict V)
      → lookup j (insert k v m) ≡ (if k == j then some v else lookup j m)
  unfolding lookup insert
  lookup-insert k j v m = ground (arith, lookup-erase k j m)

  pub lookup-erase_all :
      (ks : List String) (j : String) (m : Dict V)
      → lookup j (erase_all ks m) ≡ (if contains ks j then none else lookup j m)
  unfolding erase_all contains
  lookup-erase_all [] j m = refl
  lookup-erase_all (k ∷ ks) j m =
      ground (arith, lookup-erase_all ks j (erase k m), lookup-erase k j m)

  pub lookup-insert_all :
      (ks : List String) (j : String) (v : V) (m : Dict V)
      → lookup j (insert_all ks v m) ≡ (if contains ks j then some v else lookup j m)
  unfolding insert_all contains
  lookup-insert_all [] j v m = refl
  lookup-insert_all (k ∷ ks) j v m =
      ground (arith, lookup-insert_all ks j v (insert k v m), lookup-insert k j v m)

  pub contains-keys : (m : Dict V) (k : String) → contains (keys m) k ≡ is_some (lookup k m)
  unfolding contains keys lookup
  contains-keys [] k = refl
  contains-keys ((j, v) ∷ m) k = ground (arith, contains-keys m k)

-- lo.Assign(a, b): the entries of both, those of the second where both have one.
unfoldable pub assign {ℓ} : {V : Type ℓ} → Dict V → Dict V → Dict V
unfolding insert
assign a [] = a
assign a ((k, v) ∷ b) = insert k v (assign a b)

pub lookup-assign {ℓ} :
    {V : Type ℓ} (j : String) (a b : Dict V)
    → lookup j (assign a b) ≡ or_value (lookup j b) (lookup j a)
unfolding assign lookup
lookup-assign j a [] = refl
lookup-assign j a ((k, v) ∷ b) =
    ground (arith, lookup-assign j a b, lookup-insert k j v (assign a b))

-- Every key stands once, as in a Go map.
abbrev pub IsKeyed {ℓ} : {V : Type ℓ} → Dict V → Type ℓ
IsKeyed [] = Unit
IsKeyed ((k, v) ∷ m) = (lookup k m ≡ none) × IsKeyed m

module _ {ℓ} {V : Type ℓ} where
  pub erase_absent : (k : String) (m : Dict V) → lookup k m ≡ none → erase k m ≡ m
  unfolding lookup erase
  erase_absent k [] h = refl
  erase_absent k ((j, v) ∷ m) h = ground (arith, erase_absent k m)

  pub erase-IsKeyed : (k : String) (m : Dict V) → IsKeyed m → IsKeyed (erase k m)
  unfolding erase
  erase-IsKeyed k [] h = tt
  erase-IsKeyed k ((j, v) ∷ m) h = ground (arith, erase-IsKeyed k m h.1, lookup-erase k j m)

  pub insert-IsKeyed : (k : String) (v : V) (m : Dict V) → IsKeyed m → IsKeyed (insert k v m)
  unfolding insert
  insert-IsKeyed k v m h = ground (arith, lookup-erase k k m, eq_iff k k, erase-IsKeyed k m h)

  pub erase-insert_self : (k : String) (v : V) (m : Dict V) → erase k (insert k v m) ≡ erase k m
  unfolding insert erase
  erase-insert_self k v m =
      ground (arith, eq_iff k k, erase_absent k (erase k m), lookup-erase k k m)

pub ruleset dict_laws = (lookup-erase, lookup-insert, lookup-erase_all, lookup-insert_all)
