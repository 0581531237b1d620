-- ===== src/Rafay/ProviderId/RoundTrip.antt =====
-- ParseProviderID undoes BuildProviderID.
use Prim.Native.Char.{Char, code}
use Prim.Native.String.{String, [], ◌∷◌, ◌++◌}
use Prim.Native.String.append
use karpenter_provider_rafay.Prelude.{
  ◌≡◌, ◌≢◌, refl, Bool, false, ◌||◌, some, nat_eq, ◌==◌, eq_iff, trim_prefix, cut,
  has_prefix-append, after_prefix-append, arith,
}
use karpenter_provider_rafay.Rafay.ProviderId.{
  provider_id_prefix, build_provider_id, parse_provider_id, parts_of, slash,
}

abbrev pub has_slash : String → Bool
has_slash [] = false
has_slash (c ∷ s) = nat_eq (code c) (code slash) || has_slash s

cut-append : (p r : String) → has_slash p ≡ false → cut slash (p ++ ("/" ++ r)) ≡ some (p, r)
unfolding cut
cut-append [] r h = rw (append.nil ("/" ++ r), append.cons slash "" r, append.nil r) refl
cut-append (c ∷ p) r h = rw (append.cons c p ("/" ++ r)) (ground (arith, cut-append p r, h))

nil_apart : (c : Char) (s : String) → c ∷ s ≢ ""
nil_apart c s e = cc

not_nil : (p r : String) → (p == "") ≡ false → ((p ++ r) == "") ≡ false
not_nil [] r h = cc
not_nil (c ∷ p) r h =
    rw (append.cons c p r) (ground (arith, eq_iff (c ∷ (p ++ r)) "", nil_apart c (p ++ r)))

-- Parsing the ID built for a pool, a SKU and a host gives back the pool and `sku/host`, if none of
-- the three is empty and the pool's name has no slash.
pub parse-build :
    (pool sku host : String)
    → (pool == "") ≡ false
    → (sku == "") ≡ false
    → (host == "") ≡ false
    → has_slash pool ≡ false
    → parse_provider_id (build_provider_id pool sku host) ≡ some (pool, sku ++ ("/" ++ host))
unfolding parse_provider_id build_provider_id trim_prefix
parse-build pool sku host p s h n =
    rw
      (
        p,
        s,
        h,
        build_provider_id,
        parse_provider_id,
        has_prefix-append provider_id_prefix (pool ++ ("/" ++ (sku ++ ("/" ++ host)))),
        after_prefix-append provider_id_prefix (pool ++ ("/" ++ (sku ++ ("/" ++ host)))),
        cut-append pool (sku ++ ("/" ++ host)) n,
        parts_of,
        p,
        not_nil sku ("/" ++ host) s,
      )
      refl
