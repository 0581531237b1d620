-- ===== src/Controllers/Headroom/Sync/Loaded.antt =====
-- The names of the pools that loadPools returns: each another one, none empty.
use karpenter_provider_rafay.Prelude.{
  String, ◌≡◌, ◌∙◌, ap, subst, inl, inr, List, [], ◌∷◌, Option, none, some, Dict, lookup,
  Option-cases,
}
use karpenter_provider_rafay.Controllers.Headroom.{Numbers, PoolPolicy}
use karpenter_provider_rafay.Controllers.Headroom.Config.{
  Result, ok, candidate_keys, pools_at, scan_keys, parse_headroom_config, ConfigError,
}
use karpenter_provider_rafay.Controllers.Headroom.Config.Contract.{
  IsWellNamed, unmarshal-IsWellFormed, Parsed-cases,
}
use karpenter_provider_rafay.Controllers.Headroom.Sync.{
  ConfigMapReply, config_map, absent, get_error, load_pools,
}

module _ {Quantity Fraction Buffer : Type 0} (num : Numbers Quantity Fraction Buffer) where
  ok_inj : (ps qs : List (PoolPolicy Quantity Fraction)) → ok ps ≡ ok qs → ps ≡ qs
  ok_inj ps qs h = cc

  pools_at-IsWellNamed :
      (m : Dict String) (k : String) (ps : List (PoolPolicy Quantity Fraction))
      → pools_at num m k ≡ ok ps
      → IsWellNamed num [] ps
  unfolding pools_at
  pools_at-IsWellNamed m k ps h = elim (Option-cases (lookup k m)) [
    | inl e ↦ (unmarshal-IsWellFormed num "" ps (rw (pools_at, e) at h)).0
    | inr (text, e) ↦ (unmarshal-IsWellFormed num text ps (rw (pools_at, e) at h)).0
  ]

  -- The policy is that of one key.
  scan_keys-IsWellNamed :
      (m : Dict String) (ks : List String) (err : Option ConfigError)
      (ps : List (PoolPolicy Quantity Fraction))
      → scan_keys num m ks err ≡ ok ps
      → IsWellNamed num [] ps
  unfolding scan_keys
  scan_keys-IsWellNamed m [] none ps h = subst (IsWellNamed num []) (ok_inj [] ps h) tt
  scan_keys-IsWellNamed m [] (some e) ps h = cc
  scan_keys-IsWellNamed m (k ∷ ks) err ps h = elim (Parsed-cases num (pools_at num m k)) [
    | inl (e, r) ↦ scan_keys-IsWellNamed m ks (some e) ps (rw (r, scan_keys) at h)
    | inr (inl r) ↦ scan_keys-IsWellNamed m ks err ps (rw (r, scan_keys) at h)
    | inr (inr (q, qs, r)) ↦ pools_at-IsWellNamed m k ps (r ∙ (rw (r, scan_keys) at h))
  ]

  pair_inj :
      (ps qs : List (PoolPolicy Quantity Fraction)) (e : Option String)
      → ◌≡◌ {A = Result (List (PoolPolicy Quantity Fraction)) × Option String}
          (ok ps, e)
          (ok qs, none)
      → ps ≡ qs
  pair_inj ps qs e h = cc

  pub loaded-IsWellNamed :
      (r : ConfigMapReply) (ps : List (PoolPolicy Quantity Fraction))
      → load_pools num r ≡ (ok ps, none)
      → IsWellNamed num [] ps
  unfolding load_pools parse_headroom_config
  loaded-IsWellNamed absent ps h = subst (IsWellNamed num []) (pair_inj [] ps none h) tt
  loaded-IsWellNamed (get_error e) ps h = subst (IsWellNamed num []) (pair_inj [] ps (some e) h) tt
  loaded-IsWellNamed (config_map m) ps h =
      scan_keys-IsWellNamed m (candidate_keys m) none ps
        (ap (λ (r : Result (List (PoolPolicy Quantity Fraction)) × Option String). r.0) h)
