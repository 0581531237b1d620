-- ===== src/Controllers/NodeConfig/Sync.antt =====
-- What a sync of the NodeConfig controller applies and records.
use karpenter_provider_rafay.Prelude.{
  ◌≡◌, ◌≢◌, refl, sym, ap, subst, ◌∙◌, ◌⊎◌, inl, inr, String, Bool, true, false, ◌&&◌, not, List,
  [], ◌∷◌, ◌++◌, Option, none, some, is_some, map, trim_space, ◌==◌, eq_iff, Bool-cases,
  Option-cases, arith,
}
use karpenter_provider_rafay.Controllers.NodeConfig.Applied.{
  some-none, StopsAt, apply_all_revision, apply_all_stops,
}
use karpenter_provider_rafay.Controllers.NodeConfig.{
  Manifest, Docs, SyncError, fetch_failed, empty_response, Decoded, manifests, undecodable,
  ConfigResponse, FetchReply, response, no_response, not_found, fetch_error, ConfigState,
  decode_manifests, stamp, apply_all, is_nil, record_revision, apply_decoded, sync_response, sync,
}

-- A response whose objects a sync goes on to apply.
abbrev pub Decodes :
    {Body : Type 0} → (String → Docs Body) → FetchReply → String → List (Manifest Body) → Type 0
Decodes {Body} decoder reply revision objects =
    (resp : ConfigResponse) × (classes : List (Manifest Body)) × (pools : List (Manifest Body))
    × (reply ≡ response resp)
    × (resp.auto_scaling ≡ true)
    × (trim_space resp.revision ≡ revision)
    × (decode_manifests decoder resp.node_class_yaml ≡ manifests classes)
    × (decode_manifests decoder resp.node_pool_yaml ≡ manifests pools)
    × (objects ≡ classes ++ pools)

-- The node classes or the node pools of the response do not decode, and the error is that of one.
abbrev pub IsUndecodable :
    {Body : Type 0} → (String → Docs Body) → ConfigResponse → Option SyncError → Type 0
IsUndecodable {Body} decoder resp error =
    (e : SyncError) × (error ≡ some e)
    × ((decode_manifests decoder resp.node_class_yaml ≡ undecodable e)
        ⊎ ((classes : List (Manifest Body)) × (decode_manifests decoder resp.node_class_yaml
              ≡ manifests classes)
            × (decode_manifests decoder resp.node_pool_yaml ≡ undecodable e)))

nil_manifests :
    {Body : Type 0} (ms : List (Manifest Body)) → is_nil ms ≡ true → manifests ms ≡ manifests []
unfolding is_nil
nil_manifests [] h = refl
nil_manifests (m ∷ ms) h = cc

nil_append :
    {Body : Type 0} (xs ys : List (Manifest Body))
    → (is_nil xs && is_nil ys) ≡ false
    → is_nil (xs ++ ys) ≡ false
unfolding is_nil
nil_append [] ys h = h
nil_append (x ∷ xs) ys h = refl

-- The revision of the response is blank or not the one that has been recorded.
abbrev pub IsDue : {Body : Type 0} → ConfigResponse → ConfigState Body → Type 0
IsDue resp s = (trim_space resp.revision ≡ "") ⊎ (trim_space resp.revision ≢ s.last_revision)

-- Why a sync applies nothing of a response, and what it returns then: autoscaling is off, its revision
-- is the one recorded, or a manifest does not decode or there is no object.
abbrev pub IsSkipped :
    {Body : Type 0}
    → (String → Docs Body)
    → ConfigResponse
    → ConfigState Body
    → Option SyncError
    → Type 0
IsSkipped decoder resp s error =
    ((resp.auto_scaling ≡ false) × (error ≡ none))
    ⊎ (((trim_space resp.revision ≢ "")
          × (trim_space resp.revision ≡ s.last_revision)
          × (error ≡ none))
        ⊎ ((resp.auto_scaling ≡ true)
            × IsDue resp s
            × (IsUndecodable decoder resp error
                ⊎ ((decode_manifests decoder resp.node_class_yaml ≡ manifests [])
                    × (decode_manifests decoder resp.node_pool_yaml ≡ manifests [])
                    × (error ≡ none)))))

-- Why a sync leaves the state as it is, and what it returns then.
abbrev pub IsIdle :
    {Body : Type 0}
    → (String → Docs Body)
    → FetchReply
    → ConfigState Body
    → Option SyncError
    → Type 0
IsIdle decoder reply s error =
    ((e : String) × (reply ≡ fetch_error e) × (error ≡ some (fetch_failed e)))
    ⊎ (((reply ≡ no_response) × (error ≡ some empty_response))
        ⊎ (((reply ≡ not_found) × (error ≡ none))
            ⊎ ((resp : ConfigResponse) × ((reply ≡ response resp)
                  × IsSkipped decoder resp s error))))

-- A sync that applies the objects of a response up to the first that the API server refuses. The
-- revision of the response is not the one recorded, or is blank. It records the revision where no
-- object is left.
pub record Applies {Body : Type 0} (decoder : String → Docs Body) (accepts : Manifest Body → Bool)
    (reply : FetchReply) (s : ConfigState Body) (error : Option SyncError)
    (after : ConfigState Body) : Type 0 where
  pub revision : String
  pub objects : List (Manifest Body)
  pub done : List (Manifest Body)
  pub left : List (Manifest Body)
  pub decodes : Decodes decoder reply revision objects
  pub due : (revision ≡ "") ⊎ (revision ≢ s.last_revision)
  pub some_object : is_nil objects ≡ false
  pub parts : objects ≡ done ++ left
  pub applied : after.applied ≡ s.applied ++ map (stamp revision) done
  pub stops : StopsAt accepts revision done left error
  pub recorded :
      ((error ≡ none) × (left ≡ []) × (after.last_revision ≡ revision))
      ⊎ ((is_some error ≡ true) × (after.last_revision ≡ s.last_revision))

abbrev pub IsSync :
    {Body : Type 0}
    → (String → Docs Body)
    → (Manifest Body → Bool)
    → FetchReply
    → ConfigState Body
    → Option SyncError × ConfigState Body
    → Type 0
IsSync decoder accepts reply s (error, after) =
    ((after ≡ s) × IsIdle decoder reply s error) ⊎ Applies decoder accepts reply s error after

module _ {Body : Type 0} (decoder : String → Docs Body) (accepts : Manifest Body → Bool)
    (s : ConfigState Body) where
  done_all :
      (revision : String) (done left : List (Manifest Body))
      → StopsAt accepts revision done left none
      → left ≡ []
  done_all revision done left (taken, inl (none_left, fine)) = none_left
  done_all revision done left (taken, inr (m, rest, l, refused, e)) = absurd (some-none (sym e))

  applied_recorded :
      (reply : FetchReply) (revision : String) (objects : List (Manifest Body))
      → Decodes decoder reply revision objects
      → (revision ≡ "") ⊎ (revision ≢ s.last_revision)
      → is_nil objects ≡ false
      → IsSync decoder accepts reply s
          (record_revision revision (apply_all accepts revision objects s))
  unfolding record_revision
  applied_recorded reply revision objects d due some_object =
      let (done, left, parts, applied, stops) = apply_all_stops accepts revision objects s in
      elim (Option-cases (apply_all accepts revision objects s).0) [
        | inl e ↦
            rw (record_revision, e)
              (inr (record {
                revision = revision;
                objects = objects;
                done = done;
                left = left;
                decodes = d;
                due = due;
                some_object = some_object;
                parts = parts;
                applied = applied;
                stops = subst (StopsAt accepts revision done left) e stops;
                recorded = inl (
                  refl,
                  done_all revision done left (subst (StopsAt accepts revision done left) e stops),
                  refl,
                );
              }))
        | inr (error, e) ↦
            rw (record_revision, e)
              (inr (record {
                revision = revision;
                objects = objects;
                done = done;
                left = left;
                decodes = d;
                due = due;
                some_object = some_object;
                parts = parts;
                applied = applied;
                stops = subst (StopsAt accepts revision done left) e stops;
                recorded = inr (refl, apply_all_revision accepts revision objects s);
              }))
      ]

  idle :
      (resp : ConfigResponse) (error : Option SyncError)
      → IsIdle decoder (response resp) s error
      → IsSync decoder accepts (response resp) s (error, s)
  idle resp error h = inl (refl, h)

  decoded_recorded :
      (resp : ConfigResponse) (classes pools : Decoded Body)
      → resp.auto_scaling ≡ true
      → IsDue resp s
      → decode_manifests decoder resp.node_class_yaml ≡ classes
      → decode_manifests decoder resp.node_pool_yaml ≡ pools
      → IsSync decoder accepts
          (response resp)
          s
          (apply_decoded accepts (trim_space resp.revision) classes pools s)
  unfolding apply_decoded
  decoded_recorded resp (undecodable e) pools on due c p =
      idle resp (some e) (inr (inr (inr (resp, (refl, inr (inr (on, due, inl (e, refl, inl c))))))))
  decoded_recorded resp (manifests classes) (undecodable e) on due c p =
      idle resp (some e)
        (inr (inr (inr (resp, (refl, inr (inr (on, due, inl (e, refl, inr (classes, c, p)))))))))
  decoded_recorded resp (manifests classes) (manifests pools) on due c p =
      elim (Bool-cases (is_nil classes && is_nil pools)) [
        | inl e ↦
            rw (apply_decoded, e)
              (idle resp none (
                inr (
                  inr (
                    inr (
                      resp,
                      (
                        refl,
                        inr (
                            inr (
                              on,
                              due,
                              inr (
                                c ∙ nil_manifests classes (ground (arith, e)),
                                p ∙ nil_manifests pools (ground (arith, e)),
                                refl,
                              ),
                            )),
                      ),
                    )))))
        | inr e ↦
            rw (apply_decoded, e)
              (applied_recorded (response resp) (trim_space resp.revision) (classes ++ pools)
                (resp, classes, pools, refl, on, refl, c, p, refl) due (nil_append classes pools e))
      ]

  -- The revision is that of the last apply.
  abbrev is_unchanged : ConfigResponse → ConfigState Body → Bool
  is_unchanged resp t =
      not (trim_space resp.revision == "") && trim_space resp.revision == t.last_revision

  apply_response : ConfigResponse → ConfigState Body → Option SyncError × ConfigState Body
  apply_response resp t =
      apply_decoded accepts (trim_space resp.revision)
        (decode_manifests decoder resp.node_class_yaml)
        (decode_manifests decoder resp.node_pool_yaml) t

  -- What the guards of the response have found.
  abbrev IsStopped : ConfigResponse → ConfigState Body → Type 0
  IsStopped resp t = (resp.auto_scaling ≡ false) ⊎ (is_unchanged resp t ≡ true)

  response_cases :
      (resp : ConfigResponse) (t : ConfigState Body)
      → ((sync_response decoder accepts resp t ≡ (none, t)) × IsStopped resp t)
        ⊎ ((resp.auto_scaling ≡ true)
            × (is_unchanged resp t ≡ false)
            × (sync_response decoder accepts resp t ≡ apply_response resp t))
  unfolding sync_response apply_response
  response_cases resp t = elim (Bool-cases resp.auto_scaling) [
    | inr off ↦ inl (rw (sync_response, off) refl, inl off)
    | inl on ↦ elim (Bool-cases (is_unchanged resp t)) [
      | inl e ↦ inl (rw (sync_response, on, e) refl, inr e)
      | inr e ↦ inr (on, e, rw (sync_response, on, e) refl)
    ]
  ]

  skipped-IsIdle :
      (resp : ConfigResponse) → IsStopped resp s → IsIdle decoder (response resp) s none
  skipped-IsIdle resp (inl off) = inr (inr (inr (resp, (refl, inl (off, refl)))))
  skipped-IsIdle resp (inr e) = inr (
      inr (
        inr (
          resp,
          (
            refl,
            inr (
                inl (
                  ground (arith, e, eq_iff (trim_space resp.revision) ""),
                  ground (arith, e, eq_iff (trim_space resp.revision) s.last_revision),
                  refl,
                )),
          ),
        )))

  changed_due :
      (resp : ConfigResponse)
      → is_unchanged resp s ≡ false
      → (trim_space resp.revision ≡ "") ⊎ (trim_space resp.revision ≢ s.last_revision)
  changed_due resp h = elim (Bool-cases (trim_space resp.revision == "")) [
    | inl blank ↦ inl ((eq_iff (trim_space resp.revision) "").0 blank)
    | inr named ↦
        inr (λ same.
          ground (arith, h, named, eq_iff (trim_space resp.revision) s.last_revision, same))
  ]

  pub sync-IsSync :
      (reply : FetchReply) → IsSync decoder accepts reply s (sync decoder accepts reply s)
  unfolding sync apply_response
  sync-IsSync (fetch_error e) = inl (refl, inl (e, refl, refl))
  sync-IsSync not_found = inl (refl, inr (inr (inl (refl, refl))))
  sync-IsSync no_response = inl (refl, inr (inl (refl, refl)))
  sync-IsSync (response resp) = elim (response_cases resp s) [
    | inl (e, skipped) ↦
        subst (IsSync decoder accepts (response resp) s) (sym e)
          (idle resp none (skipped-IsIdle resp skipped))
    | inr (on, changed, e) ↦
        subst (IsSync decoder accepts (response resp) s) (sym e)
          (decoded_recorded resp _ _ on (changed_due resp changed) refl refl)
  ]

  response_inj : (a b : ConfigResponse) → response a ≡ response b → a ≡ b
  response_inj a b h = cc

  recorded_unchanged :
      (resp : ConfigResponse) (t : ConfigState Body)
      → trim_space resp.revision ≢ ""
      → t.last_revision ≡ trim_space resp.revision
      → sync_response decoder accepts resp t ≡ (none, t)
  recorded_unchanged resp t named recorded = elim (response_cases resp t) [
    | inl (e, skipped) ↦ e
    | inr (on, changed, e) ↦ absurd (
        ground (
          arith,
          changed,
          eq_iff (trim_space resp.revision) "",
          named,
          eq_iff (trim_space resp.revision) t.last_revision,
          recorded,
        ))
  ]

  -- A response that has a revision and has been handled without an error changes nothing when it is
  -- the answer again.
  pub sync_again :
      (resp : ConfigResponse) (after : ConfigState Body)
      → trim_space resp.revision ≢ ""
      → sync decoder accepts (response resp) s ≡ (none, after)
      → sync decoder accepts (response resp) after ≡ (none, after)
  unfolding sync
  sync_again resp after named h =
      elim (subst (IsSync decoder accepts (response resp) s) h (sync-IsSync (response resp))) [
        | inl (same, why) ↦
            subst (λ t. sync_response decoder accepts resp t ≡ (none, after)) (sym same) h
        | inr x ↦ elim x.recorded [
          | inl (fine, all, recorded) ↦
              let (other, classes, pools, answer, on, named_so, c, p, o) = x.decodes in
              recorded_unchanged resp after named (
                recorded
                ∙ sym named_so
                ∙ ap (λ (r : ConfigResponse). trim_space r.revision)
                    (sym (response_inj resp other answer)))
          | inr (failed, kept) ↦ absurd (no_error failed)
        ]
      ]
    where
      no_error : is_some {A = SyncError} none ≡ true → ⊥
      no_error e = cc
