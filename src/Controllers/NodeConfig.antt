-- ===== src/Controllers/NodeConfig.antt =====
-- pkg/controllers/nodeconfig/controller.go: fetching the cluster's node classes and node pools from
-- the broker and applying them.
pub mod Applied
pub mod Sync
pub mod Loop
use karpenter_provider_rafay.Prelude.{
  ℕ, suc, ◌*◌, ℤ, pos, negsuc, String, Bool, true, false, ◌||◌, ◌&&◌, not, List, [], ◌∷◌, ◌++◌,
  Option, none, some, Dict, insert, map, contains, keep, trim_space, ◌==◌, if◌then◌else◌, ltb,
}

abbrev pub managed_by_label : String
managed_by_label = "karpenter.rafay.io/managed-by"

abbrev pub managed_by_value : String
managed_by_value = "edge-broker"

abbrev pub revision_annotation : String
revision_annotation = "karpenter.rafay.io/config-revision"

-- Durations in nanoseconds.
abbrev pub second : ℕ
second = 1000000000

abbrev pub default_sync_interval : ℕ
default_sync_interval = 600 * second

abbrev pub initial_retry_delay : ℕ
initial_retry_delay = 5 * second

abbrev pub max_retry_delay : ℕ
max_retry_delay = 120 * second

-- An unstructured object: what the controller reads and writes of it, and the rest.
pub record Manifest (Body : Type 0) : Type 0 where
  pub kind : String
  pub api_version : String
  pub name : String
  pub labels : Dict String
  pub annotations : Dict String
  pub body : Body

-- What the YAML decoder gives, one document after the other: an empty one, an object, an error, the
-- end.
pub data Docs (Body : Type 0) : Type 0 where
  eof : Docs Body
  bad_yaml : Docs Body
  empty_doc : Docs Body → Docs Body
  doc : Manifest Body → Docs Body → Docs Body

pub data SyncError : Type 0 where
  fetch_failed : String → SyncError
  empty_response : SyncError
  invalid_yaml missing_type : SyncError
  missing_name : String → SyncError
  apply_failed : String → String → SyncError

pub data Decoded (Body : Type 0) : Type 0 where
  manifests : List (Manifest Body) → Decoded Body
  undecodable : SyncError → Decoded Body

pub record ConfigResponse : Type 0 where
  pub auto_scaling : Bool
  pub revision : String
  pub node_class_yaml : String
  pub node_pool_yaml : String

-- What GetKarpenterConfig answers: a response, none, an error with the code NotFound, another error.
pub data FetchReply : Type 0 where
  response : ConfigResponse → FetchReply
  no_response : FetchReply
  not_found : FetchReply
  fetch_error : String → FetchReply

-- `applied` is what has been patched, the latest last.
pub record ConfigState (Body : Type 0) : Type 0 where
  pub last_revision : String
  pub applied : List (Manifest Body)

module _ {Body : Type 0} where
  -- The check of a document, before those that follow it.
  unfoldable pub check_doc : Manifest Body → Decoded Body → Decoded Body
  check_doc m rest =
      if m.kind == "" || m.api_version == ""
      then undecodable missing_type
      else if m.name == ""
      then undecodable (missing_name m.kind)
      else elim rest [ undecodable e ↦ undecodable e | manifests ms ↦ manifests (m ∷ ms) ]

  unfoldable pub decode_docs : Docs Body → Decoded Body
  unfolding check_doc
  decode_docs eof = manifests []
  decode_docs bad_yaml = undecodable invalid_yaml
  decode_docs (empty_doc docs) = decode_docs docs
  decode_docs (doc m docs) = check_doc m (decode_docs docs)

  -- decodeManifests; `decoder` is the YAML decoder.
  unfoldable pub decode_manifests : (String → Docs Body) → String → Decoded Body
  unfolding decode_docs trim_space
  decode_manifests decoder manifest =
      if trim_space manifest == "" then manifests [] else decode_docs (decoder manifest)

  -- The object that apply patches.
  unfoldable pub stamp : String → Manifest Body → Manifest Body
  unfolding insert
  stamp revision m = record m {
    labels = insert managed_by_label managed_by_value m.labels;
    annotations =
        if revision == "" then m.annotations else insert revision_annotation revision m.annotations;
  }

  -- The loop over the objects: apply of each, up to the first that the API server refuses.
  unfoldable pub apply_all :
      (Manifest Body → Bool)
      → String
      → List (Manifest Body)
      → ConfigState Body
      → Option SyncError × ConfigState Body
  unfolding stamp
  apply_all accepts revision [] s = (none, s)
  apply_all accepts revision (m ∷ ms) s =
      if accepts (stamp revision m)
      then apply_all accepts revision ms (record s { applied = s.applied ++ stamp revision m ∷ [] })
      else (some (apply_failed m.kind m.name), s)

  unfoldable pub is_nil : List (Manifest Body) → Bool
  is_nil [] = true
  is_nil (m ∷ ms) = false

  unfoldable pub record_revision :
      String → Option SyncError × ConfigState Body → Option SyncError × ConfigState Body
  record_revision revision (some e, s) = (some e, s)
  record_revision revision (none, s) = (none, record s { last_revision = revision })

  -- sync from the decoded manifests on.
  unfoldable pub apply_decoded :
      (Manifest Body → Bool)
      → String
      → Decoded Body
      → Decoded Body
      → ConfigState Body
      → Option SyncError × ConfigState Body
  unfolding apply_all record_revision is_nil
  apply_decoded accepts revision (undecodable e) pools s = (some e, s)
  apply_decoded accepts revision (manifests classes) (undecodable e) s = (some e, s)
  apply_decoded accepts revision (manifests classes) (manifests pools) s =
      if is_nil classes && is_nil pools
      then (none, s)
      else record_revision revision (apply_all accepts revision (classes ++ pools) s)

  module _ (decoder : String → Docs Body) (accepts : Manifest Body → Bool) where
    unfoldable pub sync_response :
        ConfigResponse → ConfigState Body → Option SyncError × ConfigState Body
    unfolding apply_decoded decode_manifests trim_space
    sync_response resp s =
        let revision = trim_space resp.revision in
        if not resp.auto_scaling
        then (none, s)
        else if not (revision == "") && revision == s.last_revision
        then (none, s)
        else apply_decoded accepts revision (decode_manifests decoder resp.node_class_yaml)
            (decode_manifests decoder resp.node_pool_yaml) s

    -- sync
    unfoldable pub sync : FetchReply → ConfigState Body → Option SyncError × ConfigState Body
    unfolding sync_response
    sync (fetch_error e) s = (some (fetch_failed e), s)
    sync not_found s = (none, s)
    sync no_response s = (some empty_response, s)
    sync (response resp) s = sync_response resp s

  -- The names that logOrphans reports, of those that the API server lists with the label.
  unfoldable pub orphans : List String → List (Manifest Body) → List String
  unfolding contains
  orphans names applied =
      keep (λ n. not (contains (map (λ (m : Manifest Body). m.name) applied) n)) names

-- NewController's interval.
unfoldable pub sync_interval_of : ℤ → ℕ
sync_interval_of (pos n) = if ltb 0 n then n else default_sync_interval
sync_interval_of (negsuc n) = default_sync_interval

-- SyncIntervalFromEnv; `parse` is time.ParseDuration, and the variable is empty where it is unset.
unfoldable pub sync_interval_from_env : (String → Option ℤ) → String → ℕ
unfolding trim_space sync_interval_of
sync_interval_from_env parse value =
    if trim_space value == "" then default_sync_interval else elim (parse (trim_space value)) [
      | none ↦ default_sync_interval
      | some d ↦ sync_interval_of d
    ]

-- EnabledFromEnv; `parse` is strconv.ParseBool.
unfoldable pub enabled_from_env : (String → Option Bool) → String → Bool
unfolding trim_space
enabled_from_env parse value =
    if trim_space value == ""
    then true
    else elim (parse (trim_space value)) [ none ↦ true | some enabled ↦ enabled ]
