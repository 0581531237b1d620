-- ===== src/Tests/Startup.antt =====
-- The start of the program: the configuration, the resume of batches, and the syncs with the broker.
use Prim.Native.String.{◌++◌}
use karpenter_provider_rafay.Prelude.{
  ◌*◌, ◌≤◌, ◌≡◌, ◌≢◌, refl, ◌⊎◌, inl, inr, Bool, true, false, String, List, [], ◌∷◌, none, pos,
  lookup, keys, contains-keys, is_some, trim_space, has_prefix, ◌==◌, All, if◌then◌else◌,
}
use karpenter_provider_rafay.Kube.{NodeClaim, listed}
use karpenter_provider_rafay.CloudProvider.{batch_id_annotation_key}
use karpenter_provider_rafay.Rafay.Batcher.{new_node_batcher}
use karpenter_provider_rafay.Rafay.Batcher.Tracked.{IsTracked, follows}
use karpenter_provider_rafay.Controllers.BatchResume.{start, batch_of, is_skipped}
use karpenter_provider_rafay.Controllers.BatchResume.Grouped.InFlight.{start_resumes_pending}
use karpenter_provider_rafay.Controllers.NodeConfig.{
  Manifest, Docs, doc, eof, ConfigResponse, response, fetch_error, ConfigState, sync, second,
  default_sync_interval,
}
use karpenter_provider_rafay.Controllers.NodeConfig.Sync.{sync_again}
use karpenter_provider_rafay.Controllers.NodeConfig.Loop as L
use karpenter_provider_rafay.Controllers.NodeConfig.Loop.{Turn}
use karpenter_provider_rafay.Controllers.NodeConfig.Loop.Runs.{IsWait, loop_of, start_waits_bounded}
use karpenter_provider_rafay.Controllers.NodeConfig.Loop.Ends.{GoesOn, start_survives}
use karpenter_provider_rafay.Controllers.NodeConfig.Loop.Recorded.{
  HasRecorded, state_of, start_recorded,
}
use karpenter_provider_rafay.Broker.{Files, ok, Process, BrokerConfig, configure, dial_broker}
use karpenter_provider_rafay.Broker.Configured.{IsDial, configured_serves}
use karpenter_provider_rafay.Tests.CloudProvider.{claim, distinct}

none_in_flight : IsTracked new_node_batcher
unfolding lookup
none_in_flight op h = cc

abbrev batched : NodeClaim
batched = record claim { annotations = (batch_id_annotation_key, "b7") ∷ [] }

abbrev batched_claims : List NodeClaim
batched_claims = claim ∷ batched ∷ []

start_resumes_pending_example :
    (is_some (lookup "u1" (start keys (listed batched_claims) 5 new_node_batcher).in_flight) ≡ true)
    × (follows (start keys (listed batched_claims) 5 new_node_batcher) "u1" ≡ true)
unfolding trim_space batch_of is_skipped lookup has_prefix
start_resumes_pending_example =
    start_resumes_pending keys batched_claims 5 new_node_batcher "b7" "u1" contains-keys
      none_in_flight refl (distinct "u1" "" refl) (inr (inl (refl, refl, refl)))

-- A document is its text.
abbrev manifest : String → Manifest String
manifest name = record {
  kind = "NodePool";
  api_version = "v1";
  name = name;
  labels = [];
  annotations = [];
  body = name;
}

abbrev decoder : String → Docs String
decoder s = doc (manifest s) eof

abbrev config : ConfigResponse
config = record {
  auto_scaling = true;
  revision = "r1";
  node_class_yaml = "class";
  node_pool_yaml = "pool";
}

abbrev nothing_yet : ConfigState String
nothing_yet = record { last_revision = ""; applied = [] }

abbrev all_accepted : Manifest String → Bool
all_accepted m = true

abbrev synced : ConfigState String
synced = (sync decoder all_accepted (response config) nothing_yet).1

sync_again_example : sync decoder all_accepted (response config) synced ≡ (none, synced)
unfolding sync trim_space
sync_again_example =
    sync_again decoder all_accepted nothing_yet config synced (distinct "r1" "" refl) refl

-- The broker fails twice, and then serves the configuration.
abbrev passes : List (Turn String)
passes =
    record { reply = fetch_error "down"; accepts = all_accepted; ctx_err = false; ctx_done = false }
    ∷ record {
      reply = fetch_error "down";
      accepts = all_accepted;
      ctx_err = false;
      ctx_done = false;
    }
    ∷ record { reply = response config; accepts = all_accepted; ctx_err = false; ctx_done = false }
    ∷ []

start_waits_bounded_example :
    All
      (IsWait default_sync_interval decoder)
      (loop_of (L.start default_sync_interval decoder passes nothing_yet)).waits
    × ((loop_of (L.start default_sync_interval decoder passes nothing_yet)).delay * 2
        ≤ 240 * second)
start_waits_bounded_example = start_waits_bounded default_sync_interval decoder passes nothing_yet

start_survives_example : GoesOn 3 (L.start default_sync_interval decoder passes nothing_yet)
start_survives_example =
    start_survives default_sync_interval decoder passes nothing_yet
      ((refl, refl), ((refl, refl), ((refl, refl), tt)))

start_recorded_example :
    ((state_of (L.start default_sync_interval decoder passes nothing_yet)).last_revision ≡ "")
    ⊎ HasRecorded default_sync_interval decoder passes
        (state_of (L.start default_sync_interval decoder passes nothing_yet)).last_revision
        (state_of (L.start default_sync_interval decoder passes nothing_yet))
start_recorded_example = start_recorded default_sync_interval decoder passes nothing_yet refl

abbrev files : Files
files = record {
  certificate = λ path.
      ok (record { organizations = "edge.example.com" ∷ []; units = "broker.example.com" ∷ [] });
  key_pair = λ c k. true;
  ca = λ c. true;
}

abbrev process : Process
process = record {
  env = λ name. if name == "CERT_FOLDER" then "/certs" else "";
  insecure_var = none;
  equal_fold = λ a b. a == b;
  atoi = λ s. none;
  session_id = "s1";
}

abbrev started : BrokerConfig
started = record {
  cert_path = "/certs" ++ "/client.crt";
  key_path = "/certs" ++ "/client.key";
  ca_path = "/certs" ++ "/ca.crt";
  broker_port = pos 5448;
  edge_id = "edge";
  stream_id = "s1";
  dial_host = "";
  grpc_insecure = false;
}

configured_serves_example :
    IsDial (dial_broker files started)
    × (trim_space "s1" ≢ "")
    × ((false ≡ true) ⊎ (started.edge_id ≢ ""))
unfolding configure trim_space
configured_serves_example = configured_serves process files started (distinct "s1" "" refl) refl
