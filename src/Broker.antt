-- ===== src/Broker.antt =====
-- pkg/broker/credentials.go and the configuration of cmd/controller/main.go, with dialBroker of
-- pkg/rafay/brokerclient.go, which dials by it.
pub mod Configured
use Prim.Native.Char.{Char}
use Prim.Native.String.{◌++◌}
use karpenter_provider_rafay.Prelude.{
  ℕ, ℤ, pos, negsuc, String, Bool, true, false, ◌||◌, ◌&&◌, not, List, [], ◌∷◌, Option, none, some,
  cut, trim_space, ◌==◌, if◌then◌else◌, ltb,
}

-- The subject of a client certificate.
pub record Certificate : Type 0 where
  pub organizations : List String
  pub units : List String

pub data CertError : Type 0 where
  unreadable : String → CertError
  no_unit no_organization empty_organization empty_edge_id : CertError
  no_key_pair no_ca : CertError

pub data Read (A : Type 0) : Type 0 where
  ok : A → Read A
  error : CertError → Read A

-- The files: the certificate in a file, as the PEM and X.509 decoders read it, and whether a
-- certificate and its key, and the CA certificates, can be loaded.
pub record Files : Type 0 where
  pub certificate : String → Read Certificate
  pub key_pair : String → String → Bool
  pub ca : String → Bool

abbrev pub dot : Char
dot = "."

-- EdgeHashIDFromOrganization
unfoldable pub edge_hash_id : String → String
unfolding trim_space cut
edge_hash_id org = elim (cut dot (trim_space org)) [ none ↦ trim_space org | some (l, r) ↦ l ]

unfoldable pub first_unit : Read Certificate → Read String
first_unit (error e) = error e
first_unit (ok c) = elim c.units [ [] ↦ error no_unit | u ∷ us ↦ ok u ]

unfoldable pub checked_hash : String → Read String
checked_hash hash = if hash == "" then error empty_edge_id else ok hash

unfoldable pub organization_hash : List String → Read String
unfolding edge_hash_id checked_hash trim_space
organization_hash [] = error no_organization
organization_hash (o ∷ os) =
    if trim_space o == ""
    then error empty_organization
    else checked_hash (edge_hash_id (trim_space o))

unfoldable pub edge_id_of : Read Certificate → Read String
unfolding organization_hash
edge_id_of (error e) = error e
edge_id_of (ok c) = organization_hash c.organizations

module _ (files : Files) where
  -- GetServerHostFromCert
  unfoldable pub get_server_host : String → Read String
  unfolding first_unit
  get_server_host path = first_unit (files.certificate path)

  -- GetEdgeIDFromClientCert
  unfoldable pub get_edge_id : String → Read String
  unfolding edge_id_of
  get_edge_id path = edge_id_of (files.certificate path)

  -- LoadCredentials: the server host, where the credentials can be made.
  unfoldable pub load_credentials : String → String → String → Read String
  unfolding get_server_host
  load_credentials cert_path key_path ca_path =
      if not (files.key_pair cert_path key_path)
      then error no_key_pair
      else elim (get_server_host cert_path) [
        | error e ↦ error e
        | ok host ↦ if files.ca ca_path then ok host else error no_ca
      ]

-- The fields of BrokerClient that main sets.
pub record BrokerConfig : Type 0 where
  pub cert_path : String
  pub key_path : String
  pub ca_path : String
  pub broker_port : ℤ
  pub edge_id : String
  pub stream_id : String
  pub dial_host : String
  pub grpc_insecure : Bool

pub data Dial : Type 0 where
  insecure_conn secure_conn : String → ℕ → Dial
  no_host_source : Dial
  host_error credentials_error : CertError → Dial

abbrev pub default_edge_client_port : ℕ
default_edge_client_port = 5448

abbrev pub default_broker_rpc_port : ℕ
default_broker_rpc_port = 5449

unfoldable pub dial_port : ℤ → Bool → ℕ
dial_port (pos port) insecure =
    if ltb 0 port
    then port
    else if insecure
    then default_broker_rpc_port
    else default_edge_client_port
dial_port (negsuc n) insecure =
    if insecure then default_broker_rpc_port else default_edge_client_port

module _ (files : Files) where
  unfoldable pub secure_dial : BrokerConfig → String → Read String → Dial
  unfolding dial_port trim_space
  secure_dial c host (error e) = credentials_error e
  secure_dial c host (ok tls_host) =
      secure_conn (if trim_space c.dial_host == "" then tls_host else host)
        (dial_port c.broker_port false)

  -- The host: that of the configuration, or the unit of the certificate.
  unfoldable pub dial_to : BrokerConfig → Read String → Dial
  unfolding dial_port load_credentials secure_dial
  dial_to c (error e) = host_error e
  dial_to c (ok host) =
      if c.grpc_insecure
      then insecure_conn host (dial_port c.broker_port true)
      else secure_dial c host (load_credentials files c.cert_path c.key_path c.ca_path)

  -- dialBroker, up to the gRPC library.
  unfoldable pub dial_broker : BrokerConfig → Dial
  unfolding dial_to get_server_host trim_space
  dial_broker c =
      if trim_space c.dial_host == ""
      then if c.cert_path == ""
        then no_host_source
        else dial_to c (get_server_host files c.cert_path)
      else dial_to c (ok (trim_space c.dial_host))

-- The environment, with the empty text where a variable is unset, the variable
-- EDGE_BROKER_GRPC_INSECURE, which is looked up, and the functions of Go's library that main calls:
-- strings.EqualFold, strconv.Atoi and, behind NewSessionID, the UUID.
pub record Process : Type 0 where
  pub env : String → String
  pub insecure_var : Option String
  pub equal_fold : String → String → Bool
  pub atoi : String → Option ℤ
  pub session_id : String

-- klog.Exitf, or the configuration.
pub data Started : Type 0 where
  exits : Started
  exits_with : CertError → Started
  runs : BrokerConfig → Started

module _ (process : Process) where
  -- envPortOrDefault
  unfoldable pub env_port : String → ℤ → ℤ
  unfolding trim_space
  env_port name def =
      let p = trim_space (process.env name) in
      if p == "" then def else elim (process.atoi p) [ none ↦ def | some v ↦ v ]

  unfoldable pub cert_folder : String
  unfolding trim_space
  cert_folder =
      let folder = trim_space (process.env "CERT_FOLDER") in
      if folder == "" then trim_space (process.env "EDGE_CLIENT_CERT_FOLDER") else folder

  unfoldable pub grpc_insecure : Bool
  unfolding trim_space
  grpc_insecure = elim process.insecure_var [
    | none ↦ false
    | some v ↦ process.equal_fold (trim_space v) "true"
  ]

  unfoldable pub broker_port : Bool → ℤ
  unfolding env_port trim_space
  broker_port insecure =
      if insecure
      then env_port "EDGE_BROKER_GRPC_PORT" (pos 0)
      else if not (trim_space (process.env "SERVER_PORT") == "")
      then env_port "SERVER_PORT" (pos default_edge_client_port)
      else if not (trim_space (process.env "EDGE_CLIENT_SERVER_PORT") == "")
      then env_port "EDGE_CLIENT_SERVER_PORT" (pos default_edge_client_port)
      else pos default_edge_client_port

  unfoldable pub stream_id : String
  unfolding trim_space
  stream_id =
      let id = trim_space (process.env "STREAM_ID") in if id == "" then process.session_id else id

-- The edge ID: that of the certificate, where EDGE_ID gives none.
unfoldable pub chosen_edge_id : String → String → String
unfolding edge_hash_id
chosen_edge_id edge_id cert_hash =
    if edge_id == ""
    then cert_hash
    else if edge_hash_id edge_id == ""
    then cert_hash
    else edge_hash_id edge_id

-- The path of a file in the folder of the certificates, if there is one.
unfoldable pub in_folder : String → String → String
in_folder folder file = if folder == "" then "" else folder ++ file

module _ (process : Process) where
  -- What main passes to NewBrokerClient, for an edge ID.
  unfoldable pub config_for : String → BrokerConfig
  unfolding in_folder cert_folder broker_port grpc_insecure stream_id trim_space
  config_for edge_id = record {
    cert_path = in_folder (cert_folder process) "/client.crt";
    key_path = in_folder (cert_folder process) "/client.key";
    ca_path = in_folder (cert_folder process) "/ca.crt";
    broker_port = broker_port process (grpc_insecure process);
    edge_id = edge_id;
    stream_id = stream_id process;
    dial_host = trim_space (process.env "EDGE_BROKER_GRPC_HOST");
    grpc_insecure = grpc_insecure process;
  }

  unfoldable pub run_with : Read String → Started
  unfolding config_for chosen_edge_id trim_space
  run_with (error e) = exits_with e
  run_with (ok cert_hash) =
      runs (config_for (chosen_edge_id (trim_space (process.env "EDGE_ID")) cert_hash))

  -- From the check of the certificate folder on.
  unfoldable pub configure_with : Files → Bool → String → String → Started
  unfolding run_with get_edge_id in_folder trim_space
  configure_with files insecure dial_host folder =
      if (not insecure || dial_host == "") && folder == ""
      then exits
      else if not insecure && not (in_folder folder "/client.crt" == "")
      then run_with (get_edge_id files (in_folder folder "/client.crt"))
      else runs (config_for (trim_space (process.env "EDGE_ID")))

  -- main, up to NewBrokerClient.
  unfoldable pub configure : Files → Started
  unfolding configure_with cert_folder grpc_insecure trim_space
  configure files =
      configure_with files (grpc_insecure process)
        (trim_space (process.env "EDGE_BROKER_GRPC_HOST")) (cert_folder process)
