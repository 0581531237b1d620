-- ===== src/Broker/Configured.antt =====
-- The configurations that main runs with, and what dialBroker and the calls of the broker make of them.
use Prim.Native.String.{◌++◌}
use karpenter_provider_rafay.Prelude.{
  ◌≡◌, ◌≢◌, refl, sym, subst, ◌∙◌, ◌⊎◌, inl, inr, ◌<◌, ℤ, pos, negsuc, String, Bool, true, false,
  ◌||◌, ◌&&◌, not, List, [], ◌∷◌, trim_space, trim_space_twice, append-nonempty, ◌==◌, eq_iff,
  Bool-cases, arith,
}
use karpenter_provider_rafay.Broker.{
  Files, Read, ok, error, CertError, edge_hash_id, chosen_edge_id, checked_hash, organization_hash,
  edge_id_of, get_edge_id, get_server_host, BrokerConfig, Dial, insecure_conn, secure_conn,
  no_host_source, host_error, credentials_error, dial_port, dial_to, secure_dial, dial_broker,
  Process, exits, runs, cert_folder, grpc_insecure, stream_id, in_folder, config_for, run_with,
  configure_with, configure, Certificate,
}

-- The port that is dialled is no port number of "none".
dial_port_positive : (p : ℤ) (insecure : Bool) → 0 < dial_port p insecure
unfolding dial_port
dial_port_positive (pos n) insecure = ground arith
dial_port_positive (negsuc n) insecure = ground arith

error_ok : {A : Type 0} {e : CertError} {a : A} → error e ≡ ok a → ⊥
error_ok h = cc

not_empty : (s : String) → (s == "") ≡ false → s ≢ ""
not_empty s h = λ e. ground (arith, eq_iff s "", h, e)

checked_hash-named : (hash id : String) → checked_hash hash ≡ ok id → id ≢ ""
unfolding checked_hash
checked_hash-named hash id h = λ e. ground (arith, eq_iff hash "", h, e)

organization_hash-named : (os : List String) (id : String) → organization_hash os ≡ ok id → id ≢ ""
unfolding organization_hash
organization_hash-named [] id h = cc
organization_hash-named (o ∷ os) id h = elim (Bool-cases (trim_space o == "")) [
  | inl e ↦ absurd (error_ok (rw (organization_hash, e) at h))
  | inr e ↦ checked_hash-named (edge_hash_id (trim_space o)) id (rw (organization_hash, e) at h)
]

chosen_edge_id-named : (edge_id hash : String) → hash ≢ "" → chosen_edge_id edge_id hash ≢ ""
unfolding chosen_edge_id
chosen_edge_id-named edge_id hash ne = elim (Bool-cases (edge_id == "")) [
  | inl e ↦ rw (chosen_edge_id, e) ne
  | inr e ↦ elim (Bool-cases (edge_hash_id edge_id == "")) [
    | inl f ↦ rw (chosen_edge_id, e, f) ne
    | inr f ↦ rw (chosen_edge_id, e, f) (not_empty (edge_hash_id edge_id) f)
  ]
]

-- A dial that goes to a positive port, or one that fails for the certificates.
abbrev pub IsDial : Dial → Type 0
IsDial (insecure_conn host port) = 0 < port
IsDial (secure_conn host port) = 0 < port
IsDial no_host_source = ⊥
IsDial (host_error e) = Unit
IsDial (credentials_error e) = Unit

module _ (files : Files) where
  secure_dial-IsDial :
      (c : BrokerConfig) (host : String) (r : Read String) → IsDial (secure_dial files c host r)
  unfolding secure_dial
  secure_dial-IsDial c host (error e) = tt
  secure_dial-IsDial c host (ok tls_host) = dial_port_positive c.broker_port false

  dial_to-IsDial : (c : BrokerConfig) (host : Read String) → IsDial (dial_to files c host)
  unfolding dial_to
  dial_to-IsDial c (error e) = tt
  dial_to-IsDial c (ok host) = elim (Bool-cases c.grpc_insecure) [
    | inl i ↦ rw (dial_to, i) (dial_port_positive c.broker_port true)
    | inr i ↦ rw (dial_to, i) (secure_dial-IsDial c host _)
  ]

  dial_broker-IsDial :
      (c : BrokerConfig)
      → ((trim_space c.dial_host == "") ≡ true → c.cert_path ≢ "")
      → IsDial (dial_broker files c)
  unfolding dial_broker
  dial_broker-IsDial c source = elim (Bool-cases (trim_space c.dial_host == "")) [
    | inr given ↦ rw (dial_broker, given) (dial_to-IsDial c (ok (trim_space c.dial_host)))
    | inl unset ↦ elim (Bool-cases (c.cert_path == "")) [
      | inl e ↦ absurd (source unset ((eq_iff c.cert_path "").0 e))
      | inr e ↦ rw (dial_broker, unset, e) (dial_to-IsDial c (get_server_host files c.cert_path))
    ]
  ]

module _ (process : Process) (files : Files) where
  runs_inj : (a b : BrokerConfig) → runs a ≡ runs b → a ≡ b
  runs_inj a b h = cc

  run_with_lem :
      (r : Read String) (c : BrokerConfig)
      → run_with process r ≡ runs c
      → (hash : String) × (r ≡ ok hash)
        × (config_for process (chosen_edge_id (trim_space (process.env "EDGE_ID")) hash) ≡ c)
  unfolding run_with
  run_with_lem (error e) c h = cc
  run_with_lem (ok hash) c h = (hash, refl, runs_inj _ c h)

  edge_id_of-named : (r : Read Certificate) (id : String) → edge_id_of r ≡ ok id → id ≢ ""
  unfolding edge_id_of
  edge_id_of-named (error e) id h = cc
  edge_id_of-named (ok c) id h = organization_hash-named c.organizations id h

  -- The path of the certificate.
  abbrev crt : String → String
  crt folder = in_folder folder "/client.crt"

  in_folder-named : (folder : String) → folder ≢ "" → (crt folder == "") ≡ false
  unfolding in_folder
  in_folder-named folder ne = elim (Bool-cases (folder == "")) [
    | inl e ↦ absurd (ne ((eq_iff folder "").0 e))
    | inr e ↦
        rw (in_folder, e)
          (ground
            (arith, eq_iff (folder ++ "/client.crt") "", append-nonempty folder "/client.crt" ne))
  ]

  -- The configuration of a process that runs: it has a source of the host, and an edge ID where it
  -- uses TLS.
  configured :
      (insecure : Bool) (host folder : String) (c : BrokerConfig)
      → configure_with process files insecure host folder ≡ runs c
      → (id : String) × (config_for process id ≡ c)
        × ((host ≢ "") ⊎ (folder ≢ ""))
        × ((insecure ≡ true) ⊎ (id ≢ ""))
  unfolding configure_with
  configured insecure host folder c h =
      elim (Bool-cases ((not insecure || host == "") && folder == "")) [
        | inl e ↦ absurd (exits_runs (rw (configure_with, e) at h))
        | inr e ↦ elim (Bool-cases (not insecure && not (crt folder == ""))) [
          | inl f ↦
              let (hash, read, made) =
                run_with_lem (get_edge_id files (crt folder)) c (rw (configure_with, e, f) at h) in
              (
                chosen_edge_id (trim_space (process.env "EDGE_ID")) hash,
                made,
                has_source e,
                inr (
                    chosen_edge_id-named (trim_space (process.env "EDGE_ID")) hash (
                      edge_id_of-named (files.certificate (crt folder)) hash
                        (unfold get_edge_id in read))),
              )
          | inr f ↦ (
            trim_space (process.env "EDGE_ID"),
            runs_inj _ c (rw (configure_with, e, f) at h),
            has_source e,
            inl (is_insecure e f),
          )
        ]
      ]
    where
      exits_runs : exits ≡ runs c → ⊥
      exits_runs g = cc

      has_source :
          ((not insecure || host == "") && folder == "") ≡ false → (host ≢ "") ⊎ (folder ≢ "")
      has_source e = elim (Bool-cases (host == "")) [
        | inr g ↦ inl (not_empty host g)
        | inl g ↦ inr (λ k. ground (arith, e, g, k, eq_iff folder ""))
      ]

      is_insecure :
          ((not insecure || host == "") && folder == "") ≡ false
          → (not insecure && not (crt folder == "")) ≡ false
          → insecure ≡ true
      is_insecure e f = elim (Bool-cases insecure) [
        | inl g ↦ g
        | inr g ↦ absurd (
            ground (
              arith,
              e,
              f,
              g,
              in_folder-named folder (λ k. ground (arith, e, g, k, eq_iff folder "")),
            ))
      ]

  config_source :
      (id : String)
      → (trim_space (process.env "EDGE_BROKER_GRPC_HOST") ≢ "") ⊎ (cert_folder process ≢ "")
      → (trim_space (config_for process id).dial_host == "") ≡ true
      → (config_for process id).cert_path ≢ ""
  unfolding config_for
  config_source id (inl given) h =
      absurd
        (given (sym (trim_space_twice (process.env "EDGE_BROKER_GRPC_HOST")) ∙ (eq_iff _ "").0 h))
  config_source id (inr folder) h = λ k. ground (
    arith,
    in_folder-named (cert_folder process) folder,
    k,
    eq_iff (crt (cert_folder process)) "",
  )

  config_stream :
      (id : String)
      → trim_space process.session_id ≢ ""
      → trim_space (config_for process id).stream_id ≢ ""
  unfolding config_for stream_id
  config_stream id ne = elim (Bool-cases (trim_space (process.env "STREAM_ID") == "")) [
    | inl e ↦ rw (stream_id, e) ne
    | inr e ↦
        rw (stream_id, e, trim_space_twice (process.env "STREAM_ID"))
          (not_empty (trim_space (process.env "STREAM_ID")) e)
  ]

  -- With a configuration that main runs with, dialBroker finds a source for the host and dials a port
  -- that is positive, or fails for what it reads of the certificates; the client has a stream ID, so
  -- that no call of it fails for want of one, and an edge ID unless the connection is insecure: the
  -- session ID that main makes is not blank.
  pub configured_serves :
      (c : BrokerConfig)
      → trim_space process.session_id ≢ ""
      → configure process files ≡ runs c
      → IsDial (dial_broker files c)
        × (trim_space c.stream_id ≢ "")
        × ((c.grpc_insecure ≡ true) ⊎ (c.edge_id ≢ ""))
  unfolding configure
  configured_serves c session h =
      let (id, made, source, edge) =
        configured (grpc_insecure process) (trim_space (process.env "EDGE_BROKER_GRPC_HOST"))
          (cert_folder process) c h in
      subst
        (λ (d : BrokerConfig).
          IsDial (dial_broker files d)
          × (trim_space d.stream_id ≢ "")
          × ((d.grpc_insecure ≡ true) ⊎ (d.edge_id ≢ "")))
        made
        (
          dial_broker-IsDial files (config_for process id) (config_source id source),
          config_stream id session,
          (unfold config_for in edge),
        )
