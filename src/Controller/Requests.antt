-- ===== src/Controller/Requests.antt =====
-- internal/controller/server.go (handleDeviceHealth, handleDeviceNetworkConfig) and the handlers of
-- internal/controller/tcp_relay.go: what a device asks for with its token. `equal_fold` is
-- strings.EqualFold; a hijacked connection is its handle, none where the hijack fails.
pub mod Laws
pub mod Sessions
pub mod Health
pub mod Joining
use linkbit.Prelude.{
  ℕ, ℤ, String, Bool, true, false, not, ◌&&◌, ◌||◌, Option, none, some, List, [], ◌∷◌, ◌++◌, ◌==◌,
  if◌then◌else◌,
}
use linkbit.Prelude.Text.{trim_space}
use linkbit.Models.{
  NetworkConfig, Device, DeviceHealthReport, NetworkPeer, RelayNode, TcpRelaySession,
  TcpRelaySessionRequest,
}
use linkbit.Net.{valid_wire_guard_endpoint, in_port_range}
use linkbit.Auth.{hash_api_key, Hashed}
use linkbit.Store.{Result, is_not_found}
use linkbit.Store.Devices.{list_devices, update_device_health}
use linkbit.Store.Relays.{list_relays}
use linkbit.Store.Policies.{Policy, list_policies}
use linkbit.Controller.Broker.{TcpRelayBroker, Error, Wait, create, validate, attach, wait_begin}
use linkbit.Controller.Peers.{allowed_peers, resolve_relay_target, Resolved}
use linkbit.Controller.Hub.{WireGuardHub, network_peer}
use linkbit.Controller.Server.{
  Server, World, Env, Response, replied, failed, Authenticated, refused, authenticated,
  authenticate_device_credentials,
}

abbrev pub with_hub : Option WireGuardHub → List NetworkPeer → List NetworkPeer
with_hub none peers = peers
with_hub (some hub) peers = peers ++ network_peer hub ∷ []

-- The id that a relay request gives: the query's, or else the header's.
abbrev pub device_of : String → String → String
device_of query header = if trim_space query == "" then trim_space header else trim_space query

-- The answers of handleTCPRelayPending and of the two handlers of streams.
pub data Polled : Type 0 where
  turned_away : ℕ → String → Polled
  polled : Wait → Polled

pub data Streamed : Type 0 where
  unauthorised : ℕ → String → Streamed
  invalid : Error → Streamed
  not_hijacked : Streamed
  handed : Option Error → Streamed

module _ (s : Server) (env : Env) where
  unfoldable pub device_health :
      ℕ → String → String → Option DeviceHealthReport → World → Response (Device ℕ) × World
  device_health now device_id device_token payload w =
      if (device_id == "") || (device_token == "")
      then (failed 401 "device id and token are required", w)
      else elim (hash_api_key s.hmac_hex device_token s.api_key_pepper) [
        | Hashed.err e ↦ (failed 401 "invalid device token", w)
        | Hashed.ok token_hash ↦ elim payload [
          | none ↦ (failed 400 "invalid health payload", w)
          | some req ↦
              let report : DeviceHealthReport = record req { endpoint = trim_space req.endpoint } in
              let (updated, db') =
                update_device_health s.codec env.fault device_id token_hash report now w.db in
              if not (valid_wire_guard_endpoint (trim_space req.endpoint))
              then (failed 400 "endpoint must be host:port when provided", w)
              else elim updated [
                | Result.err e ↦ (
                  if is_not_found e
                      then failed 401 "invalid device token"
                      else failed 500 "health update failed",
                  record w { db = db' },
                )
                | Result.ok device ↦ (replied 200 device, record w { db = db' })
              ]
        ]
      ]

  unfoldable pub device_network_config : String → String → World → Response NetworkConfig × World
  device_network_config device_id device_token w =
      elim (authenticate_device_credentials s env.fault device_id device_token w.db) [
        | refused status message ↦ (failed status message, w)
        | authenticated device ↦ elim (list_devices s.codec env.fault w.db) [
          | Result.err e ↦ (failed 500 "network config failed", w)
          | Result.ok devices ↦ elim (list_policies s.codec env.fault w.db) [
            | Result.err e ↦ (failed 500 "network config failed", w)
            | Result.ok policies ↦ elim (list_relays s.codec env.fault w.db) [
              | Result.err e ↦ (failed 500 "network config failed", w)
              | Result.ok relays ↦ (
                replied 200 (record {
                  device = device;
                  peers = with_hub s.hub (allowed_peers device devices policies);
                  policies = policies;
                  relays = relays;
                }),
                w,
              )
            ]
          ]
        ]
      ]

  -- handleTCPRelaySessionCreate
  unfoldable pub session_create :
      (String → String → Bool)
      → ℕ
      → String
      → String
      → Option TcpRelaySessionRequest
      → World
      → Response TcpRelaySession × World
  session_create equal_fold now fresh device_token none w =
      (failed 400 "invalid relay session payload", w)
  session_create equal_fold now fresh device_token (some req) w =
      elim (authenticate_device_credentials s env.fault (trim_space req.source_device_id)
        device_token w.db) [
          | refused status message ↦ (failed status message, w)
          | authenticated source ↦
              if not (req.protocol == "") && not (req.protocol == "tcp")
              then (failed 400 "only tcp relay sessions are supported", w)
              else if not (in_port_range req.target_port)
              then (failed 400 "targetPort must be between 1 and 65535", w)
              else elim (resolve_relay_target equal_fold source (trim_space req.target)
                  (list_devices s.codec env.fault w.db) (list_policies s.codec env.fault w.db)) [
                    | Resolved.failed message ↦ (failed 400 message, w)
                    | Resolved.forbidden target ↦
                        (failed 403 "network policy does not allow this target", w)
                    | Resolved.allowed target ↦
                        let (session, broker') =
                          create fresh now source target req.target_port w.broker in
                        (replied 201 session, record w { broker = broker' })
                  ]
        ]

  -- handleTCPRelayPending, up to the wait: `waits` where the query has a value for it. The answer to an
  -- authenticated request is that of the broker's PendingWait.
  unfoldable pub relay_pending : Bool → ℕ → String → String → String → World → Polled × World
  relay_pending waits now query header device_token w =
      let device_id = device_of query header in
      elim (authenticate_device_credentials s env.fault device_id device_token w.db) [
        | refused status message ↦ (turned_away status message, w)
        | authenticated device ↦
            let (wait, broker') = wait_begin device_id waits now w.broker in
            (polled wait, record w { broker = broker' })
      ]

  -- handleTCPRelayClientStream and handleTCPRelayAgentStream, which differ in `client`. The result is
  -- none where the stream was handed over, and the text of an error stands for the broker's. The
  -- broker's own check comes twice, before and after the hijack.
  unfoldable pub relay_stream :
      Bool → ℕ → ℕ → String → String → String → String → Option ℕ → World → Streamed × World
  relay_stream client checked_at now query header device_token session_id conn w =
      let device_id = device_of query header in
      elim (authenticate_device_credentials s env.fault device_id device_token w.db) [
        | refused status message ↦ (unauthorised status message, w)
        | authenticated device ↦
            let (e, broker') = validate session_id device_id client checked_at w.broker in
            elim e [
              | some x ↦ (invalid x, record w { broker = broker' })
              | none ↦ elim conn [
                | none ↦ (not_hijacked, record w { broker = broker' })
                | some c ↦
                    let (result, broker'') = attach session_id device_id c client now broker' in
                    (handed result, record w { broker = broker'' })
              ]
            ]
      ]
