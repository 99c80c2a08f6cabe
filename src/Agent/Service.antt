-- ===== src/Agent/Service.antt =====
-- internal/agent/agent.go, Service: from the first registration to the loop of health reports. What
-- the service calls is an interface over a state of its own (the file, the client, the controller,
-- the interface of WireGuard); the log has the latest call first.
pub mod Cases
pub mod Tunnel
pub mod Loop
pub mod Restart
pub mod Again
pub mod File
pub mod Ticker
mod Tests
use linkbit.Prelude.{
  ℕ, String, Bool, true, false, not, ◌&&◌, Option, none, some, List, [], ◌∷◌, is_some, ◌==◌,
  if◌then◌else◌,
}
use linkbit.Models.{DeviceRegistrationResponse, NetworkConfig}
use linkbit.Command.{CommandError}
use linkbit.Config.{AgentConfig, is_positive}
use linkbit.Agent.Outcome.{Outcome, value, failure}
use linkbit.Agent.Http.{ClientError}
use linkbit.Agent.State.{StateError, zero_response}

pub data RunError : Type 0 where
  controller_url_required enrollment_key_required cancelled : RunError
  client_error : ClientError → RunError
  state_error : StateError → RunError
  tunnel_error : CommandError → RunError

-- What Run calls: `credentials` and `configuration` are there where the client is a
-- DeviceCredentialSetter and a NetworkConfigClient, and `relays` tells whether it is a
-- TCPRelayClient.
pub record Calls (W : Type 0) : Type 0 where
  pub load : W → Outcome StateError DeviceRegistrationResponse
  pub save : DeviceRegistrationResponse → W → Option StateError × W
  pub credentials : Option (String → String → W → W)
  pub register : String → String → W → Outcome ClientError DeviceRegistrationResponse × W
  pub configuration : Option (W → Outcome ClientError NetworkConfig × W)
  pub relays : Bool
  pub apply : NetworkConfig → W → Option CommandError × W
  pub destroy : W → Option CommandError × W
  pub check_and_report : DeviceRegistrationResponse → W → Option ClientError × W

-- The fields of Service, which tell what is not nil.
pub record Service : Type 0 where
  pub cfg : AgentConfig
  pub registration : Bool
  pub tunnel : Bool
  pub health : Bool
  pub state : Bool

unfoldable pub new_service : AgentConfig → Bool → Bool → Bool → Outcome RunError Service
new_service cfg registration tunnel health =
    if cfg.controller_url == ""
    then failure controller_url_required
    else value (record {
      cfg = cfg;
      registration = registration;
      tunnel = tunnel;
      health = health;
      state = not (cfg.state_path == "");
    })

pub data Call : Type 0 where
  loaded registered saved configured applied refused destroyed relay_started reported : Call

-- The state of the calls, and the log.
abbrev pub Logged : Type 0 → Type 0
Logged W = W × List Call

-- What the select of the loop receives: a tick or the end of the context.
pub data Event : Type 0 where
  tick done : Event

-- A run ends with an error or nil, panics in time.NewTicker, or waits for a further event.
pub data End : Type 0 where
  ended : Option RunError → End
  panicked waiting : End

abbrev pub no_peers : DeviceRegistrationResponse → NetworkConfig
no_peers r = record { device = r.device; peers = []; policies = []; relays = r.relays }

module _ {W : Type 0} (calls : Calls W) (s : Service) where
  abbrev pub give_credentials : DeviceRegistrationResponse → W → W
  give_credentials r w = elim calls.credentials [
    | none ↦ w
    | some set ↦ set r.device.id r.device.device_token w
  ]

  -- `s.device` after the load, the zero value where there is none.
  unfoldable pub load_device : Logged W → DeviceRegistrationResponse × Logged W
  load_device (w, log) =
      if s.state
      then elim (calls.load w) [
        | failure e ↦ (zero_response, (w, loaded ∷ log))
        | value r ↦ (r, (give_credentials r w, loaded ∷ log))
      ]
      else (zero_response, (w, log))

  unfoldable pub save_device :
      DeviceRegistrationResponse → Logged W → Outcome RunError DeviceRegistrationResponse × Logged W
  save_device r (w, log) =
      if s.state
      then (let (e, w') = calls.save r w in
          elim e [
            | some x ↦ (failure (state_error x), (w', log))
            | none ↦ (value r, (w', saved ∷ log))
          ])
      else (value r, (w, log))

  unfoldable pub register_device :
      DeviceRegistrationResponse → Logged W → Outcome RunError DeviceRegistrationResponse × Logged W
  unfolding save_device
  register_device device (w, log) =
      if not (device.device.id == "")
      then (value device, (w, log))
      else if s.cfg.enrollment_key == ""
      then (failure enrollment_key_required, (w, log))
      else let (answer, w') = calls.register s.cfg.enrollment_key s.cfg.device_name w in
        elim answer [
          | failure e ↦ (failure (client_error e), (w', registered ∷ log))
          | value r ↦ save_device r (w', registered ∷ log)
        ]

  -- The lines under `if s.registration != nil`.
  unfoldable pub enrol : Logged W → Outcome RunError DeviceRegistrationResponse × Logged W
  unfolding load_device register_device
  enrol at =
      if s.registration
      then (let (device, at') = load_device at in register_device device at')
      else (value zero_response, at)

  unfoldable pub network_of :
      DeviceRegistrationResponse → Logged W → Outcome RunError NetworkConfig × Logged W
  network_of r (w, log) =
      if s.registration
      then elim calls.configuration [
        | none ↦ (value (no_peers r), (w, log))
        | some get ↦
            let (answer, w') = get w in
            elim answer [
              | failure e ↦ (failure (client_error e), (w', configured ∷ log))
              | value network ↦ (value network, (w', configured ∷ log))
            ]
      ]
      else (value (no_peers r), (w, log))

  unfoldable pub apply_network : NetworkConfig → Logged W → Option RunError × Logged W
  apply_network network (w, log) =
      let (e, w') = calls.apply network w in
      elim e [
        | none ↦ (none, (w', applied ∷ log))
        | some x ↦ (some (tunnel_error x), (w', refused ∷ log))
      ]

  -- The lines under `if s.tunnel != nil`.
  unfoldable pub bring_up : DeviceRegistrationResponse → Logged W → Option RunError × Logged W
  unfolding network_of apply_network
  bring_up r at =
      if s.tunnel
      then (let (network, at') = network_of r at in
          elim network [ failure e ↦ (some e, at') | value n ↦ apply_network n at' ])
      else (none, at)

  -- The deferred call, once the tunnel is up.
  unfoldable pub tear_down : Logged W → Logged W
  tear_down (w, log) = if s.tunnel then ((calls.destroy w).1, destroyed ∷ log) else (w, log)

  unfoldable pub report : DeviceRegistrationResponse → Logged W → Option ClientError × Logged W
  report r (w, log) =
      if s.health
      then (let (e, w') = calls.check_and_report r w in (e, (w', reported ∷ log)))
      else (none, (w, log))

  unfoldable pub loop : DeviceRegistrationResponse → List Event → Logged W → End × Logged W
  unfolding report
  loop r [] at = (waiting, at)
  loop r (done ∷ events) at = (ended (some cancelled), at)
  loop r (tick ∷ events) at = loop r events (report r at).1

  -- The goroutine of the relay target.
  unfoldable pub start_relay : Logged W → Logged W
  start_relay (w, log) =
      if s.cfg.relay_enabled && not s.cfg.run_once && s.registration && calls.relays
      then (w, relay_started ∷ log)
      else (w, log)

  abbrev pub once_error : Option ClientError → Option RunError
  once_error none = none
  once_error (some e) = some (client_error e)

  -- What follows the tunnel, up to the return.
  unfoldable pub serve : DeviceRegistrationResponse → List Event → Logged W → End × Logged W
  unfolding report loop start_relay
  serve r events at =
      if s.cfg.run_once
      then (let (e, at') = report r (start_relay at) in (ended (once_error e), at'))
      else if is_positive s.cfg.health_every
      then loop r events (start_relay at)
      else (panicked, start_relay at)

  -- The deferred call runs at a return and at a panic.
  abbrev pub settle : End × Logged W → End × Logged W
  settle (waiting, at) = (waiting, at)
  settle (ended e, at) = (ended e, tear_down at)
  settle (panicked, at) = (panicked, tear_down at)

  unfoldable pub run : List Event → W → End × Logged W
  unfolding enrol bring_up serve tear_down
  run events w =
      let (registration, at) = enrol (w, []) in
      elim registration [
        | failure e ↦ (ended (some e), at)
        | value r ↦
            let (e, at') = bring_up r at in
            elim e [ some x ↦ (ended (some x), at') | none ↦ settle (serve r events at') ]
      ]
