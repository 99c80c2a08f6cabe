-- ===== src/Agent/Program.antt =====
-- cmd/linkbit-agent/main.go: the identity, the client, the tunnel, the reporter and the service of an
-- agent, put together as main does it.
pub mod Restarts
mod Tests
use linkbit.Prelude.{ℕ, String, Bool, true, false, Option, none, some, List, [], ◌∷◌}
use linkbit.Models.{DeviceRegistrationResponse, NetworkConfig}
use linkbit.Command.{Command, Runner}
use linkbit.Config.{AgentConfig}
use linkbit.Agent.Outcome.{Outcome, value, failure}
use linkbit.Agent.Http.{Wire}
use linkbit.Agent.Client.{
  HttpRegistrationClient, Decoders, new_http_registration_client, set_device_credentials, register,
  get_network_config,
}
use linkbit.Agent.Health.{new_controller_health_reporter, check_and_report}
use linkbit.Agent.WireGuard.{WireGuardManager, apply, destroy}
use linkbit.Agent.State.{StateError, StateCodec, Disk, DiskFault, not_exist}
use linkbit.Agent.Identity.{Identity, Crypto, ensure_identity}
use linkbit.Agent.Service.{Calls, Service, Call, Event, End, RunError, new_service, run}
use linkbit.Agent.Service.File.{with_file}

-- What the agent's calls change beside its file: the client, what is behind the wire, and the commands
-- that were run, latest first.
pub record Outside (World : Type 0) : Type 0 where
  pub client : HttpRegistrationClient
  pub world : World
  pub trace : List Command

-- The system's side of a start: the wire, the decoders, the answers to commands, the file that the
-- private key is written to, and runtime.GOOS == "linux".
pub record System (World Body : Type 0) : Type 0 where
  pub wire : Wire World Body
  pub decoders : Decoders Body
  pub runner : Runner
  pub key_file : Option String
  pub linux : Bool

abbrev pub given_keys : AgentConfig → Identity
given_keys cfg = record {
  private_key = cfg.wire_guard_private_key;
  public_key = cfg.wire_guard_public_key;
  fingerprint = cfg.device_fingerprint;
}

-- `cfg.WireGuardPrivateKey = identity.PrivateKey` and the line after it
abbrev pub with_keys : Identity → AgentConfig → AgentConfig
with_keys i cfg = record cfg {
  wire_guard_private_key = i.private_key;
  wire_guard_public_key = i.public_key;
}

abbrev pub manager : AgentConfig → Bool → WireGuardManager
manager cfg linux = record {
  wire_guard_interface = cfg.wire_guard_interface;
  wire_guard_private_key = cfg.wire_guard_private_key;
  wire_guard_dry_run = cfg.wire_guard_dry_run;
  linux = linux;
}

module _ {World Body : Type 0} (sys : System World Body) (cfg : AgentConfig) where
  -- The calls of the service. Those of the state store are not used: the file has them.
  unfoldable pub agent_calls : Calls (Outside World)
  unfolding register get_network_config apply destroy check_and_report
  agent_calls = record {
    load = λ o. failure not_exist;
    save = λ r o. (none, o);
    credentials =
        some (λ id token o. record o { client = set_device_credentials id token o.client });
    register = λ key name o.
        (let (answer, c, w) = register sys.wire sys.decoders o.client key name o.world in
          (answer, record o { client = c; world = w }));
    configuration = some (λ o.
        (let (answer, w) = get_network_config sys.wire sys.decoders o.client o.world in
          (answer, record o { world = w })));
    relays = true;
    apply = λ network o.
        (let (e, trace) =
            apply (manager cfg sys.linux) network.device.virtual_ip network.peers sys.key_file
              sys.runner o.trace in
          (e, record o { trace = trace }));
    destroy = λ o.
        (let (e, trace) = destroy (manager cfg sys.linux) sys.runner o.trace in
          (e, record o { trace = trace }));
    check_and_report = λ r o.
        (let (e, w) =
            check_and_report sys.wire sys.decoders
              (new_controller_health_reporter true (cfg.endpoint ∷ [])) o.client r o.world in
          (e, record o { world = w }));
  }

-- The calls of the file system that fail in EnsureIdentity, in Load and in Save.
pub record Faults : Type 0 where
  pub identity : DiskFault
  pub loading : DiskFault
  pub saving : DiskFault

-- How the program ends: before the service, or with it.
pub data Exit : Type 0 where
  no_identity : StateError → Exit
  no_service : RunError → Exit
  service_end : End → Exit

abbrev pub finish :
    {D World : Type 0} → End × ((D × Outside World) × List Call) → Exit × ((D × World) × List Call)
finish (e, ((d, o), log)) = (service_end e, ((d, o.world), log))

module _ (k : Crypto) (c : StateCodec) {World Body : Type 0} where
  -- The service with its calls.
  abbrev pub serve_agent :
      System World Body
      → Faults
      → ℕ
      → AgentConfig
      → Service
      → List Event
      → Disk c.Document × Outside World
      → End × ((Disk c.Document × Outside World) × List Call)
  serve_agent sys f now cfg s =
      run (with_file c f.loading f.saving cfg.state_path now (agent_calls sys cfg)) s

  abbrev pub start_service :
      System World Body
      → Faults
      → ℕ
      → AgentConfig
      → Identity
      → List Event
      → Disk c.Document × World
      → Exit × ((Disk c.Document × World) × List Call)
  start_service sys f now cfg i events (d, w) = elim (new_service cfg true true true) [
    | failure e ↦ (no_service e, ((d, w), []))
    | value s ↦ finish (
        serve_agent sys f now cfg s events (
          d,
          record {
            client =
                new_http_registration_client cfg.controller_url i.public_key i.fingerprint
                  cfg.endpoint;
            world = w;
            trace = [];
          },
        ))
  ]

  unfoldable pub main :
      System World Body
      → Faults
      → Option (List ℕ)
      → ℕ
      → AgentConfig
      → List Event
      → Disk c.Document × World
      → Exit × ((Disk c.Document × World) × List Call)
  unfolding ensure_identity new_service new_http_registration_client run agent_calls
  main sys f random now cfg events (d, w) =
      let (identity, d') =
        ensure_identity k c f.identity random now cfg.state_path (given_keys cfg) d in
      elim identity [
        | failure e ↦ (no_identity e, ((d', w), []))
        | value i ↦ start_service sys f now (with_keys i cfg) i events (d', w)
      ]
