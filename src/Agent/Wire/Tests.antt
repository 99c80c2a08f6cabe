-- ===== src/Agent/Wire/Tests.antt =====
-- An agent is registered and configured by the controller of the example.
use linkbit.Prelude.{ℕ, ◌≡◌, refl, String, Bool, true, [], ◌∷◌, arith, eq_iff, some}
use linkbit.Models.{Device, DeviceRegistrationResponse, NetworkConfig}
use linkbit.Store.Sample.{sample_laws}
use linkbit.Store.Devices.{list_devices, update_device_health}
use linkbit.Controller.Requests.{device_health}
use linkbit.Store.Policies.{list_policies}
use linkbit.Store.Relays.{list_relays}
use linkbit.Store.Rows.{scan_device}
use linkbit.Net.{contains_char}
use linkbit.Controller.Sample.{server, env, world, draws, handlers}
use linkbit.Prelude.Text.{trim_space}
use linkbit.Controller.Server.{World, authenticate_device_credentials, authenticated}
use linkbit.Agent.Health.{ControllerHealthReporter, check_and_report}
use linkbit.Agent.Wire.Health.{report-authenticate}
use linkbit.Agent.Outcome.{value}
use linkbit.Agent.Http.{fetch}
use linkbit.Agent.Client.{HttpRegistrationClient, register, get_network_config}
use linkbit.Agent.Wire.{Moment, controller_wire, decoders, route_of, device_call, answer}
use linkbit.Agent.Wire.Paths.{strip_prefix, first_segment}
use linkbit.Agent.Wire.Laws.{register-configure}

abbrev client : HttpRegistrationClient
client = record {
  controller_url = "http://c";
  public_key = "pk";
  fingerprint = "";
  endpoint = "";
  device_id = "";
  device_token = "";
}

abbrev moment : Moment
moment = record { env = env; checked_at = 2; draws = draws }

abbrev any_url : String → Bool
any_url url = true

abbrev reply : DeviceRegistrationResponse
reply = record {
  device = record {
    id = "dev";
    user_id = "u";
    group_id = "default";
    name = "laptop";
    virtual_ip = "10.88.1.2";
    public_key = "pk";
    endpoint = "";
    token_hash = "";
    device_token = "lb_device";
    status = "online";
    last_seen_at = 3;
    created_at = 3;
    fingerprint = "";
  };
  relays = [];
  message = "device registered";
}

wires : Unit {0}
unfolding register fetch controller_wire route_of device_call answer strip_prefix first_segment
    handlers
wires = tt

registers :
    (register
      (controller_wire server moment some any_url "http://c")
      decoders
      client
      "lb_invite"
      "laptop"
      world).0
    ≡ value reply
unfolding wires
registers = refl

register-configure_example :
    let (registered, c', w') =
      register
        (controller_wire server moment some any_url "http://c")
        decoders
        client
        "lb_invite"
        "laptop"
        world in
    (config : NetworkConfig) × ((get_network_config
        (controller_wire server moment some any_url "http://c")
        decoders
        c'
        w').0
      ≡ value config)
    × (config.device ≡ record reply.device { device_token = "" })
    × (config.policies ≡ [])
    × (config.relays ≡ [])
unfolding wires contains_char list_devices list_policies list_relays scan_device
register-configure_example =
    register-configure some any_url server sample_laws moment moment client "lb_invite" "laptop"
      world reply (record reply.device { device_token = ""; token_hash = "lb_device" } ∷ []) [] []
      refl (λ e. ground (arith, (eq_iff "http://c" "").1 e))
      (λ e. ground (arith, (eq_iff "dev" "").1 e)) refl refl refl refl refl refl refl refl

abbrev later : Moment
later = record moment { checked_at = 9 }

abbrev known : HttpRegistrationClient
known = record client { device_id = "dev"; device_token = "lb_device" }

abbrev reporter : ControllerHealthReporter
reporter = record { client = true; endpoint = "203.0.113.5:51820" }

-- The world that the registration leaves.
abbrev joined : World
joined =
    (register (controller_wire server moment some any_url "http://c") decoders client "lb_invite"
      "laptop" world).2

report-authenticate_example :
    let w' =
      (check_and_report
        (controller_wire server later some any_url "http://c")
        decoders
        reporter
        known
        reply
        joined).1 in
    (old : Device ℕ) × (authenticate_device_credentials server env.fault "dev" "lb_device" joined.db
      ≡ authenticated old)
    × (authenticate_device_credentials server env.fault "dev" "lb_device" w'.db
        ≡ authenticated
            (record old { status = "online"; endpoint = "203.0.113.5:51820"; last_seen_at = 9 }))
unfolding wires contains_char trim_space check_and_report device_health update_device_health
report-authenticate_example =
    report-authenticate some any_url server sample_laws later env.fault env.fault reporter known
      reply joined refl refl (λ e. ground (arith, (eq_iff "dev" "").1 e)) refl refl refl
      (record {
        users = (refl, tt);
        groups = (refl, tt);
        relays = tt;
        invitations = (refl, tt);
        invitation_tokens = (refl, tt);
        api_keys = (refl, tt);
        api_key_digests = (refl, tt);
        devices = (refl, tt);
        device_ips = (refl, tt);
        policies = tt;
      })
      refl refl
