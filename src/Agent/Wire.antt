-- ===== src/Agent/Wire.antt =====
-- The controller at the other end of the agent's calls: the patterns of Handler in
-- internal/controller/server.go for devices, and the JSON bodies, in which a device has no digest.
pub mod Paths
pub mod Sends
pub mod Laws
pub mod Health
mod Tests
use linkbit.Prelude.{ℕ, String, Bool, ◌&&◌, Option, none, some, List, [], ◌∷◌, ◌==◌, if◌then◌else◌}
use linkbit.Models.{
  Device, DeviceRegistrationRequest, DeviceRegistrationResponse, DeviceHealthReport, NetworkConfig,
}
use linkbit.Controller.Server.{Server, World, Env, Response, replied, failed, no_content}
use linkbit.Controller.Enrolment.{Draws, device_register}
use linkbit.Controller.Requests.{device_health, device_network_config}
use linkbit.Controller.Routes.{DeviceRoute, register_device, report_health, get_network_config}
use linkbit.Agent.Http.{Payload, registration_payload, health_payload, HttpRequest, Reply, Wire}
use linkbit.Agent.Client.{Decoders}
use linkbit.Agent.State.Laws.{without_hash}
use linkbit.Agent.Wire.Paths.{strip_prefix, first_segment}

pub data Body : Type 0 where
  registration_body : DeviceRegistrationResponse → Body
  device_body : Device ℕ → Body
  config_body : NetworkConfig → Body
  error_body : String → Body
  empty_body : Body

abbrev pub no_hash : Device ℕ → Device ℕ
no_hash device = record device { token_hash = "" }

abbrev pub decode_registration : Body → Option DeviceRegistrationResponse
decode_registration (registration_body r) = some (without_hash r)
decode_registration _ = none

abbrev pub decode_device : Body → Option (Device ℕ)
decode_device (device_body device) = some (no_hash device)
decode_device _ = none

abbrev pub decode_config : Body → Option NetworkConfig
decode_config (config_body config) = some (record config { device = no_hash config.device })
decode_config _ = none

abbrev pub decoders : Decoders Body
decoders = record {
  registration = decode_registration;
  device = decode_device;
  config = decode_config;
  session = λ body. none;
  sessions = λ body. none;
}

-- What decodeJSON makes of a request's body.
abbrev pub registration_in : Payload → Option DeviceRegistrationRequest
registration_in (registration_payload r) = some r
registration_in _ = none

abbrev pub report_in : Payload → Option DeviceHealthReport
report_in (health_payload r) = some r
report_in _ = none

-- r.Header.Get
abbrev pub header : String → List (String × String) → String
header name [] = ""
header name ((key, text) ∷ headers) =
    let rest = header name headers in if key == name then text else rest

-- The route of a path below /api/v1/devices/: its first segment, and what comes after it. `path_value` is
-- what r.PathValue gives for a segment that stands for {id}, by net/url and the mux, which read ?, #, %
-- and .. in their own ways, and none where no handler is reached.
unfoldable pub device_call :
    (String → Option String) → String → String × String → Payload → Option DeviceRoute
device_call path_value method (segment, tail) payload =
    if (method == "POST") && (segment == "register") && (tail == "")
    then some (register_device (registration_in payload))
    else if (method == "POST") && (tail == "/health")
    then elim (path_value segment) [
      | none ↦ none
      | some id ↦ some (report_health id (report_in payload))
    ]
    else if (method == "GET") && (tail == "/network-config")
    then elim (path_value segment) [ none ↦ none | some id ↦ some (get_network_config id) ]
    else none

-- `base` is where the controller is reached.
unfoldable pub route_of : (String → Option String) → String → HttpRequest → Option DeviceRoute
unfolding strip_prefix first_segment device_call
route_of path_value base q = elim (strip_prefix base q.url) [
  | none ↦ none
  | some path ↦ elim (strip_prefix "/api/v1/devices/" path) [
    | none ↦ none
    | some rest ↦ device_call path_value q.method (first_segment rest) q.payload
  ]
]

abbrev pub reply_of : {A : Type 0} → (A → Body) → Response A × World → Option (Reply Body) × World
reply_of body (replied status a, w) = (some (record { status = status; body = body a }), w)
reply_of body (failed status message, w) =
    (some (record { status = status; body = error_body message }), w)
reply_of body (no_content, w) = (some (record { status = 204; body = empty_body }), w)

-- What the system does in a request, and what the request draws.
pub record Moment : Type 0 where
  pub env : Env
  pub checked_at : ℕ
  pub draws : Draws

module _ (s : Server) (m : Moment) where
  unfoldable pub answer : DeviceRoute → String → World → Option (Reply Body) × World
  answer (register_device req) token w =
      reply_of registration_body (device_register s m.env m.checked_at m.draws req w)
  answer (report_health id req) token w =
      reply_of device_body (device_health s m.env m.checked_at id token req w)
  answer (get_network_config id) token w =
      reply_of config_body (device_network_config s m.env id token w)
  answer _ token w = (some (record { status = 404; body = empty_body }), w)

  unfoldable pub controller_wire :
      (String → Option String) → (String → Bool) → String → Wire World Body
  unfolding route_of answer
  controller_wire path_value valid base = record {
    new_request = valid;
    send = λ q w. elim (route_of path_value base q) [
      | none ↦ (some (record { status = 404; body = empty_body }), w)
      | some route ↦ answer route (header "X-Linkbit-Device-Token" q.headers) w
    ];
  }
