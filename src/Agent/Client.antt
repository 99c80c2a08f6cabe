-- ===== src/Agent/Client.antt =====
-- internal/agent/client.go, HTTPRegistrationClient, and its calls for relay sessions in
-- internal/agent/tcp_relay.go. The decoders of the replies' bodies are encoding/json's.
pub mod Laws
mod Tests
use Prim.Native.Char.{code}
use Prim.Native.String.{◌++◌ as append}
use linkbit.Prelude.{ℕ, String, Bool, ◌&&◌, ◌||◌, Option, List, [], ◌∷◌, eqb, ◌==◌, if◌then◌else◌}
use linkbit.Prelude.Text.{is_empty}
use linkbit.Models.{
  Device, DeviceRegistrationRequest, DeviceRegistrationResponse, DeviceHealthReport,
  TcpRelaySessionRequest, TcpRelaySession, NetworkConfig,
}
use linkbit.Agent.Outcome.{Outcome, value, failure}
use linkbit.Agent.Http.{
  no_payload, registration_payload, health_payload, session_payload, HttpRequest, Wire, ClientError,
  url_required, credentials_required, fetch,
}

pub record HttpRegistrationClient : Type 0 where
  pub controller_url : String
  pub public_key : String
  pub fingerprint : String
  pub endpoint : String
  pub device_id : String
  pub device_token : String

-- `strings.TrimRight(s, "/")`
unfoldable pub trim_slashes : String → String
trim_slashes String.[] = String.[]
trim_slashes (String.◌∷◌ c s) =
    let rest = trim_slashes s in
    if eqb (code c) b'/' && is_empty rest then String.[] else String.◌∷◌ c rest

unfoldable pub new_http_registration_client :
    String → String → String → String → HttpRegistrationClient
unfolding trim_slashes
new_http_registration_client url public_key fingerprint endpoint = record {
  controller_url = trim_slashes url;
  public_key = public_key;
  fingerprint = fingerprint;
  endpoint = endpoint;
  device_id = "";
  device_token = "";
}

abbrev pub set_device_credentials :
    String → String → HttpRegistrationClient → HttpRegistrationClient
set_device_credentials id token c = record c { device_id = id; device_token = token }

abbrev pub content_type : String × String
content_type = ("Content-Type", "application/json")

abbrev pub token_header : HttpRegistrationClient → String × String
token_header c = ("X-Linkbit-Device-Token", c.device_token)

-- The guard of the calls that need credentials.
abbrev pub lacks_address : HttpRegistrationClient → Bool
lacks_address c = (c.controller_url == "") || (c.device_id == "") || (c.device_token == "")

abbrev pub device_url : HttpRegistrationClient → String → String
device_url c suffix =
    append c.controller_url (append "/api/v1/devices/" (append c.device_id suffix))

-- json.NewDecoder(resp.Body).Decode, for each type that is decoded.
pub record Decoders (Body : Type 0) : Type 0 where
  pub registration : Body → Option DeviceRegistrationResponse
  pub device : Body → Option (Device ℕ)
  pub config : Body → Option NetworkConfig
  pub session : Body → Option TcpRelaySession
  pub sessions : Body → Option (List TcpRelaySession)

abbrev pub registration_of : HttpRegistrationClient → String → String → DeviceRegistrationRequest
registration_of c enrollment_key device_name = record {
  enrollment_key = enrollment_key;
  name = device_name;
  public_key = c.public_key;
  fingerprint = c.fingerprint;
  endpoint = c.endpoint;
}

-- The credentials are the client's own from the reply on.
abbrev pub with_credentials :
    HttpRegistrationClient → Outcome ClientError DeviceRegistrationResponse → HttpRegistrationClient
with_credentials c (failure e) = c
with_credentials c (value r) = set_device_credentials r.device.id r.device.device_token c

-- The source is the client's own device where the request has none.
abbrev pub with_source : HttpRegistrationClient → TcpRelaySessionRequest → TcpRelaySessionRequest
with_source c req =
    if req.source_device_id == "" then record req { source_device_id = c.device_id } else req

abbrev pub registration_request : HttpRegistrationClient → String → String → HttpRequest
registration_request c enrollment_key device_name = record {
  method = "POST";
  url = append c.controller_url "/api/v1/devices/register";
  headers = content_type ∷ [];
  payload = registration_payload (registration_of c enrollment_key device_name);
}

abbrev pub health_request : HttpRegistrationClient → DeviceHealthReport → HttpRequest
health_request c report = record {
  method = "POST";
  url = device_url c "/health";
  headers = content_type ∷ token_header c ∷ [];
  payload = health_payload report;
}

abbrev pub config_request : HttpRegistrationClient → HttpRequest
config_request c = record {
  method = "GET";
  url = device_url c "/network-config";
  headers = token_header c ∷ [];
  payload = no_payload;
}

module _ {World Body : Type 0} (wire : Wire World Body) (decoders : Decoders Body) where
  unfoldable pub report_health :
      HttpRegistrationClient → DeviceHealthReport → World → Outcome ClientError (Device ℕ) × World
  unfolding fetch
  report_health c report w =
      if lacks_address c
      then (failure credentials_required, w)
      else fetch wire decoders.device (health_request c report) w

  unfoldable pub get_network_config :
      HttpRegistrationClient → World → Outcome ClientError NetworkConfig × World
  unfolding fetch
  get_network_config c w =
      if lacks_address c
      then (failure credentials_required, w)
      else fetch wire decoders.config (config_request c) w

  unfoldable pub register :
      HttpRegistrationClient
      → String
      → String
      → World
      → Outcome ClientError DeviceRegistrationResponse × HttpRegistrationClient × World
  unfolding fetch
  register c enrollment_key device_name w =
      if c.controller_url == ""
      then (failure url_required, c, w)
      else let (r, w') =
          fetch wire decoders.registration (registration_request c enrollment_key device_name) w in
        (r, with_credentials c r, w')

  unfoldable pub create_relay_session :
      HttpRegistrationClient
      → TcpRelaySessionRequest
      → World
      → Outcome ClientError TcpRelaySession × World
  unfolding fetch
  create_relay_session c req w =
      fetch wire decoders.session
        (record {
          method = "POST";
          url = append c.controller_url "/api/v1/relay/sessions";
          headers = content_type ∷ token_header c ∷ [];
          payload = session_payload (with_source c req);
        })
        w

  -- `query_escape` is url.QueryEscape.
  unfoldable pub pending_relay_sessions :
      (String → String)
      → HttpRegistrationClient
      → World
      → Outcome ClientError (List TcpRelaySession) × World
  unfolding fetch
  pending_relay_sessions query_escape c w =
      if (c.device_id == "") || (c.device_token == "")
      then (failure credentials_required, w)
      else fetch wire decoders.sessions
          (record {
            method = "GET";
            url = append c.controller_url (
                append "/api/v1/relay/sessions/pending?wait=25&deviceId="
                  (query_escape c.device_id));
            headers = token_header c ∷ [];
            payload = no_payload;
          })
          w
