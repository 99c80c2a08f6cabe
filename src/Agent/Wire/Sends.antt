-- ===== src/Agent/Wire/Sends.antt =====
-- The routes that the agent's requests take, and what the controller answers to each.
use Prim.Native.String.{◌++◌ as append}
use linkbit.Prelude.{
  ℕ, ◌≡◌, refl, sym, ap, ◌∙◌, inl, inr, String, Bool, false, Option, some, List, [], ◌∷◌,
  Bool-cases, arith,
}
use linkbit.Models.{
  Device, DeviceRegistrationRequest, DeviceRegistrationResponse, Policy, RelayNode,
}
use linkbit.Net.{contains_char}
use linkbit.Store.{Result}
use linkbit.Store.Devices.{list_devices}
use linkbit.Store.Policies.{list_policies}
use linkbit.Store.Relays.{list_relays}
use linkbit.Controller.Server.{
  Server, World, Response, replied, failed, no_content, authenticate_device_credentials,
  authenticated,
}
use linkbit.Controller.Enrolment.{device_register}
use linkbit.Controller.Peers.{allowed_peers}
use linkbit.Controller.Requests.{with_hub, device_network_config}
use linkbit.Controller.Routes.{register_device, get_network_config as config_route}
use linkbit.Agent.Outcome.{value, value-failure, value-injective}
use linkbit.Agent.State.Laws.{without_hash}
use linkbit.Agent.Http.{registration_payload, no_payload, Payload, HttpRequest, accept, is_failure}
use linkbit.Agent.Client.{
  HttpRegistrationClient, register, set_device_credentials, registration_of, content_type,
}
use linkbit.Agent.Client.Laws.{register-value}
use linkbit.Agent.Wire.{
  Body, decode_registration, decode_config, config_body, no_hash, decoders, registration_body,
  reply_of, Moment, controller_wire, route_of, device_call, answer,
}
use linkbit.Agent.Wire.Paths.{
  strip_prefix, first_segment, strip_prefix-append, first_segment-append,
}

route-register :
    (path_value : String → Option String) (base : String) (headers : List (String × String))
    (req : DeviceRegistrationRequest)
    → route_of path_value base (record {
      method = "POST";
      url = append base "/api/v1/devices/register";
      headers = headers;
      payload = registration_payload req;
    })
      ≡ some (register_device (some req))
unfolding route_of strip_prefix first_segment device_call
route-register path_value base headers req =
    rw (route_of, strip_prefix-append base "/api/v1/devices/register") refl

pub route-path :
    (path_value : String → Option String) (base path rest id tail : String) (q : HttpRequest)
    → strip_prefix base q.url ≡ some path
    → strip_prefix "/api/v1/devices/" path ≡ some rest
    → first_segment rest ≡ (id, tail)
    → route_of path_value base q ≡ device_call path_value q.method (id, tail) q.payload
unfolding route_of
route-path path_value base path rest id tail q a b c = ground arith

call-config :
    (path_value : String → Option String) (id : String) (p : Payload)
    → path_value id ≡ some id
    → device_call path_value "GET" (id, "/network-config") p ≡ some (config_route id)
unfolding device_call
call-config path_value id p v = ground (arith, v)

route-config :
    (path_value : String → Option String) (base id : String) (headers : List (String × String))
    (p : Payload)
    → contains_char b'/' id ≡ false
    → path_value id ≡ some id
    → route_of path_value base (record {
      method = "GET";
      url = append base (append "/api/v1/devices/" (append id "/network-config"));
      headers = headers;
      payload = p;
    })
      ≡ some (config_route id)
unfolding device_call
route-config path_value base id headers p h v =
    route-path path_value base (append "/api/v1/devices/" (append id "/network-config"))
      (append id "/network-config") id "/network-config"
      (record {
        method = "GET";
        url = append base (append "/api/v1/devices/" (append id "/network-config"));
        headers = headers;
        payload = p;
      })
      (strip_prefix-append base (append "/api/v1/devices/" (append id "/network-config")))
      (strip_prefix-append "/api/v1/devices/" (append id "/network-config"))
      (first_segment-append id "network-config" h)
    ∙ call-config path_value id p v

accept-registered :
    (answer : Response DeviceRegistrationResponse) (w : World) (r : DeviceRegistrationResponse)
    → accept decode_registration (reply_of registration_body (answer, w)).0 ≡ value r
    → (status : ℕ) × (sent : DeviceRegistrationResponse) × (answer ≡ replied status sent)
      × (r ≡ without_hash sent)
accept-registered (replied status sent) w r h = elim (Bool-cases (is_failure status)) [
  | inl f ↦ absurd (value-failure (sym (rw f at h)))
  | inr f ↦ (status, sent, refl, sym (value-injective (rw f at h)))
]
accept-registered (failed status message) w r h = ground arith
accept-registered no_content w r h = ground arith

pub reply_of-world :
    {A : Type 0} (body : A → Body) (r : Response A × World) → (reply_of body r).1 ≡ r.1
reply_of-world body (replied status a, w) = refl
reply_of-world body (failed status message, w) = refl
reply_of-world body (no_content, w) = refl

module _ (path_value : String → Option String) (valid : String → Bool) (s : Server) where
  send-register :
      (m : Moment) (base : String) (headers : List (String × String))
      (req : DeviceRegistrationRequest) (w : World)
      → (controller_wire s m path_value valid base).send
          (record {
            method = "POST";
            url = append base "/api/v1/devices/register";
            headers = headers;
            payload = registration_payload req;
          })
          w
        ≡ reply_of registration_body (device_register s m.env m.checked_at m.draws (some req) w)
  unfolding controller_wire answer
  send-register m base headers req w =
      rw (controller_wire, route-register path_value base headers req) refl

  -- What a client that is registered was answered.
  pub register-replied :
      (m : Moment) (c : HttpRegistrationClient) (key name : String) (w : World)
      (r : DeviceRegistrationResponse)
      → (register (controller_wire s m path_value valid c.controller_url) decoders c key name w).0
        ≡ value r
      → (status : ℕ) × (sent : DeviceRegistrationResponse) × ((device_register s m.env m.checked_at
            m.draws
            (some (registration_of c key name))
            w).0
          ≡ replied status sent)
        × (r ≡ without_hash sent)
        × (register (controller_wire s m path_value valid c.controller_url) decoders c key name w
            ≡ (
              value r,
              set_device_credentials r.device.id r.device.device_token c,
              (device_register s m.env m.checked_at m.draws
                  (some (registration_of c key name))
                  w).1,
            ))
  register-replied m c key name w r h =
      let req = registration_of c key name in
      let sent = send-register m c.controller_url (content_type ∷ []) req w in
      let (x, y) =
        register-value (controller_wire s m path_value valid c.controller_url) decoders c key name w
          r h in
      let (status, body, p, q) =
        accept-registered (device_register s m.env m.checked_at m.draws (some req) w).0
          (device_register s m.env m.checked_at m.draws (some req) w).1 r
          (sym (ap (λ z. accept decode_registration z.0) sent) ∙ x) in
      (
        status,
        body,
        p,
        q,
        y
            ∙ ap (λ z. (value r, set_device_credentials r.device.id r.device.device_token c, z))
                (ap (λ z. z.1) sent
                  ∙ reply_of-world registration_body
                      (device_register s m.env m.checked_at m.draws (some req) w)),
      )

  pub send-config :
      (m : Moment) (base id token : String) (w : World)
      → contains_char b'/' id ≡ false
      → path_value id ≡ some id
      → (controller_wire s m path_value valid base).send
          (record {
            method = "GET";
            url = append base (append "/api/v1/devices/" (append id "/network-config"));
            headers = ("X-Linkbit-Device-Token", token) ∷ [];
            payload = no_payload;
          })
          w
        ≡ reply_of config_body (device_network_config s m.env id token w)
  unfolding controller_wire answer
  send-config m base id token w h v =
      rw
        (
          controller_wire,
          route-config path_value base id (("X-Linkbit-Device-Token", token) ∷ []) no_payload h v,
        )
        refl

  pub configured :
      (m : Moment) (id token : String) (w : World) (device : Device ℕ) (devices : List (Device ℕ))
      (policies : List Policy) (relays : List (RelayNode ℕ))
      → authenticate_device_credentials s m.env.fault id token w.db ≡ authenticated device
      → list_devices s.codec m.env.fault w.db ≡ Result.ok devices
      → list_policies s.codec m.env.fault w.db ≡ Result.ok policies
      → list_relays s.codec m.env.fault w.db ≡ Result.ok relays
      → accept decode_config (reply_of config_body (device_network_config s m.env id token w)).0
        ≡ value (record {
          device = no_hash device;
          peers = with_hub s.hub (allowed_peers device devices policies);
          policies = policies;
          relays = relays;
        })
  unfolding device_network_config
  configured m id token w device devices policies relays a b c d =
      rw (device_network_config, a, b, c, d) refl
