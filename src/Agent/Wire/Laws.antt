-- ===== src/Agent/Wire/Laws.antt =====
-- internal/agent/client.go against internal/controller/server.go: an agent that was registered gets its
-- configuration.
use mathlib.Core.Path.{subst}
use linkbit.Prelude.{
  ℕ, ◌≡◌, ◌≢◌, refl, sym, ap, ◌∙◌, String, Bool, true, false, some, List, arith, eq_iff, Option,
}
use linkbit.Models.{
  Device, DeviceRegistrationRequest, DeviceRegistrationResponse, NetworkConfig, Policy, RelayNode,
}
use linkbit.Net.{contains_char}
use linkbit.Store.{select_device_by_token, Result}
use linkbit.Store.Rows.{CodecLaws, IsRead}
use linkbit.Store.Devices.{list_devices}
use linkbit.Store.Policies.{list_policies}
use linkbit.Store.Relays.{list_relays}
use linkbit.Controller.Server.{Server, World, replied}
use linkbit.Controller.Enrolment.{device_register}
use linkbit.Controller.Enrolment.Token.{register-authenticate, register-token}
use linkbit.Controller.Peers.{allowed_peers}
use linkbit.Controller.Requests.{with_hub}
use linkbit.Agent.Outcome.{value}
use linkbit.Agent.State.Laws.{without_hash}
use linkbit.Agent.Http.{accept}
use linkbit.Agent.Client.{
  HttpRegistrationClient, register, get_network_config, set_device_credentials, registration_of,
  device_url,
}
use linkbit.Agent.Client.Laws.{config-value}
use linkbit.Agent.Wire.{decode_config, no_hash, decoders, Moment, controller_wire}
use linkbit.Agent.Wire.Sends.{register-replied, send-config, configured}

module _ (path_value : String → Option String) (valid : String → Bool) (s : Server) where
  Configured :
      Moment
      → HttpRegistrationClient
      → DeviceRegistrationResponse
      → List Policy
      → List (RelayNode ℕ)
      → String
      → World
      → Type 0
  Configured m c r policies relays base w =
      (config : NetworkConfig) × ((get_network_config (controller_wire s m path_value valid base)
          decoders c w).0
        ≡ value config)
      × (config.device ≡ record r.device { device_token = "" })
      × (config.policies ≡ policies)
      × (config.relays ≡ relays)

  asked-Configured :
      CodecLaws s.codec
      → (m m' : Moment) (c : HttpRegistrationClient) (req : DeviceRegistrationRequest) (w : World)
        (status : ℕ) (sent : DeviceRegistrationResponse) (devices : List (Device ℕ))
        (policies : List Policy) (relays : List (RelayNode ℕ))
      → let after = (device_register s m.env m.checked_at m.draws (some req) w).1 in
        (device_register s m.env m.checked_at m.draws (some req) w).0 ≡ replied status sent
        → c.controller_url ≢ ""
        → sent.device.id ≢ ""
        → sent.device.device_token ≢ ""
        → contains_char b'/' sent.device.id ≡ false
        → path_value sent.device.id ≡ some sent.device.id
        → valid (
            device_url
              (set_device_credentials sent.device.id sent.device.device_token c)
              "/network-config")
          ≡ true
        → IsRead s.codec m.draws.now
        → m'.env.fault select_device_by_token ≡ false
        → list_devices s.codec m'.env.fault after.db ≡ Result.ok devices
        → list_policies s.codec m'.env.fault after.db ≡ Result.ok policies
        → list_relays s.codec m'.env.fault after.db ≡ Result.ok relays
        → Configured m'
            (set_device_credentials sent.device.id sent.device.device_token c)
            (without_hash sent)
            policies
            relays
            c.controller_url
            after
  unfolding Configured controller_wire
  asked-Configured laws m m' c req w status sent devices policies relays p u i t n plain v read f ds
        ps rs =
      let after = (device_register s m.env m.checked_at m.draws (some req) w).1 in
      let id = sent.device.id in
      let token = sent.device.device_token in
      let device : Device ℕ = record sent.device { device_token = "" } in
      let config : NetworkConfig = record {
        device = no_hash device;
        peers = with_hub s.hub (allowed_peers device devices policies);
        policies = policies;
        relays = relays;
      } in
      (
        config,
        config-value (controller_wire s m' path_value valid c.controller_url) decoders
              (set_device_credentials id token c) after
              (ground (arith, eq_iff c.controller_url "", eq_iff id "", eq_iff token "")) v
            ∙ ap (λ z. accept decode_config z.0)
                (send-config path_value valid s m' c.controller_url id token after n plain)
            ∙ configured path_value valid s m' id token after device devices policies relays
                (register-authenticate s laws m.env m'.env.fault m.checked_at m.draws req w status
                  sent p i read f)
                ds ps rs,
        refl,
        refl,
        refl,
      )

  -- A client that the controller has just registered asks for its configuration, with the credentials
  -- that it then has, and gets that of its own device, with the policies and relays of the store,
  -- where the tables can be read, the id has no slash and is read from a path as it is, and the text
  -- of the time of the registration is read back.
  pub register-configure :
      CodecLaws s.codec
      → (m m' : Moment) (c : HttpRegistrationClient) (key name : String) (w : World)
        (r : DeviceRegistrationResponse) (devices : List (Device ℕ)) (policies : List Policy)
        (relays : List (RelayNode ℕ))
      → let (registered, c', w') =
          register (controller_wire s m path_value valid c.controller_url) decoders c key name w in
        registered ≡ value r
        → c.controller_url ≢ ""
        → r.device.id ≢ ""
        → contains_char b'/' r.device.id ≡ false
        → path_value r.device.id ≡ some r.device.id
        → valid (device_url c' "/network-config") ≡ true
        → IsRead s.codec m.draws.now
        → m'.env.fault select_device_by_token ≡ false
        → list_devices s.codec m'.env.fault w'.db ≡ Result.ok devices
        → list_policies s.codec m'.env.fault w'.db ≡ Result.ok policies
        → list_relays s.codec m'.env.fault w'.db ≡ Result.ok relays
        → (config : NetworkConfig) × ((get_network_config
              (controller_wire s m' path_value valid c.controller_url)
              decoders
              c'
              w').0
            ≡ value config)
          × (config.device ≡ record r.device { device_token = "" })
          × (config.policies ≡ policies)
          × (config.relays ≡ relays)
  unfolding Configured
  register-configure laws m m' c key name w r devices policies relays h u i n plain v read f ds ps
        rs =
      let (status, sent, p, q, e) = register-replied path_value valid s m c key name w r h in
      let url = c.controller_url in
      let req = registration_of c key name in
      let after = (device_register s m.env m.checked_at m.draws (some req) w).1 in
      let reg = register (controller_wire s m path_value valid url) decoders c key name w in
      let known = set_device_credentials sent.device.id sent.device.device_token c in
      let id : r.device.id ≡ sent.device.id = ap (λ z. z.device.id) q in
      let client : reg.1 ≡ known =
        ap (λ z. z.1) e ∙ ap (λ z. set_device_credentials z.device.id z.device.device_token c) q in
      let world : reg.2 ≡ after = ap (λ z. z.2) e in
      let asked =
        asked-Configured laws m m' c req w status sent devices policies relays p u (λ x. i (id ∙ x))
          (register-token s m.env m.checked_at m.draws req w status sent p)
          (subst (λ z. contains_char b'/' z ≡ false) id n)
          (subst (λ z. path_value z ≡ some z) id plain)
          (subst (λ z. valid (device_url z "/network-config") ≡ true) client v) read f
          (subst (λ z. list_devices s.codec m'.env.fault z.db ≡ Result.ok devices) world ds)
          (subst (λ z. list_policies s.codec m'.env.fault z.db ≡ Result.ok policies) world ps)
          (subst (λ z. list_relays s.codec m'.env.fault z.db ≡ Result.ok relays) world rs) in
      subst (λ z. Configured m' reg.1 z policies relays url reg.2) (sym q)
        (subst (λ z. Configured m' z (without_hash sent) policies relays url reg.2) (sym client)
          (subst (λ z. Configured m' known (without_hash sent) policies relays url z) (sym world)
            asked))
