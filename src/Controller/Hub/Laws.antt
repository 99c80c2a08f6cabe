-- ===== src/Controller/Hub/Laws.antt =====
-- The hub and the agents that meet it.
use Prim.Native.String.{◌++◌ as append}
use linkbit.Prelude.{
  ap, ℕ, ◌≡◌, ◌≢◌, refl, String, Bool, true, false, Option, some, List, [], ◌∷◌, ◌++◌, arith,
  eq_iff, All, if◌then◌else◌,
}
use linkbit.Prelude.Text.{trim_space, is_empty}
use linkbit.Models.{Device, NetworkPeer}
use linkbit.Net.Laws.{split-join_twice, contains-bracket}
use linkbit.Net.{contains_char, join_host_port, in_port_range, valid_wire_guard_endpoint}
use linkbit.Store.Policies.{Policy}
use linkbit.Command.Plans.{PlanStep, optional_step, vital_step}
use linkbit.Agent.WireGuard.{is_hub, hub_only_peers, has_hub_peer, used_peers}
use linkbit.Controller.Peers.{allowed_targets, collect_peers, allowed_peers}
use linkbit.Controller.Hub.{
  HubConfig, WireGuardHub, hub, hub_error, endpoint_invalid, default_hub_endpoint,
  new_wire_guard_hub, network_peer, hub_peer_command, is_hub_peer,
}

-- A hub that is started has a key, a port from 1 to 65535 and an endpoint that agents accept.
pub new_hub_valid :
    (url_host : String → Option String) (is_ip : String → Bool) (derive : String → Option String)
    (cfg : HubConfig) (h : WireGuardHub)
    → new_wire_guard_hub url_host is_ip derive cfg ≡ hub h
    → (cfg.enabled ≡ true)
      × (trim_space cfg.key ≢ "")
      × (in_port_range cfg.port ≡ true)
      × (valid_wire_guard_endpoint h.endpoint ≡ true)
      × (derive (trim_space cfg.key) ≡ some h.public_key)
      × (h.cfg ≡ cfg)
unfolding new_wire_guard_hub
new_hub_valid url_host is_ip derive cfg h e = ground (arith, eq_iff (trim_space cfg.key) "")

-- No registered device has the id of the hub.
abbrev pub NoDevice : String → List (Device ℕ) → Type 0
NoDevice id = All (λ d. d.id ≢ id)

hub_only-collect :
    (device : Device ℕ) (allowed : List String) (devices : List (Device ℕ)) (h : NetworkPeer)
    → NoDevice "linkbit-hub" devices
    → is_hub h ≡ true
    → hub_only_peers (collect_peers device allowed devices ++ h ∷ []) ≡ h ∷ []
unfolding hub_only_peers collect_peers
hub_only-collect device allowed [] h n t = rw t
hub_only-collect device allowed (d ∷ devices) h (apart, n) t =
    ground (arith, hub_only-collect device allowed devices h n t, eq_iff d.id "linkbit-hub")

-- Where the controller runs a hub, an agent that gets its configuration sets up the hub as its only
-- peer, whatever the policies say, if no device has the hub's id.
pub used_peers-hub :
    (device : Device ℕ) (devices : List (Device ℕ)) (policies : List Policy) (h : WireGuardHub)
    → NoDevice "linkbit-hub" devices
    → used_peers (allowed_peers device devices policies ++ network_peer h ∷ [])
      ≡ network_peer h ∷ []
unfolding allowed_peers network_peer has_hub_peer
used_peers-hub device devices policies h n =
    let only =
      hub_only-collect device (allowed_targets device policies) devices (network_peer h) n refl in
    rw only

-- The commands for the devices of the hub.
abbrev pub hub_peers_plan :
    (String → String → Bool) → WireGuardHub → List (Device ℕ) → List PlanStep
hub_peers_plan contains h [] = []
hub_peers_plan contains h (d ∷ ds) =
    if is_hub_peer contains h d
    then optional_step (hub_peer_command h.cfg.iface d) ∷ hub_peers_plan contains h ds
    else hub_peers_plan contains h ds

abbrev pub sync_plan :
    (String → String → Bool) → WireGuardHub → String → List (Device ℕ) → List PlanStep
sync_plan contains h file devices =
    optional_step ("ip" ∷ "link" ∷ "del" ∷ h.cfg.iface ∷ [])
    ∷ vital_step ("ip" ∷ "link" ∷ "add" ∷ "dev" ∷ h.cfg.iface ∷ "type" ∷ "wireguard" ∷ [])
    ∷ vital_step
        ("wg" ∷ "set" ∷ h.cfg.iface ∷ "private-key" ∷ file ∷ "listen-port" ∷ h.cfg.port_text ∷ [])
    ∷ vital_step ("ip" ∷ "address" ∷ "replace" ∷ append h.cfg.ip "/16" ∷ "dev" ∷ h.cfg.iface ∷ [])
    ∷ vital_step ("ip" ∷ "link" ∷ "set" ∷ "dev" ∷ h.cfg.iface ∷ "mtu" ∷ "1180" ∷ [])
    ∷ vital_step ("ip" ∷ "link" ∷ "set" ∷ "up" ∷ "dev" ∷ h.cfg.iface ∷ [])
    ∷ optional_step ("sysctl" ∷ "-w" ∷ "net.ipv4.ip_forward=1" ∷ [])
    ∷ hub_peers_plan contains h devices

default-bracketed :
    (url_host : String → Option String) (is_ip : String → Bool) (public_url port_text host : String)
    → url_host public_url ≡ some host
    → is_ip host ≡ true
    → contains_char b':' host ≡ true
    → default_hub_endpoint url_host is_ip public_url port_text
      ≡ join_host_port (append "[" (append host "]")) port_text
unfolding default_hub_endpoint contains_char
default-bracketed url_host is_ip public_url port_text host parsed ip colon =
    let both = contains-bracket host in
    let named : host ≢ "" = λ q. cc (colon, ap (contains_char b':') q) in
    let full : append "[" (append host "]") ≢ "" = λ q. cc (both.1, ap (contains_char b']') q) in
    ground (arith, parsed, ip, colon, eq_iff host "", eq_iff (append "[" (append host "]")) "")

colon-join : (host port : String) → contains_char b':' host ≡ true → join_host_port host port ≢ ""
unfolding join_host_port
colon-join host port h e = cc (h, ap is_empty e)

-- Where the controller's public URL has an IPv6 address for its host and no endpoint is configured, no
-- hub can be started: the default endpoint has the address in two pairs of brackets and is refused.
-- The hub is enabled, with a key and a port from 1 to 65535.
pub new_hub-ipv6 :
    (url_host : String → Option String) (is_ip : String → Bool) (derive : String → Option String)
    (cfg : HubConfig) (host : String)
    → cfg.enabled ≡ true
    → trim_space cfg.key ≢ ""
    → in_port_range cfg.port ≡ true
    → trim_space cfg.endpoint ≡ ""
    → url_host cfg.public_url ≡ some host
    → is_ip host ≡ true
    → contains_char b':' host ≡ true
    → contains_char b':' cfg.port_text ≡ false
    → new_wire_guard_hub url_host is_ip derive cfg ≡ hub_error endpoint_invalid
unfolding new_wire_guard_hub valid_wire_guard_endpoint
new_hub-ipv6 url_host is_ip derive cfg host on key port given parsed ip colon plain =
    let both = contains-bracket host in
    let bracketed = append "[" (append host "]") in
    let refused = split-join_twice bracketed cfg.port_text (both.0 colon) both.1 plain in
    let endpoint =
      default-bracketed url_host is_ip cfg.public_url cfg.port_text host parsed ip colon in
    let address = join_host_port bracketed cfg.port_text in
    let full = colon-join bracketed cfg.port_text (both.0 colon) in
    let invalid : valid_wire_guard_endpoint address ≡ false =
      ground (arith, refused, full, eq_iff address "") in
    ground (
      arith,
      on,
      given,
      endpoint,
      invalid,
      eq_iff (trim_space cfg.key) "",
      eq_iff (trim_space cfg.endpoint) "",
    )
