-- ===== src/Controller/Hub.antt =====
-- internal/controller/wireguard_hub.go: the controller's own WireGuard interface, a peer of every
-- agent. Parameters: url.Parse with Hostname (`url_host`), whether net.ParseIP reads a text
-- (`is_ip`), `wg pubkey` (`derive`), and whether a network in CIDR form contains an address
-- (`contains`, false where either does not parse).
pub mod Laws
mod Tests
use Prim.Native.String.{◌++◌ as append}
use linkbit.Prelude.{
  ℕ, ℤ, String, Bool, true, false, not, ◌&&◌, ◌||◌, Option, none, some, List, [], ◌∷◌, ◌==◌,
  if◌then◌else◌,
}
use linkbit.Prelude.Text.{trim_space}
use linkbit.Models.{Device, NetworkPeer}
use linkbit.Net.{contains_char, join_host_port, in_port_range, valid_wire_guard_endpoint}
use linkbit.Command.{
  Command, Script, Runner, CommandError, key_file_failed, done, refuse, must, attempt, ◌>>◌,
}

-- The fields of config.ControllerConfig that the hub reads. `port_text` is strconv.Itoa of the port.
pub record HubConfig : Type 0 where
  pub enabled : Bool
  pub iface : String
  pub ip : String
  pub network : String
  pub port : ℤ
  pub port_text : String
  pub key : String
  pub endpoint : String
  pub public_url : String

pub record WireGuardHub : Type 0 where
  pub cfg : HubConfig
  pub public_key : String
  pub endpoint : String

pub data HubError : Type 0 where
  key_required port_range endpoint_invalid public_key_failed : HubError

pub data NewHub : Type 0 where
  no_hub : NewHub
  hub_error : HubError → NewHub
  hub : WireGuardHub → NewHub

module _ (url_host : String → Option String) (is_ip : String → Bool) where
  unfoldable pub default_hub_endpoint : String → String → String
  default_hub_endpoint public_url port_text =
      let plain = trim_space public_url in
      let host : String = elim (url_host public_url) [
        | none ↦ plain
        | some name ↦ if name == "" then plain else name
      ] in
      let bracketed =
        if is_ip host && contains_char b':' host then append "[" (append host "]") else host in
      if bracketed == "" then "" else join_host_port bracketed port_text

  unfoldable pub new_wire_guard_hub : (String → Option String) → HubConfig → NewHub
  unfolding default_hub_endpoint
  new_wire_guard_hub derive cfg =
      let given = trim_space cfg.endpoint in
      let endpoint =
        if given == "" then default_hub_endpoint cfg.public_url cfg.port_text else given in
      if not cfg.enabled
      then no_hub
      else if trim_space cfg.key == ""
      then hub_error key_required
      else if not (in_port_range cfg.port)
      then hub_error port_range
      else if not (valid_wire_guard_endpoint endpoint)
      then hub_error endpoint_invalid
      else elim (derive (trim_space cfg.key)) [
        | none ↦ hub_error public_key_failed
        | some key ↦ hub (record { cfg = cfg; public_key = key; endpoint = endpoint })
      ]

unfoldable pub network_peer : WireGuardHub → NetworkPeer
network_peer h = record {
  id = "linkbit-hub";
  name = "Linkbit Hub";
  virtual_ip = h.cfg.ip;
  public_key = h.public_key;
  endpoint = h.endpoint;
  allowed_ips = h.cfg.network ∷ [];
}

abbrev pub hub_peer_command : String → Device ℕ → Command
hub_peer_command iface device =
    "wg"
    ∷ "set"
    ∷ iface
    ∷ "peer"
    ∷ device.public_key
    ∷ "allowed-ips"
    ∷ append device.virtual_ip "/32"
    ∷ []

module _ (contains : String → String → Bool) where
  unfoldable pub device_in_hub_network : WireGuardHub → String → Bool
  device_in_hub_network h virtual_ip = contains h.cfg.network (trim_space virtual_ip)

  abbrev pub is_hub_peer : WireGuardHub → Device ℕ → Bool
  is_hub_peer h device =
      not ((device.public_key == "") || (device.virtual_ip == ""))
      && device_in_hub_network h device.virtual_ip

  -- The loop over the devices: a command that fails is skipped.
  unfoldable pub add_hub_peers : WireGuardHub → List (Device ℕ) → Script
  unfolding device_in_hub_network
  add_hub_peers h [] = done
  add_hub_peers h (device ∷ devices) =
      let rest = add_hub_peers h devices in
      if is_hub_peer h device then attempt (hub_peer_command h.cfg.iface device) >> rest else rest

  unfoldable pub sync : WireGuardHub → Option String → List (Device ℕ) → Script
  unfolding add_hub_peers
  sync h key_file devices = elim key_file [
    | none ↦ refuse key_file_failed
    | some file ↦
        attempt ("ip" ∷ "link" ∷ "del" ∷ h.cfg.iface ∷ [])
        >> must ("ip" ∷ "link" ∷ "add" ∷ "dev" ∷ h.cfg.iface ∷ "type" ∷ "wireguard" ∷ [])
        >> must (
            "wg" ∷ "set" ∷ h.cfg.iface ∷ "private-key" ∷ file ∷ "listen-port" ∷ h.cfg.port_text
            ∷ [])
        >> must ("ip" ∷ "address" ∷ "replace" ∷ append h.cfg.ip "/16" ∷ "dev" ∷ h.cfg.iface ∷ [])
        >> must ("ip" ∷ "link" ∷ "set" ∷ "dev" ∷ h.cfg.iface ∷ "mtu" ∷ "1180" ∷ [])
        >> must ("ip" ∷ "link" ∷ "set" ∷ "up" ∷ "dev" ∷ h.cfg.iface ∷ [])
        >> attempt ("sysctl" ∷ "-w" ∷ "net.ipv4.ip_forward=1" ∷ [])
        >> add_hub_peers h devices
  ]
