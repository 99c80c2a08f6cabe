-- ===== src/Agent/WireGuard.antt =====
-- internal/agent/wireguard.go: the interface that the agent sets up for a network configuration. The
-- operating system and the temporary file with the private key (none where it cannot be written) are
-- arguments.
pub mod Plan
mod Tests
use Prim.Native.String.{◌++◌ as append}
use linkbit.Prelude.{
  String, Bool, true, false, not, ◌&&◌, ◌||◌, Option, none, some, List, [], ◌∷◌, ◌++◌, any, ◌==◌,
  if◌then◌else◌,
}
use linkbit.Models.{NetworkPeer}
use linkbit.Command.{
  Command, Script, interface_required, virtual_ip_required, linux_only, private_key_required,
  key_file_failed, done, refuse, must, attempt, ◌>>◌,
}

-- The fields of config.AgentConfig that the manager reads, and runtime.GOOS == "linux".
pub record WireGuardManager : Type 0 where
  pub wire_guard_interface : String
  pub wire_guard_private_key : String
  pub wire_guard_dry_run : Bool
  pub linux : Bool

-- `peer.VirtualIP + "/32"`
abbrev pub host_route : NetworkPeer → String
host_route peer = append peer.virtual_ip "/32"

abbrev pub is_hub : NetworkPeer → Bool
is_hub peer =
    (peer.id == "linkbit-hub")
    || any (λ ip. not (ip == "") && not (ip == host_route peer)) peer.allowed_ips

unfoldable pub hub_only_peers : List NetworkPeer → List NetworkPeer
hub_only_peers [] = []
hub_only_peers (peer ∷ peers) =
    let rest = hub_only_peers peers in if is_hub peer then peer ∷ rest else rest

abbrev pub is_cons {ℓ} : {A : Type ℓ} → List A → Bool
is_cons [] = false
is_cons (x ∷ xs) = true

unfoldable pub has_hub_peer : List NetworkPeer → Bool
unfolding hub_only_peers
has_hub_peer peers = is_cons (hub_only_peers peers)

abbrev pub allowed_ips : NetworkPeer → List String
allowed_ips peer = if is_cons peer.allowed_ips then peer.allowed_ips else host_route peer ∷ []

-- `peer.PublicKey == "" || peer.VirtualIP == ""`
abbrev pub is_skipped : NetworkPeer → Bool
is_skipped peer = (peer.public_key == "") || (peer.virtual_ip == "")

-- The two commands for an endpoint.
abbrev pub endpoint_command : String → NetworkPeer → Command
endpoint_command iface peer =
    "wg" ∷ "set" ∷ iface ∷ "peer" ∷ peer.public_key ∷ "endpoint" ∷ peer.endpoint ∷ []

abbrev pub keepalive_command : String → NetworkPeer → Command
keepalive_command iface peer =
    "wg" ∷ "set" ∷ iface ∷ "peer" ∷ peer.public_key ∷ "persistent-keepalive" ∷ "10" ∷ []

abbrev pub peer_command : String → NetworkPeer → Command
peer_command iface peer =
    "wg" ∷ "set" ∷ iface ∷ "peer" ∷ peer.public_key ∷ "allowed-ips" ∷ allowed_ips peer

unfoldable pub configure_peer : String → NetworkPeer → Script
configure_peer iface peer =
    must (peer_command iface peer)
    >> (if peer.endpoint == ""
        then done
        else must (endpoint_command iface peer) >> must (keepalive_command iface peer))

-- The loop over the peers, and the routes that it gathers.
unfoldable pub configure_peers : String → List NetworkPeer → Script
unfolding configure_peer
configure_peers iface [] = done
configure_peers iface (peer ∷ peers) =
    let rest = configure_peers iface peers in
    if is_skipped peer then rest else configure_peer iface peer >> rest

unfoldable pub routes : List NetworkPeer → List String
routes [] = []
routes (peer ∷ peers) =
    let rest = routes peers in if is_skipped peer then rest else allowed_ips peer ++ rest

abbrev pub route_command : String → String → Command
route_command iface route = "ip" ∷ "route" ∷ "replace" ∷ route ∷ "dev" ∷ iface ∷ []

unfoldable pub add_routes : String → List String → Script
add_routes iface [] = done
add_routes iface (route ∷ rs) = must (route_command iface route) >> add_routes iface rs

abbrev pub ping_command : NetworkPeer → Command
ping_command peer = "ping" ∷ "-c" ∷ "3" ∷ "-W" ∷ "1" ∷ peer.virtual_ip ∷ []

unfoldable pub warm_wire_guard_hub : List NetworkPeer → Script
warm_wire_guard_hub [] = done
warm_wire_guard_hub (peer ∷ peers) =
    let rest = warm_wire_guard_hub peers in
    if (peer.id == "linkbit-hub") && not (peer.virtual_ip == "")
    then attempt (ping_command peer)
    else rest

abbrev pub link_del : String → Command
link_del iface = "ip" ∷ "link" ∷ "del" ∷ iface ∷ []

abbrev pub link_add : String → Command
link_add iface = "ip" ∷ "link" ∷ "add" ∷ "dev" ∷ iface ∷ "type" ∷ "wireguard" ∷ []

abbrev pub key_command : String → String → Command
key_command iface key_file = "wg" ∷ "set" ∷ iface ∷ "private-key" ∷ key_file ∷ []

abbrev pub address_add : String → String → Command
address_add iface ip = "ip" ∷ "address" ∷ "add" ∷ append ip "/32" ∷ "dev" ∷ iface ∷ []

abbrev pub mtu_command : String → Command
mtu_command iface = "ip" ∷ "link" ∷ "set" ∷ "dev" ∷ iface ∷ "mtu" ∷ "1180" ∷ []

abbrev pub up_command : String → Command
up_command iface = "ip" ∷ "link" ∷ "set" ∷ "up" ∷ "dev" ∷ iface ∷ []

-- Where a hub is among the peers, the others are left out.
abbrev pub used_peers : List NetworkPeer → List NetworkPeer
used_peers peers = if has_hub_peer peers then hub_only_peers peers else peers

-- `virtual_ip` is network.Device.VirtualIP, `peers` network.Peers.
unfoldable pub apply_commands : String → String → List NetworkPeer → String → Script
apply_commands iface virtual_ip peers key_file =
    if iface == ""
    then refuse interface_required
    else if virtual_ip == ""
    then refuse virtual_ip_required
    else (attempt (link_del iface)
        >> must (link_add iface)
        >> (if key_file == "" then done else must (key_command iface key_file))
        >> must (address_add iface virtual_ip)
        >> configure_peers iface (used_peers peers)
        >> must (mtu_command iface)
        >> must (up_command iface)
        >> add_routes iface (routes (used_peers peers))
        >> warm_wire_guard_hub (used_peers peers))

unfoldable pub validate_network_config : String → String → Script
validate_network_config iface virtual_ip =
    if iface == ""
    then refuse interface_required
    else if virtual_ip == ""
    then refuse virtual_ip_required
    else done

unfoldable pub apply : WireGuardManager → String → List NetworkPeer → Option String → Script
unfolding validate_network_config apply_commands
apply m virtual_ip peers key_file =
    if m.wire_guard_dry_run
    then validate_network_config m.wire_guard_interface virtual_ip
    else if not m.linux
    then refuse linux_only
    else if m.wire_guard_private_key == ""
    then refuse private_key_required
    else elim key_file [
      | none ↦ refuse key_file_failed
      | some file ↦ apply_commands m.wire_guard_interface virtual_ip peers file
    ]

unfoldable pub destroy : WireGuardManager → Script
destroy m =
    if m.wire_guard_interface == ""
    then refuse interface_required
    else if m.wire_guard_dry_run
    then done
    else if m.linux
    then must (link_del m.wire_guard_interface)
    else done
