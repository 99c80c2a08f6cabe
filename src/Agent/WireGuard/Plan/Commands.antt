-- ===== src/Agent/WireGuard/Plan/Commands.antt =====
-- internal/agent/wireguard.go: what a network configuration means, as a list of commands.
use linkbit.Prelude.{
  ◌==◌, String, Bool, false, not, ◌&&◌, List, [], ◌∷◌, ◌++◌, if◌then◌else◌, ◌||◌, any,
}
use Prim.Native.String.{◌++◌ as append}
use linkbit.Models.{NetworkPeer}
use linkbit.Command.Plans.{PlanStep, vital_step, optional_step}

-- The commands are written out here, apart from the code's own.
abbrev pub not_empty : List String → List String → List String
not_empty [] other = other
not_empty (x ∷ xs) other = x ∷ xs

-- The networks that a peer may use: its own address where none are given.
abbrev pub networks : NetworkPeer → List String
networks peer = not_empty peer.allowed_ips (append peer.virtual_ip "/32" ∷ [])

-- A peer with a key and an address.
abbrev pub is_usable : NetworkPeer → Bool
is_usable peer = not (peer.public_key == "") && not (peer.virtual_ip == "")

-- A hub by its id, or a peer that is given a network other than its own address.
abbrev pub is_wide : String → List String → Bool
is_wide own [] = false
is_wide own (n ∷ ns) = (not (n == "") && not (n == own)) || is_wide own ns

abbrev pub leads : NetworkPeer → Bool
leads peer = (peer.id == "linkbit-hub") || is_wide (append peer.virtual_ip "/32") peer.allowed_ips

abbrev pub leaders : List NetworkPeer → List NetworkPeer
leaders [] = []
leaders (peer ∷ peers) = if leads peer then peer ∷ leaders peers else leaders peers

-- The peers that are set up: those that lead, where there are any, and all where there are none.
abbrev pub chosen_peers : List NetworkPeer → List NetworkPeer
chosen_peers peers = if any leads peers then leaders peers else peers

abbrev pub peer_plan_for : String → NetworkPeer → List String → List PlanStep
peer_plan_for iface peer ns =
    vital_step ("wg" ∷ "set" ∷ iface ∷ "peer" ∷ peer.public_key ∷ "allowed-ips" ∷ ns)
    ∷ (if peer.endpoint == ""
        then []
        else vital_step
            ("wg" ∷ "set" ∷ iface ∷ "peer" ∷ peer.public_key ∷ "endpoint" ∷ peer.endpoint ∷ [])
          ∷ vital_step
              ("wg" ∷ "set" ∷ iface ∷ "peer" ∷ peer.public_key ∷ "persistent-keepalive" ∷ "10" ∷ [])
          ∷ [])

abbrev pub peer_plan : String → NetworkPeer → List PlanStep
peer_plan iface peer = peer_plan_for iface peer (networks peer)

abbrev pub peers_plan : String → List NetworkPeer → List PlanStep
peers_plan iface [] = []
peers_plan iface (peer ∷ peers) =
    (if is_usable peer then peer_plan iface peer else []) ++ peers_plan iface peers

abbrev pub network_plan : String → List String → List PlanStep
network_plan iface [] = []
network_plan iface (n ∷ ns) =
    vital_step ("ip" ∷ "route" ∷ "replace" ∷ n ∷ "dev" ∷ iface ∷ []) ∷ network_plan iface ns

abbrev pub routes_plan : String → List NetworkPeer → List PlanStep
routes_plan iface [] = []
routes_plan iface (peer ∷ peers) =
    (if is_usable peer then network_plan iface (networks peer) else []) ++ routes_plan iface peers

-- The first hub with an address is pinged.
abbrev pub warm_plan : List NetworkPeer → List PlanStep
warm_plan [] = []
warm_plan (peer ∷ peers) =
    if (peer.id == "linkbit-hub") && not (peer.virtual_ip == "")
    then optional_step ("ping" ∷ "-c" ∷ "3" ∷ "-W" ∷ "1" ∷ peer.virtual_ip ∷ []) ∷ []
    else warm_plan peers

abbrev pub plan_for : String → String → List NetworkPeer → String → List PlanStep
plan_for iface virtual_ip peers key_file =
    optional_step ("ip" ∷ "link" ∷ "del" ∷ iface ∷ [])
      ∷ vital_step ("ip" ∷ "link" ∷ "add" ∷ "dev" ∷ iface ∷ "type" ∷ "wireguard" ∷ [])
      ∷ (if key_file == ""
          then []
          else vital_step ("wg" ∷ "set" ∷ iface ∷ "private-key" ∷ key_file ∷ []) ∷ [])
    ++ (vital_step ("ip" ∷ "address" ∷ "add" ∷ append virtual_ip "/32" ∷ "dev" ∷ iface ∷ [])
          ∷ peers_plan iface peers
        ++ (vital_step ("ip" ∷ "link" ∷ "set" ∷ "dev" ∷ iface ∷ "mtu" ∷ "1180" ∷ [])
              ∷ vital_step ("ip" ∷ "link" ∷ "set" ∷ "up" ∷ "dev" ∷ iface ∷ [])
              ∷ routes_plan iface peers
            ++ warm_plan peers))

abbrev pub apply_plan : String → String → List NetworkPeer → String → List PlanStep
apply_plan iface virtual_ip peers key_file = plan_for iface virtual_ip (chosen_peers peers) key_file
