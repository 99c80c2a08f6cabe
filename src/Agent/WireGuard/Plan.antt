-- ===== src/Agent/WireGuard/Plan.antt =====
-- internal/agent/wireguard.go: the manager runs the commands that a configuration means, and no others.
pub mod Commands
use linkbit.Prelude.{
  ap, sym, ◌∙◌, Option, none, Bool-cases, inl, inr, ◌==◌, String, ◌≡◌, ◌≢◌, Bool, true, false, not,
  ◌&&◌, List, [], ◌∷◌, ◌++◌, arith, eq_iff, if◌then◌else◌, refl, ◌||◌, any,
}
use linkbit.Agent.WireGuard.Plan.Commands.{
  not_empty, networks, is_usable, is_wide, leads, leaders, chosen_peers, peer_plan_for, peer_plan,
  peers_plan, network_plan, routes_plan, warm_plan, plan_for, apply_plan,
}
use mathlib.Core.Path.{subst}
use Prim.Native.String.{◌++◌ as append}
use linkbit.Models.{NetworkPeer}
use linkbit.Command.{Command, CommandError, Runner, Script, must}
use linkbit.Command.Plans.{
  all_run, exec-none, PlanStep, vital_step, optional_step, Follows, done-Follows, must-Follows,
  attempt-Follows, >>-Follows,
}
use linkbit.Agent.WireGuard.{
  is_skipped, endpoint_command, keepalive_command, peer_command, configure_peer, configure_peers,
  routes, route_command, add_routes, warm_wire_guard_hub, link_del, link_add, key_command,
  address_add, mtu_command, up_command, used_peers, apply_commands, allowed_ips, is_cons, is_hub,
  hub_only_peers, has_hub_peer,
}

-- The code's networks and peers are these.
allowed-networks : (peer : NetworkPeer) → allowed_ips peer ≡ networks peer
allowed-networks peer = go peer.allowed_ips (append peer.virtual_ip "/32" ∷ [])
  where
    go : (ips own : List String) → (if is_cons ips then ips else own) ≡ not_empty ips own
    go [] own = refl
    go (x ∷ ips) own = refl

any-wide :
    (own : String) (ips : List String)
    → any (λ ip. not (ip == "") && not (ip == own)) ips ≡ is_wide own ips
any-wide own [] = refl
any-wide own (ip ∷ ips) = ground (arith, any-wide own ips)

hub-leads : (peer : NetworkPeer) → is_hub peer ≡ leads peer
hub-leads peer = ground (arith, any-wide (append peer.virtual_ip "/32") peer.allowed_ips)

hub_only-leaders :
    (peers : List NetworkPeer)
    → (hub_only_peers peers ≡ leaders peers) × (has_hub_peer peers ≡ any leads peers)
unfolding hub_only_peers has_hub_peer
hub_only-leaders [] = (refl, refl)
hub_only-leaders (peer ∷ peers) = ground (arith, hub_only-leaders peers, hub-leads peer)

used-chosen : (peers : List NetworkPeer) → used_peers peers ≡ chosen_peers peers
used-chosen peers = let (e, h) = hub_only-leaders peers in rw (e, h) refl

skipped-usable : (peer : NetworkPeer) → is_skipped peer ≡ not (is_usable peer)
skipped-usable peer = ground arith

if-Follows :
    (b : Bool) (s t : Script) (p q : List PlanStep)
    → Follows s p
    → Follows t q
    → Follows (if b then s else t) (if b then p else q)
if-Follows true s t p q f g = f
if-Follows false s t p q f g = g

configure_peer-Follows :
    (iface : String) (peer : NetworkPeer)
    → Follows (configure_peer iface peer) (peer_plan iface peer)
unfolding configure_peer
configure_peer-Follows iface peer =
    subst (λ ns. Follows (configure_peer iface peer) (peer_plan_for iface peer ns))
      (allowed-networks peer)
      (>>-Follows (must (peer_command iface peer)) _ _ _ (must-Follows (peer_command iface peer)) (
        if-Follows (peer.endpoint == "") _ _ _ _ done-Follows (
          >>-Follows (must (endpoint_command iface peer)) (must (keepalive_command iface peer)) _ _
            (must-Follows _) (must-Follows _))))

configure_peers-Follows :
    (iface : String) (peers : List NetworkPeer)
    → Follows (configure_peers iface peers) (peers_plan iface peers)
unfolding configure_peers
configure_peers-Follows iface [] = done-Follows
configure_peers-Follows iface (peer ∷ peers) =
    let usable = skipped-usable peer in
    elim (Bool-cases (is_usable peer)) [
      | inr u ↦
          let e : is_skipped peer ≡ true = rw (usable, u) refl in
          rw (configure_peers, e, u) (configure_peers-Follows iface peers)
      | inl u ↦
          let e : is_skipped peer ≡ false = rw (usable, u) refl in
          rw (configure_peers, e, u)
            (>>-Follows (configure_peer iface peer) (configure_peers iface peers) _ _
              (configure_peer-Follows iface peer) (configure_peers-Follows iface peers))
    ]

network_plan-concat :
    (iface : String) (ns ms : List String)
    → network_plan iface (ns ++ ms) ≡ network_plan iface ns ++ network_plan iface ms
network_plan-concat iface [] ms = refl
network_plan-concat iface (n ∷ ns) ms =
    ap (λ p. vital_step ("ip" ∷ "route" ∷ "replace" ∷ n ∷ "dev" ∷ iface ∷ []) ∷ p)
      (network_plan-concat iface ns ms)

network_plan-routes :
    (iface : String) (peers : List NetworkPeer)
    → network_plan iface (routes peers) ≡ routes_plan iface peers
unfolding routes
network_plan-routes iface [] = refl
network_plan-routes iface (peer ∷ peers) =
    let usable = skipped-usable peer in
    let rest = network_plan-routes iface peers in
    elim (Bool-cases (is_usable peer)) [
      | inr u ↦ let e : is_skipped peer ≡ true = rw (usable, u) refl in rw (routes, e, u) rest
      | inl u ↦
          let e : is_skipped peer ≡ false = rw (usable, u) refl in
          rw (routes, e, u)
            (ap (λ ns. network_plan iface (ns ++ routes peers)) (allowed-networks peer)
              ∙ network_plan-concat iface (networks peer) (routes peers)
              ∙ ap (λ p. network_plan iface (networks peer) ++ p) rest)
    ]

add-Follows :
    (iface : String) (ns : List String) → Follows (add_routes iface ns) (network_plan iface ns)
unfolding add_routes
add-Follows iface [] = done-Follows
add-Follows iface (n ∷ ns) =
    >>-Follows (must (route_command iface n)) (add_routes iface ns) _ _ (must-Follows _)
      (add-Follows iface ns)

add_routes-Follows :
    (iface : String) (peers : List NetworkPeer)
    → Follows (add_routes iface (routes peers)) (routes_plan iface peers)
add_routes-Follows iface peers =
    subst (Follows (add_routes iface (routes peers))) (network_plan-routes iface peers)
      (add-Follows iface (routes peers))

warm-Follows : (peers : List NetworkPeer) → Follows (warm_wire_guard_hub peers) (warm_plan peers)
unfolding warm_wire_guard_hub
warm-Follows [] = done-Follows
warm-Follows (peer ∷ peers) =
    if-Follows ((peer.id == "linkbit-hub") && not (peer.virtual_ip == "")) _ _ _ _
      (attempt-Follows _) (warm-Follows peers)

-- For an interface and an address that are given, the manager runs exactly these commands, in order,
-- up to the first vital one that fails, and reports that failure, whatever the system answers: the
-- interface is deleted (which may fail) and made anew, with the key file where there is one and the
-- address; where there are peers with the hub's id or a network of more than their own address, only
-- they are used, and else all; each that has a key and an address is set up with its networks, its own
-- address where none are given, and with its endpoint and a keepalive where it has one; the MTU is set
-- and the interface is up; each of these networks is routed to it; and the first hub with an address
-- is pinged (which may fail).
pub apply_commands-Follows :
    (iface virtual_ip : String) (peers : List NetworkPeer) (key_file : String)
    → iface ≢ ""
    → virtual_ip ≢ ""
    → Follows
        (apply_commands iface virtual_ip peers key_file)
        (apply_plan iface virtual_ip peers key_file)
unfolding apply_commands
apply_commands-Follows iface virtual_ip peers key_file named given =
    let a : (iface == "") ≡ false = ground (arith, eq_iff iface "") in
    let b : (virtual_ip == "") ≡ false = ground (arith, eq_iff virtual_ip "") in
    subst
      (λ used.
        Follows (apply_commands iface virtual_ip peers key_file)
          (plan_for iface virtual_ip used key_file))
      (used-chosen peers)
      (rw (a, apply_commands)
        (rw (b, apply_commands)
          (>>-Follows _ _ _ _ (attempt-Follows (link_del iface)) (
            >>-Follows _ _ _ _ (must-Follows (link_add iface)) (
              >>-Follows _ _ _ _
                (if-Follows (key_file == "") _ _ _ _ done-Follows
                  (must-Follows (key_command iface key_file)))
                (>>-Follows _ _ _ _ (must-Follows (address_add iface virtual_ip)) (
                  >>-Follows _ _ _ _ (configure_peers-Follows iface (used_peers peers)) (
                    >>-Follows _ _ _ _ (must-Follows (mtu_command iface)) (
                      >>-Follows _ _ _ _ (must-Follows (up_command iface)) (
                        >>-Follows _ _ _ _ (add_routes-Follows iface (used_peers peers))
                          (warm-Follows (used_peers peers))))))))))))

-- Where the manager reports no error, it ran all commands of the plan, in order.
pub apply_commands-none :
    (iface virtual_ip : String) (peers : List NetworkPeer) (key_file : String) (runner : Runner)
    (trace : List Command)
    → (apply_commands iface virtual_ip peers key_file runner trace).0 ≡ none
    → (apply_commands iface virtual_ip peers key_file runner trace).1
      ≡ all_run (apply_plan iface virtual_ip peers key_file) trace
unfolding apply_commands
apply_commands-none iface virtual_ip peers key_file runner trace h =
    elim (Bool-cases (iface == "")) [
      | inl e ↦ absurd (ground (arith, e))
      | inr e ↦ elim (Bool-cases (virtual_ip == "")) [
        | inl f ↦ absurd (ground (arith, e, f))
        | inr f ↦
            let named : iface ≢ "" = ground (arith, e, eq_iff iface "") in
            let given : virtual_ip ≢ "" = ground (arith, f, eq_iff virtual_ip "") in
            let plan = apply_plan iface virtual_ip peers key_file in
            let same =
              (apply_commands-Follows iface virtual_ip peers key_file named given).runs runner
                trace in
            ap (λ (r : Option CommandError × List Command). r.1) same
            ∙ exec-none plan runner trace
                (sym (ap (λ (r : Option CommandError × List Command). r.0) same) ∙ h)
      ]
    ]
