-- ===== src/Controller/Peers.antt =====
-- internal/controller/server.go (allowedPeers, policyAllows) and internal/controller/tcp_relay.go
-- (resolveRelayTarget): which devices a network policy lets a device reach.
pub mod Laws
pub mod Targets
mod Tests
use linkbit.Prelude.{
  ℕ, String, Bool, true, false, not, ◌&&◌, ◌||◌, Option, none, some, List, [], ◌∷◌, any, ◌==◌,
  if◌then◌else◌,
}
use linkbit.Models.{Device, NetworkPeer}
use linkbit.Store.{Result, ok, err}
use linkbit.Store.Policies.{Policy}

unfoldable pub policy_allows : String → Device ℕ → Bool
policy_allows selector device =
    (selector == "*") || (selector == device.id) || (selector == device.group_id)

-- The keys of the map `allowed`.
unfoldable pub allowed_targets : Device ℕ → List Policy → List String
unfolding policy_allows
allowed_targets device [] = []
allowed_targets device (policy ∷ policies) =
    let rest = allowed_targets device policies in
    if policy.enabled && policy_allows policy.source_id device
    then policy.target_id ∷ rest
    else rest

-- `allowed[key]`
abbrev pub allowed_key : List String → String → Bool
allowed_key allowed key = any (λ t. t == key) allowed

abbrev pub peer_of : Device ℕ → NetworkPeer
peer_of candidate = record {
  id = candidate.id;
  name = candidate.name;
  virtual_ip = candidate.virtual_ip;
  public_key = candidate.public_key;
  endpoint = candidate.endpoint;
  allowed_ips = [];
}

abbrev pub is_target : List String → Device ℕ → Bool
is_target allowed candidate =
    allowed_key allowed candidate.id
    || allowed_key allowed candidate.group_id
    || allowed_key allowed "*"

unfoldable pub collect_peers : Device ℕ → List String → List (Device ℕ) → List NetworkPeer
collect_peers device allowed [] = []
collect_peers device allowed (candidate ∷ devices) =
    let rest = collect_peers device allowed devices in
    if not (candidate.id == device.id) && is_target allowed candidate
    then peer_of candidate ∷ rest
    else rest

unfoldable pub allowed_peers : Device ℕ → List (Device ℕ) → List Policy → List NetworkPeer
unfolding collect_peers allowed_targets
allowed_peers device devices policies =
    collect_peers device (allowed_targets device policies) devices

-- An error, a target that no policy grants, or a target.
pub data Resolved : Type 0 where
  failed : String → Resolved
  forbidden : Device ℕ → Resolved
  allowed : Device ℕ → Resolved

-- `equal_fold` is strings.EqualFold.
module _ (equal_fold : String → String → Bool) where
  abbrev pub names_device : String → Device ℕ → Bool
  names_device target_value device =
      (device.id == target_value)
      || (device.virtual_ip == target_value)
      || equal_fold device.name target_value

  -- The first device that the text names.
  unfoldable pub find_target : String → List (Device ℕ) → Option (Device ℕ)
  find_target target_value [] = none
  find_target target_value (device ∷ devices) =
      if names_device target_value device then some device else find_target target_value devices

  -- `devices` and `policies` are what the store lists.
  unfoldable pub resolve_relay_target :
      Device ℕ → String → Result (List (Device ℕ)) → Result (List Policy) → Resolved
  unfolding find_target
  resolve_relay_target source target_value devices policies =
      if target_value == "" then failed "target is required" else elim devices [
        | err e ↦ failed "list devices failed"
        | ok ds ↦ elim policies [
          | err e ↦ failed "list policies failed"
          | ok ps ↦ elim (find_target target_value ds) [
            | none ↦ failed "target device not found"
            | some target ↦
                if target.id == ""
                then failed "target device not found"
                else if any (λ (p : NetworkPeer). p.id == target.id) (allowed_peers source ds ps)
                then allowed target
                else forbidden target
          ]
        ]
      ]
