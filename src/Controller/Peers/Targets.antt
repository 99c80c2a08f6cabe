-- ===== src/Controller/Peers/Targets.antt =====
-- The targets of relay sessions.
use linkbit.Prelude.{
  ℕ, ◌≡◌, ◌≢◌, refl, sym, inl, inr, String, IsIn, Bool, true, Option, some, List, [], ◌∷◌, arith,
  map, any, any_sound, ◌==◌, eq_iff, Bool-cases, Option-cases,
}
use mathlib.Core.Path.{subst}
use linkbit.Models.{Device, NetworkPeer}
use linkbit.Store.{Result, ok, err}
use linkbit.Store.Policies.{Policy}
use linkbit.Controller.Peers.{
  allowed_targets, allowed_peers, names_device, find_target, allowed, resolve_relay_target,
}
use linkbit.Controller.Peers.Laws.{Reached, allowed_peers_exact}

find_target_sound :
    (equal_fold : String → String → Bool) (value : String) (devices : List (Device ℕ))
    {t : Device ℕ}
    → find_target equal_fold value devices ≡ some t
    → IsIn t devices × (names_device equal_fold value t ≡ true)
unfolding find_target
find_target_sound equal_fold value [] e = cc
find_target_sound equal_fold value (d ∷ devices) {t} e =
    elim (Bool-cases (names_device equal_fold value d)) [
      | inl n ↦
          let same : d ≡ t = ground arith in
          (inl (sym same), subst (λ x. names_device equal_fold value x ≡ true) same n)
      | inr n ↦
          let (i, m) =
            find_target_sound equal_fold value devices {t = t} (rw (n, find_target) at e) in
          (inr i, m)
    ]

-- A relay session is opened only to a registered device that the text names, by its id, its virtual
-- IP or its name, and whose id is that of a registered device that some enabled policy grants to
-- the source.
pub resolve-allowed :
    (equal_fold : String → String → Bool) (source target : Device ℕ) (value : String)
    (devices : List (Device ℕ)) (policies : List Policy)
    → resolve_relay_target equal_fold source value (ok devices) (ok policies) ≡ allowed target
    → IsIn target devices
      × (names_device equal_fold value target ≡ true)
      × (p : NetworkPeer) × (p.id ≡ target.id)
      × Reached source devices policies p
unfolding resolve_relay_target
resolve-allowed equal_fold source target value devices policies h =
    elim (Option-cases (find_target equal_fold value devices)) [
      | inl e ↦ absurd (ground arith)
      | inr (t, e) ↦
          let same : t ≡ target = ground arith in
          let found = subst (λ x. find_target equal_fold value devices ≡ some x) same e in
          let peers = allowed_peers source devices policies in
          let reached : any (λ (p : NetworkPeer). p.id == target.id) peers ≡ true = ground arith in
          let (i, n) = find_target_sound equal_fold value devices found in
          let (p, j, q) = any_sound (λ (p : NetworkPeer). p.id == target.id) peers reached in
          (
            i,
            n,
            p,
            (eq_iff p.id target.id).0 q,
            (allowed_peers_exact source devices policies p).0 j,
          )
    ]

-- A text that is the id or the virtual IP of one device and the name of another opens no session to
-- the first, whatever the policies, if the store lists the other before it.
pub resolve_shadowed :
    (equal_fold : String → String → Bool) (source first second : Device ℕ) (value : String)
    (devices : List (Device ℕ)) (policies : Result (List Policy))
    → equal_fold first.name value ≡ true
    → first.id ≢ second.id
    → resolve_relay_target equal_fold source value (ok (first ∷ devices)) policies ≢ allowed second
unfolding resolve_relay_target find_target
resolve_shadowed equal_fold source first second value devices (err e) n apart h = ground arith
resolve_shadowed equal_fold source first second value devices (ok ps) n apart h = ground arith

-- Other ports and another protocol.
abbrev pub restricted : (Policy → Option (List String)) → (Policy → String) → Policy → Policy
restricted ports protocol p = record p { ports = ports p; protocol = protocol p }

allowed_targets-ports :
    (device : Device ℕ) (ports : Policy → Option (List String)) (protocol : Policy → String)
    (policies : List Policy)
    → allowed_targets device (map (restricted ports protocol) policies)
      ≡ allowed_targets device policies
unfolding allowed_targets
allowed_targets-ports device ports protocol [] = refl
allowed_targets-ports device ports protocol (p ∷ policies) =
    rw (allowed_targets-ports device ports protocol policies, allowed_targets)

-- The ports and the protocol of a policy restrict nothing: with any others in their place, each
-- device has the same peers, and each request for a relay session to any target has the same outcome.
pub resolve-ports :
    (equal_fold : String → String → Bool) (ports : Policy → Option (List String))
    (protocol : Policy → String) (source : Device ℕ) (value : String) (devices : List (Device ℕ))
    (policies : List Policy)
    → let changed = map (restricted ports protocol) policies in
      (allowed_peers source devices changed ≡ allowed_peers source devices policies)
      × (resolve_relay_target equal_fold source value (ok devices) (ok changed)
          ≡ resolve_relay_target equal_fold source value (ok devices) (ok policies))
unfolding allowed_peers resolve_relay_target
resolve-ports equal_fold ports protocol source value devices policies =
    let same = allowed_targets-ports source ports protocol policies in
    (rw same, ground (arith, same))
