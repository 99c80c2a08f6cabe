-- ===== src/Controller/Peers/Laws.antt =====
-- What a policy grants.
use linkbit.Prelude.{
  ℕ, ◌≡◌, ◌≢◌, ◌↔◌, ◌⊎◌, refl, sym, ap, inl, inr, String, IsIn, true, not, ◌&&◌, ◌||◌, List, [],
  ◌∷◌, arith, ◌==◌, eq_iff, Bool-cases,
}
use mathlib.Core.Path.{subst}
use linkbit.Models.{Device, NetworkPeer}
use linkbit.Store.Policies.{Policy}
use linkbit.Controller.Peers.{
  policy_allows, allowed_targets, allowed_key, peer_of, is_target, collect_peers, allowed_peers,
}

-- A selector names a device by its id, by its group, or as one of all.
abbrev Selects : String → Device ℕ → Type 0
Selects selector device = (selector ≡ "*") ⊎ (selector ≡ device.id) ⊎ (selector ≡ device.group_id)

-- An enabled policy of the list lets the one device reach the other, which is another device.
pub record Grants (device : Device ℕ) (policies : List Policy) (other : Device ℕ) : Type 0 where
  pub policy : Policy
  pub listed : IsIn policy policies
  pub enabled : policy.enabled ≡ true
  pub source : Selects policy.source_id device
  pub target : Selects policy.target_id other
  pub distinct : other.id ≢ device.id

allows_iff : (s : String) (d : Device ℕ) → (policy_allows s d ≡ true) ↔ Selects s d
unfolding policy_allows
allows_iff s d = (
  (λ h. ground (arith, eq_iff s "*", eq_iff s d.id, eq_iff s d.group_id)),
  (λ h. ground (arith, eq_iff s "*", eq_iff s d.id, eq_iff s d.group_id)),
)

record Edge (device : Device ℕ) (policies : List Policy) (key : String) : Type 0 where
  policy : Policy
  listed : IsIn policy policies
  enabled : policy.enabled ≡ true
  source : Selects policy.source_id device
  target : policy.target_id ≡ key

later_Edge :
    {device : Device ℕ} {policies : List Policy} {key : String} (p : Policy)
    → Edge device policies key
    → Edge device (p ∷ policies) key
later_Edge p e = record {
  policy = e.policy;
  listed = inr e.listed;
  enabled = e.enabled;
  source = e.source;
  target = e.target;
}

allowed_sound :
    (device : Device ℕ) (policies : List Policy) (key : String)
    → allowed_key (allowed_targets device policies) key ≡ true
    → Edge device policies key
unfolding allowed_targets
allowed_sound device [] key h = cc
allowed_sound device (p ∷ policies) key h =
    elim (Bool-cases (p.enabled && policy_allows p.source_id device)) [
      | inr no_edge ↦
          later_Edge p (allowed_sound device policies key (rw (no_edge, allowed_targets) at h))
      | inl edge ↦
          let h' : ((p.target_id == key) || allowed_key (allowed_targets device policies) key)
              ≡ true =
            rw (edge, allowed_targets) at h in
          elim (Bool-cases (p.target_id == key)) [
            | inl e ↦ record {
              policy = p;
              listed = inl refl;
              enabled = ground arith;
              source = (allows_iff p.source_id device).0 (ground arith);
              target = (eq_iff p.target_id key).0 e;
            }
            | inr e ↦ later_Edge p (allowed_sound device policies key (ground arith))
          ]
    ]

allowed_complete :
    (device : Device ℕ) (policies : List Policy) (key : String)
    → (policy : Policy) → IsIn policy policies
    → policy.enabled ≡ true
    → Selects policy.source_id device
    → policy.target_id ≡ key
    → allowed_key (allowed_targets device policies) key ≡ true
unfolding allowed_targets
allowed_complete device [] key q i en s t = absurd i
allowed_complete device (p ∷ policies) key q (inl e) en s t =
    let allows : policy_allows q.source_id device ≡ true = (allows_iff q.source_id device).1 s in
    ground (
      arith,
      eq_iff q.target_id key,
      ap (λ (x : Policy). x.enabled) e,
      ap (λ (x : Policy). x.source_id) e,
      ap (λ (x : Policy). x.target_id) e,
    )
allowed_complete device (p ∷ policies) key q (inr i) en s t =
    ground (arith, allowed_complete device policies key q i en s t)

is_target_sound :
    (device : Device ℕ) (policies : List Policy) (c : Device ℕ)
    → is_target (allowed_targets device policies) c ≡ true
    → c.id ≢ device.id
    → Grants device policies c
is_target_sound device policies c h other =
    elim (Bool-cases (allowed_key (allowed_targets device policies) c.id)) [
      | inl e ↦
          let edge = allowed_sound device policies c.id e in
          grant edge.policy edge.listed edge.enabled edge.source (inr (inl edge.target))
      | inr e ↦ elim (Bool-cases (allowed_key (allowed_targets device policies) c.group_id)) [
        | inl e' ↦
            let edge = allowed_sound device policies c.group_id e' in
            grant edge.policy edge.listed edge.enabled edge.source (inr (inr edge.target))
        | inr e' ↦
            let edge = allowed_sound device policies "*" (ground arith) in
            grant edge.policy edge.listed edge.enabled edge.source (inl edge.target)
      ]
    ]
  where
    grant :
        (policy : Policy)
        → IsIn policy policies
        → policy.enabled ≡ true
        → Selects policy.source_id device
        → Selects policy.target_id c
        → Grants device policies c
    grant policy listed enabled source target = record {
      policy = policy;
      listed = listed;
      enabled = enabled;
      source = source;
      target = target;
      distinct = other;
    }

is_target_complete :
    (device : Device ℕ) (policies : List Policy) (c : Device ℕ)
    → Grants device policies c
    → is_target (allowed_targets device policies) c ≡ true
is_target_complete device policies c g = by_key g.target
  where
    by_key : Selects g.policy.target_id c → is_target (allowed_targets device policies) c ≡ true
    by_key (inl t) =
        ground (arith, allowed_complete device policies "*" g.policy g.listed g.enabled g.source t)
    by_key (inr (inl t)) =
        ground (arith, allowed_complete device policies c.id g.policy g.listed g.enabled g.source t)
    by_key (inr (inr t)) =
        ground (
          arith,
          allowed_complete device policies c.group_id g.policy g.listed g.enabled g.source t,
        )

-- A listed device that is granted.
pub record Reached (device : Device ℕ) (devices : List (Device ℕ)) (policies : List Policy)
    (p : NetworkPeer) : Type 0 where
  pub other : Device ℕ
  pub registered : IsIn other devices
  pub grant : Grants device policies other
  pub peer : p ≡ peer_of other

collect_sound :
    (device : Device ℕ) (devices : List (Device ℕ)) (policies : List Policy) (p : NetworkPeer)
    → IsIn p (collect_peers device (allowed_targets device policies) devices)
    → Reached device devices policies p
unfolding collect_peers
collect_sound device [] policies p h = absurd h
collect_sound device (c ∷ devices) policies p h =
    elim (Bool-cases (not (c.id == device.id) && is_target (allowed_targets device policies) c)) [
      | inr t ↦ later (collect_sound device devices policies p (rw (t, collect_peers) at h))
      | inl t ↦
          let h' : IsIn p
              (peer_of c ∷ collect_peers device (allowed_targets device policies) devices) =
            rw (t, collect_peers) at h in
          elim h' [
            | inl e ↦ record {
              other = c;
              registered = inl refl;
              grant =
                  is_target_sound device policies c (ground arith)
                    (λ q. ground (arith, eq_iff c.id device.id));
              peer = e;
            }
            | inr r ↦ later (collect_sound device devices policies p r)
          ]
    ]
  where
    later : Reached device devices policies p → Reached device (c ∷ devices) policies p
    later r = record {
      other = r.other;
      registered = inr r.registered;
      grant = r.grant;
      peer = r.peer;
    }

collect_complete :
    (device : Device ℕ) (devices : List (Device ℕ)) (policies : List Policy) (c : Device ℕ)
    → IsIn c devices
    → Grants device policies c
    → IsIn (peer_of c) (collect_peers device (allowed_targets device policies) devices)
unfolding collect_peers
collect_complete device [] policies c i g = absurd i
collect_complete device (d ∷ devices) policies c (inl e) g =
    let t : (not (d.id == device.id) && is_target (allowed_targets device policies) d) ≡ true =
      subst (λ x. (not (x.id == device.id) && is_target (allowed_targets device policies) x) ≡ true)
        e
        (let reached = is_target_complete device policies c g in
          ground (arith, eq_iff c.id device.id, g.distinct)) in
    rw (t, collect_peers) (inl (ap peer_of e))
collect_complete device (d ∷ devices) policies c (inr i) g =
    let rest = collect_complete device devices policies c i g in
    elim (Bool-cases (not (d.id == device.id) && is_target (allowed_targets device policies) d)) [
      | inl t ↦ rw (t, collect_peers) (inr rest)
      | inr t ↦ rw (t, collect_peers) rest
    ]

-- The peers of a device are exactly the other registered devices for which some enabled policy of
-- the list selects the device as its source (by id, by group or by `*`) and the other as its target;
-- each is sent with no allowed addresses of its own.
pub allowed_peers_exact :
    (device : Device ℕ) (devices : List (Device ℕ)) (policies : List Policy) (p : NetworkPeer)
    → IsIn p (allowed_peers device devices policies) ↔ Reached device devices policies p
unfolding allowed_peers
allowed_peers_exact device devices policies p = (
  collect_sound device devices policies p,
  λ r.
      subst (λ x. IsIn x (collect_peers device (allowed_targets device policies) devices))
        (sym r.peer) (collect_complete device devices policies r.other r.registered r.grant),
)
