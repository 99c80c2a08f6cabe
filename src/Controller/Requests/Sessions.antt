-- ===== src/Controller/Requests/Sessions.antt =====
-- The relay sessions that handleTCPRelaySessionCreate opens.
use linkbit.Prelude.{
  ℕ, ◌≡◌, ◌⊎◌, refl, sym, inl, inr, String, Bool, true, some, List, arith, IsIn, eq_iff,
}
use linkbit.Prelude.Text.{trim_space}
use linkbit.Models.{TcpRelaySessionRequest, TcpRelaySession, Device, NetworkPeer}
use linkbit.Net.{in_port_range}
use linkbit.Store.{Result}
use linkbit.Store.Devices.{list_devices}
use linkbit.Store.Policies.{Policy, list_policies}
use linkbit.Controller.Broker.{create, new_session}
use linkbit.Controller.Peers.{resolve_relay_target, Resolved, names_device}
use linkbit.Controller.Peers.Laws.{Reached}
use linkbit.Controller.Peers.Targets.{resolve-allowed}
use linkbit.Controller.Server.{
  Server, World, Env, replied, Authenticated, refused, authenticated,
  authenticate_device_credentials,
}
use linkbit.Controller.Requests.{session_create}

-- Who opened a session to whom, and what let it.
pub record Opened (equal_fold : String → String → Bool) (s : Server) (env : Env) (now : ℕ)
    (fresh token : String) (req : TcpRelaySessionRequest) (w : World) (session : TcpRelaySession)
    : Type 0 where
  pub source : Device ℕ
  pub source_token :
      authenticate_device_credentials s env.fault (trim_space req.source_device_id) token w.db
      ≡ authenticated source
  pub protocol : (req.protocol ≡ "") ⊎ (req.protocol ≡ "tcp")
  pub port : in_port_range req.target_port ≡ true
  pub devices : List (Device ℕ)
  pub registered : list_devices s.codec env.fault w.db ≡ Result.ok devices
  pub policies : List Policy
  pub in_force : list_policies s.codec env.fault w.db ≡ Result.ok policies
  pub target : Device ℕ
  pub listed : IsIn target devices
  pub named : names_device equal_fold (trim_space req.target) target ≡ true
  pub peer : NetworkPeer
  pub same : peer.id ≡ target.id
  pub granted : Reached source devices policies peer
  pub made : session ≡ new_session fresh now source target req.target_port

pub Authenticated-cases :
    (a : Authenticated)
    → ((status : ℕ) × (message : String) × (a ≡ refused status message))
      ⊎ ((device : Device ℕ) × (a ≡ authenticated device))
Authenticated-cases (refused status message) = inl (status, message, refl)
Authenticated-cases (authenticated device) = inr (device, refl)

pub Resolved-cases :
    (r : Resolved)
    → ((m : String) × (r ≡ Resolved.failed m))
      ⊎ ((d : Device ℕ) × (r ≡ Resolved.forbidden d))
      ⊎ ((d : Device ℕ) × (r ≡ Resolved.allowed d))
Resolved-cases (Resolved.failed m) = inl (m, refl)
Resolved-cases (Resolved.forbidden d) = inr (inl (d, refl))
Resolved-cases (Resolved.allowed d) = inr (inr (d, refl))

resolve-lists :
    (equal_fold : String → String → Bool) (source target : Device ℕ) (value : String)
    (devices : Result (List (Device ℕ))) (policies : Result (List Policy))
    → resolve_relay_target equal_fold source value devices policies ≡ Resolved.allowed target
    → ((ds : List (Device ℕ)) × (devices ≡ Result.ok ds))
      × ((ps : List Policy) × (policies ≡ Result.ok ps))
unfolding resolve_relay_target
resolve-lists equal_fold source target value (Result.ok ds) (Result.ok ps) h =
    ((ds, refl), (ps, refl))
resolve-lists equal_fold source target value (Result.ok ds) (Result.err e) h = absurd (ground arith)
resolve-lists equal_fold source target value (Result.err e) policies h = absurd (ground arith)

-- A session is opened, with 201, only by a device that shows its token, for TCP and a port from 1 to
-- 65535, and to a registered device that the request names and that a policy in force grants to the
-- source. The session is between these two.
pub session_create-Opened :
    (equal_fold : String → String → Bool) (s : Server) (env : Env) (now : ℕ) (fresh token : String)
    (req : TcpRelaySessionRequest) (w : World) (status : ℕ) (session : TcpRelaySession)
    → (session_create s env equal_fold now fresh token (some req) w).0 ≡ replied status session
    → Opened equal_fold s env now fresh token req w session
unfolding session_create
session_create-Opened equal_fold s env now fresh token req w status session h =
    let answer =
      authenticate_device_credentials s env.fault (trim_space req.source_device_id) token w.db in
    elim (Authenticated-cases answer) [
      | inl (code, m, a) ↦ absurd (ground (arith, a))
      | inr (source, a) ↦
          let listing = list_devices s.codec env.fault w.db in
          let rules = list_policies s.codec env.fault w.db in
          elim (Resolved-cases
            (resolve_relay_target equal_fold source (trim_space req.target) listing rules)) [
              | inl (m, r) ↦ absurd (ground (arith, a, r))
              | inr (inl (target, r)) ↦ absurd (ground (arith, a, r))
              | inr (inr (target, r)) ↦
                  let ((ds, d), (ps, p)) =
                    resolve-lists equal_fold source target (trim_space req.target) listing rules
                      r in
                  let found : resolve_relay_target equal_fold source (trim_space req.target)
                        (Result.ok ds) (Result.ok ps)
                      ≡ Resolved.allowed target =
                    rw (sym d, sym p) r in
                  let (i, n, q, e, g) =
                    resolve-allowed equal_fold source target (trim_space req.target) ds ps found in
                  record {
                    source = source;
                    source_token = a;
                    protocol =
                        ground (arith, a, r, eq_iff req.protocol "", eq_iff req.protocol "tcp");
                    port = ground (arith, a, r);
                    devices = ds;
                    registered = d;
                    policies = ps;
                    in_force = p;
                    target = target;
                    listed = i;
                    named = n;
                    peer = q;
                    same = e;
                    granted = g;
                    made = unfold create in ground (arith, a, r);
                  }
            ]
    ]
