-- ===== src/Agent/Service/Restart.antt =====
-- internal/agent/agent.go: which calls change what the state store has. The store is known by its laws
-- only.
use linkbit.Prelude.{
  ◌≡◌, refl, ◌∙◌, inl, inr, String, false, none, some, List, [], ◌∷◌, ◌==◌, Option-cases,
  Bool-cases, arith,
}
use linkbit.Models.{DeviceRegistrationResponse, NetworkConfig}
use linkbit.Agent.Outcome.{Outcome, value, Outcome-cases}
use linkbit.Agent.Http.{ClientError}
use linkbit.Agent.Service.{
  Calls, Service, Logged, Event, tick, done, End, ended, panicked, waiting, network_of,
  apply_network, bring_up, tear_down, report, loop, start_relay, serve, settle, give_credentials,
}

-- What the calls do to the store: what was saved is loaded, and no other call changes what is loaded.
pub record StoreLaws {W : Type 0} (calls : Calls W) : Type 0 where
  pub save-load :
      (r : DeviceRegistrationResponse) (w : W)
      → (calls.save r w).0 ≡ none
      → (r' : DeviceRegistrationResponse) × (calls.load (calls.save r w).1 ≡ value r')
  pub load-named :
      (w : W) (r : DeviceRegistrationResponse) → calls.load w ≡ value r → r.device.id == "" ≡ false
  pub credentials-load :
      (set : String → String → W → W) (id token : String) (w : W)
      → calls.credentials ≡ some set
      → calls.load (set id token w) ≡ calls.load w
  pub register-load :
      (key name : String) (w : W) → calls.load (calls.register key name w).1 ≡ calls.load w
  pub configuration-load :
      (get : W → Outcome ClientError NetworkConfig × W) (w : W)
      → calls.configuration ≡ some get
      → calls.load (get w).1 ≡ calls.load w
  pub apply-load : (n : NetworkConfig) (w : W) → calls.load (calls.apply n w).1 ≡ calls.load w
  pub destroy-load : (w : W) → calls.load (calls.destroy w).1 ≡ calls.load w
  pub report-load :
      (r : DeviceRegistrationResponse) (w : W)
      → calls.load (calls.check_and_report r w).1 ≡ calls.load w

-- The store has a device.
abbrev pub IsEnrolled : {W : Type 0} → Calls W → W → Type 0
IsEnrolled calls w = (r : DeviceRegistrationResponse) × (calls.load w ≡ value r)

module _ {W : Type 0} (calls : Calls W) (s : Service) (L : StoreLaws calls) where
  pub give-load :
      (r : DeviceRegistrationResponse) (w : W)
      → calls.load (give_credentials calls s r w) ≡ calls.load w
  give-load r w = elim (Option-cases calls.credentials) [
    | inl e ↦ rw e refl
    | inr (set, e) ↦ rw e (L.credentials-load set r.device.id r.device.device_token w e)
  ]

  network-load :
      (r : DeviceRegistrationResponse) (at : Logged W)
      → calls.load (network_of calls s r at).1.0 ≡ calls.load at.0
  unfolding network_of
  network-load r (w, log) = elim (Option-cases calls.configuration) [
    | inl e ↦ ground (arith, e)
    | inr (get, e) ↦ ground (arith, e, L.configuration-load get w e)
  ]

  apply-load :
      (n : NetworkConfig) (at : Logged W)
      → calls.load (apply_network calls s n at).1.0 ≡ calls.load at.0
  unfolding apply_network
  apply-load n (w, log) = ground (arith, L.apply-load n w)

  pub bring_up-load :
      (r : DeviceRegistrationResponse) (at : Logged W)
      → calls.load (bring_up calls s r at).1.0 ≡ calls.load at.0
  unfolding bring_up
  bring_up-load r at = elim (Bool-cases s.tunnel) [
    | inr t ↦ rw (bring_up, t) refl
    | inl t ↦ elim (Outcome-cases (network_of calls s r at).0) [
      | inr (e, x) ↦ rw (bring_up, t, x) (network-load r at)
      | inl (n, x) ↦
          rw (bring_up, t, x) (apply-load n (network_of calls s r at).1 ∙ network-load r at)
    ]
  ]

  report-load :
      (r : DeviceRegistrationResponse) (at : Logged W)
      → calls.load (report calls s r at).1.0 ≡ calls.load at.0
  unfolding report
  report-load r (w, log) = ground (arith, L.report-load r w)

  loop-load :
      (r : DeviceRegistrationResponse) (events : List Event) (at : Logged W)
      → calls.load (loop calls s r events at).1.0 ≡ calls.load at.0
  unfolding loop
  loop-load r [] at = refl
  loop-load r (done ∷ events) at = refl
  loop-load r (tick ∷ events) at = loop-load r events (report calls s r at).1 ∙ report-load r at

  start-load : (at : Logged W) → calls.load (start_relay calls s at).0 ≡ calls.load at.0
  unfolding start_relay
  start-load (w, log) = ground arith

  pub serve-load :
      (r : DeviceRegistrationResponse) (events : List Event) (at : Logged W)
      → calls.load (serve calls s r events at).1.0 ≡ calls.load at.0
  unfolding serve
  serve-load r events at = ground (
    arith,
    start-load at,
    report-load r (start_relay calls s at),
    loop-load r events (start_relay calls s at),
  )

  pub settle-load : (r : End × Logged W) → calls.load (settle calls s r).1.0 ≡ calls.load r.1.0
  unfolding tear_down
  settle-load (waiting, (w, log)) = refl
  settle-load (ended e, (w, log)) = ground (arith, L.destroy-load w)
  settle-load (panicked, (w, log)) = ground (arith, L.destroy-load w)
