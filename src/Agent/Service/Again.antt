-- ===== src/Agent/Service/Again.antt =====
-- internal/agent/agent.go: a device that was registered is not registered again.
use mathlib.Core.Path.{subst}
use linkbit.Prelude.{
  ◌≡◌, refl, sym, ap, ◌∙◌, inl, inr, Bool, true, false, List, [], ◌∷◌, ◌==◌, Option-cases,
  Bool-cases, arith,
}
use linkbit.Models.{DeviceRegistrationResponse}
use linkbit.Agent.Outcome.{value, failure, Outcome-cases, value-failure}
use linkbit.Agent.Service.{
  Calls, Service, Call, registered, loaded, Logged, Event, load_device, save_device,
  register_device, enrol, network_of, apply_network, bring_up, tear_down, report, loop, start_relay,
  serve, settle, run, End, ended, panicked, waiting, tick, done,
}
use linkbit.Agent.State.{StateError, zero_response}
use linkbit.Agent.Service.Cases.{count, not_enrolled, not_up, up, run-Ran}
use linkbit.Agent.Service.Restart.{
  StoreLaws, IsEnrolled, give-load, bring_up-load, serve-load, settle-load,
}

abbrev pub is_registered : Call → Bool
is_registered registered = true
is_registered _ = false

module _ {W : Type 0} (calls : Calls W) (s : Service) where
  bring_up-registered :
      (r : DeviceRegistrationResponse) (at : Logged W)
      → count is_registered (bring_up calls s r at).1.1 ≡ count is_registered at.1
  unfolding bring_up network_of apply_network
  bring_up-registered r (w, log) = ground arith

  loop-registered :
      (r : DeviceRegistrationResponse) (events : List Event) (at : Logged W)
      → count is_registered (loop calls s r events at).1.1 ≡ count is_registered at.1
  unfolding loop report
  loop-registered r [] at = refl
  loop-registered r (done ∷ events) at = refl
  loop-registered r (tick ∷ events) (w, log) =
      ground (arith, loop-registered r events (report calls s r (w, log)).1)

  serve-registered :
      (r : DeviceRegistrationResponse) (events : List Event) (at : Logged W)
      → count is_registered (serve calls s r events at).1.1 ≡ count is_registered at.1
  unfolding serve report start_relay
  serve-registered r events (w, log) =
      ground (arith, loop-registered r events (start_relay calls s (w, log)))

  settle-registered :
      (r : End × Logged W) → count is_registered (settle calls s r).1.1 ≡ count is_registered r.1.1
  unfolding tear_down
  settle-registered (waiting, (w, log)) = refl
  settle-registered (ended e, (w, log)) = ground arith
  settle-registered (panicked, (w, log)) = ground arith

  -- After the registration, no call of a run is another.
  run-registered :
      (events : List Event) (w : W)
      → count is_registered (run calls s events w).1.1
        ≡ count is_registered (enrol calls s (w, [])).1.1
  run-registered events w =
      let at = (enrol calls s (w, [])).1 in
      elim (run-Ran calls s events w) [
        | not_enrolled e x r ↦ rw r refl
        | not_up d e x y r ↦ rw r (bring_up-registered d at)
        | up d x y r ↦ rw r (
            settle-registered (serve calls s d events (bring_up calls s d at).1)
            ∙ serve-registered d events (bring_up calls s d at).1
            ∙ bring_up-registered d at)
      ]

  -- After the registration, a run leaves the store as it is.
  run-load :
      StoreLaws calls
      → (events : List Event) (w : W)
      → calls.load (run calls s events w).1.0 ≡ calls.load (enrol calls s (w, [])).1.0
  run-load L events w =
      let at = (enrol calls s (w, [])).1 in
      elim (run-Ran calls s events w) [
        | not_enrolled e x r ↦ rw r refl
        | not_up d e x y r ↦ rw r (bring_up-load calls s L d at)
        | up d x y r ↦ rw r (
            settle-load calls s L (serve calls s d events (bring_up calls s d at).1)
            ∙ serve-load calls s L d events (bring_up calls s d at).1
            ∙ bring_up-load calls s L d at)
      ]

  enrol-loaded :
      StoreLaws calls
      → (w : W) (r : DeviceRegistrationResponse) → s.state ≡ true
      → s.registration ≡ true
      → calls.load w ≡ value r
      → (count is_registered (enrol calls s (w, [])).1.1 ≡ 0)
        × ((enrol calls s (w, [])).0 ≡ value r)
        × (calls.load (enrol calls s (w, [])).1.0 ≡ value r)
  unfolding enrol load_device register_device
  enrol-loaded L w r a b l = ground (arith, L.load-named w r l, give-load calls s L r w)

  -- A run that finds a device in the store registers none, and leaves the device there.
  pub run-loaded :
      StoreLaws calls
      → (events : List Event) (w : W) (r : DeviceRegistrationResponse) → s.state ≡ true
      → s.registration ≡ true
      → calls.load w ≡ value r
      → (count is_registered (run calls s events w).1.1 ≡ 0)
        × (calls.load (run calls s events w).1.0 ≡ value r)
  run-loaded L events w r a b l =
      let (n, e, k) = enrol-loaded L w r a b l in
      (run-registered events w ∙ n, run-load L events w ∙ k)

  save-IsEnrolled :
      StoreLaws calls
      → (r r' : DeviceRegistrationResponse) (at : Logged W) → s.state ≡ true
      → (save_device calls s r at).0 ≡ value r'
      → IsEnrolled calls (save_device calls s r at).1.0
  unfolding save_device
  save-IsEnrolled L r r' (w, log) a h = elim (Option-cases (calls.save r w).0) [
    | inr (e, x) ↦ absurd (value-failure (sym (rw (save_device, a, x) at h)))
    | inl x ↦ rw (save_device, a, x) (L.save-load r w x)
  ]

  register-IsEnrolled :
      StoreLaws calls
      → (device r : DeviceRegistrationResponse) (at : Logged W) → s.state ≡ true
      → device.device.id == "" ≡ true
      → (register_device calls s device at).0 ≡ value r
      → IsEnrolled calls (register_device calls s device at).1.0
  unfolding register_device
  register-IsEnrolled L device r (w, log) a n h = elim (Bool-cases (s.cfg.enrollment_key == "")) [
    | inl k ↦ absurd (value-failure (sym (rw (register_device, n, k) at h)))
    | inr k ↦ elim (Outcome-cases (calls.register s.cfg.enrollment_key s.cfg.device_name w).0) [
      | inr (e, x) ↦ absurd (value-failure (sym (rw (register_device, n, k, x) at h)))
      | inl (got, x) ↦
          rw (register_device, n, k, x)
            (save-IsEnrolled L got r
              ((calls.register s.cfg.enrollment_key s.cfg.device_name w).1, registered ∷ log) a
              (rw (register_device, n, k, x) at h))
    ]
  ]

  load_device-failed :
      (w : W) (e : StateError)
      → s.state ≡ true
      → calls.load w ≡ failure e
      → load_device calls s (w, []) ≡ (zero_response, (w, loaded ∷ []))
  unfolding load_device
  load_device-failed w e a x = ground arith

  enrol-registers :
      (at : Logged W)
      → s.registration ≡ true
      → enrol calls s at
        ≡ register_device calls s (load_device calls s at).0 (load_device calls s at).1
  unfolding enrol
  enrol-registers at b = rw b refl

  pub enrol-fresh :
      (w : W) (e : StateError)
      → s.state ≡ true
      → s.registration ≡ true
      → calls.load w ≡ failure e
      → enrol calls s (w, []) ≡ register_device calls s zero_response (w, loaded ∷ [])
  enrol-fresh w e a b x =
      enrol-registers (w, []) b
      ∙ ap (λ z. register_device calls s z.0 z.1) (load_device-failed w e a x)

  enrol-IsEnrolled :
      StoreLaws calls
      → (w : W) (r : DeviceRegistrationResponse) → s.state ≡ true
      → s.registration ≡ true
      → (enrol calls s (w, [])).0 ≡ value r
      → IsEnrolled calls (enrol calls s (w, [])).1.0
  enrol-IsEnrolled L w r a b h = elim (Outcome-cases (calls.load w)) [
    | inl (found, x) ↦ (found, (enrol-loaded L w found a b x).2)
    | inr (e, x) ↦
        let fresh = enrol-fresh w e a b x in
        subst (λ z. IsEnrolled calls z.1.0) (sym fresh)
          (register-IsEnrolled L zero_response r (w, loaded ∷ []) a refl
            (sym (ap (λ z. z.0) fresh) ∙ h))
  ]

  -- A restart registers nothing: after a run that got past its registration, the next run of the
  -- service registers no device again, whatever came of the first and whatever happens in either.
  pub run-again :
      StoreLaws calls
      → (events events' : List Event) (w : W) (r : DeviceRegistrationResponse) → s.state ≡ true
      → s.registration ≡ true
      → (enrol calls s (w, [])).0 ≡ value r
      → count is_registered (run calls s events' (run calls s events w).1.0).1.1 ≡ 0
  run-again L events events' w r a b h =
      let (kept, e) = enrol-IsEnrolled L w r a b h in
      (run-loaded L events' (run calls s events w).1.0 kept a b (run-load L events w ∙ e)).0
