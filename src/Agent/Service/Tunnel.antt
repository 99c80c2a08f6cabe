-- ===== src/Agent/Service/Tunnel.antt =====
-- internal/agent/agent.go: the tunnel is taken down at every end of a run that has set it up.
use linkbit.Prelude.{
  suc, ◌≤◌, ◌≡◌, refl, Bool, true, false, List, [], ◌∷◌, arith, ◌&&◌, not, is_some, if◌then◌else◌,
}
use linkbit.Models.{DeviceRegistrationResponse}
use linkbit.Agent.Service.{
  Calls, Service, Call, loaded, registered, saved, applied, destroyed, relay_started, reported,
  Logged, Event, tick, done, End, ended, panicked, waiting, load_device, save_device,
  register_device, enrol, network_of, apply_network, bring_up, tear_down, report, loop, start_relay,
  serve, settle, run,
}
use linkbit.Agent.Service.Cases.{count, not_enrolled, not_up, up, run-Ran}

abbrev pub is_applied : Call → Bool
is_applied applied = true
is_applied _ = false

abbrev pub is_destroyed : Call → Bool
is_destroyed destroyed = true
is_destroyed _ = false

abbrev pub is_waiting : End → Bool
is_waiting waiting = true
is_waiting _ = false

module _ {W : Type 0} (calls : Calls W) (s : Service) where
  pub enrol-count :
      (p : Call → Bool)
      → p loaded ≡ false
      → p registered ≡ false
      → p saved ≡ false
      → (at : Logged W) → count p (enrol calls s at).1.1 ≡ count p at.1
  unfolding enrol load_device register_device save_device
  enrol-count p a b c (w, log) = ground arith

  bring_up-count :
      (r : DeviceRegistrationResponse) (at : Logged W)
      → (count is_destroyed (bring_up calls s r at).1.1 ≡ count is_destroyed at.1)
        × (count is_applied (bring_up calls s r at).1.1 ≡ (
            if s.tunnel && not (is_some (bring_up calls s r at).0)
            then suc (count is_applied at.1)
            else count is_applied at.1))
  unfolding bring_up network_of apply_network
  bring_up-count r (w, log) = ground arith

  loop-count :
      (p : Call → Bool)
      → p reported ≡ false
      → (r : DeviceRegistrationResponse) (events : List Event) (at : Logged W)
      → count p (loop calls s r events at).1.1 ≡ count p at.1
  unfolding loop report
  loop-count p a r [] at = refl
  loop-count p a r (done ∷ events) at = refl
  loop-count p a r (tick ∷ events) (w, log) =
      ground (arith, loop-count p a r events (report calls s r (w, log)).1)

  serve-count :
      (p : Call → Bool)
      → p reported ≡ false
      → p relay_started ≡ false
      → (r : DeviceRegistrationResponse) (events : List Event) (at : Logged W)
      → count p (serve calls s r events at).1.1 ≡ count p at.1
  unfolding serve report start_relay
  serve-count p a b r events (w, log) =
      ground (arith, loop-count p a r events (start_relay calls s (w, log)))

  settle-count :
      (r : End × Logged W)
      → (count is_applied (settle calls s r).1.1 ≡ count is_applied r.1.1)
        × (count is_destroyed (settle calls s r).1.1 ≡ (
            if s.tunnel && not (is_waiting r.0)
            then suc (count is_destroyed r.1.1)
            else count is_destroyed r.1.1))
        × (is_waiting (settle calls s r).0 ≡ is_waiting r.0)
  unfolding tear_down
  settle-count (waiting, (w, log)) = ground arith
  settle-count (ended e, (w, log)) = ground arith
  settle-count (panicked, (w, log)) = ground arith

  -- A run sets the tunnel up at most once, and when it ends, with or without an error or in a panic,
  -- it has taken it down as often as it has set it up, and not while it goes on; whatever the calls
  -- answer.
  pub run-Balanced :
      (events : List Event) (w : W)
      → let (e, (w', log)) = run calls s events w in
        (count is_applied log ≤ 1)
        × (count is_destroyed log ≡ (if is_waiting e then 0 else count is_applied log))
  run-Balanced events w = elim (run-Ran calls s events w) [
    | not_enrolled e x r ↦ rw r (
        ground (
          arith,
          enrol-count is_applied refl refl refl (w, []),
          enrol-count is_destroyed refl refl refl (w, []),
        ))
    | not_up d e x y r ↦ rw r (
        ground (
          arith,
          enrol-count is_applied refl refl refl (w, []),
          enrol-count is_destroyed refl refl refl (w, []),
          bring_up-count d (enrol calls s (w, [])).1,
        ))
    | up d x y r ↦ rw r (
        ground (
          arith,
          enrol-count is_applied refl refl refl (w, []),
          enrol-count is_destroyed refl refl refl (w, []),
          bring_up-count d (enrol calls s (w, [])).1,
          serve-count is_applied refl refl d events
              (bring_up calls s d (enrol calls s (w, [])).1).1,
          serve-count is_destroyed refl refl d events
              (bring_up calls s d (enrol calls s (w, [])).1).1,
          settle-count (serve calls s d events (bring_up calls s d (enrol calls s (w, [])).1).1),
        ))
  ]
