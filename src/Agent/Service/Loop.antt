-- ===== src/Agent/Service/Loop.antt =====
-- internal/agent/agent.go: when a run ends, and how often it reports.
use linkbit.Prelude.{
  ℕ, suc, ◌+◌, ◌≡◌, ◌≢◌, refl, sym, ap, ◌∙◌, ◌⊎◌, Bool, true, false, Option, none, some, List, [],
  ◌∷◌, arith, if◌then◌else◌,
}
use linkbit.Models.{DeviceRegistrationResponse}
use linkbit.Config.{is_positive}
use linkbit.Agent.Outcome.{value}
use linkbit.Agent.Service.{
  Calls, Service, Call, reported, Logged, Event, tick, done, End, ended, panicked, waiting,
  RunError, cancelled, enrol, bring_up, tear_down, network_of, apply_network, report, loop,
  start_relay, serve, settle, run,
}
use linkbit.Agent.Service.Tunnel.{enrol-count}
use linkbit.Agent.Service.Cases.{count, not_enrolled, not_up, up, run-Ran}

abbrev pub is_reported : Call → Bool
is_reported reported = true
is_reported _ = false

-- The ticks before the context ends.
abbrev pub ticks_before : List Event → ℕ
ticks_before [] = 0
ticks_before (done ∷ events) = 0
ticks_before (tick ∷ events) = suc (ticks_before events)

abbrev pub has_done : List Event → Bool
has_done [] = false
has_done (done ∷ events) = true
has_done (tick ∷ events) = has_done events

abbrev pub loop_end : List Event → End
loop_end events = if has_done events then ended (some cancelled) else waiting

ended-waiting : {e : Option RunError} → ¬ (ended e ≡ waiting)
ended-waiting h = cc

module _ {W : Type 0} (calls : Calls W) (s : Service) where
  loop-end :
      (r : DeviceRegistrationResponse) (events : List Event) (at : Logged W)
      → (loop calls s r events at).0 ≡ loop_end events
  unfolding loop
  loop-end r [] at = refl
  loop-end r (done ∷ events) at = refl
  loop-end r (tick ∷ events) at = loop-end r events (report calls s r at).1

  loop-reports :
      (r : DeviceRegistrationResponse) (events : List Event) (at : Logged W)
      → s.health ≡ true
      → count is_reported (loop calls s r events at).1.1
        ≡ ticks_before events + count is_reported at.1
  unfolding loop report
  loop-reports r [] at h = omega arith
  loop-reports r (done ∷ events) at h = omega arith
  loop-reports r (tick ∷ events) (w, log) h =
      ground (arith, loop-reports r events (report calls s r (w, log)).1 h)

  serve-ends :
      (r : DeviceRegistrationResponse) (events : List Event) (at : Logged W)
      → (has_done events ≡ true) ⊎ (s.cfg.run_once ≡ true)
      → (serve calls s r events at).0 ≢ waiting
  unfolding serve
  serve-ends r events at h = ground (arith, loop-end r events (start_relay calls s at))

  settle-ends : (r : End × Logged W) → r.0 ≢ waiting → (settle calls s r).0 ≢ waiting
  settle-ends (waiting, at) h = absurd (h refl)
  settle-ends (ended e, at) h = λ x. cc
  settle-ends (panicked, at) h = λ x. cc

  -- A run ends, with an error, with nil or in a panic, once its context ends, and where it is to run
  -- once without that; whatever the calls answer.
  pub run-terminates :
      (events : List Event) (w : W)
      → (has_done events ≡ true) ⊎ (s.cfg.run_once ≡ true)
      → (run calls s events w).0 ≢ waiting
  run-terminates events w h = elim (run-Ran calls s events w) [
    | not_enrolled e x r ↦ λ y. ended-waiting (sym (ap (λ z. z.0) r) ∙ y)
    | not_up d e x y r ↦ λ z. ended-waiting (sym (ap (λ z. z.0) r) ∙ z)
    | up d x y r ↦ λ z.
        settle-ends (serve calls s d events (bring_up calls s d (enrol calls s (w, [])).1).1)
          (serve-ends d events (bring_up calls s d (enrol calls s (w, [])).1).1 h)
          (sym (ap (λ z. z.0) r) ∙ z)
  ]

  serve-reports :
      (r : DeviceRegistrationResponse) (events : List Event) (at : Logged W)
      → s.cfg.run_once ≡ false
      → is_positive s.cfg.health_every ≡ true
      → s.health ≡ true
      → (count is_reported (serve calls s r events at).1.1
          ≡ ticks_before events + count is_reported at.1)
        × ((serve calls s r events at).0 ≡ loop_end events)
  unfolding serve start_relay
  serve-reports r events (w, log) o p h =
      let begun = start_relay calls s (w, log) in
      ground (arith, loop-end r events begun, loop-reports r events begun h)

  settle-reports :
      (r : End × Logged W)
      → (count is_reported (settle calls s r).1.1 ≡ count is_reported r.1.1)
        × ((settle calls s r).0 ≡ r.0)
  unfolding tear_down
  settle-reports (waiting, (w, log)) = ground arith
  settle-reports (ended e, (w, log)) = ground arith
  settle-reports (panicked, (w, log)) = ground arith

  bring_up-reports :
      (r : DeviceRegistrationResponse) (at : Logged W)
      → count is_reported (bring_up calls s r at).1.1 ≡ count is_reported at.1
  unfolding bring_up network_of apply_network
  bring_up-reports r (w, log) = ground arith

  -- Once the tunnel is up, a run that is not to run once, has a reporter and an interval that is
  -- positive, reports at every tick before its context ends, and goes on until then, whatever the
  -- reports are answered.
  pub run-reports :
      (events : List Event) (w : W) (r : DeviceRegistrationResponse)
      → (enrol calls s (w, [])).0 ≡ value r
      → (bring_up calls s r (enrol calls s (w, [])).1).0 ≡ none
      → s.cfg.run_once ≡ false
      → is_positive s.cfg.health_every ≡ true
      → s.health ≡ true
      → let (e, (w', log)) = run calls s events w in
        (count is_reported log ≡ ticks_before events) × (e ≡ loop_end events)
  unfolding run
  run-reports events w r x y o p h =
      let before = (bring_up calls s r (enrol calls s (w, [])).1).1 in
      rw (run, x, y)
        (ground (
          arith,
          enrol-count calls s is_reported refl refl refl (w, []),
          bring_up-reports r (enrol calls s (w, [])).1,
          serve-reports r events before o p h,
          settle-reports (serve calls s r events before),
        ))
