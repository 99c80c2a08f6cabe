-- ===== src/Relay/Loop.antt =====
-- internal/relay/relay.go: how often a relay sends a heartbeat, and when its run ends.
use linkbit.Prelude.{
  ℕ, suc, ◌≡◌, refl, ap, true, none, some, List, [], ◌∷◌, length, arith, if◌then◌else◌,
}
use linkbit.Config.{is_positive}
use linkbit.Agent.Http.{Wire}
use linkbit.Relay.{
  Node, cancelled, derp_error, Event, tick, derp_ended, done, End, ended, waiting, heartbeat,
  register, loop, run,
}

module _ {World Body : Type 0} (n : Node) where
  -- The ticks before the end of the context or of the DERP service.
  abbrev pub beats_before : List (Event World Body) → ℕ
  beats_before [] = 0
  beats_before (done ∷ events) = 0
  beats_before (derp_ended failed ∷ events) =
      let rest = beats_before events in if n.derp then 0 else rest
  beats_before (tick wire ∷ events) = suc (beats_before events)

  -- The first of those ends.
  abbrev pub end_of : List (Event World Body) → End
  end_of [] = waiting
  end_of (done ∷ events) = ended (some cancelled)
  end_of (derp_ended failed ∷ events) =
      let rest = end_of events in
      if n.derp then ended (if failed then some derp_error else none) else rest
  end_of (tick wire ∷ events) = end_of events

  loop-beats :
      (events : List (Event World Body)) (w : World)
      → (length (loop n events w).1 ≡ beats_before events) × ((loop n events w).0 ≡ end_of events)
  unfolding loop
  loop-beats [] w = (refl, refl)
  loop-beats (done ∷ events) w = (refl, refl)
  loop-beats (derp_ended failed ∷ events) w = ground (arith, loop-beats events w)
  loop-beats (tick wire ∷ events) w =
      let (l, e) = loop-beats events (heartbeat wire n w).1 in (ap suc l, e)

  -- A relay that is registered sends one heartbeat at each tick until its context or its DERP service
  -- ends, and ends with that, whatever the heartbeats are answered.
  pub run-beats :
      (wire : Wire World Body) (events : List (Event World Body)) (w : World)
      → (register wire n w).0 ≡ none
      → is_positive n.cfg.heartbeat ≡ true
      → (length (run n wire events w).1 ≡ beats_before events)
        × ((run n wire events w).0 ≡ end_of events)
  unfolding run
  run-beats wire events w r p = rw (run, r, p) (loop-beats events (register wire n w).1)
