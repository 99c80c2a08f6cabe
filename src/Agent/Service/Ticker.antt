-- ===== src/Agent/Service/Ticker.antt =====
-- internal/agent/agent.go with internal/config/config.go: the period of the ticker.
use linkbit.Prelude.{
  ℕ, pos, ◌≡◌, ◌≢◌, refl, ap, ◌∙◌, String, Option, false, none, some, List, [], ◌<◌, ◌≤◌, ◌*◌,
}
use linkbit.Models.{DeviceRegistrationResponse}
use linkbit.Net.{atoi}
use linkbit.Config.{Getenv, seconds, is_positive, load_agent}
use linkbit.Config.Laws.{max_seconds, getenv_duration-wraps}
use linkbit.Agent.Outcome.{value}
use linkbit.Agent.Service.{
  Calls, Service, Logged, Event, panicked, enrol, bring_up, start_relay, serve, settle, run,
}

health-wraps :
    (env : Getenv) (join : String → String → String → String) (name dir : Option String) (n : ℕ)
    → env "LINKBIT_HEALTH_SECONDS" ≢ ""
    → atoi (env "LINKBIT_HEALTH_SECONDS") ≡ some (pos n)
    → max_seconds < n
    → n ≤ 2 * max_seconds
    → is_positive (load_agent env join name dir).health_every ≡ false
unfolding load_agent
health-wraps env join name dir n e a l h =
    getenv_duration-wraps env "LINKBIT_HEALTH_SECONDS" (seconds 30) n e a l h

module _ {W : Type 0} (calls : Calls W) (s : Service) where
  serve-panics :
      (r : DeviceRegistrationResponse) (events : List Event) (at : Logged W)
      → s.cfg.run_once ≡ false
      → is_positive s.cfg.health_every ≡ false
      → serve calls s r events at ≡ (panicked, start_relay calls s at)
  unfolding serve
  serve-panics r events at o p = rw (serve, o, p) refl

  -- A number of seconds above 9223372036 and up to twice that for LINKBIT_HEALTH_SECONDS makes the
  -- agent panic as soon as its tunnel is up.
  pub run-panics :
      (env : Getenv) (join : String → String → String → String) (name dir : Option String) (n : ℕ)
      (events : List Event) (w : W) (r : DeviceRegistrationResponse)
      → s.cfg ≡ load_agent env join name dir
      → env "LINKBIT_HEALTH_SECONDS" ≢ ""
      → atoi (env "LINKBIT_HEALTH_SECONDS") ≡ some (pos n)
      → max_seconds < n
      → n ≤ 2 * max_seconds
      → s.cfg.run_once ≡ false
      → (enrol calls s (w, [])).0 ≡ value r
      → (bring_up calls s r (enrol calls s (w, [])).1).0 ≡ none
      → (run calls s events w).0 ≡ panicked
  unfolding run
  run-panics env join name dir n events w r c e a l h o x y =
      let before = (bring_up calls s r (enrol calls s (w, [])).1).1 in
      let wraps : is_positive s.cfg.health_every ≡ false =
        ap (λ z. is_positive z.health_every) c ∙ health-wraps env join name dir n e a l h in
      rw (run, x, y) (ap (λ z. (settle calls s z).0) (serve-panics r events before o wraps))
