-- ===== src/Controller/Status.antt =====
-- internal/controller/server.go: the requests that only show what there is (/healthz, the settings, the
-- metrics, the DERP map). What json.Marshal and fmt.Fprintf make of it is left out.
use linkbit.Prelude.{ℕ, String, Bool, not, List, [], ◌∷◌, ◌==◌}
use linkbit.Prelude.Assoc.{Assoc}
use linkbit.Store.{Result}
use linkbit.Store.Overview.{Overview, overview}
use linkbit.Store.Relays.{list_relays}
use linkbit.Controller.Server.{Server, World, Env, Response, replied, failed}
use linkbit.Controller.DerpMap.{DerpMap, build_derp_map}

pub record ControllerSettings : Type 0 where
  pub public_url : String
  pub listen_addr : String
  pub log_level : String
  pub web_console_enabled : Bool
  pub database_backend : String

abbrev pub health_get : World → Response (Assoc String) × World
health_get w = (replied 200 (("status", "ok") ∷ []), w)

abbrev pub settings_get : Server → World → Response ControllerSettings × World
settings_get s w = (
  replied 200 (record {
    public_url = s.public_url;
    listen_addr = s.listen_addr;
    log_level = s.log_level;
    web_console_enabled = not (s.web_dir == "");
    database_backend = "sqlite";
  }),
  w,
)

-- The lines that are printed, each with its number.
abbrev pub metrics_of : Overview → Assoc ℕ
metrics_of o =
    ("linkbit_devices_total", o.total_devices)
    ∷ ("linkbit_devices_online", o.online_devices)
    ∷ ("linkbit_relays_total", o.relay_nodes)
    ∷ ("linkbit_relays_healthy", o.healthy_relays)
    ∷ ("linkbit_policies_total", o.policy_count)
    ∷ []

module _ (s : Server) (env : Env) where
  unfoldable pub metrics_get : (List ℕ → ℕ) → World → Response (Assoc ℕ) × World
  metrics_get average w = elim (overview average env.fault w.db) [
    | Result.err e ↦ (failed 500 "metrics failed", w)
    | Result.ok o ↦ (replied 200 (metrics_of o), w)
  ]

  unfoldable pub derp_map_get : World → Response DerpMap × World
  derp_map_get w = elim (list_relays s.codec env.fault w.db) [
    | Result.err e ↦ (failed 500 "derp map failed", w)
    | Result.ok relays ↦ (replied 200 (build_derp_map s.derp relays), w)
  ]
