-- ===== src/Store/Overview.antt =====
-- internal/store/sqlite/store.go, Overview. AVG over the loads is SQLite's, and a parameter on the
-- bit patterns.
pub mod Laws
use linkbit.Prelude.{
  ℕ, ◌<◌, ◌≤◌, ◌≡◌, ◌≢◌, ◌↔◌, ◌⊎◌, String, Bool, true, List, [], ◌∷◌, map, length, arith, ltb, eqb,
  ◌&&◌, ◌==◌, eq_iff, if◌then◌else◌,
}
use linkbit.Prelude.Select.{count_rows}
use linkbit.Models.{Device, RelayNode, device_status_online, relay_status_healthy}
use linkbit.Store.{
  Db, Fault, count_devices, count_online, count_relays, count_healthy, count_policies, average_load,
  Result, ok, err, statement_failed,
}

pub record Overview : Type 0 where
  pub online_devices : ℕ
  pub total_devices : ℕ
  pub relay_nodes : ℕ
  pub healthy_relays : ℕ
  pub policy_count : ℕ
  pub network_health : String
  pub average_load : ℕ

unfoldable pub network_health : ℕ → ℕ → String
network_health relay_nodes healthy_relays =
    if ltb 0 relay_nodes && eqb healthy_relays relay_nodes
    then "healthy"
    else if ltb 0 healthy_relays
    then "degraded"
    else "unknown"

abbrev is_online : Device String → Bool
is_online r = r.status == device_status_online

abbrev pub is_healthy : RelayNode String → Bool
is_healthy r = r.status == relay_status_healthy

module _ (average : List ℕ → ℕ) (fault : Fault) where
  unfoldable pub overview : Db → Result Overview
  unfolding network_health
  overview db =
      if fault count_devices
      then err statement_failed
      else if fault count_online
      then err statement_failed
      else if fault count_relays
      then err statement_failed
      else if fault count_healthy
      then err statement_failed
      else if fault count_policies
      then err statement_failed
      else if fault average_load
      then err statement_failed
      else (let relays = length db.relays in
          let healthy = count_rows is_healthy db.relays in
          ok (record {
            online_devices = count_rows is_online db.devices;
            total_devices = length db.devices;
            relay_nodes = relays;
            healthy_relays = healthy;
            policy_count = length db.policies;
            network_health = network_health relays healthy;
            average_load = average (map (λ (r : RelayNode String). r.load) db.relays);
          }))
