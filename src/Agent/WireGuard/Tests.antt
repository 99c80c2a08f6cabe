-- ===== src/Agent/WireGuard/Tests.antt =====
-- Runs of the agent's WireGuard manager.
use linkbit.Prelude.{[], ◌∷◌, arith, eq_iff}
use linkbit.Models.{NetworkPeer}
use linkbit.Command.Plans.{Follows}
use linkbit.Agent.WireGuard.{apply_commands}
use linkbit.Agent.WireGuard.Plan.{apply_commands-Follows}
use linkbit.Agent.WireGuard.Plan.Commands.{apply_plan}

abbrev peer : NetworkPeer
peer = record {
  id = "p";
  name = "peer";
  virtual_ip = "10.88.0.3";
  public_key = "pk";
  endpoint = "198.51.100.7:51820";
  allowed_ips = [];
}

apply_commands-Follows_example :
    Follows
      (apply_commands "linkbit0" "10.88.0.2" (peer ∷ []) "/tmp/key")
      (apply_plan "linkbit0" "10.88.0.2" (peer ∷ []) "/tmp/key")
apply_commands-Follows_example =
    apply_commands-Follows "linkbit0" "10.88.0.2" (peer ∷ []) "/tmp/key"
      (λ e. ground (arith, (eq_iff "linkbit0" "").1 e))
      (λ e. ground (arith, (eq_iff "10.88.0.2" "").1 e))
