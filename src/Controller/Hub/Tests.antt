-- ===== src/Controller/Hub/Tests.antt =====
-- Runs of the hub.
use linkbit.Prelude.{ℕ, pos, ◌≡◌, String, Bool, true, [], ◌∷◌, ◌++◌, arith, eq_iff}
use linkbit.Models.{Device}
use linkbit.Agent.WireGuard.{used_peers}
use linkbit.Controller.Peers.{allowed_peers}
use linkbit.Controller.Hub.{HubConfig, WireGuardHub, network_peer}
use linkbit.Controller.Hub.Laws.{used_peers-hub}

abbrev cfg : HubConfig
cfg = record {
  enabled = true;
  iface = "hub0";
  ip = "10.88.0.1";
  network = "10.88.0.0/16";
  port = pos 41641;
  port_text = "41641";
  key = "private";
  endpoint = "";
  public_url = "https://linkbit.example";
}

abbrev started : WireGuardHub
started = record { cfg = cfg; public_key = "public"; endpoint = "linkbit.example:41641" }

abbrev device : Device ℕ
device = record {
  id = "dev";
  user_id = "u";
  group_id = "g";
  name = "laptop";
  virtual_ip = "10.88.1.2";
  public_key = "pk";
  endpoint = "";
  token_hash = "th";
  device_token = "";
  status = "online";
  last_seen_at = 4;
  created_at = 4;
  fingerprint = "";
}

used_peers-hub_example :
    used_peers (allowed_peers device (device ∷ []) [] ++ network_peer started ∷ [])
    ≡ network_peer started ∷ []
used_peers-hub_example =
    used_peers-hub device (device ∷ []) [] started
      ((λ e. ground (arith, (eq_iff "dev" "linkbit-hub").1 e)), tt)

abbrev in_network : String → String → Bool
in_network network ip = true
