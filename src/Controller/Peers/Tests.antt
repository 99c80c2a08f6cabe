-- ===== src/Controller/Peers/Tests.antt =====
-- Runs of the policies.
use linkbit.Prelude.{ℕ, ◌≡◌, ◌↔◌, String, Bool, true, none, some, List, [], ◌∷◌, IsIn, map, ◌==◌}
use linkbit.Models.{Device}
use linkbit.Store.{ok}
use linkbit.Store.Policies.{Policy}
use linkbit.Controller.Peers.{allowed_peers, peer_of, resolve_relay_target}
use linkbit.Controller.Peers.Laws.{Reached, allowed_peers_exact}
use linkbit.Controller.Peers.Targets.{restricted, resolve-ports}

abbrev device : String → String → String → Device ℕ
device id group_id name = record {
  id = id;
  user_id = "u";
  group_id = group_id;
  name = name;
  virtual_ip = "10.88.0.9";
  public_key = "key";
  endpoint = "";
  token_hash = "h";
  device_token = "";
  status = "online";
  last_seen_at = 1;
  created_at = 1;
  fingerprint = "";
}

abbrev alice : Device ℕ
alice = device "a" "staff" "alice"

abbrev bob : Device ℕ
bob = device "b" "servers" "bob"

abbrev rule : Policy
rule = record {
  id = "p";
  name = "staff to servers";
  source_id = "staff";
  target_id = "servers";
  ports = some ("22" ∷ []);
  protocol = "tcp";
  enabled = true;
  description = "";
  created_at = 5;
  updated_at = 5;
}

abbrev both : List (Device ℕ)
both = alice ∷ bob ∷ []

abbrev rules : List Policy
rules = rule ∷ []

abbrev same_text : String → String → Bool
same_text a b = a == b

allowed_peers_exact_example :
    IsIn (peer_of bob) (allowed_peers alice both rules) ↔ Reached alice both rules (peer_of bob)
allowed_peers_exact_example = allowed_peers_exact alice both rules (peer_of bob)

resolve-ports_example :
    let changed = map (restricted (λ p. none) (λ p. "udp")) rules in
    (allowed_peers alice both changed ≡ allowed_peers alice both rules)
    × (resolve_relay_target same_text alice "bob" (ok both) (ok changed)
        ≡ resolve_relay_target same_text alice "bob" (ok both) (ok rules))
resolve-ports_example = resolve-ports same_text (λ p. none) (λ p. "udp") alice "bob" both rules
