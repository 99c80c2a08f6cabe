-- ===== src/Store/Tests.antt =====
-- Runs of the store.
use linkbit.Prelude.{ℕ, ◌≡◌, true, false, some, [], ◌∷◌, arith}
use linkbit.Models.{User, DeviceGroup, RelayNode, Invitation, ApiKey, Device}
use linkbit.Store.{ok}
use linkbit.Store.Rows.{
  user_row, scan_user, group_row, scan_group, relay_row, scan_relay, invitation_row,
  scan_invitation, api_key_row, scan_api_key, device_row, scan_device, policy_row, scan_policy,
}
use linkbit.Store.Rows.Laws.{scan-row}
use linkbit.Store.Policies.{Policy}
use linkbit.Store.Sample.{sample_codec, sample_laws}

abbrev user : User ℕ
user = record { id = "u"; name = "Ann"; email = ""; role = "admin"; created_at = 3 }

abbrev group : DeviceGroup ℕ
group = record { id = "g"; name = "Group"; description = ""; created_at = 0 }

abbrev relay : RelayNode ℕ
relay = record {
  id = "r";
  name = "Relay";
  region = "eu";
  public_url = "https://r";
  ipv4 = "";
  ipv6 = "";
  status = "healthy";
  load = 0;
  last_seen_at = 2;
  registered = 1;
}

abbrev invitation : Invitation ℕ
invitation = record {
  id = "i";
  token_hash = "h";
  user_id = "u";
  group_id = "g";
  reusable = false;
  expires_at = 9;
  used_at = 0;
  created_at = 1;
  plaintext_token = "lb_t";
}

abbrev key : ApiKey ℕ
key = record {
  id = "k";
  name = "CI";
  digest = "d";
  scope = "relay";
  created_at = 1;
  last_used_at = 0;
  revoked_at = 0;
  plaintext_key = "lb_k";
}

abbrev device : Device ℕ
device = record {
  id = "dev";
  user_id = "u";
  group_id = "g";
  name = "laptop";
  virtual_ip = "10.88.1.2";
  public_key = "pk";
  endpoint = "";
  token_hash = "th";
  device_token = "lb_d";
  status = "online";
  last_seen_at = 4;
  created_at = 4;
  fingerprint = "";
}

abbrev policy : Policy
policy = record {
  id = "p";
  name = "any";
  source_id = "*";
  target_id = "g";
  ports = some ("22" ∷ "80" ∷ []);
  protocol = "tcp";
  enabled = true;
  description = "";
  created_at = 5;
  updated_at = 5;
}

scan-row_example :
    (scan_user sample_codec (user_row sample_codec user) ≡ user)
    × (scan_group sample_codec (group_row sample_codec group) ≡ group)
    × (scan_relay sample_codec (relay_row sample_codec relay) ≡ relay)
    × (scan_invitation sample_codec (invitation_row sample_codec invitation)
        ≡ record invitation { plaintext_token = "" })
    × (scan_api_key sample_codec (api_key_row sample_codec key) ≡ record key { plaintext_key = "" })
    × (scan_device sample_codec (device_row sample_codec device)
        ≡ record device { device_token = "" })
    × (scan_policy sample_codec (policy_row sample_codec policy) ≡ ok policy)
scan-row_example = scan-row sample_codec sample_laws user group relay invitation key device policy (
  omega arith,
  (
    omega arith,
    (
      omega arith,
      (
        omega arith,
        (
          omega arith,
          (
            omega arith,
            (
              omega arith,
              (
                omega arith,
                (
                  omega arith,
                  (omega arith, (omega arith, (omega arith, (omega arith, (omega arith, tt))))),
                ),
              ),
            ),
          ),
        ),
      ),
    ),
  ),
)
