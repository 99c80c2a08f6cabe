-- ===== src/Controller/Sample.antt =====
-- Example data: a controller with one user, one group and one invitation for one device.
use linkbit.Prelude.{refl, String, true, none, some, [], ◌∷◌}
use linkbit.Models.{InvitationRow, User, DeviceGroup, ApiKey, DeviceRegistrationRequest}
use linkbit.Store.{Db}
use linkbit.Store.Unique.{IsKeyed}
use linkbit.Store.Sample.{sample_codec, empty_db, no_fault}
use linkbit.Controller.Broker.{new_tcp_relay_broker}
use linkbit.Controller.Server.{Server, World, Env, sync_hub}
use linkbit.Controller.Enrolment.{
  Draws, device_register, check_enrolment, finish_enrolment, mark_used,
}
use linkbit.Prelude.Text.{trim_space}
use linkbit.Prelude.Select.{find_row, update_rows}
use linkbit.Prelude.Sort.{sort_by}
use linkbit.Auth.{hash_api_key, new_api_key}
use linkbit.Net.{valid_wire_guard_endpoint}
use linkbit.Store.Rows.{device_row, format_time, parse_time, scan_invitation}
use linkbit.Store.Keys.{get_invitation_by_token_hash, mark_invitation_used}
use linkbit.Store.Devices.{create_device}
use linkbit.Store.Relays.{list_relays}

-- A stand-in for the HMAC that tells keys apart.
abbrev pub plain_hmac : String → String → String
plain_hmac pepper key = key

abbrev pub server : Server
server = record {
  codec = sample_codec;
  hmac_hex = plain_hmac;
  contains = λ network ip. true;
  api_key_pepper = "pepper";
  admin_digest = "lb_bootstrap";
  hub = none;
  public_url = "";
  listen_addr = ":8080";
  log_level = "info";
  web_dir = "";
  derp = record {
    to_lower = λ text. text;
    parse_url = λ text. none;
    ip_of = λ text. none;
    order = λ regions. [];
  };
}

abbrev pub env : Env
env = record { fault = no_fault; runner = λ trace c. true; key_file = none }

abbrev pub user_row_sample : User String
user_row_sample = record { id = "u"; name = "Ann"; email = ""; role = "admin"; created_at = ".i" }

abbrev pub group_row_sample : DeviceGroup String
group_row_sample = record { id = "default"; name = "Default"; description = ""; created_at = ".i" }

abbrev pub once : InvitationRow
once = record {
  id = "i";
  token_hash = "lb_invite";
  user_id = "u";
  group_id = "default";
  reusable = 0;
  expires_at = ".iiiiiiiii";
  used_at = "";
  created_at = ".i";
}

abbrev pub relay_key : ApiKey String
relay_key = record {
  id = "k";
  name = "relay";
  digest = "lb_relay";
  scope = "relay";
  created_at = ".i";
  last_used_at = "";
  revoked_at = "";
  plaintext_key = "";
}

abbrev pub db : Db
db = record empty_db {
  users = user_row_sample ∷ [];
  groups = group_row_sample ∷ [];
  invitations = once ∷ [];
  api_keys = relay_key ∷ [];
}

pub db-IsKeyed : IsKeyed db
db-IsKeyed = record {
  users = (refl, tt);
  groups = (refl, tt);
  relays = tt;
  invitations = (refl, tt);
  invitation_tokens = (refl, tt);
  api_keys = (refl, tt);
  api_key_digests = (refl, tt);
  devices = tt;
  device_ips = tt;
  policies = tt;
}

abbrev pub world : World
world = record { db = db; broker = new_tcp_relay_broker; trace = [] }

abbrev pub request : DeviceRegistrationRequest
request = record {
  enrollment_key = "lb_invite";
  name = "laptop";
  public_key = "pk";
  fingerprint = "";
  endpoint = "";
}

abbrev pub draws : Draws
draws = record {
  now = 3;
  marked_at = 4;
  token = some "device";
  id = "dev";
  virtual_ip = "10.88.1.2";
}

abbrev pub other_draws : Draws
other_draws = record {
  now = 5;
  marked_at = 6;
  token = some "device2";
  id = "dev2";
  virtual_ip = "10.88.1.3";
}

-- What a registration computes with.
unfoldable pub handlers : Unit {0}
unfolding device_register check_enrolment finish_enrolment mark_used trim_space
    valid_wire_guard_endpoint hash_api_key get_invitation_by_token_hash find_row scan_invitation
    parse_time new_api_key create_device sync_hub mark_invitation_used update_rows device_row
    format_time list_relays sort_by
handlers = tt
