-- ===== src/Store/Unique.antt =====
-- The keys that the schema of internal/store/sqlite/store.go declares.
pub mod Accounts
pub mod Network
pub mod History
use linkbit.Prelude.{ℕ, ◌≡◌, refl, String, Bool, false, ◌||◌, List, [], ◌∷◌, arith, any, ◌==◌}
use linkbit.Prelude.Distinct.{Distinct, concat-Distinct, delete_rows-Distinct, update_rows-Distinct}
use linkbit.Models.{
  PolicyRow, InvitationRow, User, DeviceGroup, RelayNode, Invitation, ApiKey, Device, NetworkPolicy,
  DeviceHealthReport, relay_status_healthy,
}
use linkbit.Store.{Codec, Db, Fault}
use linkbit.Store.Rows.{
  format_time, user_row, group_row, relay_row, invitation_row, api_key_row, device_row, policy_row,
}
use linkbit.Store.Write.{
  Write, migrates, creates_user, creates_group, creates_api_key, touches_api_key, revokes_api_key,
  creates_invitation, marks_invitation, upserts_relay, deletes_relay, heartbeats_relay,
  creates_device, deletes_device, updates_device, creates_policy, deletes_policy, write, writes,
}
use linkbit.Store.Users.{migrate, create_user, create_group, default_user, default_group}
use linkbit.Store.Keys.{
  create_api_key, touch_api_key, revoke_api_key, is_revocable, create_invitation,
  mark_invitation_used,
}
use linkbit.Store.Relays.{upsert_relay, delete_relay, heartbeat_relay, refreshed}
use linkbit.Store.Devices.{create_device, delete_device, update_device_health, has_token, reported}
use linkbit.Store.Policies.{Policy, create_policy, delete_policy}

abbrev pub user_id : User String → String
user_id r = r.id

abbrev pub group_id : DeviceGroup String → String
group_id r = r.id

abbrev pub relay_id : RelayNode String → String
relay_id r = r.id

abbrev pub invitation_id : InvitationRow → String
invitation_id r = r.id

abbrev pub invitation_token : InvitationRow → String
invitation_token r = r.token_hash

abbrev pub api_key_id : ApiKey String → String
api_key_id r = r.id

abbrev pub api_key_digest : ApiKey String → String
api_key_digest r = r.digest

abbrev pub device_id : Device String → String
device_id r = r.id

abbrev pub device_ip : Device String → String
device_ip r = r.virtual_ip

abbrev pub policy_id : PolicyRow → String
policy_id r = r.id

-- The primary keys and the UNIQUE columns.
pub record IsKeyed (db : Db) : Type 0 where
  pub users : Distinct user_id db.users
  pub groups : Distinct group_id db.groups
  pub relays : Distinct relay_id db.relays
  pub invitations : Distinct invitation_id db.invitations
  pub invitation_tokens : Distinct invitation_token db.invitations
  pub api_keys : Distinct api_key_id db.api_keys
  pub api_key_digests : Distinct api_key_digest db.api_keys
  pub devices : Distinct device_id db.devices
  pub device_ips : Distinct device_ip db.devices
  pub policies : Distinct policy_id db.policies

pub any_of_or :
    {A : Type 0} (p q : A → Bool) (xs : List A)
    → any (λ x. p x || q x) xs ≡ false
    → (any p xs ≡ false) × (any q xs ≡ false)
any_of_or p q [] h = (refl, refl)
any_of_or p q (x ∷ xs) h = ground (arith, any_of_or p q xs)
