-- ===== src/Store/Write.antt =====
-- The methods of internal/store/sqlite/store.go that write, as one step on the tables.
use linkbit.Prelude.{ℕ, String, List, [], ◌∷◌}
use linkbit.Models.{User, DeviceGroup, RelayNode, Invitation, ApiKey, Device, DeviceHealthReport}
use linkbit.Store.{Codec, Db, Fault}
use linkbit.Store.Users.{migrate, create_user, create_group}
use linkbit.Store.Keys.{
  create_api_key, touch_api_key, revoke_api_key, create_invitation, mark_invitation_used,
}
use linkbit.Store.Relays.{upsert_relay, delete_relay, heartbeat_relay}
use linkbit.Store.Devices.{create_device, delete_device, update_device_health}
use linkbit.Store.Policies.{Policy, create_policy, delete_policy}

-- The methods that write, with their arguments.
pub data Write : Type 0 where
  migrates : ℕ → Write
  creates_user : User ℕ → Write
  creates_group : DeviceGroup ℕ → Write
  creates_api_key : ApiKey ℕ → Write
  touches_api_key : String → ℕ → Write
  revokes_api_key : String → ℕ → Write
  creates_invitation : Invitation ℕ → Write
  marks_invitation : String → ℕ → Write
  upserts_relay : RelayNode ℕ → Write
  deletes_relay : String → Write
  heartbeats_relay : String → ℕ → ℕ → Write
  creates_device : Device ℕ → Write
  deletes_device : String → Write
  updates_device : String → String → DeviceHealthReport → ℕ → Write
  creates_policy : Policy → Write
  deletes_policy : String → Write

module _ (codec : Codec) (fault : Fault) where
  unfoldable pub write : Write → Db → Db
  write (migrates now) db = (migrate codec fault now db).1
  write (creates_user u) db = (create_user codec fault u db).1
  write (creates_group g) db = (create_group codec fault g db).1
  write (creates_api_key k) db = (create_api_key codec fault k db).1
  write (touches_api_key id now) db = (touch_api_key codec fault id now db).1
  write (revokes_api_key id now) db = (revoke_api_key codec fault id now db).1
  write (creates_invitation i) db = (create_invitation codec fault i db).1
  write (marks_invitation id now) db = (mark_invitation_used codec fault id now db).1
  write (upserts_relay r) db = (upsert_relay codec fault r db).1
  write (deletes_relay id) db = (delete_relay codec fault id db).1
  write (heartbeats_relay id load now) db = (heartbeat_relay codec fault id load now db).1
  write (creates_device d) db = (create_device codec fault d db).1
  write (deletes_device id) db = (delete_device codec fault id db).1
  write (updates_device id token report now) db =
      (update_device_health codec fault id token report now db).1
  write (creates_policy p) db = (create_policy codec fault p db).1
  write (deletes_policy id) db = (delete_policy codec fault id db).1

-- Any history of writes, each with the statements that fail in it.
unfoldable pub writes : Codec → List (Fault × Write) → Db → Db
writes codec [] db = db
writes codec ((fault, w) ∷ ws) db = writes codec ws (write codec fault w db)
