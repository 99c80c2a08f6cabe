-- ===== src/Controller/Admin.antt =====
-- internal/controller/server.go: the handlers behind the check of the admin's key, but for
-- invitations. `now` is `time.Now().UTC()`, `fresh` is `uuid.NewString()`.
use Prim.Native.String.{◌++◌ as append}
use linkbit.Prelude.{
  ℕ, String, not, ◌&&◌, ◌||◌, Option, none, some, List, [], ◌∷◌, ◌==◌, if◌then◌else◌,
}
use linkbit.Prelude.Text.{trim_space}
use linkbit.Models.{
  User, UserCreateRequest, DeviceGroup, DeviceGroupCreateRequest, ApiKey, ApiKeyCreateRequest,
  RelayNode, Device, relay_status_healthy,
}
use linkbit.Auth.{new_api_key, hash_api_key, Hashed}
use linkbit.Store.{Result, Db, is_not_found}
use linkbit.Store.Users.{create_user, list_users, create_group, list_groups}
use linkbit.Store.Keys.{create_api_key, list_api_keys, revoke_api_key}
use linkbit.Store.Relays.{upsert_relay, delete_relay, heartbeat_relay, list_relays}
use linkbit.Store.Devices.{list_devices, delete_device}
use linkbit.Store.Policies.{Policy, create_policy, list_policies, delete_policy}
use linkbit.Store.Overview.{Overview, overview}
use linkbit.Controller.Server.{Server, World, Env, Response, replied, failed, no_content, sync_hub}

-- 201 with the payload where a statement succeeds, 500 where it does not.
abbrev pub created : {A : Type 0} → String → A → World → Result (Unit {0}) × Db → Response A × World
created message payload w (Result.ok u, db') = (replied 201 payload, record w { db = db' })
created message payload w (Result.err e, db') = (failed 500 message, record w { db = db' })

-- 200 with the rows, or 500.
abbrev pub listed : {A : Type 0} → String → World → Result A → Response A × World
listed message w (Result.ok rows) = (replied 200 rows, w)
listed message w (Result.err e) = (failed 500 message, w)

-- 204, 404 where no row is meant, or 500.
abbrev pub removed : String → String → World → Result (Unit {0}) × Db → Response (Unit {0}) × World
removed missing message w (Result.ok u, db') = (no_content, record w { db = db' })
removed missing message w (Result.err e, db') =
    (if is_not_found e then failed 404 missing else failed 500 message, record w { db = db' })

-- The records that the requests make.
abbrev pub new_user : ℕ → String → UserCreateRequest → User ℕ
new_user now fresh req = record {
  id = trim_space (if trim_space req.id == "" then fresh else req.id);
  name = trim_space req.name;
  email = trim_space req.email;
  role = if req.role == "" then "member" else req.role;
  created_at = now;
}

abbrev pub new_group : ℕ → String → DeviceGroupCreateRequest → DeviceGroup ℕ
new_group now fresh req = record {
  id = trim_space (if trim_space req.id == "" then fresh else req.id);
  name = trim_space req.name;
  description = trim_space req.description;
  created_at = now;
}

abbrev pub new_relay : ℕ → RelayNode ℕ → RelayNode ℕ
new_relay now req = record req {
  registered = now;
  last_seen_at = now;
  status = relay_status_healthy;
}

abbrev pub scope_of : ApiKeyCreateRequest → String
scope_of req = if req.scope == "" then "admin" else req.scope

abbrev pub new_key : ℕ → String → ApiKeyCreateRequest → String → String → ApiKey ℕ
new_key now fresh req key digest = record {
  id = fresh;
  name = trim_space req.name;
  digest = digest;
  scope = scope_of req;
  created_at = now;
  last_used_at = 0;
  revoked_at = 0;
  plaintext_key = key;
}

abbrev pub new_policy : ℕ → Policy → Policy
new_policy now req = record req {
  name = if req.name == "" then append req.source_id (append " to " req.target_id) else req.name;
  protocol = if req.protocol == "" then "tcp" else req.protocol;
  ports = elim req.ports [ none ↦ some ("*" ∷ []) | some ports ↦ some ports ];
  created_at = now;
  updated_at = now;
}

module _ (s : Server) (env : Env) where
  unfoldable pub user_create :
      ℕ → String → Option UserCreateRequest → World → Response (User ℕ) × World
  user_create now fresh none w = (failed 400 "invalid user payload", w)
  user_create now fresh (some req) w =
      let user = new_user now fresh req in
      let role = user.role in
      if trim_space req.name == ""
      then (failed 400 "name is required", w)
      else if not (role == "admin") && not (role == "member")
      then (failed 400 "role must be admin or member", w)
      else created "user creation failed" user w (create_user s.codec env.fault user w.db)

  unfoldable pub user_list : World → Response (List (User ℕ)) × World
  user_list w = listed "list users failed" w (list_users s.codec env.fault w.db)

  unfoldable pub group_create :
      ℕ → String → Option DeviceGroupCreateRequest → World → Response (DeviceGroup ℕ) × World
  group_create now fresh none w = (failed 400 "invalid group payload", w)
  group_create now fresh (some req) w =
      let group = new_group now fresh req in
      if trim_space req.name == ""
      then (failed 400 "name is required", w)
      else created "group creation failed" group w (create_group s.codec env.fault group w.db)

  unfoldable pub group_list : World → Response (List (DeviceGroup ℕ)) × World
  group_list w = listed "list groups failed" w (list_groups s.codec env.fault w.db)

  unfoldable pub relay_register : ℕ → Option (RelayNode ℕ) → World → Response (RelayNode ℕ) × World
  relay_register now none w = (failed 400 "invalid relay payload", w)
  relay_register now (some req) w =
      let relay = new_relay now req in
      if (trim_space req.id == "") || (trim_space req.public_url == "")
      then (failed 400 "relay id and publicUrl are required", w)
      else created "relay registration failed" relay w (upsert_relay s.codec env.fault relay w.db)

  unfoldable pub relay_delete : String → World → Response (Unit {0}) × World
  relay_delete relay_id w =
      let (deleted, db') = delete_relay s.codec env.fault relay_id w.db in
      if relay_id == "" then (failed 400 "relay id is required", w) else elim deleted [
        | Result.err e ↦ (failed 500 "delete relay failed", record w { db = db' })
        | Result.ok u ↦ (no_content, record w { db = db' })
      ]

  -- `token` is the text of the random bytes of auth.NewAPIKey.
  unfoldable pub api_key_create :
      ℕ → String → Option String → Option ApiKeyCreateRequest → World → Response (ApiKey ℕ) × World
  api_key_create now fresh token none w = (failed 400 "invalid api key payload", w)
  api_key_create now fresh token (some req) w =
      let scope = scope_of req in
      if trim_space req.name == ""
      then (failed 400 "name is required", w)
      else if not (scope == "admin") && not (scope == "relay")
      then (failed 400 "scope must be admin or relay", w)
      else elim (new_api_key token) [
        | none ↦ (failed 500 "api key creation failed", w)
        | some key ↦ elim (hash_api_key s.hmac_hex key s.api_key_pepper) [
          | Hashed.err e ↦ (failed 500 "api key creation failed", w)
          | Hashed.ok digest ↦
              let api_key = new_key now fresh req key digest in
              created "api key creation failed" api_key w
                (create_api_key s.codec env.fault api_key w.db)
        ]
      ]

  unfoldable pub api_key_list : World → Response (List (ApiKey ℕ)) × World
  api_key_list w = listed "list api keys failed" w (list_api_keys s.codec env.fault w.db)

  unfoldable pub api_key_revoke : ℕ → String → World → Response (Unit {0}) × World
  api_key_revoke now key_id w =
      if key_id == ""
      then (failed 400 "api key id is required", w)
      else removed "api key not found" "api key revoke failed" w
          (revoke_api_key s.codec env.fault key_id now w.db)

  unfoldable pub relay_heartbeat : ℕ → Option (RelayNode ℕ) → World → Response (RelayNode ℕ) × World
  relay_heartbeat now none w = (failed 400 "invalid heartbeat payload", w)
  relay_heartbeat now (some relay) w =
      let (beaten, db') = heartbeat_relay s.codec env.fault relay.id relay.load now w.db in
      if relay.id == "" then (failed 400 "relay id is required", w) else elim beaten [
        | Result.ok existing ↦ (replied 200 existing, record w { db = db' })
        | Result.err e ↦ (
          if is_not_found e
              then failed 404 "relay is not registered"
              else failed 500 "relay heartbeat failed",
          record w { db = db' },
        )
      ]

  unfoldable pub relay_list : World → Response (List (RelayNode ℕ)) × World
  relay_list w = listed "list relays failed" w (list_relays s.codec env.fault w.db)

  unfoldable pub device_list : World → Response (List (Device ℕ)) × World
  device_list w = listed "list devices failed" w (list_devices s.codec env.fault w.db)

  -- The hub is told of the removal.
  unfoldable pub device_delete : String → World → Response (Unit {0}) × World
  device_delete path_id w =
      let device_id = trim_space path_id in
      let (response, w') =
        removed "device not found" "device deletion failed" w
          (delete_device s.codec env.fault device_id w.db) in
      if device_id == "" then (failed 400 "device id is required", w) else elim response [
        | no_content ↦ (no_content, sync_hub s env w')
        | failed status message ↦ (failed status message, w')
        | replied status u ↦ (replied status u, w')
      ]

  unfoldable pub policy_create : ℕ → Option Policy → World → Response Policy × World
  policy_create now none w = (failed 400 "invalid policy payload", w)
  policy_create now (some req) w =
      let policy = new_policy now req in
      if (req.id == "") || ((req.source_id == "") || (req.target_id == ""))
      then (failed 400 "policy id, sourceId, and targetId are required", w)
      else created "policy creation failed" policy w (create_policy s.codec env.fault policy w.db)

  unfoldable pub policy_list : World → Response (List Policy) × World
  policy_list w = listed "list policies failed" w (list_policies s.codec env.fault w.db)

  unfoldable pub policy_delete : String → World → Response (Unit {0}) × World
  policy_delete policy_id w =
      if policy_id == ""
      then (failed 400 "policy id is required", w)
      else removed "policy not found" "policy deletion failed" w
          (delete_policy s.codec env.fault policy_id w.db)

  -- `average` is SQLite's AVG.
  unfoldable pub overview_get : (List ℕ → ℕ) → World → Response Overview × World
  overview_get average w = listed "overview failed" w (overview average env.fault w.db)
