-- ===== src/Controller/Routes/Effects.antt =====
-- The store after a request: each handler's effect is a history of the store's own writes.
use linkbit.Prelude.{◌⊎◌, ℕ, ◌≡◌, inl, inr, String, some, List, [], ◌∷◌, arith}
use linkbit.Prelude.Text.{trim_space}
use linkbit.Models.{UserCreateRequest, DeviceGroupCreateRequest, RelayNode}
use linkbit.Store.{Db, Fault}
use linkbit.Store.Users.{create_user, create_group}
use linkbit.Store.Keys.{revoke_api_key}
use linkbit.Store.Relays.{upsert_relay, delete_relay, heartbeat_relay}
use linkbit.Store.Devices.{delete_device}
use linkbit.Store.Policies.{create_policy, delete_policy}
use linkbit.Store.Write.{
  Write, creates_user, creates_group, revokes_api_key, upserts_relay, deletes_relay,
  heartbeats_relay, deletes_device, creates_policy, deletes_policy, write, writes,
}
use linkbit.Store.Policies.{Policy}
use linkbit.Controller.Server.{Server, World, Env, sync_hub}
use linkbit.Controller.Admin.{
  new_user, new_group, new_relay, new_policy, user_create, group_create, relay_register,
  relay_delete, api_key_revoke, relay_heartbeat, device_delete, policy_create, policy_delete,
}

-- What is left in the store is what some writes make of it.
pub record Wrote (s : Server) (before after : Db) : Type 0 where
  pub history : List (Fault × Write)
  pub effect : after ≡ writes s.codec history before

-- Nothing is written, or one write.
abbrev pub AtMost : Server → Fault → Db → Write → Db → Type 0
AtMost s fault before v after = (after ≡ before) ⊎ (after ≡ write s.codec fault v before)

pub unwritten : {s : Server} {before after : Db} → after ≡ before → Wrote s before after
unfolding writes
unwritten e = record { history = []; effect = e }

pub Wrote-AtMost :
    {s : Server} {before after : Db} (fault : Fault) (v : Write)
    → AtMost s fault before v after
    → Wrote s before after
unfolding writes
Wrote-AtMost fault v (inl e) = record { history = []; effect = e }
Wrote-AtMost fault v (inr e) = record { history = (fault, v) ∷ []; effect = e }

module _ (s : Server) (env : Env) (w : World) where
  abbrev pub Kept : {A : Type 0} → Write → A × World → Type 0
  Kept v p = AtMost s env.fault w.db v p.1.db

  pub user_create-Kept :
      (now : ℕ) (fresh : String) (req : UserCreateRequest)
      → Kept (creates_user (new_user now fresh req)) (user_create s env now fresh (some req) w)
  unfolding user_create create_user write
  user_create-Kept now fresh req = ground arith

  pub group_create-Kept :
      (now : ℕ) (fresh : String) (req : DeviceGroupCreateRequest)
      → Kept (creates_group (new_group now fresh req)) (group_create s env now fresh (some req) w)
  unfolding group_create create_group write
  group_create-Kept now fresh req = ground arith

  pub relay_register-Kept :
      (now : ℕ) (req : RelayNode ℕ)
      → Kept (upserts_relay (new_relay now req)) (relay_register s env now (some req) w)
  unfolding relay_register upsert_relay write
  relay_register-Kept now req = ground arith

  pub relay_delete-Kept : (id : String) → Kept (deletes_relay id) (relay_delete s env id w)
  unfolding relay_delete delete_relay write
  relay_delete-Kept id = ground arith

  pub policy_create-Kept :
      (now : ℕ) (req : Policy)
      → Kept (creates_policy (new_policy now req)) (policy_create s env now (some req) w)
  unfolding policy_create create_policy write
  policy_create-Kept now req = ground arith

  pub policy_delete-Kept : (id : String) → Kept (deletes_policy id) (policy_delete s env id w)
  unfolding policy_delete delete_policy write
  policy_delete-Kept id = ground arith

  pub api_key_revoke-Kept :
      (now : ℕ) (id : String) → Kept (revokes_api_key id now) (api_key_revoke s env now id w)
  unfolding api_key_revoke revoke_api_key write
  api_key_revoke-Kept now id = ground arith

  pub relay_heartbeat-Kept :
      (now : ℕ) (req : RelayNode ℕ)
      → Kept (heartbeats_relay req.id req.load now) (relay_heartbeat s env now (some req) w)
  unfolding relay_heartbeat heartbeat_relay write
  relay_heartbeat-Kept now req = ground arith

  pub device_delete-Kept :
      (id : String) → Kept (deletes_device (trim_space id)) (device_delete s env id w)
  unfolding device_delete delete_device write sync_hub
  device_delete-Kept id = ground arith
