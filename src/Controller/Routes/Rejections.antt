-- ===== src/Controller/Routes/Rejections.antt =====
-- The requests that the controller turns away.
use linkbit.Prelude.{
  ℕ, ◌≡◌, refl, inl, inr, String, Bool, false, Bool-cases, none, some, List, arith,
}
use linkbit.Auth.{hash_api_key, verify_api_key, Hashed, Hashed-cases}
use linkbit.Store.{Db, Fault, Result-cases}
use linkbit.Store.Users.{create_user, create_group}
use linkbit.Store.Keys.{create_api_key, revoke_api_key, create_invitation, get_api_key_by_digest}
use linkbit.Store.Relays.{delete_relay}
use linkbit.Store.Devices.{delete_device}
use linkbit.Store.Policies.{create_policy, delete_policy}
use linkbit.Controller.Server.{Server, World, sync_hub}
use linkbit.Controller.Guard.{verify_api_key_scope, require_api_key_scopes}
use linkbit.Controller.Guard.Laws.{Stored, verify_sound}
use linkbit.Controller.Enrolment.{invitation_create}
use linkbit.Controller.Admin.{
  user_create, user_list, group_create, group_list, relay_delete, api_key_create, api_key_list,
  api_key_revoke, relay_list, device_list, device_delete, policy_create, policy_list, policy_delete,
  overview_get,
}
use linkbit.Controller.Status.{metrics_get, derp_map_get}
use linkbit.Controller.Routes.{
  AdminRoute, get_overview, get_users, get_groups, get_api_keys, get_relays, get_devices,
  get_policies, get_metrics, get_settings, get_derp_map, post_user, post_group, post_api_key,
  post_invitation, post_policy, remove_api_key, remove_relay, remove_device, remove_policy,
  admin_route, relay_route, device_route, Route, scopes_of, Request, rejected, handle_admin, serve,
}

verify-false :
    (s : Server) (fault : Fault) (now : ℕ) (api_key : String) (scopes : List String) (db : Db)
    → (verify_api_key_scope s fault now api_key scopes db).0 ≡ false
    → (verify_api_key_scope s fault now api_key scopes db).1 ≡ db
unfolding verify_api_key_scope
verify-false s fault now api_key scopes db h =
    elim (Hashed-cases (hash_api_key s.hmac_hex api_key s.api_key_pepper)) [
      | inr (e, q) ↦ ground (arith, q)
      | inl (digest, q) ↦ elim (Result-cases (get_api_key_by_digest s.codec fault digest db)) [
        | inr (e, f) ↦ ground (arith, q, f)
        | inl (k, f) ↦ ground (arith, q, f)
      ]
    ]

module _ (average : List ℕ → ℕ) (equal_fold : String → String → Bool) (s : Server) where
  -- A key that is neither fails the check.
  unknown-rejected :
      (q : Request) (w : World) (scopes : List String)
      → verify_api_key s.hmac_hex q.api_key s.admin_digest s.api_key_pepper ≡ false
      → ((digest : String)
          → hash_api_key s.hmac_hex q.api_key s.api_key_pepper ≡ Hashed.ok digest
          → ¬ Stored digest scopes w.db.api_keys)
      → let answer = verify_api_key_scope s q.env.fault q.now q.api_key scopes w.db in
        (answer.0 ≡ false) × (answer.1 ≡ w.db)
  unknown-rejected q w scopes b n =
      let answer = verify_api_key_scope s q.env.fault q.now q.api_key scopes w.db in
      let v : answer.0 ≡ false = elim (Bool-cases answer.0) [
        | inr v ↦ v
        | inl v ↦ elim (verify_sound s q.env.fault q.now q.api_key scopes w.db v) [
          | inl (i, known) ↦ absurd (ground arith)
          | inr (digest, e, st) ↦ absurd (n digest e st)
        ]
      ] in
      (v, verify-false s q.env.fault q.now q.api_key scopes w.db v)

  serve-at :
      (r : Route) (q : Request) (w : World) (scopes : List String)
      → q.route ≡ r
      → scopes_of r ≡ some scopes
      → let answer = verify_api_key_scope s q.env.fault q.now q.api_key scopes w.db in
        answer.0 ≡ false → answer.1 ≡ w.db → serve average equal_fold s q w ≡ (rejected 401, w)
  unfolding serve require_api_key_scopes
  serve-at (admin_route r) q w scopes at e v h = ground (arith, at, e)
  serve-at (relay_route r) q w scopes at e v h = ground (arith, at, e)
  serve-at (device_route r) q w scopes at e v h = cc

  -- A request for any route of the admin or of relays is answered with 401 and changes nothing, not the
  -- store, not the broker, and no command is run, unless its key is the bootstrap key or its digest is
  -- that of a stored key that is not revoked and has a scope that the route is open to: the admin's for
  -- the admin's routes, the admin's or the relays' for those of relays.
  pub serve-unauthorised :
      (q : Request) (w : World) (scopes : List String)
      → scopes_of q.route ≡ some scopes
      → verify_api_key s.hmac_hex q.api_key s.admin_digest s.api_key_pepper ≡ false
      → ((digest : String)
          → hash_api_key s.hmac_hex q.api_key s.api_key_pepper ≡ Hashed.ok digest
          → ¬ Stored digest scopes w.db.api_keys)
      → serve average equal_fold s q w ≡ (rejected 401, w)
  serve-unauthorised q w scopes e b n =
      let (v, h) = unknown-rejected q w scopes b n in serve-at q.route q w scopes refl e v h

  -- A handler of the admin that answers with an error has left the store as it was.
  pub handle_admin-rejected :
      (r : AdminRoute) (q : Request) (w : World) (status : ℕ)
      → (handle_admin average equal_fold s r q w).0 ≡ rejected status
      → (handle_admin average equal_fold s r q w).1.db ≡ w.db
  unfolding handle_admin user_create create_user group_create create_group relay_delete delete_relay
      policy_create create_policy policy_delete delete_policy api_key_revoke revoke_api_key
      device_delete delete_device user_list group_list api_key_list relay_list device_list
      policy_list overview_get sync_hub metrics_get derp_map_get
  handle_admin-rejected get_overview q w status h = ground arith
  handle_admin-rejected get_users q w status h = ground arith
  handle_admin-rejected get_groups q w status h = ground arith
  handle_admin-rejected get_api_keys q w status h = ground arith
  handle_admin-rejected get_relays q w status h = ground arith
  handle_admin-rejected get_devices q w status h = ground arith
  handle_admin-rejected get_policies q w status h = ground arith
  handle_admin-rejected get_metrics q w status h = ground arith
  handle_admin-rejected get_settings q w status h = refl
  handle_admin-rejected get_derp_map q w status h = ground arith
  handle_admin-rejected (post_user none) q w status h = refl
  handle_admin-rejected (post_user (some req)) q w status h = ground arith
  handle_admin-rejected (post_group none) q w status h = refl
  handle_admin-rejected (post_group (some req)) q w status h = ground arith
  handle_admin-rejected (post_api_key none) q w status h = unfold api_key_create in refl
  handle_admin-rejected (post_api_key (some req)) q w status h =
      unfold api_key_create in unfold create_api_key in ground arith
  handle_admin-rejected (post_invitation none) q w status h = unfold invitation_create in refl
  handle_admin-rejected (post_invitation (some req)) q w status h =
      unfold invitation_create in unfold create_invitation in ground arith
  handle_admin-rejected (post_policy none) q w status h = refl
  handle_admin-rejected (post_policy (some req)) q w status h = ground arith
  handle_admin-rejected (remove_api_key path) q w status h = ground arith
  handle_admin-rejected (remove_relay path) q w status h = ground arith
  handle_admin-rejected (remove_device path) q w status h = ground arith
  handle_admin-rejected (remove_policy path) q w status h = ground arith
