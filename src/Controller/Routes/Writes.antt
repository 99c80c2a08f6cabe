-- ===== src/Controller/Routes/Writes.antt =====
-- The store after any requests: a history of its own writes.
use mathlib.Core.Path.{subst}
use linkbit.Prelude.{
  ℕ, ◌≡◌, ◌⊎◌, refl, sym, ap, ◌∙◌, inl, inr, String, Bool, none, some, List, [], ◌∷◌, ◌++◌, arith,
  Bool-cases,
}
use linkbit.Auth.{hash_api_key, Hashed-cases}
use linkbit.Store.{Codec, Db, Fault, Result, Result-cases}
use linkbit.Store.Keys.{get_api_key_by_digest}
use linkbit.Store.Write.{Write, touches_api_key, write, writes}
use linkbit.Controller.Server.{Server, World, Response}
use linkbit.Controller.Guard.{verify_api_key_scope, require_api_key_scopes}
use linkbit.Controller.Status.{metrics_get, settings_get, derp_map_get}
use linkbit.Controller.Routes.{
  AdminRoute, get_overview, get_users, get_groups, get_api_keys, get_relays, get_devices,
  get_policies, get_metrics, get_settings, get_derp_map, post_user, post_group, post_api_key,
  post_invitation, post_policy, remove_api_key, remove_relay, remove_device, remove_policy,
  RelayRoute, register_relay, heartbeat, DeviceRoute, register_device, report_health,
  get_network_config, open_session, poll_sessions, stream, Route, admin_route, relay_route,
  device_route, Request, Outcome, rejected, outcome, handle_admin, handle_relay, handle_device,
  serve, serve_all, polled_outcome, streamed_outcome,
}
use linkbit.Controller.Routes.Effects.{
  Wrote, unwritten, Wrote-AtMost, user_create-Kept, group_create-Kept, relay_register-Kept,
  relay_delete-Kept, policy_create-Kept, policy_delete-Kept, api_key_revoke-Kept,
  relay_heartbeat-Kept, device_delete-Kept,
}
use linkbit.Controller.Routes.Histories.{
  device_health-Wrote, api_key_create-Wrote, invitation_create-Wrote, device_register-Wrote,
}
use linkbit.Controller.Admin.{
  listed, overview_get, user_create, user_list, group_create, group_list, relay_register,
  relay_delete, api_key_create, api_key_list, api_key_revoke, relay_heartbeat, relay_list,
  device_list, device_delete, policy_create, policy_list, policy_delete,
}
use linkbit.Controller.Enrolment.{device_register, invitation_create}
use linkbit.Controller.Requests.{
  device_health, device_network_config, session_create, relay_pending, relay_stream, Polled,
  Streamed,
}
use linkbit.Controller.Requests.Laws.{
  device_network_config-db, session_create-db, relay_pending-db, relay_stream-db,
}

outcome-world : {A : Type 0} (p : Response A × World) → (outcome p).1 ≡ p.1
outcome-world (Response.replied status a, w) = refl
outcome-world (Response.no_content, w) = refl
outcome-world (Response.failed status message, w) = refl

of_outcome :
    {A : Type 0} {s : Server} {before : Db} (p : Response A × World)
    → Wrote s before p.1.db
    → Wrote s before (outcome p).1.db
of_outcome {s = s} {before = before} p k =
    subst (λ (w : World). Wrote s before w.db) (sym (outcome-world p)) k

listed-world :
    {A : Type 0} (message : String) (w : World) (r : Result A) → (listed message w r).1.db ≡ w.db
listed-world message w (Result.ok rows) = refl
listed-world message w (Result.err e) = refl

Route-cases :
    (r : Route)
    → ((a : AdminRoute) × (r ≡ admin_route a))
      ⊎ ((a : RelayRoute) × (r ≡ relay_route a))
      ⊎ ((a : DeviceRoute) × (r ≡ device_route a))
Route-cases (admin_route a) = inl (a, refl)
Route-cases (relay_route a) = inr (inl (a, refl))
Route-cases (device_route a) = inr (inr (a, refl))

polled-world : (p : Polled × World) → (polled_outcome p).1.db ≡ p.1.db
polled-world (Polled.turned_away status message, w) = refl
polled-world (Polled.polled wait, w) = refl

streamed-world : (p : Streamed × World) → (streamed_outcome p).1.db ≡ p.1.db
streamed-world (Streamed.unauthorised status message, w) = refl
streamed-world (Streamed.invalid e, w) = refl
streamed-world (Streamed.not_hijacked, w) = refl
streamed-world (Streamed.handed e, w) = refl

writes-append :
    (codec : Codec) (a b : List (Fault × Write)) (db : Db)
    → writes codec (a ++ b) db ≡ writes codec b (writes codec a db)
unfolding writes
writes-append codec [] b db = refl
writes-append codec ((f, v) ∷ a) b db = writes-append codec a b (write codec f v db)

and_then : {s : Server} {a b c : Db} → Wrote s a b → Wrote s b c → Wrote s a c
and_then {s = s} {a = a} {b = b} {c = c} p q = record {
  history = p.history ++ q.history;
  effect =
      q.effect
      ∙ ap (writes s.codec q.history) p.effect
      ∙ sym (writes-append s.codec p.history q.history a);
}

module _ (average : List ℕ → ℕ) (equal_fold : String → String → Bool) (s : Server) where
  handle_admin-Wrote :
      (r : AdminRoute) (q : Request) (w : World)
      → Wrote s w.db (handle_admin average equal_fold s r q w).1.db
  unfolding handle_admin
  handle_admin-Wrote get_overview q w =
      of_outcome (overview_get s q.env average w)
        (unwritten (unfold overview_get in listed-world _ w _))
  handle_admin-Wrote get_users q w =
      of_outcome (user_list s q.env w) (unwritten (unfold user_list in listed-world _ w _))
  handle_admin-Wrote get_groups q w =
      of_outcome (group_list s q.env w) (unwritten (unfold group_list in listed-world _ w _))
  handle_admin-Wrote get_api_keys q w =
      of_outcome (api_key_list s q.env w) (unwritten (unfold api_key_list in listed-world _ w _))
  handle_admin-Wrote get_relays q w =
      of_outcome (relay_list s q.env w) (unwritten (unfold relay_list in listed-world _ w _))
  handle_admin-Wrote get_devices q w =
      of_outcome (device_list s q.env w) (unwritten (unfold device_list in listed-world _ w _))
  handle_admin-Wrote get_policies q w =
      of_outcome (policy_list s q.env w) (unwritten (unfold policy_list in listed-world _ w _))
  handle_admin-Wrote get_metrics q w =
      of_outcome (metrics_get s q.env average w) (unwritten (unfold metrics_get in ground arith))
  handle_admin-Wrote get_settings q w = of_outcome (settings_get s w) (unwritten refl)
  handle_admin-Wrote get_derp_map q w =
      of_outcome (derp_map_get s q.env w) (unwritten (unfold derp_map_get in ground arith))
  handle_admin-Wrote (post_user none) q w =
      of_outcome (user_create s q.env q.now q.fresh none w) (unwritten (unfold user_create in refl))
  handle_admin-Wrote (post_user (some req)) q w =
      of_outcome (user_create s q.env q.now q.fresh (some req) w)
        (Wrote-AtMost q.env.fault _ (user_create-Kept s q.env w q.now q.fresh req))
  handle_admin-Wrote (post_group none) q w =
      of_outcome (group_create s q.env q.now q.fresh none w)
        (unwritten (unfold group_create in refl))
  handle_admin-Wrote (post_group (some req)) q w =
      of_outcome (group_create s q.env q.now q.fresh (some req) w)
        (Wrote-AtMost q.env.fault _ (group_create-Kept s q.env w q.now q.fresh req))
  handle_admin-Wrote (post_api_key none) q w =
      of_outcome (api_key_create s q.env q.now q.fresh q.token none w)
        (unwritten (unfold api_key_create in refl))
  handle_admin-Wrote (post_api_key (some req)) q w =
      of_outcome (api_key_create s q.env q.now q.fresh q.token (some req) w)
        (api_key_create-Wrote s q.env w q.now q.fresh q.token req)
  handle_admin-Wrote (post_invitation none) q w =
      of_outcome (invitation_create s q.env q.now q.token q.fresh none w)
        (unwritten (unfold invitation_create in refl))
  handle_admin-Wrote (post_invitation (some req)) q w =
      of_outcome (invitation_create s q.env q.now q.token q.fresh (some req) w)
        (invitation_create-Wrote s q.env w q.now q.token q.fresh req)
  handle_admin-Wrote (post_policy none) q w =
      of_outcome (policy_create s q.env q.now none w) (unwritten (unfold policy_create in refl))
  handle_admin-Wrote (post_policy (some req)) q w =
      of_outcome (policy_create s q.env q.now (some req) w)
        (Wrote-AtMost q.env.fault _ (policy_create-Kept s q.env w q.now req))
  handle_admin-Wrote (remove_api_key path) q w =
      of_outcome (api_key_revoke s q.env q.now path w)
        (Wrote-AtMost q.env.fault _ (api_key_revoke-Kept s q.env w q.now path))
  handle_admin-Wrote (remove_relay path) q w =
      of_outcome (relay_delete s q.env path w)
        (Wrote-AtMost q.env.fault _ (relay_delete-Kept s q.env w path))
  handle_admin-Wrote (remove_device path) q w =
      of_outcome (device_delete s q.env path w)
        (Wrote-AtMost q.env.fault _ (device_delete-Kept s q.env w path))
  handle_admin-Wrote (remove_policy path) q w =
      of_outcome (policy_delete s q.env path w)
        (Wrote-AtMost q.env.fault _ (policy_delete-Kept s q.env w path))

  handle_relay-Wrote :
      (r : RelayRoute) (q : Request) (w : World)
      → Wrote s w.db (handle_relay average equal_fold s r q w).1.db
  unfolding handle_relay
  handle_relay-Wrote (register_relay none) q w =
      of_outcome (relay_register s q.env q.now none w) (unwritten (unfold relay_register in refl))
  handle_relay-Wrote (register_relay (some req)) q w =
      of_outcome (relay_register s q.env q.now (some req) w)
        (Wrote-AtMost q.env.fault _ (relay_register-Kept s q.env w q.now req))
  handle_relay-Wrote (heartbeat none) q w =
      of_outcome (relay_heartbeat s q.env q.now none w) (unwritten (unfold relay_heartbeat in refl))
  handle_relay-Wrote (heartbeat (some req)) q w =
      of_outcome (relay_heartbeat s q.env q.now (some req) w)
        (Wrote-AtMost q.env.fault _ (relay_heartbeat-Kept s q.env w q.now req))

  handle_device-Wrote :
      (r : DeviceRoute) (q : Request) (w : World)
      → Wrote s w.db (handle_device average equal_fold s r q w).1.db
  unfolding handle_device
  handle_device-Wrote (register_device req) q w =
      of_outcome (device_register s q.env q.checked_at q.draws req w)
        (device_register-Wrote s q.env w q.checked_at q.draws req)
  handle_device-Wrote (report_health path req) q w =
      of_outcome (device_health s q.env q.now path q.device_token req w)
        (device_health-Wrote s q.env w q.now path q.device_token req)
  handle_device-Wrote (get_network_config path) q w =
      of_outcome (device_network_config s q.env path q.device_token w)
        (unwritten (device_network_config-db s q.env w path q.device_token))
  handle_device-Wrote (open_session req) q w =
      of_outcome (session_create s q.env equal_fold q.now q.fresh q.device_token req w)
        (unwritten (session_create-db s q.env w equal_fold q.now q.fresh q.device_token req))
  handle_device-Wrote (poll_sessions waits query header) q w = unwritten (
      polled-world (relay_pending s q.env waits q.now query header q.device_token w)
      ∙ relay_pending-db s q.env w waits q.now query header q.device_token)
  handle_device-Wrote (stream client query header path conn) q w = unwritten (
      streamed-world
        (relay_stream s q.env client q.checked_at q.now query header q.device_token path conn w)
      ∙ relay_stream-db s q.env w client q.checked_at q.now query header q.device_token path conn)

  verify-Wrote :
      (fault : Fault) (now : ℕ) (api_key : String) (scopes : List String) (db : Db)
      → Wrote s db (verify_api_key_scope s fault now api_key scopes db).1
  unfolding verify_api_key_scope
  verify-Wrote fault now api_key scopes db =
      elim (Hashed-cases (hash_api_key s.hmac_hex api_key s.api_key_pepper)) [
        | inr (e, q) ↦ unwritten (ground (arith, q))
        | inl (digest, q) ↦ elim (Result-cases (get_api_key_by_digest s.codec fault digest db)) [
          | inr (e, f) ↦ unwritten (ground (arith, q, f))
          | inl (k, f) ↦
              Wrote-AtMost fault (touches_api_key k.id now) (unfold write in ground (arith, q, f))
        ]
      ]

  guard-Wrote :
      (fault : Fault) (now : ℕ) (next : World → Outcome × World) (scopes : List String)
      (api_key : String) (w : World)
      → ((w' : World) → Wrote s w'.db (next w').1.db)
      → Wrote s w.db (require_api_key_scopes s fault now (rejected 401) next scopes api_key w).1.db
  unfolding require_api_key_scopes
  guard-Wrote fault now next scopes api_key w k =
      let checked = verify_api_key_scope s fault now api_key scopes w.db in
      let first = verify-Wrote fault now api_key scopes w.db in
      elim (Bool-cases checked.0) [
        | inr b ↦ rw (b, require_api_key_scopes) first
        | inl b ↦ rw (b, require_api_key_scopes) (and_then first (k (record w { db = checked.1 })))
      ]

  serve-Wrote : (q : Request) (w : World) → Wrote s w.db (serve average equal_fold s q w).1.db
  unfolding serve
  serve-Wrote q w = elim (Route-cases q.route) [
    | inl (r, e) ↦
        rw (e, serve)
          (guard-Wrote q.env.fault q.now (handle_admin average equal_fold s r q) ("admin" ∷ [])
            q.api_key w (handle_admin-Wrote r q))
    | inr (inl (r, e)) ↦
        rw (e, serve)
          (guard-Wrote q.env.fault q.now (handle_relay average equal_fold s r q)
            ("admin" ∷ "relay" ∷ []) q.api_key w (handle_relay-Wrote r q))
    | inr (inr (r, e)) ↦ rw (e, serve) (handle_device-Wrote r q w)
  ]

  pub serve_all-Wrote :
      (qs : List Request) (w : World) → Wrote s w.db (serve_all average equal_fold s qs w).db
  unfolding serve_all
  serve_all-Wrote [] w = unwritten refl
  serve_all-Wrote (q ∷ qs) w =
      and_then (serve-Wrote q w) (serve_all-Wrote qs (serve average equal_fold s q w).1)
