-- ===== src/Controller/Routes/Tests.antt =====
-- Runs of the routes.
use linkbit.Prelude.{
  ℕ, pos, ◌≡◌, refl, String, IsIn, Bool, true, false, none, some, List, [], ◌∷◌, arith, ◌==◌, ap,
  eq_iff, inl, inr,
}
use linkbit.Prelude.Text.{trim_space}
use linkbit.Prelude.Select.{find_row}
use linkbit.Prelude.Sort.{sort_by}
use linkbit.Models.{ApiKey, Device, TcpRelaySessionRequest, TcpRelaySession}
use linkbit.Auth.{hash_api_key, verify_api_key}
use linkbit.Store.Rows.{parse_time, scan_api_key, scan_device, scan_policy}
use linkbit.Store.Keys.{get_api_key_by_digest, revoke_api_key}
use linkbit.Store.Devices.{get_device_by_id_and_token_hash, list_devices}
use linkbit.Store.Policies.{list_policies}
use linkbit.Store.Unique.{IsKeyed}
use linkbit.Store.Sample.{sample_laws, no_fault}
use linkbit.Controller.Broker.{create, answered}
use linkbit.Prelude.Assoc.{lookup}
use linkbit.Controller.Requests.Joining.{Visit, IsBy, session_create-joined}
use linkbit.Controller.Peers.{resolve_relay_target, allowed_peers}
use linkbit.Controller.Server.{World, authenticate_device_credentials}
use linkbit.Controller.Guard.{verify_api_key_scope}
use linkbit.Controller.Guard.Laws.{Stored}
use linkbit.Controller.Admin.{policy_create}
use linkbit.Controller.Requests.{session_create, relay_pending, relay_stream, Polled, Streamed}
use linkbit.Controller.Requests.Sessions.{Opened, session_create-Opened}
use linkbit.Controller.Routes.{
  admin_route, post_policy, device_route, register_device, Request, rejected, handle_admin, serve,
  serve_all,
}
use linkbit.Controller.Routes.Laws.{serve_all-IsKeyed, revoked_key_fails}
use linkbit.Controller.Routes.Rejections.{serve-unauthorised, handle_admin-rejected}
use linkbit.Controller.Sample.{server, env, db, db-IsKeyed, world, request, draws}

abbrev mean : List ℕ → ℕ
mean loads = 0

abbrev same_text : String → String → Bool
same_text a b = a == b

abbrev join : Request
join = record {
  route = device_route (register_device (some request));
  api_key = "";
  device_token = "";
  env = env;
  checked_at = 2;
  now = 2;
  fresh = "f";
  token = none;
  draws = draws;
}

abbrev meddle : Request
meddle = record join { route = admin_route (post_policy none); api_key = "lb_relay" }

serve_all-IsKeyed_example :
    IsKeyed (serve_all mean same_text server (join ∷ meddle ∷ join ∷ []) world).db
serve_all-IsKeyed_example =
    serve_all-IsKeyed mean same_text server (join ∷ meddle ∷ join ∷ []) world db-IsKeyed

revoked_key_fails_example :
    let revoked : World = record world {
      db = (revoke_api_key server.codec no_fault "k" 7 world.db).1;
    } in
    (verify_api_key_scope server no_fault 9 "lb_relay"
      ("admin" ∷ "relay" ∷ [])
      (serve_all mean same_text server (join ∷ meddle ∷ []) revoked).db).0
    ≡ false
unfolding hash_api_key verify_api_key trim_space
revoked_key_fails_example =
    revoked_key_fails mean same_text server sample_laws no_fault no_fault "k" "lb_relay" "lb_relay"
      7 9 (join ∷ meddle ∷ []) world ("admin" ∷ "relay" ∷ []) db-IsKeyed refl (omega arith) refl
      refl refl refl

no_admin_key : (digest : String) → ¬ Stored digest ("admin" ∷ []) world.db.api_keys
no_admin_key digest st = elim st.listed [
  | inl e ↦ elim st.scoped [
    | inl i ↦
        let clash : ◌≡◌ {A = String} "relay" "admin" = cc (ap (λ (k : ApiKey String). k.scope) e) in
        ground (arith, eq_iff "relay" "admin", clash)
    | inr i ↦ absurd i
  ]
  | inr i ↦ absurd i
]

-- A relay's key is no admin's.
serve-unauthorised_example : serve mean same_text server meddle world ≡ (rejected 401, world)
unfolding verify_api_key_scope hash_api_key verify_api_key trim_space get_api_key_by_digest find_row
    scan_api_key
serve-unauthorised_example =
    serve-unauthorised mean same_text server meddle world ("admin" ∷ []) refl refl
      (λ digest e. no_admin_key digest)

handle_admin-rejected_example :
    (handle_admin mean same_text server (post_policy none) meddle world).1.db ≡ world.db
unfolding handle_admin policy_create
handle_admin-rejected_example =
    handle_admin-rejected mean same_text server (post_policy none) meddle world 400 refl

abbrev device : String → String → Device String
device id ip = record {
  id = id;
  user_id = "u";
  group_id = "default";
  name = id;
  virtual_ip = ip;
  public_key = "pk";
  endpoint = "";
  token_hash = "lb_token";
  device_token = "";
  status = "online";
  last_seen_at = ".i";
  created_at = ".i";
  fingerprint = "";
}

abbrev peopled : World
peopled = record world {
  db = record db {
    devices = device "alice" "10.88.1.2" ∷ device "bob" "10.88.1.3" ∷ [];
    policies =
        record {
          id = "p";
          name = "all";
          source_id = "*";
          target_id = "bob";
          ports = "n";
          protocol = "tcp";
          enabled = 1;
          description = "";
          created_at = ".i";
          updated_at = ".i";
        }
        ∷ [];
  };
}

abbrev wish : TcpRelaySessionRequest
wish = record { source_device_id = "alice"; target = "bob"; target_port = pos 22; protocol = "" }

abbrev session : TcpRelaySession
session = record {
  id = "s";
  source_device_id = "alice";
  target_device_id = "bob";
  target_name = "bob";
  target_virtual_ip = "10.88.1.3";
  target_port = pos 22;
  protocol = "tcp";
  expires_at = 120000000005;
}

session_create-Opened_example : Opened same_text server env 5 "s" "lb_token" wish peopled session
unfolding session_create authenticate_device_credentials hash_api_key trim_space
    get_device_by_id_and_token_hash find_row scan_device parse_time list_devices list_policies
    scan_policy sort_by resolve_relay_target allowed_peers create
session_create-Opened_example =
    session_create-Opened same_text server env 5 "s" "lb_token" wish peopled 201 session refl

abbrev visit : String → Visit
visit id = record { env = env; checked_at = 6; at = 7; query = ""; header = id; token = "lb_token" }

session_create-joined_example :
    let w1 = (session_create server env same_text 5 "s" "lb_token" (some wish) peopled).1 in
    let (answer, w2) = relay_pending server env true 7 "" "bob" "lb_token" w1 in
    let (agent_end, w3) = relay_stream server env false 6 7 "" "bob" "lb_token" "s" (some 8) w2 in
    let (client_end, w4) = relay_stream server env true 6 7 "" "alice" "lb_token" "s" (some 9) w3 in
    ((found : List TcpRelaySession) × (answer ≡ Polled.polled (answered found))
      × IsIn session found)
    × (agent_end ≡ Streamed.handed none)
    × (client_end ≡ Streamed.handed none)
    × (w4.broker.proxied ≡ (9, 8) ∷ [])
    × (lookup "s" w4.broker.sessions ≡ none)
unfolding session_create authenticate_device_credentials hash_api_key trim_space
    get_device_by_id_and_token_hash find_row scan_device parse_time list_devices list_policies
    scan_policy sort_by resolve_relay_target allowed_peers create
session_create-joined_example =
    let by_bob : IsBy server "bob" session.expires_at peopled.db (visit "bob") = record {
      named = refl;
      device = scan_device server.codec (device "bob" "10.88.1.3");
      shown = refl;
      checked_in_time = omega arith;
      in_time = omega arith;
    } in
    let by_alice : IsBy server "alice" session.expires_at peopled.db (visit "alice") = record {
      named = refl;
      device = scan_device server.codec (device "alice" "10.88.1.2");
      shown = refl;
      checked_in_time = omega arith;
      in_time = omega arith;
    } in
    session_create-joined server same_text env 5 "s" "lb_token" wish peopled 201 session true 9 8
      (visit "bob") (visit "bob") (visit "alice") tt refl by_bob by_bob by_alice
