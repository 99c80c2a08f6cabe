-- ===== src/Controller/Routes.antt =====
-- internal/controller/server.go, Handler: the routes and the check that stands before each. The bodies
-- of the answers are left out here, and so is /healthz, which stands in Controller.Status.
pub mod Effects
pub mod Histories
pub mod Rejections
pub mod Writes
pub mod Laws
mod Tests
use linkbit.Prelude.{
  ℕ, String, Bool, true, false, not, ◌&&◌, ◌||◌, Option, none, some, List, [], ◌∷◌, ◌==◌,
  if◌then◌else◌,
}
use linkbit.Models.{
  UserCreateRequest, DeviceGroupCreateRequest, ApiKeyCreateRequest, InvitationCreateRequest,
  RelayNode, DeviceRegistrationRequest, DeviceHealthReport, TcpRelaySessionRequest,
}
use linkbit.Store.Policies.{Policy}
use linkbit.Controller.Server.{Server, World, Env, Response, replied, failed, no_content}
use linkbit.Controller.Guard.{require_api_key, require_api_key_scopes}
use linkbit.Controller.Enrolment.{Draws, device_register, invitation_create}
use linkbit.Controller.Admin.{
  user_create, user_list, group_create, group_list, relay_register, relay_delete, api_key_create,
  api_key_list, api_key_revoke, relay_heartbeat, relay_list, device_list, device_delete,
  policy_create, policy_list, policy_delete, overview_get,
}
use linkbit.Controller.Status.{metrics_get, settings_get, derp_map_get}
use linkbit.Controller.Requests.{
  device_health, device_network_config, session_create, relay_pending, relay_stream, Polled,
  Streamed,
}

-- The routes behind requireAPIKey, the two that relays may use, and those of devices. `path` is the
-- id in the path.
pub data AdminRoute : Type 0 where
  get_overview get_users get_groups get_api_keys get_relays get_devices get_policies : AdminRoute
  get_metrics get_settings get_derp_map : AdminRoute
  post_user : Option UserCreateRequest → AdminRoute
  post_group : Option DeviceGroupCreateRequest → AdminRoute
  post_api_key : Option ApiKeyCreateRequest → AdminRoute
  post_invitation : Option InvitationCreateRequest → AdminRoute
  post_policy : Option Policy → AdminRoute
  remove_api_key remove_relay remove_device remove_policy : String → AdminRoute

pub data RelayRoute : Type 0 where
  register_relay heartbeat : Option (RelayNode ℕ) → RelayRoute

pub data DeviceRoute : Type 0 where
  register_device : Option DeviceRegistrationRequest → DeviceRoute
  report_health : String → Option DeviceHealthReport → DeviceRoute
  get_network_config : String → DeviceRoute
  open_session : Option TcpRelaySessionRequest → DeviceRoute
  poll_sessions : Bool → String → String → DeviceRoute
  stream : Bool → String → String → String → Option ℕ → DeviceRoute

pub data Route : Type 0 where
  admin_route : AdminRoute → Route
  relay_route : RelayRoute → Route
  device_route : DeviceRoute → Route

-- The scopes that the check before a route asks for, none where no check stands there.
abbrev pub scopes_of : Route → Option (List String)
scopes_of (admin_route r) = some ("admin" ∷ [])
scopes_of (relay_route r) = some ("admin" ∷ "relay" ∷ [])
scopes_of (device_route r) = none

-- A request: its route, its two headers, what the system does in it, and what it draws.
pub record Request : Type 0 where
  pub route : Route
  pub api_key : String
  pub device_token : String
  pub env : Env
  pub checked_at : ℕ
  pub now : ℕ
  pub fresh : String
  pub token : Option String
  pub draws : Draws

-- The status, and no more of the answer.
pub data Outcome : Type 0 where
  succeeded : ℕ → Outcome
  rejected : ℕ → Outcome

abbrev pub outcome : {A : Type 0} → Response A × World → Outcome × World
outcome (replied status a, w) = (succeeded status, w)
outcome (no_content, w) = (succeeded 204, w)
outcome (failed status message, w) = (rejected status, w)

abbrev pub polled_outcome : Polled × World → Outcome × World
polled_outcome (Polled.turned_away status message, w) = (rejected status, w)
polled_outcome (Polled.polled wait, w) = (succeeded 200, w)

abbrev pub streamed_outcome : Streamed × World → Outcome × World
streamed_outcome (Streamed.unauthorised status message, w) = (rejected status, w)
streamed_outcome (Streamed.invalid e, w) = (rejected 404, w)
streamed_outcome (Streamed.not_hijacked, w) = (rejected 500, w)
streamed_outcome (Streamed.handed e, w) = (succeeded 101, w)

module _ (average : List ℕ → ℕ) (equal_fold : String → String → Bool) (s : Server) where
  -- The handler of a route.
  unfoldable pub handle_admin : AdminRoute → Request → World → Outcome × World
  handle_admin get_overview q w = outcome (overview_get s q.env average w)
  handle_admin get_users q w = outcome (user_list s q.env w)
  handle_admin get_groups q w = outcome (group_list s q.env w)
  handle_admin get_api_keys q w = outcome (api_key_list s q.env w)
  handle_admin get_relays q w = outcome (relay_list s q.env w)
  handle_admin get_devices q w = outcome (device_list s q.env w)
  handle_admin get_policies q w = outcome (policy_list s q.env w)
  handle_admin get_metrics q w = outcome (metrics_get s q.env average w)
  handle_admin get_settings q w = outcome (settings_get s w)
  handle_admin get_derp_map q w = outcome (derp_map_get s q.env w)
  handle_admin (post_user req) q w = outcome (user_create s q.env q.now q.fresh req w)
  handle_admin (post_group req) q w = outcome (group_create s q.env q.now q.fresh req w)
  handle_admin (post_api_key req) q w = outcome (api_key_create s q.env q.now q.fresh q.token req w)
  handle_admin (post_invitation req) q w =
      outcome (invitation_create s q.env q.now q.token q.fresh req w)
  handle_admin (post_policy req) q w = outcome (policy_create s q.env q.now req w)
  handle_admin (remove_api_key path) q w = outcome (api_key_revoke s q.env q.now path w)
  handle_admin (remove_relay path) q w = outcome (relay_delete s q.env path w)
  handle_admin (remove_device path) q w = outcome (device_delete s q.env path w)
  handle_admin (remove_policy path) q w = outcome (policy_delete s q.env path w)

  unfoldable pub handle_relay : RelayRoute → Request → World → Outcome × World
  handle_relay (register_relay req) q w = outcome (relay_register s q.env q.now req w)
  handle_relay (heartbeat req) q w = outcome (relay_heartbeat s q.env q.now req w)

  unfoldable pub handle_device : DeviceRoute → Request → World → Outcome × World
  handle_device (register_device req) q w =
      outcome (device_register s q.env q.checked_at q.draws req w)
  handle_device (report_health path req) q w =
      outcome (device_health s q.env q.now path q.device_token req w)
  handle_device (get_network_config path) q w =
      outcome (device_network_config s q.env path q.device_token w)
  handle_device (open_session req) q w =
      outcome (session_create s q.env equal_fold q.now q.fresh q.device_token req w)
  handle_device (poll_sessions waits query header) q w =
      polled_outcome (relay_pending s q.env waits q.now query header q.device_token w)
  handle_device (stream client query header path conn) q w =
      streamed_outcome
        (relay_stream s q.env client q.checked_at q.now query header q.device_token path conn w)

  -- The check first, where the route has one.
  unfoldable pub serve : Request → World → Outcome × World
  unfolding handle_admin handle_relay handle_device
  serve q w = elim q.route [
    | admin_route r ↦
        require_api_key s q.env.fault q.now (rejected 401) (handle_admin r q) q.api_key w
    | relay_route r ↦
        require_api_key_scopes s q.env.fault q.now (rejected 401) (handle_relay r q)
          ("admin" ∷ "relay" ∷ []) q.api_key w
    | device_route r ↦ handle_device r q w
  ]

  unfoldable pub serve_all : List Request → World → World
  unfolding serve
  serve_all [] w = w
  serve_all (q ∷ qs) w = serve_all qs (serve q w).1
