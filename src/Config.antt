-- ===== src/Config.antt =====
-- internal/config/config.go: what the three programs are configured with. The environment, the host's
-- name and the directory for the user's configuration are arguments. A time.Duration is the 64 bits of
-- its number of nanoseconds.
pub mod Laws
mod Tests
use linkbit.Prelude.{
  ℕ, ℤ, pos, negsuc, ◌*◌, String, Bool, true, false, not, ◌&&◌, ◌||◌, Option, none, some, eqb, leb,
  ◌==◌, ◌^◌, if◌then◌else◌,
}
use linkbit.Net.{atoi}
use linkbit.Controller.Enrolment.{duration_bits}

-- os.Getenv, which is empty for what is not set.
abbrev pub Getenv : Type 0
Getenv = String → String

pub record ControllerConfig : Type 0 where
  pub listen_addr : String
  pub public_url : String
  pub database_path : String
  pub api_key_pepper : String
  pub web_dir : String
  pub log_level : String
  pub hub_wire_guard_enabled : Bool
  pub hub_wire_guard_iface : String
  pub hub_wire_guard_ip : String
  pub hub_wire_guard_network : String
  pub hub_wire_guard_port : ℤ
  pub hub_wire_guard_key : String
  pub hub_wire_guard_endpoint : String

pub record RelayConfig : Type 0 where
  pub controller_url : String
  pub api_key : String
  pub relay_id : String
  pub name : String
  pub public_url : String
  pub region : String
  pub listen_addr : String
  pub heartbeat : ℕ

pub record AgentConfig : Type 0 where
  pub controller_url : String
  pub enrollment_key : String
  pub device_name : String
  pub health_every : ℕ
  pub relay_enabled : Bool
  pub relay_poll_every : ℕ
  pub wire_guard_interface : String
  pub wire_guard_private_key : String
  pub wire_guard_public_key : String
  pub wire_guard_dry_run : Bool
  pub state_path : String
  pub device_fingerprint : String
  pub endpoint : String
  pub run_once : Bool

abbrev pub seconds : ℕ → ℕ
seconds n = n * 1000000000

-- What time.NewTicker takes: the duration is not zero, and its sign bit is not set.
abbrev pub is_positive : ℕ → Bool
is_positive bits = not (eqb bits 0) && not (leb (2 ^ 63) bits)

-- `seconds <= 0`
abbrev pub at_most_zero : ℤ → Bool
at_most_zero (pos n) = eqb n 0
at_most_zero (negsuc n) = true

-- strconv.ParseBool
unfoldable pub parse_bool : String → Option Bool
parse_bool s =
    if (s == "1") || (s == "t") || (s == "T") || (s == "true") || (s == "TRUE") || (s == "True")
    then some true
    else if (s == "0")
        || (s == "f")
        || (s == "F")
        || (s == "false")
        || (s == "FALSE")
        || (s == "False")
    then some false
    else none

-- The name is none where os.Hostname fails.
unfoldable pub hostname : Option String → String
hostname none = "linkbit-device"
hostname (some name) = if name == "" then "linkbit-device" else name

-- The directory is none where os.UserConfigDir fails, and `join` is filepath.Join.
unfoldable pub default_agent_state_path :
    (String → String → String → String) → Option String → String
default_agent_state_path join none = "linkbit-agent-state.json"
default_agent_state_path join (some dir) =
    if dir == "" then "linkbit-agent-state.json" else join dir "linkbit" "agent-state.json"

module _ (env : Getenv) where
  unfoldable pub getenv : String → String → String
  getenv key fallback = let text = env key in if text == "" then fallback else text

  unfoldable pub getenv_duration : String → ℕ → ℕ
  unfolding atoi duration_bits
  getenv_duration key fallback =
      let text = env key in
      if text == "" then fallback else elim (atoi text) [
        | none ↦ fallback
        | some n ↦ if at_most_zero n then fallback else duration_bits n
      ]

  unfoldable pub getenv_int : String → ℤ → ℤ
  unfolding atoi
  getenv_int key fallback =
      let text = env key in
      if text == "" then fallback else elim (atoi text) [ none ↦ fallback | some n ↦ n ]

  unfoldable pub getenv_bool : String → Bool → Bool
  unfolding parse_bool
  getenv_bool key fallback =
      let text = env key in
      if text == "" then fallback else elim (parse_bool text) [ none ↦ fallback | some b ↦ b ]

  -- The configuration, and whether there is an error beside it.
  unfoldable pub load_controller : ControllerConfig × Bool
  unfolding getenv getenv_int getenv_bool
  load_controller =
      let cfg : ControllerConfig = record {
        listen_addr = getenv "LINKBIT_LISTEN_ADDR" ":8080";
        public_url = env "LINKBIT_PUBLIC_URL";
        database_path = getenv "LINKBIT_DATABASE_PATH" "linkbit.db";
        api_key_pepper = env "LINKBIT_API_KEY_PEPPER";
        web_dir = env "LINKBIT_WEB_DIR";
        log_level = getenv "LINKBIT_LOG_LEVEL" "info";
        hub_wire_guard_enabled = getenv_bool "LINKBIT_HUB_WG_ENABLED" false;
        hub_wire_guard_iface = getenv "LINKBIT_HUB_WG_INTERFACE" "linkbit-hub";
        hub_wire_guard_ip = getenv "LINKBIT_HUB_WG_IP" "10.88.0.1";
        hub_wire_guard_network = getenv "LINKBIT_HUB_WG_NETWORK" "10.88.0.0/16";
        hub_wire_guard_port = getenv_int "LINKBIT_HUB_WG_PORT" (pos 41641);
        hub_wire_guard_key = env "LINKBIT_HUB_WG_PRIVATE_KEY";
        hub_wire_guard_endpoint = env "LINKBIT_HUB_WG_ENDPOINT";
      } in
      (cfg, cfg.api_key_pepper == "")

  unfoldable pub load_relay : RelayConfig
  unfolding getenv getenv_duration
  load_relay = record {
    controller_url = env "LINKBIT_CONTROLLER_URL";
    api_key = env "LINKBIT_API_KEY";
    relay_id = env "LINKBIT_RELAY_ID";
    name = getenv "LINKBIT_RELAY_NAME" "linkbit-relay";
    public_url = env "LINKBIT_RELAY_PUBLIC_URL";
    region = getenv "LINKBIT_RELAY_REGION" "default";
    listen_addr = getenv "LINKBIT_LISTEN_ADDR" ":8443";
    heartbeat = getenv_duration "LINKBIT_HEARTBEAT_SECONDS" (seconds 30);
  }

  unfoldable pub load_agent :
      (String → String → String → String) → Option String → Option String → AgentConfig
  unfolding getenv getenv_duration getenv_bool hostname default_agent_state_path
  load_agent join name dir = record {
    controller_url = env "LINKBIT_CONTROLLER_URL";
    enrollment_key = env "LINKBIT_ENROLLMENT_KEY";
    device_name = getenv "LINKBIT_DEVICE_NAME" (hostname name);
    health_every = getenv_duration "LINKBIT_HEALTH_SECONDS" (seconds 30);
    relay_enabled = getenv_bool "LINKBIT_TCP_RELAY_ENABLED" true;
    relay_poll_every = getenv_duration "LINKBIT_TCP_RELAY_POLL_SECONDS" (seconds 2);
    wire_guard_interface = getenv "LINKBIT_WG_INTERFACE" "linkbit0";
    wire_guard_private_key = env "LINKBIT_WG_PRIVATE_KEY";
    wire_guard_public_key = env "LINKBIT_WG_PUBLIC_KEY";
    wire_guard_dry_run = getenv_bool "LINKBIT_WG_DRY_RUN" false;
    state_path = getenv "LINKBIT_STATE_PATH" (default_agent_state_path join dir);
    device_fingerprint = env "LINKBIT_DEVICE_FINGERPRINT";
    endpoint = env "LINKBIT_ENDPOINT";
    run_once = getenv_bool "LINKBIT_RUN_ONCE" false;
  }
