-- ===== src/Controller/Server.antt =====
-- internal/controller/server.go: what a request handler reads and changes. A handler gets the decoded
-- body of its request (none where decodeJSON fails), and returns the response and what it leaves.
-- Logging is left out. The statements that fail in the request are those of `fault`.
use linkbit.Prelude.{ℕ, String, Bool, ◌||◌, Option, none, some, List, ◌==◌, if◌then◌else◌}
use linkbit.Models.{Device}
use linkbit.Command.{Command, Runner}
use linkbit.Auth.{hash_api_key, Hashed}
use linkbit.Store.{Codec, Db, Fault, Result, is_not_found}
use linkbit.Store.Devices.{list_devices, get_device_by_id_and_token_hash}
use linkbit.Controller.Broker.{TcpRelayBroker}
use linkbit.Controller.DerpMap.{DerpLibrary}
use linkbit.Controller.Hub.{WireGuardHub, sync}

-- The fields of `Server` that do not change, with the library code that they stand on: `codec` is
-- the store's, `hmac_hex` the digest's, `contains` tells whether a network has an address, and `derp` is
-- what the DERP map stands on.
pub record Server : Type 0 where
  pub codec : Codec
  pub hmac_hex : String → String → String
  pub contains : String → String → Bool
  pub api_key_pepper : String
  pub admin_digest : String
  pub hub : Option WireGuardHub
  pub public_url : String
  pub listen_addr : String
  pub log_level : String
  pub web_dir : String
  pub derp : DerpLibrary

-- The store, the broker, and the commands that were run, latest first.
pub record World : Type 0 where
  pub db : Db
  pub broker : TcpRelayBroker
  pub trace : List Command

-- What the system does in a request: the statements that fail, the answers to commands, and the file
-- that the hub's key is written to.
pub record Env : Type 0 where
  pub fault : Fault
  pub runner : Runner
  pub key_file : Option String

-- writeJSON with a status and a payload, writeError with a status and a message, and 204.
pub data Response (A : Type 0) : Type 0 where
  replied : ℕ → A → Response A
  failed : ℕ → String → Response A
  no_content : Response A

-- SyncFromStore of internal/controller/wireguard_hub.go: every error is only logged.
unfoldable pub sync_from_store :
    Server → Env → WireGuardHub → Result (List (Device ℕ)) → List Command → List Command
sync_from_store s env hub devices trace = elim devices [
  | Result.err e ↦ trace
  | Result.ok ds ↦ (sync s.contains hub env.key_file ds env.runner trace).1
]

-- SyncHub
unfoldable pub sync_hub : Server → Env → World → World
unfolding sync_from_store
sync_hub s env w = elim s.hub [
  | none ↦ w
  | some hub ↦
      let devices = list_devices s.codec env.fault w.db in
      record w { trace = sync_from_store s env hub devices w.trace }
]

pub data Authenticated : Type 0 where
  refused : ℕ → String → Authenticated
  authenticated : Device ℕ → Authenticated

-- authenticateDeviceCredentials, with the header of the token; authenticateDevice is the same with the
-- id of the path.
unfoldable pub authenticate_device_credentials :
    Server → Fault → String → String → Db → Authenticated
authenticate_device_credentials s fault device_id device_token db =
    if (device_id == "") || (device_token == "")
    then refused 401 "device id and token are required"
    else elim (hash_api_key s.hmac_hex device_token s.api_key_pepper) [
      | Hashed.err e ↦ refused 401 "invalid device token"
      | Hashed.ok token_hash ↦
          elim (get_device_by_id_and_token_hash s.codec fault device_id token_hash db) [
            | Result.err e ↦
                if is_not_found e
                then refused 401 "invalid device token"
                else refused 500 "device authentication failed"
            | Result.ok device ↦ authenticated device
          ]
    ]
