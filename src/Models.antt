-- ===== src/Models.antt =====
-- internal/models/models.go: the records that the store, the controller and the agents exchange.
-- A `time.Time` is the number of nanoseconds since the zero time, January 1 of the year 1, UTC, so
-- the zero time is 0. `T` is the type of the times: ℕ in a model, the text of a column in a row. A
-- float64 is kept as its bit pattern. A string type (DeviceStatus, RelayStatus) is a text.
use linkbit.Prelude.{ℕ, ℤ, String, Bool, Option, List}

pub record User (T : Type 0) : Type 0 where
  pub id : String
  pub name : String
  pub email : String
  pub role : String
  pub created_at : T

pub record DeviceGroup (T : Type 0) : Type 0 where
  pub id : String
  pub name : String
  pub description : String
  pub created_at : T

abbrev pub device_status_online : String
device_status_online = "online"

pub record Device (T : Type 0) : Type 0 where
  pub id : String
  pub user_id : String
  pub group_id : String
  pub name : String
  pub virtual_ip : String
  pub public_key : String
  pub endpoint : String
  pub token_hash : String
  pub device_token : String
  pub status : String
  pub last_seen_at : T
  pub created_at : T
  pub fingerprint : String

pub record DeviceRegistrationRequest : Type 0 where
  pub enrollment_key : String
  pub name : String
  pub public_key : String
  pub fingerprint : String
  pub endpoint : String

pub record DeviceHealthReport : Type 0 where
  pub status : String
  pub latency_ms : ℤ
  pub peers_reachable : ℤ
  pub peers_total : ℤ
  pub endpoint : String

pub record NetworkPeer : Type 0 where
  pub id : String
  pub name : String
  pub virtual_ip : String
  pub public_key : String
  pub endpoint : String
  pub allowed_ips : List String

abbrev pub relay_status_healthy : String
relay_status_healthy = "healthy"

abbrev pub relay_status_unhealthy : String
relay_status_unhealthy = "unhealthy"

pub record RelayNode (T : Type 0) : Type 0 where
  pub id : String
  pub name : String
  pub region : String
  pub public_url : String
  pub ipv4 : String
  pub ipv6 : String
  pub status : String
  pub load : ℕ
  pub last_seen_at : T
  pub registered : T

-- The answer to a registration.
pub record DeviceRegistrationResponse : Type 0 where
  pub device : Device ℕ
  pub relays : List (RelayNode ℕ)
  pub message : String

-- The ports are a slice, which is nil where the JSON leaves it out.
pub record NetworkPolicy (T P : Type 0) : Type 0 where
  pub id : String
  pub name : String
  pub source_id : String
  pub target_id : String
  pub ports : P
  pub protocol : String
  pub enabled : Bool
  pub description : String
  pub created_at : T
  pub updated_at : T

pub record Invitation (T : Type 0) : Type 0 where
  pub id : String
  pub token_hash : String
  pub user_id : String
  pub group_id : String
  pub reusable : Bool
  pub expires_at : T
  pub used_at : T
  pub created_at : T
  pub plaintext_token : String

-- The rows of the two: their times and ports are texts, and a Boolean is an integer.
pub record PolicyRow : Type 0 where
  pub id : String
  pub name : String
  pub source_id : String
  pub target_id : String
  pub ports : String
  pub protocol : String
  pub enabled : ℕ
  pub description : String
  pub created_at : String
  pub updated_at : String

pub record InvitationRow : Type 0 where
  pub id : String
  pub token_hash : String
  pub user_id : String
  pub group_id : String
  pub reusable : ℕ
  pub expires_at : String
  pub used_at : String
  pub created_at : String

pub record ApiKey (T : Type 0) : Type 0 where
  pub id : String
  pub name : String
  pub digest : String
  pub scope : String
  pub created_at : T
  pub last_used_at : T
  pub revoked_at : T
  pub plaintext_key : String

pub record TcpRelaySessionRequest : Type 0 where
  pub source_device_id : String
  pub target : String
  pub target_port : ℤ
  pub protocol : String

pub record TcpRelaySession : Type 0 where
  pub id : String
  pub source_device_id : String
  pub target_device_id : String
  pub target_name : String
  pub target_virtual_ip : String
  pub target_port : ℤ
  pub protocol : String
  pub expires_at : ℕ

pub record UserCreateRequest : Type 0 where
  pub id : String
  pub name : String
  pub email : String
  pub role : String

pub record DeviceGroupCreateRequest : Type 0 where
  pub id : String
  pub name : String
  pub description : String

pub record InvitationCreateRequest : Type 0 where
  pub user_id : String
  pub group_id : String
  pub reusable : Bool
  pub expires_in_seconds : ℤ

pub record ApiKeyCreateRequest : Type 0 where
  pub name : String
  pub scope : String

-- A policy whose times are instants, and whose ports are nil or a list.
abbrev pub Policy : Type 0
Policy = NetworkPolicy ℕ (Option (List String))

pub record NetworkConfig : Type 0 where
  pub device : Device ℕ
  pub peers : List NetworkPeer
  pub policies : List Policy
  pub relays : List (RelayNode ℕ)
