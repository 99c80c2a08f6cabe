-- ===== src/Store/Rows.antt =====
-- The columns of internal/store/sqlite/store.go: formatTime, parseTime and the scan functions, and
-- the values that the INSERT statements bind.
pub mod Laws
use linkbit.Prelude.{
  ℕ, ◌≡◌, ◌≢◌, String, Option, none, some, List, ◌==◌, eq_iff, eqb, inl, inr, Bool, true, false,
  ◌<◌, ◌*◌, Bool-cases, arith, if◌then◌else◌,
}
use linkbit.Models.{
  PolicyRow, InvitationRow, User, DeviceGroup, RelayNode, Invitation, ApiKey, Device, NetworkPolicy,
}
use linkbit.Store.{Codec, Result, ok, err, bad_column}

abbrev pub bool_int : Bool → ℕ
bool_int true = 1
bool_int false = 0

-- The year 10000, in nanoseconds since the zero time: time.RFC3339Nano reads back what it writes before
-- it, and not from then on.
abbrev pub year_10000 : ℕ
year_10000 = 315537897600 * 1000000000

-- What the library promises of its text forms.
pub record CodecLaws (codec : Codec) : Type 0 where
  pub parse-format : (t : ℕ) → t < year_10000 → codec.parse (codec.format t) ≡ some t
  pub format-ne-empty : (t : ℕ) → codec.format t ≢ ""
  pub unmarshal-marshal :
      (ports : Option (List String)) → codec.unmarshal (codec.marshal ports) ≡ some ports

-- A time whose text is read back, as that of any time before the year 10000 is.
abbrev pub IsRead : Codec → ℕ → Type 0
IsRead codec t = codec.parse (codec.format t) ≡ some t

module _ (codec : Codec) where
  unfoldable pub format_time : ℕ → String
  format_time t = if eqb t 0 then "" else codec.format t

  unfoldable pub parse_time : String → ℕ
  parse_time value =
      if value == "" then 0 else elim (codec.parse value) [ none ↦ 0 | some parsed ↦ parsed ]

  -- The times that are bound and scanned, each from and to its column.
  unfoldable pub user_row : User ℕ → User String
  user_row user = record {
    id = user.id;
    name = user.name;
    email = user.email;
    role = user.role;
    created_at = format_time user.created_at;
  }

  unfoldable pub scan_user : User String → User ℕ
  scan_user row = record {
    id = row.id;
    name = row.name;
    email = row.email;
    role = row.role;
    created_at = parse_time row.created_at;
  }

  unfoldable pub group_row : DeviceGroup ℕ → DeviceGroup String
  group_row group = record {
    id = group.id;
    name = group.name;
    description = group.description;
    created_at = format_time group.created_at;
  }

  unfoldable pub scan_group : DeviceGroup String → DeviceGroup ℕ
  scan_group row = record {
    id = row.id;
    name = row.name;
    description = row.description;
    created_at = parse_time row.created_at;
  }

  unfoldable pub relay_row : RelayNode ℕ → RelayNode String
  relay_row relay = record {
    id = relay.id;
    name = relay.name;
    region = relay.region;
    public_url = relay.public_url;
    ipv4 = relay.ipv4;
    ipv6 = relay.ipv6;
    status = relay.status;
    load = relay.load;
    last_seen_at = format_time relay.last_seen_at;
    registered = format_time relay.registered;
  }

  unfoldable pub scan_relay : RelayNode String → RelayNode ℕ
  scan_relay row = record {
    id = row.id;
    name = row.name;
    region = row.region;
    public_url = row.public_url;
    ipv4 = row.ipv4;
    ipv6 = row.ipv6;
    status = row.status;
    load = row.load;
    last_seen_at = parse_time row.last_seen_at;
    registered = parse_time row.registered;
  }

  -- There is no column for the plain token.
  unfoldable pub invitation_row : Invitation ℕ → InvitationRow
  invitation_row invitation = record {
    id = invitation.id;
    token_hash = invitation.token_hash;
    user_id = invitation.user_id;
    group_id = invitation.group_id;
    reusable = bool_int invitation.reusable;
    expires_at = format_time invitation.expires_at;
    used_at = format_time invitation.used_at;
    created_at = format_time invitation.created_at;
  }

  unfoldable pub scan_invitation : InvitationRow → Invitation ℕ
  scan_invitation row = record {
    id = row.id;
    token_hash = row.token_hash;
    user_id = row.user_id;
    group_id = row.group_id;
    reusable = eqb row.reusable 1;
    expires_at = parse_time row.expires_at;
    used_at = parse_time row.used_at;
    created_at = parse_time row.created_at;
    plaintext_token = "";
  }

  -- Nor for the plain key.
  unfoldable pub api_key_row : ApiKey ℕ → ApiKey String
  api_key_row api_key = record {
    id = api_key.id;
    name = api_key.name;
    digest = api_key.digest;
    scope = api_key.scope;
    created_at = format_time api_key.created_at;
    last_used_at = format_time api_key.last_used_at;
    revoked_at = format_time api_key.revoked_at;
    plaintext_key = "";
  }

  unfoldable pub scan_api_key : ApiKey String → ApiKey ℕ
  scan_api_key row = record {
    id = row.id;
    name = row.name;
    digest = row.digest;
    scope = row.scope;
    created_at = parse_time row.created_at;
    last_used_at = parse_time row.last_used_at;
    revoked_at = parse_time row.revoked_at;
    plaintext_key = "";
  }

  -- Nor for the device's own token.
  unfoldable pub device_row : Device ℕ → Device String
  device_row device = record {
    id = device.id;
    user_id = device.user_id;
    group_id = device.group_id;
    name = device.name;
    virtual_ip = device.virtual_ip;
    public_key = device.public_key;
    endpoint = device.endpoint;
    token_hash = device.token_hash;
    device_token = "";
    status = device.status;
    last_seen_at = format_time device.last_seen_at;
    created_at = format_time device.created_at;
    fingerprint = device.fingerprint;
  }

  unfoldable pub scan_device : Device String → Device ℕ
  scan_device row = record {
    id = row.id;
    user_id = row.user_id;
    group_id = row.group_id;
    name = row.name;
    virtual_ip = row.virtual_ip;
    public_key = row.public_key;
    endpoint = row.endpoint;
    token_hash = row.token_hash;
    device_token = "";
    status = row.status;
    last_seen_at = parse_time row.last_seen_at;
    created_at = parse_time row.created_at;
    fingerprint = row.fingerprint;
  }

  unfoldable pub policy_row : NetworkPolicy ℕ (Option (List String)) → PolicyRow
  policy_row policy = record {
    id = policy.id;
    name = policy.name;
    source_id = policy.source_id;
    target_id = policy.target_id;
    ports = codec.marshal policy.ports;
    protocol = policy.protocol;
    enabled = bool_int policy.enabled;
    description = policy.description;
    created_at = format_time policy.created_at;
    updated_at = format_time policy.updated_at;
  }

  -- A row whose ports are no JSON list of texts is an error.
  unfoldable pub scan_policy : PolicyRow → Result (NetworkPolicy ℕ (Option (List String)))
  scan_policy row = elim (codec.unmarshal row.ports) [
    | none ↦ err bad_column
    | some ports ↦ ok (record {
      id = row.id;
      name = row.name;
      source_id = row.source_id;
      target_id = row.target_id;
      ports = ports;
      protocol = row.protocol;
      enabled = eqb row.enabled 1;
      description = row.description;
      created_at = parse_time row.created_at;
      updated_at = parse_time row.updated_at;
    })
  ]
