-- ===== src/Controller/Enrolment.antt =====
-- internal/controller/server.go: invitations and the registration of devices. What a request draws
-- (the clock at each reading, UUIDs, and the text of the 32 random bytes of a token, none where they
-- cannot be read) is an argument.
pub mod Laws
pub mod Token
pub mod Once
pub mod Race
pub mod Lifetime
use Prim.Native.String.{◌++◌ as append}
use linkbit.Prelude.{
  ℕ, ℤ, pos, negsuc, suc, ◌+◌, ◌-◌, ◌*◌, ◌%◌, ◌^◌, String, Bool, true, false, not, ◌&&◌, ◌||◌,
  Option, none, some, List, [], ◌∷◌, ltb, leb, eqb, ◌==◌, if◌then◌else◌,
}
use linkbit.Prelude.Text.{trim_space}
use linkbit.Models.{
  DeviceRegistrationResponse, Device, Invitation, RelayNode, DeviceRegistrationRequest,
  InvitationCreateRequest, device_status_online,
}
use linkbit.Net.{valid_wire_guard_endpoint}
use linkbit.Auth.{new_api_key, hash_api_key, Hashed}
use linkbit.Store.{Result, is_not_found}
use linkbit.Store.Users.{get_user, get_group}
use linkbit.Store.Keys.{create_invitation, get_invitation_by_token_hash, mark_invitation_used}
use linkbit.Store.Devices.{create_device}
use linkbit.Store.Relays.{list_relays}
use linkbit.Controller.Server.{Server, World, Env, Response, replied, failed, sync_hub}

-- `itoa` is the decimal text of a number. The UUID's first two bytes are used.
unfoldable pub virtual_ip_from_uuid : (ℕ → String) → ℕ → ℕ → String
virtual_ip_from_uuid itoa a b = append "10.88." (append (itoa a) (append "." (itoa b)))

pub data Enrolment : Type 0 where
  refused : ℕ → String → Enrolment
  admitted : Invitation ℕ → Enrolment

-- The registration's checks, up to the look at the invitation. `checked_at` is the first time read.
unfoldable pub check_enrolment :
    Server → Env → ℕ → Option DeviceRegistrationRequest → World → Enrolment
check_enrolment s env checked_at none w = refused 400 "invalid registration payload"
check_enrolment s env checked_at (some req) w =
    if (trim_space req.enrollment_key == "")
      || ((trim_space req.name == "") || (trim_space req.public_key == ""))
    then refused 400 "enrollmentKey, name, and publicKey are required"
    else if not (valid_wire_guard_endpoint (trim_space req.endpoint))
    then refused 400 "endpoint must be host:port when provided"
    else elim (hash_api_key s.hmac_hex req.enrollment_key s.api_key_pepper) [
      | Hashed.err e ↦ refused 400 "invalid enrollment key"
      | Hashed.ok token_hash ↦
          elim (get_invitation_by_token_hash s.codec env.fault token_hash w.db) [
            | Result.err e ↦
                if is_not_found e
                then refused 401 "invalid enrollment key"
                else refused 500 "registration failed"
            | Result.ok invitation ↦
                if ltb invitation.expires_at checked_at
                then refused 401 "enrollment key expired"
                else if not invitation.reusable && not (eqb invitation.used_at 0)
                then refused 409 "enrollment key already used"
                else admitted invitation
          ]
    ]

-- What a registration draws: the times it reads, its token's text, its UUID, its virtual IP.
pub record Draws : Type 0 where
  pub now : ℕ
  pub marked_at : ℕ
  pub token : Option String
  pub id : String
  pub virtual_ip : String

abbrev pub new_device :
    Draws → DeviceRegistrationRequest → Invitation ℕ → String → String → Device ℕ
new_device d req invitation token token_hash = record {
  id = d.id;
  user_id = invitation.user_id;
  group_id = invitation.group_id;
  name = trim_space req.name;
  virtual_ip = d.virtual_ip;
  public_key = trim_space req.public_key;
  endpoint = trim_space req.endpoint;
  token_hash = token_hash;
  device_token = token;
  status = device_status_online;
  last_seen_at = d.now;
  created_at = d.now;
  fingerprint = trim_space req.fingerprint;
}

-- That the invitation cannot be marked is only logged.
unfoldable pub mark_used : Server → Env → ℕ → Invitation ℕ → World → World
mark_used s env marked_at invitation w =
    if invitation.reusable
    then w
    else record w { db = (mark_invitation_used s.codec env.fault invitation.id marked_at w.db).1 }

abbrev pub listed_relays : Result (List (RelayNode ℕ)) → List (RelayNode ℕ)
listed_relays (Result.ok relays) = relays
listed_relays (Result.err e) = []

-- The rest of the registration.
unfoldable pub finish_enrolment :
    Server
    → Env
    → Draws
    → DeviceRegistrationRequest
    → Invitation ℕ
    → World
    → Response DeviceRegistrationResponse × World
unfolding mark_used
finish_enrolment s env d req invitation w = elim (new_api_key d.token) [
  | none ↦ (failed 500 "device registration failed", w)
  | some token ↦ elim (hash_api_key s.hmac_hex token s.api_key_pepper) [
    | Hashed.err e ↦ (failed 500 "device registration failed", w)
    | Hashed.ok token_hash ↦
        let device = new_device d req invitation token token_hash in
        let (created, db') = create_device s.codec env.fault device w.db in
        elim created [
          | Result.err e ↦ (failed 500 "device registration failed", record w { db = db' })
          | Result.ok u ↦
              let w' =
                mark_used s env d.marked_at invitation (sync_hub s env (record w { db = db' })) in
              (
                replied 201 (record {
                  device = device;
                  relays = listed_relays (list_relays s.codec env.fault w'.db);
                  message = "device registered";
                }),
                w',
              )
        ]
  ]
]

-- handleDeviceRegister, alone: other requests may come between its two halves.
unfoldable pub device_register :
    Server
    → Env
    → ℕ
    → Draws
    → Option DeviceRegistrationRequest
    → World
    → Response DeviceRegistrationResponse × World
unfolding check_enrolment finish_enrolment
device_register s env checked_at d none w = (failed 400 "invalid registration payload", w)
device_register s env checked_at d (some req) w =
    elim (check_enrolment s env checked_at (some req) w) [
      | refused status message ↦ (failed status message, w)
      | admitted invitation ↦ finish_enrolment s env d req invitation w
    ]

-- `time.Duration(seconds) * time.Second` as the 64 bits of its int64.
unfoldable pub duration_bits : ℤ → ℕ
duration_bits (pos n) = (n * 1000000000) % 2 ^ 64
duration_bits (negsuc n) = (2 ^ 64 - (suc n * 1000000000) % 2 ^ 64) % 2 ^ 64

-- A day where the duration is zero or negative.
unfoldable pub expires_in : ℤ → ℕ
unfolding duration_bits
expires_in seconds =
    let bits = duration_bits seconds in
    if eqb bits 0 || leb (2 ^ 63) bits then 86400000000000 else bits

abbrev pub group_of : InvitationCreateRequest → String
group_of req = trim_space (if trim_space req.group_id == "" then "default" else req.group_id)

abbrev pub new_invitation : ℕ → String → InvitationCreateRequest → String → String → Invitation ℕ
new_invitation now id req plaintext token_hash = record {
  id = id;
  token_hash = token_hash;
  user_id = trim_space req.user_id;
  group_id = group_of req;
  reusable = req.reusable;
  expires_at = now + expires_in req.expires_in_seconds;
  used_at = 0;
  created_at = now;
  plaintext_token = plaintext;
}

-- handleInvitationCreate. `token` is the text of the random bytes.
unfoldable pub invitation_create :
    Server
    → Env
    → ℕ
    → Option String
    → String
    → Option InvitationCreateRequest
    → World
    → Response (Invitation ℕ) × World
unfolding expires_in
invitation_create s env now token id none w = (failed 400 "invalid invitation payload", w)
invitation_create s env now token id (some req) w =
    let user_id = trim_space req.user_id in
    let group_id = group_of req in
    let lifetime = expires_in req.expires_in_seconds in
    if user_id == ""
    then (failed 400 "userId is required", w)
    else elim (get_user s.codec env.fault user_id w.db) [
      | Result.err e ↦ (failed 400 "userId does not exist", w)
      | Result.ok user ↦ elim (get_group s.codec env.fault group_id w.db) [
        | Result.err e ↦ (failed 400 "groupId does not exist", w)
        | Result.ok group ↦
            if ltb 2592000000000000 lifetime
            then (failed 400 "expiration must be 30 days or less", w)
            else elim (new_api_key token) [
              | none ↦ (failed 500 "invitation creation failed", w)
              | some plaintext ↦ elim (hash_api_key s.hmac_hex plaintext s.api_key_pepper) [
                | Hashed.err e ↦ (failed 500 "invitation creation failed", w)
                | Hashed.ok token_hash ↦
                    let invitation = new_invitation now id req plaintext token_hash in
                    let (created, db') = create_invitation s.codec env.fault invitation w.db in
                    elim created [
                      | Result.err e ↦
                          (failed 500 "invitation creation failed", record w { db = db' })
                      | Result.ok u ↦ (replied 201 invitation, record w { db = db' })
                    ]
              ]
            ]
      ]
    ]
