-- ===== src/Controller/Enrolment/Token.antt =====
-- The token that a registration hands out, and authenticateDeviceCredentials.
use mathlib.Core.Path.{subst}
use linkbit.Prelude.{
  ℕ, ◌≡◌, ◌≢◌, refl, ap, sym, String, false, some, List, [], ◌∷◌, arith, any, eq_iff, eq_refl,
}
use linkbit.Prelude.Text.{trim_space}
use linkbit.Prelude.Select.{find_row-append, find_row-none}
use linkbit.Models.{DeviceRegistrationResponse, Device, DeviceRegistrationRequest}
use linkbit.Auth.{hash_api_key, Hashed}
use linkbit.Store.{Fault, select_device_by_token}
use linkbit.Store.Rows.{CodecLaws, IsRead, device_row}
use linkbit.Store.Rows.Laws.{scan-device_row}
use linkbit.Store.Devices.{get_device_by_id_and_token_hash, has_token, clashes}
use linkbit.Controller.Server.{
  Server, World, Env, replied, authenticate_device_credentials, authenticated,
}
use linkbit.Controller.Enrolment.{Draws, device_register}
use linkbit.Controller.Enrolment.Laws.{register-created}

new-no_token :
    (device : Device ℕ) (token_hash : String) (rows : List (Device String))
    → any (clashes device) rows ≡ false
    → any (has_token device.id token_hash) rows ≡ false
new-no_token device token_hash [] h = refl
new-no_token device token_hash (r ∷ rows) h = ground (arith, new-no_token device token_hash rows)

given :
    (s : Server) (token digest : String)
    → hash_api_key s.hmac_hex token s.api_key_pepper ≡ Hashed.ok digest
    → token ≢ ""
unfolding hash_api_key trim_space
given s token digest h e =
    let blank = subst (λ t. hash_api_key s.hmac_hex t s.api_key_pepper ≡ Hashed.ok digest) e h in
    ground (arith, blank)

pub register-token :
    (s : Server) (env : Env) (checked_at : ℕ) (d : Draws) (req : DeviceRegistrationRequest)
    (w : World) (status : ℕ) (r : DeviceRegistrationResponse)
    → (device_register s env checked_at d (some req) w).0 ≡ replied status r
    → r.device.device_token ≢ ""
register-token s env checked_at d req w status r h =
    let (i, admissible, m) = register-created s env checked_at d req w status r h in
    given s r.device.device_token m.token_hash m.hashed

-- The token and the id in the answer to a registration authenticate the device that was registered,
-- as the store has it: without the token. The id is not empty, the text of the time of the
-- registration is read back, and the look-up does not fail.
pub register-authenticate :
    (s : Server) (laws : CodecLaws s.codec) (env : Env) (fault : Fault) (checked_at : ℕ) (d : Draws)
    (req : DeviceRegistrationRequest) (w : World) (status : ℕ) (r : DeviceRegistrationResponse)
    → (device_register s env checked_at d (some req) w).0 ≡ replied status r
    → r.device.id ≢ ""
    → IsRead s.codec d.now
    → fault select_device_by_token ≡ false
    → authenticate_device_credentials s fault r.device.id r.device.device_token
        (device_register s env checked_at d (some req) w).1.db
      ≡ authenticated (record r.device { device_token = "" })
unfolding authenticate_device_credentials get_device_by_id_and_token_hash device_row
register-authenticate s laws env fault checked_at d req w status r h named read good =
    let (i, admissible, m) = register-created s env checked_at d req w status r h in
    let row = device_row s.codec r.device in
    let stored : r.device.token_hash ≡ m.token_hash = ap (λ (x : Device ℕ). x.token_hash) m.made in
    let seen : r.device.last_seen_at ≡ d.now = ap (λ (x : Device ℕ). x.last_seen_at) m.made in
    let created : r.device.created_at ≡ d.now = ap (λ (x : Device ℕ). x.created_at) m.made in
    let none_before =
      find_row-none (has_token r.device.id m.token_hash) w.db.devices
        (new-no_token r.device m.token_hash w.db.devices m.new) in
    let found =
      find_row-append (has_token r.device.id m.token_hash) w.db.devices row none_before
        (ground (arith, eq_refl r.device.id, eq_iff r.device.token_hash m.token_hash)) in
    let token : r.device.device_token ≢ "" = given s r.device.device_token m.token_hash m.hashed in
    ground (
      arith,
      m.hashed,
      m.rows,
      found,
      scan-device_row s.codec laws r.device (subst (IsRead s.codec) (sym seen) read)
          (subst (IsRead s.codec) (sym created) read),
      eq_iff r.device.id "",
      eq_iff r.device.device_token "",
    )
