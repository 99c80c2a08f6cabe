-- ===== src/Controller/Enrolment/Race.antt =====
-- Registrations at the same time.
use linkbit.Prelude.{ℕ, ◌≡◌, ap, ◌∙◌, String, true, false, some, [], ◌∷◌, ◌++◌, arith, any}
use linkbit.Models.{DeviceRegistrationRequest, Invitation}
use linkbit.Auth.{hash_api_key, Hashed, new_api_key}
use linkbit.Store.{insert_device}
use linkbit.Store.Rows.{device_row}
use linkbit.Store.Keys.{mark_invitation_used}
use linkbit.Store.Devices.{create_device, clashes}
use linkbit.Controller.Server.{Server, World, Env}
use linkbit.Controller.Enrolment.{
  Draws, check_enrolment, finish_enrolment, admitted, mark_used, new_device,
}
use linkbit.Controller.Enrolment.Laws.{sync_hub-db}
use linkbit.Controller.Enrolment.Once.{is_created}

finish-is_created :
    (s : Server) (env : Env) (d : Draws) (req : DeviceRegistrationRequest) (w : World)
    (i : Invitation ℕ) (token hash : String)
    → new_api_key d.token ≡ some token
    → hash_api_key s.hmac_hex token s.api_key_pepper ≡ Hashed.ok hash
    → env.fault insert_device ≡ false
    → any (clashes (new_device d req i token hash)) w.db.devices ≡ false
    → (is_created (finish_enrolment s env d req i w).0 ≡ true)
      × ((finish_enrolment s env d req i w).1.db.devices
          ≡ w.db.devices ++ device_row s.codec (new_device d req i token hash) ∷ [])
unfolding finish_enrolment mark_used mark_invitation_used create_device
finish-is_created s env d req w i token hash k h good n =
    let device = new_device d req i token hash in
    let w' : World = record w { db = (create_device s.codec env.fault device w.db).1 } in
    (ground (arith, k, h, good, n), ground (arith, k, h, good, n, sync_hub-db s env w'))

-- The look at the invitation and its marking are two requests to the store, and nothing is held in
-- between: two registrations that have both looked at an invitation before either is finished are
-- both answered with 201, whether or not it may be used once, and both devices are stored. Their
-- tokens can be drawn and stored, no insertion fails, and the two devices clash with none and not
-- with each other.
pub register_race :
    (s : Server) (env : Env) (t t' : ℕ) (d d' : Draws) (req req' : DeviceRegistrationRequest)
    (w : World) (i : Invitation ℕ) (token token' hash hash' : String)
    → check_enrolment s env t (some req) w ≡ admitted i
    → check_enrolment s env t' (some req') w ≡ admitted i
    → new_api_key d.token ≡ some token
    → new_api_key d'.token ≡ some token'
    → hash_api_key s.hmac_hex token s.api_key_pepper ≡ Hashed.ok hash
    → hash_api_key s.hmac_hex token' s.api_key_pepper ≡ Hashed.ok hash'
    → env.fault insert_device ≡ false
    → let device = new_device d req i token hash in
      let device' = new_device d' req' i token' hash' in
      let (first, w1) = finish_enrolment s env d req i w in
      let (second, w2) = finish_enrolment s env d' req' i w1 in
      any (clashes device) w.db.devices ≡ false
      → any (clashes device') (w.db.devices ++ device_row s.codec device ∷ []) ≡ false
      → (is_created first ≡ true)
        × (is_created second ≡ true)
        × (w2.db.devices
            ≡ (w.db.devices ++ device_row s.codec device ∷ []) ++ device_row s.codec device' ∷ [])
register_race s env t t' d d' req req' w i token token' hash hash' c c' k k' h h' good n n' =
    let one = finish-is_created s env d req w i token hash k h good n in
    let w1 = (finish_enrolment s env d req i w).1 in
    let two =
      finish-is_created s env d' req' w1 i token' hash' k' h' good
        (ap (any (clashes (new_device d' req' i token' hash'))) one.1 ∙ n') in
    (
      one.0,
      two.0,
      two.1 ∙ ap (λ ds. ds ++ device_row s.codec (new_device d' req' i token' hash') ∷ []) one.1,
    )
