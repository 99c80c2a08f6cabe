-- ===== src/Controller/Tests.antt =====
-- Runs of the controller's handlers.
use linkbit.Prelude.{
  ℕ, pos, ◌≡◌, ◌↔◌, ◌⊎◌, refl, String, IsIn, true, false, some, List, [], ◌∷◌, ◌++◌, arith, eq_iff,
}
use linkbit.Models.{DeviceRegistrationResponse, Invitation, InvitationCreateRequest}
use linkbit.Auth.{hash_api_key, verify_api_key, Hashed}
use linkbit.Store.Rows.{device_row, scan_user, scan_group}
use linkbit.Store.Users.{get_user, get_group}
use linkbit.Store.Keys.{create_invitation}
use linkbit.Store.Sample.{sample_codec, sample_laws, no_fault}
use linkbit.Controller.Server.{replied, authenticate_device_credentials, authenticated}
use linkbit.Controller.Guard.{verify_api_key_scope}
use linkbit.Controller.Guard.Laws.{Stored, verify_scope_iff}
use linkbit.Controller.Enrolment.{
  device_register, finish_enrolment, new_device, invitation_create, expires_in, duration_bits,
}
use linkbit.Controller.Enrolment.Laws.{IsAdmissible, Registered, register-created}
use linkbit.Controller.Enrolment.Token.{register-authenticate}
use linkbit.Controller.Enrolment.Once.{is_created, register_once}
use linkbit.Controller.Enrolment.Race.{register_race}
use linkbit.Controller.Enrolment.Lifetime.{Invited, invitation_create-Invited}
use linkbit.Controller.Sample.{
  handlers, server, env, db, db-IsKeyed, world, request, draws, other_draws,
}

abbrev reply : DeviceRegistrationResponse
reply = record {
  device = record {
    id = "dev";
    user_id = "u";
    group_id = "default";
    name = "laptop";
    virtual_ip = "10.88.1.2";
    public_key = "pk";
    endpoint = "";
    token_hash = "lb_device";
    device_token = "lb_device";
    status = "online";
    last_seen_at = 3;
    created_at = 3;
    fingerprint = "";
  };
  relays = [];
  message = "device registered";
}

abbrev invitation : Invitation ℕ
invitation = record {
  id = "i";
  token_hash = "lb_invite";
  user_id = "u";
  group_id = "default";
  reusable = false;
  expires_at = 9;
  used_at = 0;
  created_at = 1;
  plaintext_token = "";
}

registers : (device_register server env 2 draws (some request) world).0 ≡ replied 201 reply
unfolding handlers
registers = refl

abbrev admin : String
admin = "admin"

abbrev scopes : List String
scopes = admin ∷ "relay" ∷ []

verify_scope_iff_example :
    ((verify_api_key_scope server no_fault 3 "lb_relay" scopes db).0 ≡ true) ↔ (
      (IsIn admin scopes
        × (verify_api_key server.hmac_hex "lb_relay" server.admin_digest server.api_key_pepper
            ≡ true))
      ⊎ ((digest : String) × (hash_api_key server.hmac_hex "lb_relay" server.api_key_pepper
            ≡ Hashed.ok digest)
          × Stored digest scopes db.api_keys))
verify_scope_iff_example = verify_scope_iff server no_fault 3 "lb_relay" scopes db db-IsKeyed refl

register-created_example :
    (i : Invitation ℕ) × IsAdmissible server env 2 request world.db i
    × Registered server request draws i reply.device world.db
        (device_register server env 2 draws (some request) world).1.db
unfolding handlers
register-created_example = register-created server env 2 draws request world 201 reply refl

register-authenticate_example :
    authenticate_device_credentials server no_fault reply.device.id reply.device.device_token
      (device_register server env 2 draws (some request) world).1.db
    ≡ authenticated (record reply.device { device_token = "" })
unfolding handlers
register-authenticate_example =
    register-authenticate server sample_laws env no_fault 2 draws request world 201 reply refl
      (λ e. ground (arith, (eq_iff "dev" "").1 e)) refl refl

register_once_example :
    is_created
      (device_register server env 5 other_draws
        (some request)
        (device_register server env 2 draws (some request) world).1).0
    ≡ false
unfolding handlers
register_once_example =
    register_once server sample_laws env env 2 5 draws other_draws request request world 201 reply
      invitation refl refl refl refl refl (omega arith) refl

register_race_example :
    let (first, w1) = finish_enrolment server env draws request invitation world in
    let (second, w2) = finish_enrolment server env other_draws request invitation w1 in
    (is_created first ≡ true)
    × (is_created second ≡ true)
    × (w2.db.devices
        ≡ (world.db.devices
            ++ device_row sample_codec (new_device draws request invitation "lb_device" "lb_device")
              ∷ [])
          ++ device_row sample_codec
              (new_device other_draws request invitation "lb_device2" "lb_device2")
            ∷ [])
unfolding handlers
register_race_example =
    register_race server env 2 2 draws other_draws request request world invitation "lb_device"
      "lb_device2" "lb_device" "lb_device2" refl refl refl refl refl refl refl refl refl

abbrev wish : InvitationCreateRequest
wish = record { user_id = "u"; group_id = ""; reusable = true; expires_in_seconds = pos 60 }

abbrev granted : Invitation ℕ
granted = record {
  id = "i2";
  token_hash = "lb_new";
  user_id = "u";
  group_id = "default";
  reusable = true;
  expires_at = 60000000003;
  used_at = 0;
  created_at = 3;
  plaintext_token = "lb_new";
}

invitation_create-Invited_example :
    Invited server env 3 wish world
      (invitation_create server env 3 (some "new") "i2" (some wish) world).1
      granted
unfolding handlers invitation_create expires_in duration_bits get_user get_group create_invitation
    scan_user scan_group
invitation_create-Invited_example =
    invitation_create-Invited server env 3 (some "new") "i2" wish world 201 granted refl
