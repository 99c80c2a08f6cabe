-- ===== src/Controller/Routes/Histories.antt =====
-- The store after a request, for the handlers that draw secrets or write twice, and for all routes.
use linkbit.Prelude.{
  ℕ, refl, inl, inr, String, Option, none, some, [], ◌∷◌, arith, Bool-cases, Option-cases,
}
use linkbit.Prelude.Text.{trim_space}
use linkbit.Models.{
  Invitation, ApiKeyCreateRequest, InvitationCreateRequest, DeviceRegistrationRequest,
  DeviceHealthReport,
}
use linkbit.Auth.{new_api_key, hash_api_key, Hashed-cases}
use linkbit.Store.Keys.{create_api_key, create_invitation}
use linkbit.Store.Devices.{create_device}
use linkbit.Store.Write.{
  creates_api_key, creates_invitation, marks_invitation, creates_device, updates_device, write,
  writes,
}
use linkbit.Controller.Server.{Server, World, Env}
use linkbit.Controller.Enrolment.{
  Draws, new_invitation, new_device, device_register, invitation_create, check_enrolment,
  finish_enrolment, mark_used,
}
use linkbit.Controller.Enrolment.Laws.{sync_hub-db, create-Created, Enrolment-cases}
use linkbit.Controller.Admin.{new_key, api_key_create}
use linkbit.Controller.Requests.{device_health}
use linkbit.Controller.Routes.Effects.{Wrote, unwritten, Wrote-AtMost}

module _ (s : Server) (env : Env) (w : World) where
  pub device_health-Wrote :
      (now : ℕ) (id token : String) (req : Option DeviceHealthReport)
      → Wrote s w.db (device_health s env now id token req w).1.db
  unfolding device_health
  device_health-Wrote now id token none = unwritten (ground arith)
  device_health-Wrote now id token (some req) =
      elim (Hashed-cases (hash_api_key s.hmac_hex token s.api_key_pepper)) [
        | inr (e, q) ↦ unwritten (ground (arith, q))
        | inl (digest, q) ↦
            Wrote-AtMost env.fault
              (updates_device id digest (record req { endpoint = trim_space req.endpoint }) now)
              (unfold write in ground (arith, q))
      ]

  pub api_key_create-Wrote :
      (now : ℕ) (fresh : String) (token : Option String) (req : ApiKeyCreateRequest)
      → Wrote s w.db (api_key_create s env now fresh token (some req) w).1.db
  unfolding api_key_create
  api_key_create-Wrote now fresh token req = elim (Option-cases (new_api_key token)) [
    | inl n ↦ unwritten (ground (arith, n))
    | inr (key, k) ↦ elim (Hashed-cases (hash_api_key s.hmac_hex key s.api_key_pepper)) [
      | inr (e, q) ↦ unwritten (ground (arith, k, q))
      | inl (digest, q) ↦
          Wrote-AtMost env.fault (creates_api_key (new_key now fresh req key digest))
            (unfold write create_api_key in ground (arith, k, q))
    ]
  ]

  pub invitation_create-Wrote :
      (now : ℕ) (token : Option String) (id : String) (req : InvitationCreateRequest)
      → Wrote s w.db (invitation_create s env now token id (some req) w).1.db
  unfolding invitation_create
  invitation_create-Wrote now token id req = elim (Option-cases (new_api_key token)) [
    | inl n ↦ unwritten (ground (arith, n))
    | inr (key, k) ↦ elim (Hashed-cases (hash_api_key s.hmac_hex key s.api_key_pepper)) [
      | inr (e, q) ↦ unwritten (ground (arith, k, q))
      | inl (digest, q) ↦
          Wrote-AtMost env.fault (creates_invitation (new_invitation now id req key digest))
            (unfold write create_invitation in ground (arith, k, q))
    ]
  ]

  finish_enrolment-Wrote :
      (d : Draws) (req : DeviceRegistrationRequest) (i : Invitation ℕ)
      → Wrote s w.db (finish_enrolment s env d req i w).1.db
  unfolding finish_enrolment
  finish_enrolment-Wrote d req i = elim (Option-cases (new_api_key d.token)) [
    | inl n ↦ unwritten (ground (arith, n))
    | inr (token, k) ↦ elim (Hashed-cases (hash_api_key s.hmac_hex token s.api_key_pepper)) [
      | inr (e, q) ↦ unwritten (ground (arith, k, q))
      | inl (digest, q) ↦
          let device = new_device d req i token digest in
          let w' : World = record w { db = (create_device s.codec env.fault device w.db).1 } in
          elim (create-Created s env.fault device w.db) [
            | inl (e, c) ↦ unwritten (ground (arith, k, q, c))
            | inr c ↦ elim (Bool-cases i.reusable) [
              | inl b ↦ Wrote-AtMost env.fault (creates_device device) (
                  inr (
                    unfold mark_used in
                    unfold write in ground (arith, k, q, b, c.succeeds, sync_hub-db s env w')))
              | inr b ↦ record {
                history =
                    (env.fault, creates_device device)
                    ∷ (env.fault, marks_invitation i.id d.marked_at)
                    ∷ [];
                effect =
                    unfold mark_used in
                    unfold write in
                    unfold writes in ground (arith, k, q, b, c.succeeds, sync_hub-db s env w');
              }
            ]
          ]
    ]
  ]

  pub device_register-Wrote :
      (checked_at : ℕ) (d : Draws) (req : Option DeviceRegistrationRequest)
      → Wrote s w.db (device_register s env checked_at d req w).1.db
  unfolding device_register
  device_register-Wrote checked_at d none = unwritten refl
  device_register-Wrote checked_at d (some req) =
      elim (Enrolment-cases (check_enrolment s env checked_at (some req) w)) [
        | inl (code, m, e) ↦ unwritten (ground (arith, e))
        | inr (i, e) ↦ rw (e, device_register) (finish_enrolment-Wrote d req i)
      ]
