-- ===== src/Controller/Enrolment/Laws.antt =====
-- The registration of devices.
use mathlib.Core.Path.{subst}
use linkbit.Prelude.{
  ℕ, ◌≡◌, ◌≢◌, ◌≤◌, ◌⊎◌, refl, ap, ◌∙◌, inl, inr, String, true, false, some, [], ◌∷◌, ◌++◌, arith,
  any, eq_iff, Bool-cases, Option-cases,
}
use linkbit.Prelude.Text.{trim_space}
use linkbit.Models.{DeviceRegistrationResponse, Device, Invitation, DeviceRegistrationRequest}
use linkbit.Net.{valid_wire_guard_endpoint}
use linkbit.Auth.{new_api_key, hash_api_key, Hashed, Hashed-cases}
use linkbit.Store.{
  Result, Result-cases, Fault, StoreError, statement_failed, constraint_failed, insert_device, Db,
}
use linkbit.Store.Keys.{get_invitation_by_token_hash, mark_invitation_used}
use linkbit.Store.Rows.{device_row}
use linkbit.Store.Devices.{create_device, clashes}
use linkbit.Controller.Server.{Server, World, Env, replied, sync_hub}
use linkbit.Controller.Enrolment.{
  Enrolment, refused, admitted, check_enrolment, Draws, new_device, mark_used, finish_enrolment,
  device_register,
}

-- What the checks of a registration establish of the request and the invitation.
pub record IsAdmissible (s : Server) (env : Env) (checked_at : ℕ) (req : DeviceRegistrationRequest)
    (db : Db) (i : Invitation ℕ) : Type 0 where
  pub named : trim_space req.name ≢ ""
  pub keyed : trim_space req.public_key ≢ ""
  pub endpoint : valid_wire_guard_endpoint (trim_space req.endpoint) ≡ true
  pub token_hash : String
  pub hashed : hash_api_key s.hmac_hex req.enrollment_key s.api_key_pepper ≡ Hashed.ok token_hash
  pub stored : get_invitation_by_token_hash s.codec env.fault token_hash db ≡ Result.ok i
  pub fresh : checked_at ≤ i.expires_at
  pub unspent : (i.reusable ≡ true) ⊎ (i.used_at ≡ 0)

pub Enrolment-cases :
    (e : Enrolment)
    → ((status : ℕ) × (message : String) × (e ≡ refused status message))
      ⊎ ((i : Invitation ℕ) × (e ≡ admitted i))
Enrolment-cases (refused status message) = inl (status, message, refl)
Enrolment-cases (admitted i) = inr (i, refl)

pub check-IsAdmissible :
    (s : Server) (env : Env) (checked_at : ℕ) (req : DeviceRegistrationRequest) (w : World)
    (i : Invitation ℕ)
    → check_enrolment s env checked_at (some req) w ≡ admitted i
    → IsAdmissible s env checked_at req w.db i
unfolding check_enrolment
check-IsAdmissible s env checked_at req w i h =
    elim (Hashed-cases (hash_api_key s.hmac_hex req.enrollment_key s.api_key_pepper)) [
      | inr (e, q) ↦ absurd (ground arith)
      | inl (token_hash, q) ↦
          elim (Result-cases (get_invitation_by_token_hash s.codec env.fault token_hash w.db)) [
            | inr (e, f) ↦ absurd (ground arith)
            | inl (j, f) ↦
                let same : j ≡ i = ground arith in
                record {
                  named = ground (arith, eq_iff (trim_space req.name) "");
                  keyed = ground (arith, eq_iff (trim_space req.public_key) "");
                  endpoint = ground arith;
                  token_hash = token_hash;
                  hashed = q;
                  stored = f ∙ ap Result.ok same;
                  fresh = ground (arith, ap (λ (x : Invitation ℕ). x.expires_at) same);
                  unspent = elim (Bool-cases i.reusable) [
                    | inl e ↦ inl e
                    | inr e ↦ inr (
                        ground (
                          arith,
                          ap (λ (x : Invitation ℕ). x.reusable) same,
                          ap (λ (x : Invitation ℕ). x.used_at) same,
                        ))
                  ];
                }
          ]
    ]

-- A device that a registration made: the row that was stored, and the token that the response has.
pub record Registered (s : Server) (req : DeviceRegistrationRequest) (d : Draws) (i : Invitation ℕ)
    (device : Device ℕ) (before after : Db) : Type 0 where
  pub token_hash : String
  pub made : device ≡ new_device d req i device.device_token token_hash
  pub hashed : hash_api_key s.hmac_hex device.device_token s.api_key_pepper ≡ Hashed.ok token_hash
  pub new : any (clashes device) before.devices ≡ false
  pub rows : after.devices ≡ before.devices ++ device_row s.codec device ∷ []

pub sync_hub-db : (s : Server) (env : Env) (w : World) → (sync_hub s env w).db ≡ w.db
unfolding sync_hub
sync_hub-db s env w = ground arith

mark_used-devices :
    (s : Server) (env : Env) (marked_at : ℕ) (i : Invitation ℕ) (w : World)
    → (mark_used s env marked_at i w).db.devices ≡ w.db.devices
unfolding mark_used mark_invitation_used
mark_used-devices s env marked_at i w = ground arith

-- What CreateDevice does where it succeeds.
pub record Created (s : Server) (fault : Fault) (device : Device ℕ) (db : Db) : Type 0 where
  pub succeeds : (create_device s.codec fault device db).0 ≡ Result.ok tt
  pub new : any (clashes device) db.devices ≡ false
  pub leaves :
      (create_device s.codec fault device db).1
      ≡ record db { devices = db.devices ++ device_row s.codec device ∷ [] }

pub create-Created :
    (s : Server) (fault : Fault) (device : Device ℕ) (db : Db)
    → ((e : StoreError) × (create_device s.codec fault device db ≡ (Result.err e, db)))
      ⊎ Created s fault device db
unfolding create_device
create-Created s fault device db = elim (Bool-cases (fault insert_device)) [
  | inl e ↦ inl (statement_failed, ground (arith, e))
  | inr e ↦ elim (Bool-cases (any (clashes device) db.devices)) [
    | inl c ↦ inl (constraint_failed, ground (arith, e, c))
    | inr c ↦ inr (record { succeeds = ground arith; new = c; leaves = ground arith })
  ]
]

finish-Registered :
    (s : Server) (env : Env) (d : Draws) (req : DeviceRegistrationRequest) (i : Invitation ℕ)
    (w : World) (status : ℕ) (r : DeviceRegistrationResponse)
    → (finish_enrolment s env d req i w).0 ≡ replied status r
    → Registered s req d i r.device w.db (finish_enrolment s env d req i w).1.db
unfolding finish_enrolment
finish-Registered s env d req i w status r h = elim (Option-cases (new_api_key d.token)) [
  | inl n ↦ absurd (ground arith)
  | inr (token, t) ↦ elim (Hashed-cases (hash_api_key s.hmac_hex token s.api_key_pepper)) [
    | inr (e, q) ↦ absurd (ground arith)
    | inl (token_hash, q) ↦
        let device = new_device d req i token token_hash in
        elim (create-Created s env.fault device w.db) [
          | inl (e, c) ↦ absurd (ground arith)
          | inr c ↦
              let w' : World = record w { db = (create_device s.codec env.fault device w.db).1 } in
              let same : device ≡ r.device = ground (arith, c.succeeds) in
              subst (λ x. Registered s req d i x w.db (finish_enrolment s env d req i w).1.db) same
                (record {
                  token_hash = token_hash;
                  made = refl;
                  hashed = q;
                  new = c.new;
                  rows = ground (
                    arith,
                    c.succeeds,
                    c.leaves,
                    mark_used-devices s env d.marked_at i (sync_hub s env w'),
                    sync_hub-db s env w',
                  );
                })
        ]
  ]
]

-- A registration that is answered with 201 had a request with a name, a public key and an endpoint that
-- is empty or well-formed, and the key of a stored invitation that had not expired at the first
-- reading of the clock and was reusable or not yet used. It stores one new device, with an id and a
-- virtual IP that no other has, in the invitation's group and for its user, under the digest of the
-- token that the response gives.
pub register-created :
    (s : Server) (env : Env) (checked_at : ℕ) (d : Draws) (req : DeviceRegistrationRequest)
    (w : World) (status : ℕ) (r : DeviceRegistrationResponse)
    → (device_register s env checked_at d (some req) w).0 ≡ replied status r
    → (i : Invitation ℕ) × IsAdmissible s env checked_at req w.db i
      × Registered s req d i r.device w.db (device_register s env checked_at d (some req) w).1.db
unfolding device_register
register-created s env checked_at d req w status r h =
    elim (Enrolment-cases (check_enrolment s env checked_at (some req) w)) [
      | inl (code, m, e) ↦ absurd (ground (arith, e))
      | inr (i, e) ↦ (
        i,
        check-IsAdmissible s env checked_at req w i e,
        rw (e, device_register)
            (finish-Registered s env d req i w status r (rw (e, device_register) at h)),
      )
    ]
