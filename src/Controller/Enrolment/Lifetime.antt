-- ===== src/Controller/Enrolment/Lifetime.antt =====
-- The lifetime of invitations.
use mathlib.Core.Path.{subst}
use linkbit.Prelude.{
  ℕ, ℤ, pos, ◌≡◌, ◌≤◌, ◌<◌, ◌+◌, refl, inl, inr, String, false, ◌||◌, ◌==◌, ◌++◌, [], ◌∷◌, any,
  Option, some, arith, Option-cases,
}
use linkbit.Prelude.Text.{trim_space}
use linkbit.Models.{InvitationRow, User, DeviceGroup, Invitation, InvitationCreateRequest}
use linkbit.Auth.{new_api_key, hash_api_key, Hashed, Hashed-cases}
use linkbit.Store.{Result, Result-cases}
use linkbit.Store.Rows.{invitation_row}
use linkbit.Store.Keys.{create_invitation}
use linkbit.Store.Users.{get_user, get_group}
use linkbit.Controller.Server.{Server, World, Env, replied}
use linkbit.Controller.Enrolment.{
  invitation_create, expires_in, duration_bits, group_of, new_invitation,
}

expires_in-positive : (seconds : ℤ) → 0 < expires_in seconds
unfolding expires_in
expires_in-positive seconds = ground arith

-- What is true of an invitation that was made.
pub record Invited (s : Server) (env : Env) (now : ℕ) (req : InvitationCreateRequest) (w w' : World)
    (i : Invitation ℕ) : Type 0 where
  pub user : User ℕ
  pub user_exists : get_user s.codec env.fault i.user_id w.db ≡ Result.ok user
  pub group : DeviceGroup ℕ
  pub group_exists : get_group s.codec env.fault i.group_id w.db ≡ Result.ok group
  pub hashed : hash_api_key s.hmac_hex i.plaintext_token s.api_key_pepper ≡ Hashed.ok i.token_hash
  pub new :
      any (λ (r : InvitationRow). (r.id == i.id) || (r.token_hash == i.token_hash)) w.db.invitations
      ≡ false
  pub stored :
      w'.db ≡ record w.db { invitations = w.db.invitations ++ invitation_row s.codec i ∷ [] }
  pub unused : i.used_at ≡ 0
  pub later : now < i.expires_at
  pub bounded : i.expires_at ≤ now + 2592000000000000

-- An invitation that is answered with 201 is for a user and a group that exist, is added to the table
-- of invitations, where none has its id or its digest, under the digest of its own token, with nothing
-- else in the store changed, is not used, and expires after its making and within 30 days, whatever
-- number of seconds is asked for, negative ones and those that overflow 64 bits included.
pub invitation_create-Invited :
    (s : Server) (env : Env) (now : ℕ) (token : Option String) (id : String)
    (req : InvitationCreateRequest) (w : World) (status : ℕ) (i : Invitation ℕ)
    → (invitation_create s env now token id (some req) w).0 ≡ replied status i
    → Invited s env now req w (invitation_create s env now token id (some req) w).1 i
unfolding invitation_create create_invitation
invitation_create-Invited s env now token id req w status i h =
    elim (Result-cases (get_user s.codec env.fault (trim_space req.user_id) w.db)) [
      | inr (e, u) ↦ absurd (ground (arith, u))
      | inl (user, u) ↦ elim (Result-cases (get_group s.codec env.fault (group_of req) w.db)) [
        | inr (e, g) ↦ absurd (ground (arith, u, g))
        | inl (group, g) ↦ elim (Option-cases (new_api_key token)) [
          | inl n ↦ absurd (ground (arith, u, g, n))
          | inr (key, k) ↦ elim (Hashed-cases (hash_api_key s.hmac_hex key s.api_key_pepper)) [
            | inr (e, q) ↦ absurd (ground (arith, u, g, k, q))
            | inl (digest, q) ↦
                let made = new_invitation now id req key digest in
                let same : made ≡ i = ground (arith, u, g, k, q) in
                let life = expires_in-positive req.expires_in_seconds in
                let short : expires_in req.expires_in_seconds ≤ 2592000000000000 =
                  ground (arith, u, g, k, q) in
                subst
                  (Invited s env now req w (invitation_create s env now token id (some req) w).1)
                  same
                  (record {
                    user = user;
                    user_exists = u;
                    group = group;
                    group_exists = g;
                    hashed = q;
                    new = ground (arith, u, g, k, q);
                    stored = ground (arith, u, g, k, q);
                    unused = refl;
                    later = omega arith;
                    bounded = omega arith;
                  })
          ]
        ]
      ]
    ]

-- The seconds are turned into nanoseconds in 64 bits, and a request for 584 years or more may come out
-- short: one for 18446744074 seconds is granted 290448384 nanoseconds and not refused.
expires_in-wraps : expires_in (pos 18446744074) ≡ 290448384
unfolding expires_in duration_bits
expires_in-wraps = refl
