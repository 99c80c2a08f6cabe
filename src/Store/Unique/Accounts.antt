-- ===== src/Store/Unique/Accounts.antt =====
-- Users, groups, API keys and invitations keep their keys.
use linkbit.Prelude.{ℕ, refl, String, arith, ◌==◌}
use linkbit.Prelude.Distinct.{concat-Distinct, update_rows-Distinct}
use linkbit.Models.{InvitationRow, User, DeviceGroup, Invitation, ApiKey}
use linkbit.Store.{Codec, Db, Fault}
use linkbit.Store.Rows.{format_time, user_row, group_row, invitation_row, api_key_row}
use linkbit.Store.Users.{migrate, create_user, create_group, default_user, default_group}
use linkbit.Store.Keys.{
  create_api_key, touch_api_key, revoke_api_key, is_revocable, create_invitation,
  mark_invitation_used,
}
use linkbit.Store.Unique.{
  user_id, group_id, invitation_id, invitation_token, api_key_id, api_key_digest, IsKeyed,
  any_of_or,
}

module _ (codec : Codec) (fault : Fault) where
  pub migrate-IsKeyed : (now : ℕ) (db : Db) → IsKeyed db → IsKeyed (migrate codec fault now db).1
  unfolding migrate
  migrate-IsKeyed now db k = ground (
    arith,
    concat-Distinct user_id db.users (default_user (format_time codec now)),
    concat-Distinct group_id db.groups (default_group (format_time codec now)),
  )

  pub create_user-IsKeyed :
      (u : User ℕ) (db : Db) → IsKeyed db → IsKeyed (create_user codec fault u db).1
  unfolding create_user user_row
  create_user-IsKeyed u db k = ground (arith, concat-Distinct user_id db.users (user_row codec u))

  pub create_group-IsKeyed :
      (g : DeviceGroup ℕ) (db : Db) → IsKeyed db → IsKeyed (create_group codec fault g db).1
  unfolding create_group group_row
  create_group-IsKeyed g db k =
      ground (arith, concat-Distinct group_id db.groups (group_row codec g))

  pub create_api_key-IsKeyed :
      (key : ApiKey ℕ) (db : Db) → IsKeyed db → IsKeyed (create_api_key codec fault key db).1
  unfolding create_api_key api_key_row
  create_api_key-IsKeyed key db k = ground (
    arith,
    any_of_or (λ (r : ApiKey String). r.id == key.id) (λ r. r.digest == key.digest) db.api_keys,
    concat-Distinct api_key_id db.api_keys (api_key_row codec key),
    concat-Distinct api_key_digest db.api_keys (api_key_row codec key),
  )

  pub touch_api_key-IsKeyed :
      (id : String) (now : ℕ) (db : Db)
      → IsKeyed db
      → IsKeyed (touch_api_key codec fault id now db).1
  unfolding touch_api_key
  touch_api_key-IsKeyed id now db k = ground (
    arith,
    update_rows-Distinct api_key_id (λ (r : ApiKey String). r.id == id)
        (λ r. record r { last_used_at = format_time codec now }) (λ r. refl) db.api_keys k.api_keys,
    update_rows-Distinct api_key_digest (λ (r : ApiKey String). r.id == id)
        (λ r. record r { last_used_at = format_time codec now }) (λ r. refl) db.api_keys
        k.api_key_digests,
  )

  pub revoke_api_key-IsKeyed :
      (id : String) (now : ℕ) (db : Db)
      → IsKeyed db
      → IsKeyed (revoke_api_key codec fault id now db).1
  unfolding revoke_api_key
  revoke_api_key-IsKeyed id now db k = ground (
    arith,
    update_rows-Distinct api_key_id (is_revocable id)
        (λ r. record r { revoked_at = format_time codec now }) (λ r. refl) db.api_keys k.api_keys,
    update_rows-Distinct api_key_digest (is_revocable id)
        (λ r. record r { revoked_at = format_time codec now }) (λ r. refl) db.api_keys
        k.api_key_digests,
  )

  pub create_invitation-IsKeyed :
      (i : Invitation ℕ) (db : Db) → IsKeyed db → IsKeyed (create_invitation codec fault i db).1
  unfolding create_invitation invitation_row
  create_invitation-IsKeyed i db k = ground (
    arith,
    any_of_or (λ (r : InvitationRow). r.id == i.id) (λ r. r.token_hash == i.token_hash)
        db.invitations,
    concat-Distinct invitation_id db.invitations (invitation_row codec i),
    concat-Distinct invitation_token db.invitations (invitation_row codec i),
  )

  pub mark_invitation_used-IsKeyed :
      (id : String) (now : ℕ) (db : Db)
      → IsKeyed db
      → IsKeyed (mark_invitation_used codec fault id now db).1
  unfolding mark_invitation_used
  mark_invitation_used-IsKeyed id now db k = ground (
    arith,
    update_rows-Distinct invitation_id (λ (r : InvitationRow). r.id == id)
        (λ r. record r { used_at = format_time codec now }) (λ r. refl) db.invitations
        k.invitations,
    update_rows-Distinct invitation_token (λ (r : InvitationRow). r.id == id)
        (λ r. record r { used_at = format_time codec now }) (λ r. refl) db.invitations
        k.invitation_tokens,
  )
