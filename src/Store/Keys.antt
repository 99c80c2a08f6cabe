-- ===== src/Store/Keys.antt =====
-- internal/store/sqlite/store.go: API keys and invitations. `now` is `time.Now().UTC()`.
use linkbit.Prelude.{ℕ, String, Bool, none, some, List, map, any, ◌||◌, ◌&&◌, ◌==◌, if◌then◌else◌}
use linkbit.Prelude.Sort.{sort_by}
use linkbit.Prelude.Select.{find_row, update_rows}
use linkbit.Models.{InvitationRow, ApiKey, Invitation}
use linkbit.Store.{
  Codec, Db, Fault, insert_api_key, select_api_key, touch_api_key_row, revoke_api_key_row,
  select_api_keys, insert_invitation, select_invitation, mark_invitation_row, Result, ok, err,
  no_rows, constraint_failed, statement_failed, insert_row, older,
}
use linkbit.Store.Rows.{format_time, api_key_row, scan_api_key, invitation_row, scan_invitation}

abbrev pub has_digest : String → ApiKey String → Bool
has_digest digest r = (r.digest == digest) && (r.revoked_at == "")

abbrev pub is_revocable : String → ApiKey String → Bool
is_revocable id r = (r.id == id) && (r.revoked_at == "")

module _ (codec : Codec) (fault : Fault) where
  unfoldable pub create_api_key : ApiKey ℕ → Db → Result (Unit {0}) × Db
  create_api_key key db =
      if fault insert_api_key
      then (err statement_failed, db)
      else elim (insert_row (λ (r : ApiKey String). (r.id == key.id) || (r.digest == key.digest))
          (api_key_row codec key) db.api_keys) [
            | none ↦ (err constraint_failed, db)
            | some keys ↦ (ok tt, record db { api_keys = keys })
          ]

  unfoldable pub get_api_key_by_digest : String → Db → Result (ApiKey ℕ)
  get_api_key_by_digest digest db =
      if fault select_api_key
      then err statement_failed
      else elim (find_row (has_digest digest) db.api_keys) [
        | none ↦ err no_rows
        | some row ↦ ok (scan_api_key codec row)
      ]

  unfoldable pub touch_api_key : String → ℕ → Db → Result (Unit {0}) × Db
  touch_api_key id now db = if fault touch_api_key_row then (err statement_failed, db) else (
    ok tt,
    record db {
      api_keys =
          update_rows (λ (r : ApiKey String). r.id == id)
            (λ r. record r { last_used_at = format_time codec now }) db.api_keys;
    },
  )

  unfoldable pub revoke_api_key : String → ℕ → Db → Result (Unit {0}) × Db
  revoke_api_key id now db =
      if fault revoke_api_key_row
      then (err statement_failed, db)
      else if any (is_revocable id) db.api_keys
      then (
        ok tt,
        record db {
          api_keys =
              update_rows (is_revocable id) (λ r. record r { revoked_at = format_time codec now })
                db.api_keys;
        },
      )
      else (err no_rows, db)

  unfoldable pub list_api_keys : Db → Result (List (ApiKey ℕ))
  list_api_keys db =
      if fault select_api_keys
      then err statement_failed
      else ok (
          map (scan_api_key codec)
            (sort_by (older (λ (r : ApiKey String). r.created_at)) db.api_keys))

  unfoldable pub create_invitation : Invitation ℕ → Db → Result (Unit {0}) × Db
  create_invitation i db =
      if fault insert_invitation
      then (err statement_failed, db)
      else elim (insert_row
          (λ (r : InvitationRow). (r.id == i.id) || (r.token_hash == i.token_hash))
          (invitation_row codec i) db.invitations) [
            | none ↦ (err constraint_failed, db)
            | some invitations ↦ (ok tt, record db { invitations = invitations })
          ]

  unfoldable pub get_invitation_by_token_hash : String → Db → Result (Invitation ℕ)
  get_invitation_by_token_hash token_hash db =
      if fault select_invitation
      then err statement_failed
      else elim (find_row (λ (r : InvitationRow). r.token_hash == token_hash) db.invitations) [
        | none ↦ err no_rows
        | some row ↦ ok (scan_invitation codec row)
      ]

  unfoldable pub mark_invitation_used : String → ℕ → Db → Result (Unit {0}) × Db
  mark_invitation_used id now db =
      if fault mark_invitation_row then (err statement_failed, db) else (
        ok tt,
        record db {
          invitations =
              update_rows (λ (r : InvitationRow). r.id == id)
                (λ r. record r { used_at = format_time codec now }) db.invitations;
        },
      )
