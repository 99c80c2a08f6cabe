-- ===== src/Store/Revoked.antt =====
-- RevokeAPIKey and GetAPIKeyByDigest of internal/store/sqlite/store.go.
use linkbit.Prelude.{
  ℕ, ◌≡◌, ◌≢◌, refl, String, Bool, true, false, not, ◌&&◌, none, List, [], ◌∷◌, ◌++◌, inl, inr,
  arith, any, ◌==◌, eq_iff, Bool-cases,
}
use linkbit.Prelude.Select.{find_row, update_rows}
use linkbit.Prelude.Distinct.{has, Distinct}
use linkbit.Models.{ApiKey}
use linkbit.Store.{Codec, Db, Fault, select_api_key, revoke_api_key_row, err, no_rows}
use linkbit.Store.Rows.{CodecLaws, format_time, api_key_row}
use linkbit.Store.Keys.{
  has_digest, is_revocable, create_api_key, touch_api_key, revoke_api_key, get_api_key_by_digest,
  create_invitation, mark_invitation_used,
}
use linkbit.Store.Users.{migrate, create_user, create_group}
use linkbit.Store.Relays.{upsert_relay, delete_relay, heartbeat_relay}
use linkbit.Store.Devices.{create_device, delete_device, update_device_health}
use linkbit.Store.Policies.{create_policy, delete_policy}
use linkbit.Store.Write.{Write, creates_api_key, touches_api_key, revokes_api_key, write, writes}
use linkbit.Store.Unique.{IsKeyed, api_key_digest}
use linkbit.Store.Unique.History.{writes-IsKeyed, write-IsKeyed}

abbrev revoked_row : String → ApiKey String → Bool
revoked_row digest r = (r.digest == digest) && not (r.revoked_at == "")

-- A revoked key with this digest is in the table.
abbrev HasRevoked : String → List (ApiKey String) → Type 0
HasRevoked digest keys = any (revoked_row digest) keys ≡ true

absent-no_row :
    (digest : String) (keys : List (ApiKey String))
    → has api_key_digest digest keys ≡ false
    → find_row (has_digest digest) keys ≡ none
unfolding find_row
absent-no_row digest [] h = refl
absent-no_row digest (r ∷ keys) h = ground (arith, absent-no_row digest keys)

absent-not_revoked :
    (digest : String) (keys : List (ApiKey String))
    → has api_key_digest digest keys ≡ false
    → any (revoked_row digest) keys ≡ false
absent-not_revoked digest [] h = refl
absent-not_revoked digest (r ∷ keys) h = ground (arith, absent-not_revoked digest keys)

revoked-no_row :
    (digest : String) (keys : List (ApiKey String))
    → Distinct api_key_digest keys
    → HasRevoked digest keys
    → find_row (has_digest digest) keys ≡ none
unfolding find_row
revoked-no_row digest [] d h = refl
revoked-no_row digest (r ∷ keys) (new, d) h = ground (
  arith,
  revoked-no_row digest keys d,
  absent-no_row digest keys,
  absent-not_revoked digest keys,
  eq_iff r.digest digest,
)

any-concat :
    {A : Type 0} (p : A → Bool) (xs : List A) (x : A)
    → any p xs ≡ true
    → any p (xs ++ x ∷ []) ≡ true
any-concat p [] x h = cc
any-concat p (y ∷ xs) x h = ground (arith, any-concat p xs x)

touch-HasRevoked :
    (digest : String) (test : ApiKey String → Bool) (time : String) (keys : List (ApiKey String))
    → HasRevoked digest keys
    → HasRevoked digest (update_rows test (λ r. record r { last_used_at = time }) keys)
unfolding update_rows
touch-HasRevoked digest test time [] h = h
touch-HasRevoked digest test time (r ∷ keys) h =
    ground (arith, touch-HasRevoked digest test time keys)

revoke-HasRevoked :
    (digest id time : String) (keys : List (ApiKey String))
    → HasRevoked digest keys
    → HasRevoked digest (update_rows (is_revocable id) (λ r. record r { revoked_at = time }) keys)
unfolding update_rows
revoke-HasRevoked digest id time [] h = h
revoke-HasRevoked digest id time (r ∷ keys) h =
    ground (arith, revoke-HasRevoked digest id time keys)

write-HasRevoked :
    (codec : Codec) (fault : Fault) (digest : String) (w : Write) (db : Db)
    → HasRevoked digest db.api_keys
    → HasRevoked digest (write codec fault w db).api_keys
unfolding write create_api_key touch_api_key revoke_api_key migrate create_user create_group
    upsert_relay delete_relay heartbeat_relay create_device delete_device update_device_health
    create_policy delete_policy create_invitation mark_invitation_used
write-HasRevoked codec fault digest (creates_api_key k) db h =
    ground (arith, any-concat (revoked_row digest) db.api_keys (api_key_row codec k) h)
write-HasRevoked codec fault digest (touches_api_key id now) db h = ground (
  arith,
  touch-HasRevoked digest (λ (r : ApiKey String). r.id == id) (format_time codec now) db.api_keys h,
)
write-HasRevoked codec fault digest (revokes_api_key id now) db h =
    ground (arith, revoke-HasRevoked digest id (format_time codec now) db.api_keys h)
write-HasRevoked codec fault digest _ db h = ground arith

writes-HasRevoked :
    (codec : Codec) (digest : String) (ws : List (Fault × Write)) (db : Db)
    → HasRevoked digest db.api_keys
    → HasRevoked digest (writes codec ws db).api_keys
unfolding writes
writes-HasRevoked codec digest [] db h = h
writes-HasRevoked codec digest ((fault, w) ∷ ws) db h =
    writes-HasRevoked codec digest ws (write codec fault w db)
      (write-HasRevoked codec fault digest w db h)

abbrev pub is_key : String → String → ApiKey String → Bool
is_key id digest r = (r.id == id) && (r.digest == digest)

revoked_now :
    (id digest time : String) (keys : List (ApiKey String))
    → time ≢ ""
    → any (is_key id digest) keys ≡ true
    → HasRevoked digest (update_rows (is_revocable id) (λ r. record r { revoked_at = time }) keys)
unfolding update_rows
revoked_now id digest time [] t h = cc
revoked_now id digest time (r ∷ keys) t h =
    ground (arith, revoked_now id digest time keys t, eq_iff time "")

already_revoked :
    (id digest : String) (keys : List (ApiKey String))
    → any (is_revocable id) keys ≡ false
    → any (is_key id digest) keys ≡ true
    → HasRevoked digest keys
already_revoked id digest [] h k = cc
already_revoked id digest (r ∷ keys) h k = ground (arith, already_revoked id digest keys)

format_time-ne-empty :
    (codec : Codec) (laws : CodecLaws codec) (now : ℕ) → now ≢ 0 → format_time codec now ≢ ""
unfolding format_time
format_time-ne-empty codec laws now nz = ground (arith, laws.format-ne-empty now)

revoke_api_key-HasRevoked :
    (codec : Codec) (laws : CodecLaws codec) (fault : Fault) (id digest : String) (now : ℕ)
    (db : Db)
    → any (is_key id digest) db.api_keys ≡ true
    → now ≢ 0
    → fault revoke_api_key_row ≡ false
    → HasRevoked digest (revoke_api_key codec fault id now db).1.api_keys
unfolding revoke_api_key
revoke_api_key-HasRevoked codec laws fault id digest now db key nz good =
    elim (Bool-cases (any (is_revocable id) db.api_keys)) [
      | inl e ↦
          rw (good, revoke_api_key)
            (rw e (
              revoked_now id digest (format_time codec now) db.api_keys
                (format_time-ne-empty codec laws now nz) key))
      | inr e ↦ rw (good, revoke_api_key) (rw e (already_revoked id digest db.api_keys e key))
    ]

-- A key that was revoked never authenticates again: whatever is written afterwards, and whichever
-- statements of those writes fail, the look-up of its digest finds no row. No two rows have one key
-- at the start, the API key is in the table when it is revoked, at a time that is not the zero
-- time, and neither the revocation nor the look-up itself fails.
pub get-revoke :
    (codec : Codec) (laws : CodecLaws codec) (f g : Fault) (id digest : String) (now : ℕ)
    (ws : List (Fault × Write)) (db : Db)
    → IsKeyed db
    → any (is_key id digest) db.api_keys ≡ true
    → now ≢ 0
    → f revoke_api_key_row ≡ false
    → g select_api_key ≡ false
    → get_api_key_by_digest codec g digest (writes codec ws (revoke_api_key codec f id now db).1)
      ≡ err no_rows
unfolding get_api_key_by_digest write
get-revoke codec laws f g id digest now ws db k key nz good good' =
    let revoked = (revoke_api_key codec f id now db).1 in
    rw (good', get_api_key_by_digest)
      (rw (
        revoked-no_row digest (writes codec ws revoked).api_keys
            (writes-IsKeyed codec ws revoked
              (write-IsKeyed codec f (revokes_api_key id now) db k)).api_key_digests
            (writes-HasRevoked codec digest ws revoked
              (revoke_api_key-HasRevoked codec laws f id digest now db key nz good)),
        get_api_key_by_digest,
      ))
