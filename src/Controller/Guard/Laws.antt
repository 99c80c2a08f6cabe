-- ===== src/Controller/Guard/Laws.antt =====
-- Who passes the check of API keys.
use linkbit.Prelude.{
  ℕ, ◌≡◌, ◌↔◌, ◌⊎◌, ap, inl, inr, String, true, false, ◌&&◌, some, List, [], ◌∷◌, arith, IsIn,
  eq_iff, Bool-cases, Option-cases,
}
use linkbit.Prelude.Select.{find_row}
use linkbit.Prelude.Distinct.{has, Distinct}
use linkbit.Models.{ApiKey}
use linkbit.Auth.{hash_api_key, verify_api_key, Hashed, Hashed-cases}
use linkbit.Store.{Db, Fault, select_api_key}
use linkbit.Store.Keys.{get_api_key_by_digest, has_digest}
use linkbit.Store.Rows.{scan_api_key}
use linkbit.Store.Unique.{IsKeyed, api_key_digest}
use linkbit.Controller.Server.{Server}
use linkbit.Controller.Guard.{scope_allowed, verify_api_key_scope}

scope_iff : (s : String) (scopes : List String) → (scope_allowed s scopes ≡ true) ↔ IsIn s scopes
unfolding scope_allowed
scope_iff s [] = ((λ h. cc), (λ i. absurd i))
scope_iff s (x ∷ scopes) = (
  (λ h. ground (arith, (scope_iff s scopes).0, eq_iff s x)),
  (λ i. ground (arith, (scope_iff s scopes).1, eq_iff s x)),
)

-- A stored key: the row of a key with this digest, not revoked, whose scope is among those asked for.
pub record Stored (digest : String) (scopes : List String) (keys : List (ApiKey String))
    : Type 0 where
  pub row : ApiKey String
  pub listed : IsIn row keys
  pub same : row.digest ≡ digest
  pub active : row.revoked_at ≡ ""
  pub scoped : IsIn row.scope scopes

found :
    (digest : String) (keys : List (ApiKey String)) {row : ApiKey String}
    → find_row (has_digest digest) keys ≡ some row
    → IsIn row keys × (row.digest ≡ digest) × (row.revoked_at ≡ "")
unfolding find_row
found digest [] e = cc
found digest (r ∷ keys) {row} e =
    ground (arith, found digest keys {row = row}, eq_iff r.digest digest, eq_iff r.revoked_at "")

has_of_IsIn :
    (digest : String) (keys : List (ApiKey String)) (row : ApiKey String)
    → IsIn row keys
    → row.digest ≡ digest
    → has api_key_digest digest keys ≡ true
has_of_IsIn digest [] row i e = absurd i
has_of_IsIn digest (r ∷ keys) row (inl q) e =
    ground (arith, eq_iff r.digest digest, ap (λ (x : ApiKey String). x.digest) q)
has_of_IsIn digest (r ∷ keys) row (inr i) e = ground (arith, has_of_IsIn digest keys row i e)

found_exactly :
    (digest : String) (keys : List (ApiKey String)) (row : ApiKey String)
    → Distinct api_key_digest keys
    → IsIn row keys
    → row.digest ≡ digest
    → row.revoked_at ≡ ""
    → find_row (has_digest digest) keys ≡ some row
unfolding find_row
found_exactly digest [] row d i e a = absurd i
found_exactly digest (r ∷ keys) row d (inl q) e a = ground (
  arith,
  eq_iff r.digest digest,
  eq_iff r.revoked_at "",
  ap (λ (x : ApiKey String). x.digest) q,
  ap (λ (x : ApiKey String). x.revoked_at) q,
)
found_exactly digest (r ∷ keys) row (new, d) (inr i) e a = ground (
  arith,
  found_exactly digest keys row d i e a,
  has_of_IsIn digest keys row i e,
  eq_iff r.digest digest,
)

pub verify_sound :
    (s : Server) (fault : Fault) (now : ℕ) (api_key : String) (scopes : List String) (db : Db)
    → (verify_api_key_scope s fault now api_key scopes db).0 ≡ true
    → (IsIn "admin" scopes
        × (verify_api_key s.hmac_hex api_key s.admin_digest s.api_key_pepper ≡ true))
      ⊎ ((digest : String) × (hash_api_key s.hmac_hex api_key s.api_key_pepper ≡ Hashed.ok digest)
          × Stored digest scopes db.api_keys)
unfolding verify_api_key_scope get_api_key_by_digest scan_api_key
verify_sound s fault now api_key scopes db h =
    elim (Bool-cases (
      scope_allowed "admin" scopes
      && verify_api_key s.hmac_hex api_key s.admin_digest s.api_key_pepper)) [
        | inl admin ↦ inl ((scope_iff "admin" scopes).0 (ground arith), ground arith)
        | inr other ↦ elim (Hashed-cases (hash_api_key s.hmac_hex api_key s.api_key_pepper)) [
          | inr (e, q) ↦ absurd (ground arith)
          | inl (digest, q) ↦ elim (Option-cases (find_row (has_digest digest) db.api_keys)) [
            | inl n ↦ absurd (ground arith)
            | inr (row, f) ↦
                let (i, d, a) = found digest db.api_keys f in
                inr (
                  digest,
                  q,
                  record {
                    row = row;
                    listed = i;
                    same = d;
                    active = a;
                    scoped = (scope_iff row.scope scopes).0 (ground arith);
                  },
                )
          ]
        ]
      ]

verify_complete :
    (s : Server) (fault : Fault) (now : ℕ) (api_key : String) (scopes : List String) (db : Db)
    → IsKeyed db
    → fault select_api_key ≡ false
    → (digest : String) → hash_api_key s.hmac_hex api_key s.api_key_pepper ≡ Hashed.ok digest
    → Stored digest scopes db.api_keys
    → (verify_api_key_scope s fault now api_key scopes db).0 ≡ true
unfolding verify_api_key_scope get_api_key_by_digest scan_api_key
verify_complete s fault now api_key scopes db k good digest q st =
    let f = found_exactly digest db.api_keys st.row k.api_key_digests st.listed st.same st.active in
    let a = (scope_iff st.row.scope scopes).1 st.scoped in ground (arith, f, a, q)

-- A request passes the check exactly if the admin's scope is asked for and the key is the bootstrap
-- key, or if the key's digest is that of a stored key that is not revoked and has a scope that is
-- asked for. The digests in the table are distinct, and the look-up of the key does not fail.
pub verify_scope_iff :
    (s : Server) (fault : Fault) (now : ℕ) (api_key : String) (scopes : List String) (db : Db)
    → IsKeyed db
    → fault select_api_key ≡ false
    → ((verify_api_key_scope s fault now api_key scopes db).0 ≡ true) ↔ (
        (IsIn "admin" scopes
          × (verify_api_key s.hmac_hex api_key s.admin_digest s.api_key_pepper ≡ true))
        ⊎ ((digest : String) × (hash_api_key s.hmac_hex api_key s.api_key_pepper ≡ Hashed.ok digest)
            × Stored digest scopes db.api_keys))
unfolding verify_api_key_scope get_api_key_by_digest
verify_scope_iff s fault now api_key scopes db k good = (
  verify_sound s fault now api_key scopes db,
  λ h. elim h [
    | inl (i, v) ↦ (let a = (scope_iff "admin" scopes).1 i in ground (arith, a))
    | inr (digest, q, st) ↦ verify_complete s fault now api_key scopes db k good digest q st
  ],
)
