-- ===== src/Controller/Routes/Laws.antt =====
-- What every request to the controller keeps.
use mathlib.Core.Path.{subst}
use linkbit.Prelude.{ℕ, ◌≡◌, ◌≢◌, sym, String, Bool, true, false, List, arith, any}
use linkbit.Auth.{hash_api_key, verify_api_key, Hashed}
use linkbit.Store.{Fault, select_api_key, revoke_api_key_row}
use linkbit.Store.Rows.{CodecLaws}
use linkbit.Store.Keys.{revoke_api_key}
use linkbit.Store.Revoked.{is_key, get-revoke}
use linkbit.Store.Unique.{IsKeyed}
use linkbit.Store.Unique.History.{writes-IsKeyed}
use linkbit.Controller.Server.{Server, World}
use linkbit.Controller.Guard.{verify_api_key_scope}
use linkbit.Controller.Routes.{Request, serve_all}
use linkbit.Controller.Routes.Writes.{serve_all-Wrote}

module _ (average : List ℕ → ℕ) (equal_fold : String → String → Bool) (s : Server) where
  -- No sequence of requests, whatever the system fails at in each, gives two rows of a table one
  -- primary key, two invitations or API keys one digest, or two devices one virtual IP, if none is
  -- so at the start.
  pub serve_all-IsKeyed :
      (qs : List Request) (w : World)
      → IsKeyed w.db
      → IsKeyed (serve_all average equal_fold s qs w).db
  serve_all-IsKeyed qs w k =
      let h = serve_all-Wrote average equal_fold s qs w in
      subst IsKeyed (sym h.effect) (writes-IsKeyed s.codec h.history w.db k)

  -- A key that was revoked passes no check again: after any requests, whatever fails in them, a
  -- request with a key of that digest is turned away unless it is the bootstrap key. No two keys
  -- have one digest, the key is in the table when it is revoked, at a time that is not the zero
  -- time, and neither the revocation nor the look-up fails.
  pub revoked_key_fails :
      (laws : CodecLaws s.codec) (f g : Fault) (id api_key digest : String) (now later : ℕ)
      (qs : List Request) (w : World) (scopes : List String)
      → IsKeyed w.db
      → any (is_key id digest) w.db.api_keys ≡ true
      → now ≢ 0
      → f revoke_api_key_row ≡ false
      → g select_api_key ≡ false
      → hash_api_key s.hmac_hex api_key s.api_key_pepper ≡ Hashed.ok digest
      → verify_api_key s.hmac_hex api_key s.admin_digest s.api_key_pepper ≡ false
      → let revoked : World = record w { db = (revoke_api_key s.codec f id now w.db).1 } in
        (verify_api_key_scope s g later api_key scopes
          (serve_all average equal_fold s qs revoked).db).0
        ≡ false
  unfolding verify_api_key_scope
  revoked_key_fails laws f g id api_key digest now later qs w scopes k key nz good good' h other =
      let revoked : World = record w { db = (revoke_api_key s.codec f id now w.db).1 } in
      let served = serve_all-Wrote average equal_fold s qs revoked in
      let gone =
        get-revoke s.codec laws f g id digest now served.history w.db k key nz good good' in
      ground (arith, served.effect, gone, h, other)
