-- ===== src/Controller/Guard.antt =====
-- internal/controller/server.go: the check of the API key before a handler (requireAPIKeyScopes,
-- verifyAPIKeyScope, scopeAllowed).
pub mod Laws
use linkbit.Prelude.{
  ℕ, String, Bool, true, false, not, ◌&&◌, ◌||◌, List, [], ◌∷◌, ◌==◌, if◌then◌else◌,
}
use linkbit.Auth.{hash_api_key, verify_api_key, Hashed}
use linkbit.Store.{Db, Fault, Result}
use linkbit.Store.Keys.{get_api_key_by_digest, touch_api_key}
use linkbit.Controller.Server.{Server, World, Response, failed}

unfoldable pub scope_allowed : String → List String → Bool
scope_allowed actual [] = false
scope_allowed actual (scope ∷ scopes) = (actual == scope) || scope_allowed actual scopes

-- That the time of the last use cannot be written is only logged.
unfoldable pub verify_api_key_scope : Server → Fault → ℕ → String → List String → Db → Bool × Db
unfolding scope_allowed
verify_api_key_scope s fault now api_key scopes db =
    if scope_allowed "admin" scopes
      && verify_api_key s.hmac_hex api_key s.admin_digest s.api_key_pepper
    then (true, db)
    else elim (hash_api_key s.hmac_hex api_key s.api_key_pepper) [
      | Hashed.err e ↦ (false, db)
      | Hashed.ok digest ↦ elim (get_api_key_by_digest s.codec fault digest db) [
        | Result.err e ↦ (false, db)
        | Result.ok stored ↦
            if not (scope_allowed stored.scope scopes)
            then (false, db)
            else (true, (touch_api_key s.codec fault stored.id now db).1)
      ]
    ]

-- A handler behind the check; `unauthorised` is writeError with 401 and "invalid api key".
unfoldable pub require_api_key_scopes :
    {R : Type 0}
    → Server
    → Fault
    → ℕ
    → R
    → (World → R × World)
    → List String
    → String
    → World
    → R × World
require_api_key_scopes s fault now unauthorised next scopes api_key w =
    let (passes, db') = verify_api_key_scope s fault now api_key scopes w.db in
    if not passes then (unauthorised, record w { db = db' }) else next (record w { db = db' })

-- requireAPIKey
abbrev pub require_api_key :
    {R : Type 0} → Server → Fault → ℕ → R → (World → R × World) → String → World → R × World
require_api_key s fault now unauthorised next =
    require_api_key_scopes s fault now unauthorised next ("admin" ∷ [])
