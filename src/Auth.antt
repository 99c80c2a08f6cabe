-- ===== src/Auth.antt =====
-- internal/auth/apikey.go. HMAC-SHA256 in hexadecimal and the system's randomness are parameters:
-- `hmac_hex pepper key`, and the base64 text of the 32 random bytes, none where rand.Read fails.
pub mod Laws
use Prim.Native.String.{◌++◌ as append}
use linkbit.Prelude.{
  ◌≡◌, ◌⊎◌, refl, inl, inr, String, Bool, true, false, Option, none, some, ◌==◌, if◌then◌else◌,
}
use linkbit.Prelude.Text.{trim_space}

pub data AuthError : Type 0 where
  err_invalid_secret empty_key : AuthError

pub data Hashed : Type 0 where
  ok : String → Hashed
  err : AuthError → Hashed

unfoldable pub new_api_key : Option String → Option String
new_api_key none = none
new_api_key (some raw) = some (append "lb_" raw)

module _ (hmac_hex : String → String → String) where
  unfoldable pub hash_api_key : String → String → Hashed
  hash_api_key api_key pepper =
      if pepper == ""
      then err err_invalid_secret
      else if trim_space api_key == ""
      then err empty_key
      else ok (hmac_hex pepper (trim_space api_key))

  unfoldable pub verify_api_key : String → String → String → Bool
  verify_api_key presented expected_digest pepper = elim (hash_api_key presented pepper) [
    | err e ↦ false
    | ok actual_digest ↦ actual_digest == expected_digest
  ]

pub Hashed-cases :
    (h : Hashed) → ((digest : String) × (h ≡ ok digest)) ⊎ ((e : AuthError) × (h ≡ err e))
Hashed-cases (ok digest) = inl (digest, refl)
Hashed-cases (err e) = inr (e, refl)
