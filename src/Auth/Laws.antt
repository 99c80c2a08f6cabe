-- ===== src/Auth/Laws.antt =====
-- Keys and digests of internal/auth/apikey.go.
use linkbit.Prelude.{String, ◌≡◌, ◌↔◌, true, eq_iff, arith}
use linkbit.Prelude.Text.{trim_space}
use linkbit.Auth.{ok, hash_api_key, verify_api_key}

-- Where the HMAC under this pepper tells these two keys apart: a key passes against the digest that
-- was stored for another exactly if the two are the same up to white space at their ends. That the
-- stored key has a digest includes that the pepper and the key are not blank.
pub verify-hash :
    (hmac_hex : String → String → String) (pepper stored presented digest : String)
    → (hmac_hex pepper (trim_space presented) ≡ hmac_hex pepper (trim_space stored)
        → trim_space presented ≡ trim_space stored)
    → hash_api_key hmac_hex stored pepper ≡ ok digest
    → (verify_api_key hmac_hex presented digest pepper ≡ true)
      ↔ (trim_space presented ≡ trim_space stored)
unfolding verify_api_key hash_api_key
verify-hash hmac_hex pepper stored presented digest apart h = (
  (λ v. ground (
    arith,
    apart,
    eq_iff pepper "",
    eq_iff (trim_space presented) "",
    eq_iff (trim_space stored) "",
    eq_iff (hmac_hex pepper (trim_space presented)) digest,
  )),
  (λ e. ground (
    arith,
    eq_iff pepper "",
    eq_iff (trim_space presented) "",
    eq_iff (trim_space stored) "",
    eq_iff (hmac_hex pepper (trim_space presented)) digest,
  )),
)
