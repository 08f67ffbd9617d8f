-- ===== src/Auth/Tests.antt =====
-- Concrete requests for src/shared/transfer-http-auth.ts.
use vidyut.Prelude.{ℕ, ◌+◌, ◌≤◌, ◌≡◌, refl, String, true, [], some, arith}
use vidyut.Auth.{
  Crypto, SignedRequest, sign, canonical_request, verify_transfer_http_auth, strip_prefix,
  auth_window_ms,
}
use vidyut.Auth.Requests.{signed, signed-verifies, verified-signed}

abbrev crypto : Crypto
crypto = record {
  hmac_base64 = λ secret text. "proof";
  hmac_base64url = λ secret text. "signature";
  hmac_bytes = λ secret text. [];
  to_integer = λ text. some 1000;
  to_text = λ n. "1000";
  to_upper_case = λ s. s;
}

abbrev request : SignedRequest crypto
request = signed crypto "secret" "PUT" "/transfers/x" 1000

signed-verifies_example : verify_transfer_http_auth crypto "secret" 2000 request ≡ true
signed-verifies_example =
    signed-verifies crypto "secret" "PUT" "/transfers/x" 1000 2000 refl refl (omega arith)
      (omega arith) (omega arith)

verified-signed_example :
    (text : String) × (authorization : String) × (date : ℕ) × (request.date ≡ some text)
    × (request.authorization ≡ some authorization)
    × (crypto.to_integer text ≡ some date)
    × (2000 ≤ date + auth_window_ms)
    × (date ≤ 2000 + auth_window_ms)
    × (strip_prefix "Vidyut " authorization
        ≡ some (sign crypto "secret" (canonical_request crypto "PUT" "/transfers/x" text)))
verified-signed_example = verified-signed crypto "secret" 2000 request signed-verifies_example
