-- ===== src/Auth.antt =====
-- The proofs of src/shared/auth.ts and src/shared/session-seal.ts, and the signed requests of
-- src/shared/transfer-http-auth.ts. HMAC-SHA-256, its encodings, the number that a text reads as and
-- the upper case of a text are parameters. `timingSafeEqual` compares.
pub mod Requests
mod Tests
use Prim.Native.Char.{Char, code}
use Prim.Native.String.{◌++◌}
use vidyut.Prelude.{
  ℕ, ◌+◌, String, Bool, true, false, not, ◌&&◌, ◌||◌, List, [], ◌∷◌, Option, none, some, leb, ◌==◌,
  str_eq, if◌then◌else◌,
}
use vidyut.Wire.Types.{max_safe_integer}
use vidyut.Wire.Messages.{RelayMessage}

-- `to_text` is `String(date)`. A date in a header is any text: `to_integer` gives the safe integer
-- that `Number` reads it as, not negative for a clock.
pub record Crypto : Type 0 where
  pub hmac_base64 : String → String → String
  pub hmac_base64url : String → String → String
  pub hmac_bytes : String → String → List ℕ
  pub to_integer : String → Option ℕ
  pub to_text : ℕ → String
  pub to_upper_case : String → String

-- `5 * 60 * 1000`
abbrev pub auth_window_ms : ℕ
auth_window_ms = 300_000

-- `texts.join(",")`
abbrev pub join_comma : List String → String
join_comma [] = ""
join_comma (s ∷ []) = s
join_comma (s ∷ t ∷ rest) = s ++ "," ++ join_comma (t ∷ rest)

-- The text behind a prefix: `startsWith` and `slice`.
abbrev pub strip_prefix : String → String → Option String
strip_prefix String.[] s = some s
strip_prefix (String.◌∷◌ p ps) String.[] = none
strip_prefix (String.◌∷◌ p ps) (String.◌∷◌ c s) =
    if code p == code c then strip_prefix ps s else none

module _ (crypto : Crypto) where
  unfoldable pub create_pairing_proof : String → String → String → String
  create_pairing_proof pairing_secret challenge device_id =
      crypto.hmac_base64 pairing_secret (challenge ++ ":" ++ device_id)

  unfoldable pub verify_pairing_proof : String → String → String → String → Bool
  unfolding create_pairing_proof
  verify_pairing_proof pairing_secret challenge device_id proof =
      str_eq (create_pairing_proof pairing_secret challenge device_id) proof

  unfoldable pub create_auth_message : String → String → String → RelayMessage
  unfolding create_pairing_proof
  create_auth_message pairing_secret challenge device_id =
      RelayMessage.auth device_id (create_pairing_proof pairing_secret challenge device_id) none
        none

  unfoldable pub create_relay_proof : String → String → String → List String → String → String
  create_relay_proof pairing_secret challenge client_challenge features device_id =
      crypto.hmac_base64 pairing_secret (
        "vidyut-relay-proof-v1:"
        ++ challenge
        ++ ":"
        ++ client_challenge
        ++ ":"
        ++ join_comma features
        ++ ":"
        ++ device_id)

  unfoldable pub verify_relay_proof :
      String → String → String → List String → String → String → Bool
  unfolding create_relay_proof
  verify_relay_proof pairing_secret challenge client_challenge features device_id proof =
      str_eq (create_relay_proof pairing_secret challenge client_challenge features device_id) proof

  unfoldable pub derive_session_key : String → String → String → String → List ℕ
  derive_session_key pairing_secret challenge client_challenge device_id =
      crypto.hmac_bytes pairing_secret
        ("vidyut-session-v1:" ++ challenge ++ ":" ++ client_challenge ++ ":" ++ device_id)

  unfoldable pub canonical_request : String → String → String → String
  canonical_request method path_and_query date =
      crypto.to_upper_case method ++ "\n" ++ path_and_query ++ "\n" ++ date

  unfoldable pub sign : String → String → String
  sign pairing_secret value = crypto.hmac_base64url pairing_secret value

  pub record TransferHttpAuthHeaders : Type 0 where
    pub date : String
    pub authorization : String

  unfoldable pub create_transfer_http_auth : String → String → String → ℕ → TransferHttpAuthHeaders
  unfolding sign canonical_request
  create_transfer_http_auth pairing_secret method path_and_query date = record {
    date = crypto.to_text date;
    authorization =
        "Vidyut "
        ++ sign pairing_secret (canonical_request method path_and_query (crypto.to_text date));
  }

  -- What `verifyTransferHttpAuth` reads of a request; a header that is missing is none.
  pub record SignedRequest : Type 0 where
    pub method : String
    pub path_and_query : String
    pub date : Option String
    pub authorization : Option String

  -- `Math.abs(now - date) <= authWindowMs`
  abbrev pub is_in_window : ℕ → ℕ → Bool
  is_in_window now date = leb now (date + auth_window_ms) && leb date (now + auth_window_ms)

  abbrev pub is_dated : ℕ → Option ℕ → Bool
  is_dated now none = false
  is_dated now (some date) = leb date max_safe_integer && is_in_window now date

  abbrev pub is_signature : String → Option String → Bool
  is_signature expected none = false
  is_signature expected (some signature) = str_eq expected signature

  unfoldable pub verify_dated : String → ℕ → String → String → SignedRequest → Bool
  unfolding sign canonical_request
  verify_dated pairing_secret now date authorization r =
      not (str_eq date "")
      && (is_dated now (crypto.to_integer date)
          && is_signature (sign pairing_secret (canonical_request r.method r.path_and_query date))
              (strip_prefix "Vidyut " authorization))

  unfoldable pub verify_transfer_http_auth : String → ℕ → SignedRequest → Bool
  unfolding verify_dated
  verify_transfer_http_auth pairing_secret now r = elim r.date [
    | none ↦ false
    | some date ↦ elim r.authorization [
      | none ↦ false
      | some authorization ↦ verify_dated pairing_secret now date authorization r
    ]
  ]
