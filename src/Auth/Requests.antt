-- ===== src/Auth/Requests.antt =====
-- Signed requests of src/shared/transfer-http-auth.ts: the signature against the check.
use Prim.Native.Char.{code}
use Prim.Native.String.{◌++◌}
use text.Mathlib.TextLemmas.{nil-append, cons-append}
use vidyut.Prelude.{
  ℕ, ◌+◌, ◌≤◌, ◌≡◌, sym, ap, ◌∙◌, String, true, false, not, some, str_eq, str_eq_iff, str_eq_refl,
  arith, Option-cases, inl, inr, and_join, nat_eq_refl,
}
use vidyut.Wire.Types.{max_safe_integer}
use vidyut.Auth.{
  Crypto, SignedRequest, create_transfer_http_auth, verify_transfer_http_auth, verify_dated,
  strip_prefix, sign, canonical_request, auth_window_ms, is_dated, is_signature,
}

strip_prefix-append : (p s : String) → strip_prefix p (p ++ s) ≡ some s
strip_prefix-append String.[] s = ap some (nil-append s)
strip_prefix-append (String.◌∷◌ c p) s =
    ap (strip_prefix (String.◌∷◌ c p)) (cons-append c p s)
    ∙ rw (nat_eq_refl (code c)) (strip_prefix-append p s)

module _ (crypto : Crypto) (pairing_secret : String) where
  abbrev pub signed : String → String → ℕ → SignedRequest crypto
  signed method path date = record {
    method = method;
    path_and_query = path;
    date = some (create_transfer_http_auth crypto pairing_secret method path date).date;
    authorization =
        some (create_transfer_http_auth crypto pairing_secret method path date).authorization;
  }

  -- A request that was signed at `date` passes at every time within five minutes of it, where
  -- the text of the date is not empty and reads as the date.
  pub signed-verifies :
      (method path : String) (date now : ℕ)
      → crypto.to_integer (crypto.to_text date) ≡ some date
      → str_eq (crypto.to_text date) "" ≡ false
      → date ≤ max_safe_integer
      → now ≤ date + auth_window_ms
      → date ≤ now + auth_window_ms
      → verify_transfer_http_auth crypto pairing_secret now (signed method path date) ≡ true
  unfolding verify_transfer_http_auth verify_dated create_transfer_http_auth
  signed-verifies method path date now reads written safe late early =
      let text = crypto.to_text date in
      let signature = sign crypto pairing_secret (canonical_request crypto method path text) in
      and_join (not (str_eq text "")) _ (ap not written) (
        and_join (is_dated crypto now (crypto.to_integer text)) _
          (ap (is_dated crypto now) reads ∙ ground arith)
          (ap (is_signature crypto signature) (strip_prefix-append "Vidyut " signature)
            ∙ str_eq_refl signature))

  -- A request that passes carries a date that reads as a safe integer within five minutes of the
  -- clock, and the signature under the secret of its method, its path and query, and that date.
  pub verified-signed :
      (now : ℕ) (r : SignedRequest crypto)
      → verify_transfer_http_auth crypto pairing_secret now r ≡ true
      → (text : String) × (authorization : String) × (date : ℕ) × (r.date ≡ some text)
        × (r.authorization ≡ some authorization)
        × (crypto.to_integer text ≡ some date)
        × (now ≤ date + auth_window_ms)
        × (date ≤ now + auth_window_ms)
        × (strip_prefix "Vidyut " authorization
            ≡ some (
                sign crypto pairing_secret
                  (canonical_request crypto r.method r.path_and_query text)))
  unfolding verify_transfer_http_auth verify_dated
  verified-signed now r h = elim (Option-cases r.date) [
    | inl none_given ↦ absurd (ground arith)
    | inr (text, et) ↦ elim (Option-cases r.authorization) [
      | inl none_given ↦ absurd (ground arith)
      | inr (authorization, ea) ↦ elim (Option-cases (crypto.to_integer text)) [
        | inl none_read ↦ absurd (ground arith)
        | inr (date, ed) ↦ elim (Option-cases (strip_prefix "Vidyut " authorization)) [
          | inl other ↦ absurd (ground arith)
          | inr (signature, es) ↦
              let expected =
                sign crypto pairing_secret
                  (canonical_request crypto r.method r.path_and_query text) in
              let same : str_eq expected signature ≡ true = ground arith in
              (
                text,
                authorization,
                date,
                et,
                ea,
                ed,
                ground arith,
                ground arith,
                es ∙ ap some (sym ((str_eq_iff expected signature).0 same)),
              )
        ]
      ]
    ]
  ]
