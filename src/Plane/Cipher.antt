-- ===== src/Plane/Cipher.antt =====
-- src/shared/transfer-crypto.ts: the encryption of a chunk. AES-GCM, PBKDF2, base64 and the text of
-- the associated data are parameters.
pub mod Cache
use vidyut.Prelude.{
  ℕ, ◌≡◌, String, true, false, List, ◌∷◌, ◌++◌, Option, some, ok, arith, Result, ◌>>=◌, ◌>>◌, guard,
  or_throw, ◌==◌, length, Bool-cases, Option-cases, inl, inr,
}
use vidyut.Wire.Patterns.{codes}

pub record TransferChunkMetadata : Type 0 where
  pub transfer_id : String
  pub file_id : String
  pub offset : ℕ
  pub plaintext_bytes : ℕ

pub record EncryptedTransferChunk : Type 0 where
  pub metadata : TransferChunkMetadata
  pub nonce : String
  pub ciphertext : List ℕ

-- `encrypt key iv associated plaintext`, with the tag behind the ciphertext. `derive` is PBKDF2 on the
-- code points of a secret and of a salt. `associated` is `JSON.stringify` of metadata and nonce.
pub record Aead : Type 0 where
  pub derive : List ℕ → List ℕ → List ℕ
  pub encrypt : List ℕ → List ℕ → List ℕ → List ℕ → List ℕ
  pub decrypt : List ℕ → List ℕ → List ℕ → List ℕ → Option (List ℕ)
  pub associated : TransferChunkMetadata → String → List ℕ
  pub to_base64 : List ℕ → String
  pub from_base64 : String → List ℕ

pub data CipherError : Type 0 where
  wrong_count not_authentic : CipherError

abbrev pub kdf_salt_prefix : String
kdf_salt_prefix = "vidyut-v1-file-transfer"

module _ (aead : Aead) where
  -- What `deriveTransferKey` computes where its cache has no entry.
  unfoldable pub transfer_key : String → String → List ℕ
  transfer_key pairing_secret transfer_id =
      aead.derive (codes pairing_secret) (codes kdf_salt_prefix ++ (0 ∷ codes transfer_id))

  abbrev pub sealed_chunk :
      TransferChunkMetadata → List ℕ → String → List ℕ → EncryptedTransferChunk
  sealed_chunk m plaintext pairing_secret nonce_bytes =
      let nonce = aead.to_base64 nonce_bytes in
      record {
        metadata = m;
        nonce = nonce;
        ciphertext =
            aead.encrypt (transfer_key pairing_secret m.transfer_id) nonce_bytes
              (aead.associated m nonce) plaintext;
      }

  unfoldable pub encrypt_transfer_chunk :
      TransferChunkMetadata → List ℕ → String → List ℕ → Result CipherError EncryptedTransferChunk
  encrypt_transfer_chunk m plaintext pairing_secret nonce_bytes = do
    guard (length plaintext == m.plaintext_bytes) CipherError.wrong_count
    ok (sealed_chunk m plaintext pairing_secret nonce_bytes)

  abbrev pub opened_chunk : EncryptedTransferChunk → String → Option (List ℕ)
  opened_chunk chunk pairing_secret =
      aead.decrypt (transfer_key pairing_secret chunk.metadata.transfer_id)
        (aead.from_base64 chunk.nonce) (aead.associated chunk.metadata chunk.nonce) chunk.ciphertext

  unfoldable pub decrypt_transfer_chunk :
      EncryptedTransferChunk → String → Result CipherError (List ℕ)
  decrypt_transfer_chunk chunk pairing_secret = do
    plaintext ← or_throw (opened_chunk chunk pairing_secret) CipherError.not_authentic
    guard (length plaintext == chunk.metadata.plaintext_bytes) CipherError.wrong_count
    ok plaintext

  -- What AES-GCM and base64 promise: a ciphertext decrypts exactly where it is the encryption of the
  -- plaintext under the same key, nonce and associated data.
  pub record IsExact : Type 0 where
    pub decrypt-encrypt :
        (key iv bound plaintext : List ℕ)
        → aead.decrypt key iv bound (aead.encrypt key iv bound plaintext) ≡ some plaintext
    pub encrypt-decrypt :
        (key iv bound ciphertext plaintext : List ℕ)
        → aead.decrypt key iv bound ciphertext ≡ some plaintext
        → aead.encrypt key iv bound plaintext ≡ ciphertext
    pub from_base64-to_base64 : (bytes : List ℕ) → aead.from_base64 (aead.to_base64 bytes) ≡ bytes

  pub decrypt_transfer_chunk-length :
      (secret : String) (chunk : EncryptedTransferChunk) (plaintext : List ℕ)
      → decrypt_transfer_chunk chunk secret ≡ ok plaintext
      → length plaintext ≡ chunk.metadata.plaintext_bytes
  unfolding decrypt_transfer_chunk
  decrypt_transfer_chunk-length secret chunk plaintext h =
      elim (Option-cases (opened_chunk chunk secret)) [
        | inl e ↦ absurd (cc (rw e at h))
        | inr (text, e) ↦ elim (Bool-cases (length text == chunk.metadata.plaintext_bytes)) [
          | inr wrong ↦ absurd (cc (rw (e, wrong) at h))
          | inl right ↦
              let same : text ≡ plaintext = cc (rw (e, right) at h) in rw (← same) (ground arith)
        ]
      ]
