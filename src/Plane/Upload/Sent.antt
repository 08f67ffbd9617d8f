-- ===== src/Plane/Upload/Sent.antt =====
-- What an upload request of src/transfer/laptop-data-plane.ts carries.
use vidyut.Prelude.{
  ℕ, ◌+◌, ◌≤◌, ◌≡◌, ap, ◌∙◌, String, List, [], Option, none, some, ok, err, Result, arith,
  Option-cases, inl, inr,
}
use vidyut.Queue.Types.{TransferFileRecord}
use vidyut.Queue.Progress.{present}
use vidyut.Plane.Decimal.{parse_non_negative_integer}
use vidyut.Plane.Cipher.{CipherError, decrypt_transfer_chunk}
use vidyut.Plane.Upload.{Config, UploadRequest, announced, sized, fits, opened_or_none}
use vidyut.Plane.Upload.Finish.{received_chunk}

-- The bytes that a request carries, none where its chunk does not open.
unfoldable pub plaintext_of :
    {Disk : Type 0} → Config Disk → String → String → ℕ → UploadRequest → List ℕ
plaintext_of c transfer_id file_id offset req = elim (present req.nonce) [
  | none ↦ []
  | some nonce ↦ elim (parse_non_negative_integer req.plaintext_bytes) [
    | none ↦ []
    | some n ↦ elim req.body [
      | none ↦ []
      | some ciphertext ↦
          elim (opened_or_none (
            decrypt_transfer_chunk c.aead
              (received_chunk c transfer_id file_id offset n nonce ciphertext) c.secret)) [
                | none ↦ []
                | some bytes ↦ bytes
              ]
    ]
  ]
]

sized_parts :
    (chunk_bytes offset : ℕ) (r : TransferFileRecord) (o : Option ℕ) (n : ℕ)
    → sized chunk_bytes offset r o ≡ some n
    → (o ≡ some n) × (offset + n ≤ r.size)
unfolding fits
sized_parts chunk_bytes offset r none n h = absurd (cc h)
sized_parts chunk_bytes offset r (some m) n h = (ground arith, ground arith)

pub announced_parts :
    (chunk_bytes offset : ℕ) (r : TransferFileRecord) (req : UploadRequest) (nonce : String) (n : ℕ)
    → announced chunk_bytes offset r req ≡ some (nonce, n)
    → (present req.nonce ≡ some nonce)
      × (parse_non_negative_integer req.plaintext_bytes ≡ some n)
      × (offset + n ≤ r.size)
unfolding announced fits
announced_parts chunk_bytes offset r req nonce n h = elim (Option-cases (present req.nonce)) [
  | inl e ↦ absurd (cc (rw (e, announced) at h))
  | inr (a, e) ↦
      elim (Option-cases
        (sized chunk_bytes offset r (parse_non_negative_integer req.plaintext_bytes))) [
          | inl f ↦ absurd (cc (rw f at (rw (e, announced) at h)))
          | inr (m, f) ↦
              let same : ◌≡◌ {A = Option (String × ℕ)} (some (a, m)) (some (nonce, n)) =
                rw f at (rw (e, announced) at h) in
              let same_nonce : a ≡ nonce = cc same in
              let same_count : m ≡ n = cc same in
              let (parsed, small) = sized_parts chunk_bytes offset r _ m f in
              (e ∙ ap some same_nonce, parsed ∙ ap some same_count, rw (← same_count) small)
        ]
]

pub opened-ok :
    (r : Result CipherError (List ℕ)) (bytes : List ℕ)
    → opened_or_none r ≡ some bytes
    → r ≡ ok bytes
opened-ok (ok b) bytes h = cc h
opened-ok (err e) bytes h = absurd (cc h)

pub plaintext_of-eq :
    {Disk : Type 0} (c : Config Disk) (transfer_id file_id : String) (offset n : ℕ)
    (req : UploadRequest) (nonce : String) (ciphertext bytes : List ℕ)
    → present req.nonce ≡ some nonce
    → parse_non_negative_integer req.plaintext_bytes ≡ some n
    → req.body ≡ some ciphertext
    → opened_or_none (
        decrypt_transfer_chunk c.aead
          (received_chunk c transfer_id file_id offset n nonce ciphertext)
          c.secret)
      ≡ some bytes
    → plaintext_of c transfer_id file_id offset req ≡ bytes
unfolding plaintext_of
plaintext_of-eq c transfer_id file_id offset n req nonce ciphertext bytes a b d e =
    rw (a, plaintext_of) (rw b (rw d (rw e)))
