-- ===== src/Plane/Download/Serving.antt =====
-- What a download of src/transfer/laptop-data-plane.ts serves.
use vidyut.Prelude.{
  ℕ, ◌+◌, ◌≤◌, ◌<◌, ◌≡◌, refl, sym, ap, ◌∙◌, subst, String, Bool, true, false, not, List, some,
  Result, ok, err, arith, length, ◌==◌,
}
use vidyut.Wire.Types.{TransferDirection}
use vidyut.Queue.Types.{TransferFileRecord}
use vidyut.Queue.Progress.{present}
use vidyut.Chunks.{legacy_transfer_chunk_bytes}
use vidyut.Plane.Cipher.{EncryptedTransferChunk, CipherError, encrypt_transfer_chunk}
use vidyut.Plane.Sessions.{or_default}
use vidyut.Plane.Disk.{
  StatAnswer, found, no_entry, no_access, stat_failed, SourceAnswer, source_opened, source_missing,
  source_denied, source_failed,
}
use vidyut.Plane.State.{Response, served, of_cipher, Plane}
use vidyut.Plane.Rules.{
  Ends, Ends-next, Ends-reply, Ends-throw, Ends-bind, Ends-then, Ends-or_reply, Ends-refuse_unless,
}
use vidyut.Plane.Upload.{Config, find_transfer}
use vidyut.Plane.Download.{
  chunk_to_serve, is_past_end, check_source, check_open, source_bytes, served_chunk, metadata_of,
  handle_download,
}

-- What the peer takes at once.
abbrev pub peer_maximum : TransferFileRecord → ℕ
peer_maximum r = or_default r.max_chunk_bytes legacy_transfer_chunk_bytes

module _ {Disk : Type 0} (c : Config Disk) (transfer_id file_id : String) (nonce : List ℕ)
    (offset : ℕ) where
  -- An answer that serves `plaintext` of the file `r` in the state `p`.
  pub record Serves (p : Plane Disk) (answer : Response) : Type 0 where
    pub file : TransferFileRecord
    pub path : String
    pub plaintext : List ℕ
    pub chunk : EncryptedTransferChunk
    pub is_found :
        find_transfer p.queue transfer_id file_id TransferDirection.laptop_to_phone ≡ some file
    pub at_confirmed : offset ≡ file.confirmed_offset
    pub source : present file.source_path ≡ some path
    pub unchanged : c.fs.stat p.disk path ≡ found true file.size file.last_modified_ms
    pub read : plaintext ≡ source_bytes c transfer_id file_id path offset (length plaintext) p
    pub encrypted :
        encrypt_transfer_chunk c.aead
          (metadata_of c transfer_id file_id offset (length plaintext))
          plaintext
          c.secret
          nonce
        ≡ ok chunk
    pub answers :
        answer
        ≡ served chunk.nonce chunk.ciphertext offset
            (length plaintext)
            file.size
            (offset + length plaintext == file.size)
    pub within_file : 0 < file.size → offset + length plaintext ≤ file.size
    pub within_chunk : length plaintext ≤ c.chunk_bytes
    pub within_peer : length plaintext ≤ peer_maximum file
    pub progress : 0 < file.size → 0 < c.chunk_bytes → 0 < peer_maximum file → 0 < length plaintext

  chunk_fits :
      (r : TransferFileRecord)
      → is_past_end offset r ≡ false
      → let n = chunk_to_serve c.chunk_bytes offset r in
        (0 < r.size → offset + n ≤ r.size)
        × (n ≤ c.chunk_bytes)
        × (n ≤ peer_maximum r)
        × (0 < r.size → 0 < c.chunk_bytes → 0 < peer_maximum r → 0 < n)
  unfolding chunk_to_serve
  chunk_fits r h =
      let before : 0 < r.size → offset < r.size = λ s. ground arith in
      (λ s. omega (arith, before s), omega arith, omega arith, λ s a b. omega (arith, before s))

  not-false : (b : Bool) → not b ≡ true → b ≡ false
  not-false false h = refl
  not-false true h = absurd (cc h)

  check_source-same :
      (r : TransferFileRecord) (metadata : StatAnswer) (p : Plane Disk)
      → Ends
          (λ _ q. (metadata ≡ found true r.size r.last_modified_ms) × (q ≡ p))
          (λ _ q. q ≡ p)
          (λ q. q ≡ p)
          (check_source c transfer_id file_id r metadata p)
  check_source-same r (found is_file size modified) p =
      Ends-refuse_unless _ _ p (λ e. (ground arith, refl)) (λ _. refl)
  check_source-same r no_entry p =
      Ends-reply (λ _ q. (no_entry ≡ found true r.size r.last_modified_ms) × (q ≡ p)) _ p refl
  check_source-same r no_access p =
      Ends-reply (λ _ q. (no_access ≡ found true r.size r.last_modified_ms) × (q ≡ p)) _ p refl
  check_source-same r stat_failed p =
      Ends-throw (λ _ q. (stat_failed ≡ found true r.size r.last_modified_ms) × (q ≡ p)) _ p refl

  check_open-same :
      (answer : SourceAnswer) (p : Plane Disk)
      → Ends (λ _ q. q ≡ p) (λ _ q. q ≡ p) (λ q. q ≡ p) (check_open c transfer_id file_id answer p)
  check_open-same source_opened p = Ends-next (λ _ q. q ≡ p) _ p refl
  check_open-same source_missing p = Ends-reply (λ _ q. q ≡ p) _ p refl
  check_open-same source_denied p = Ends-reply (λ _ q. q ≡ p) _ p refl
  check_open-same source_failed p = Ends-throw (λ _ q. q ≡ p) _ p refl

  serving :
      (r : TransferFileRecord) (path : String) (plaintext : List ℕ) (q p : Plane Disk) (n : ℕ)
      → q ≡ p
      → length plaintext ≡ n
      → ((chunk : EncryptedTransferChunk) (answer : Response)
          → encrypt_transfer_chunk c.aead
              (metadata_of c transfer_id file_id offset (length plaintext))
              plaintext
              c.secret
              nonce
            ≡ ok chunk
          → answer
            ≡ served chunk.nonce chunk.ciphertext offset
                (length plaintext)
                r.size
                (offset + length plaintext == r.size)
          → Serves p answer)
      → (made : Result CipherError EncryptedTransferChunk)
      → made
        ≡ encrypt_transfer_chunk c.aead
            (metadata_of c transfer_id file_id offset n)
            plaintext
            c.secret
            nonce
      → Ends
          (λ answer s. Serves p answer × (s ≡ p))
          (λ _ s. s ≡ p)
          (λ s. s ≡ p)
          (served_chunk c transfer_id file_id offset n r.size made q)
  serving r path plaintext q p n e count build (ok chunk) h =
      Ends-next (λ answer s. Serves p answer × (s ≡ p)) _ q
        (
          build chunk _
              (subst
                (λ k.
                  encrypt_transfer_chunk c.aead (metadata_of c transfer_id file_id offset k)
                    plaintext c.secret nonce
                  ≡ ok chunk)
                (sym count) (sym h))
              (ap (λ k. served chunk.nonce chunk.ciphertext offset k r.size (offset + k == r.size))
                (sym count)),
          e,
        )
  serving r path plaintext q p n e count build (err x) h =
      Ends-throw (λ answer s. Serves p answer × (s ≡ p)) of_cipher q e

  -- A download changes nothing, however it ends. An answer that serves a chunk serves, encrypted for
  -- its offset, the bytes read there of a file that is to go to the phone, at the offset that is
  -- confirmed, from a source with the size and time of the record: no more than the chunk size of the
  -- laptop and of the peer, within the file and, where the sizes allow, at least one, if the file is not
  -- empty.
  pub handle_download-Serves :
      (p : Plane Disk)
      → Ends
          (λ answer q. Serves p answer × (q ≡ p))
          (λ _ q. q ≡ p)
          (λ q. q ≡ p)
          (handle_download c transfer_id file_id nonce offset p)
  unfolding handle_download
  handle_download-Serves p =
      let known = find_transfer p.queue transfer_id file_id TransferDirection.laptop_to_phone in
      Ends-bind {Q = λ o q. (o ≡ known) × (q ≡ p)} _ _ p
        (Ends-next (λ o q. (o ≡ known) × (q ≡ p)) _ p (refl, refl))
        λ o p1 (eo, e1).
          Ends-bind {Q = λ r q. (known ≡ some r) × (q ≡ p)} _ _ p1
            (Ends-or_reply o _ p1 (λ r e. (sym eo ∙ e, e1)) (λ _. e1))
            λ r p2 (er, e2).
              Ends-then {Q = λ q. (offset ≡ r.confirmed_offset) × (q ≡ p)} _ _ p2
                (Ends-refuse_unless (offset == r.confirmed_offset) _ p2 (λ e. (ground arith, e2))
                  (λ _. e2))
                λ p3 (at, e3).
                  Ends-bind {Q = λ d q. (present r.source_path ≡ some d) × (q ≡ p)} _ _ p3
                    (Ends-or_reply (present r.source_path) _ p3 (λ d e. (e, e3)) (λ _. e3))
                    λ path p4 (ed, e4).
                      Ends-then {Q = λ q. (is_past_end offset r ≡ false) × (q ≡ p)} _ _ p4
                        (Ends-refuse_unless (not (is_past_end offset r)) _ p4
                          (λ e. (not-false _ e, e4)) (λ _. e4))
                        λ p5 (inside, e5).
                          Ends-bind {Q = λ m q. (m ≡ c.fs.stat p.disk path) × (q ≡ p)} _ _ p5
                            (Ends-next (λ m q. (m ≡ c.fs.stat p.disk path) × (q ≡ p)) _ p5
                              (ap (λ q. c.fs.stat q.disk path) e5, e5))
                            λ m p6 (em, e6).
                              Ends-then
                                {Q = λ q. (m ≡ found true r.size r.last_modified_ms) × (q ≡ p)} _ _
                                p6
                                (subst
                                  (λ q.
                                    Ends
                                      (λ _ q'.
                                        (m ≡ found true r.size r.last_modified_ms) × (q' ≡ p))
                                      (λ _ q'. q' ≡ p) (λ q'. q' ≡ p)
                                      (check_source c transfer_id file_id r m q))
                                  (sym e6) (check_source-same r m p))
                                λ p7 (same, e7).
                                  Ends-bind {Q = λ _ q. q ≡ p} _ _ p7
                                    (Ends-next (λ _ q. q ≡ p) _ p7 e7)
                                    λ answer p8 e8.
                                      Ends-then {Q = λ q. q ≡ p} _ _ p8
                                        (subst
                                          (λ q.
                                            Ends (λ _ q'. q' ≡ p) (λ _ q'. q' ≡ p) (λ q'. q' ≡ p)
                                              (check_open c transfer_id file_id answer q))
                                          (sym e8) (check_open-same answer p))
                                        λ p9 e9.
                                          Ends-bind
                                            {Q = λ x q.
                                              (x
                                                ≡ source_bytes c transfer_id file_id path offset
                                                    (chunk_to_serve c.chunk_bytes offset r) p)
                                              × (q ≡ p)}
                                            _ _ p9
                                            (Ends-next
                                              (λ x q.
                                                (x
                                                  ≡ source_bytes c transfer_id file_id path offset
                                                      (chunk_to_serve c.chunk_bytes offset r) p)
                                                × (q ≡ p))
                                              _ p9
                                              (
                                                ap
                                                    (source_bytes c transfer_id file_id path offset
                                                      (chunk_to_serve c.chunk_bytes offset r))
                                                    e9,
                                                e9,
                                              ))
                                            λ plaintext p10 (ex, e10).
                                              Ends-then
                                                {Q = λ q.
                                                  (length plaintext
                                                    ≡ chunk_to_serve c.chunk_bytes offset r)
                                                  × (q ≡ p)}
                                                _ _ p10
                                                (Ends-refuse_unless
                                                  (length plaintext
                                                    == chunk_to_serve c.chunk_bytes offset r)
                                                  _ p10 (λ e. (ground arith, e10)) (λ _. e10))
                                                λ p11 (count, e11).
                                                  let (a, b, d, f) = chunk_fits r inside in
                                                  serving r path plaintext p11 p _ e11 count
                                                    (λ chunk answer made says. record {
                                                      file = r;
                                                      path = path;
                                                      plaintext = plaintext;
                                                      chunk = chunk;
                                                      is_found = er;
                                                      at_confirmed = at;
                                                      source = ed;
                                                      unchanged = sym em ∙ same;
                                                      read = rw count ex;
                                                      encrypted = made;
                                                      answers = says;
                                                      within_file = λ s. omega (arith, a s, count);
                                                      within_chunk = omega (arith, b, count);
                                                      within_peer = omega (arith, d, count);
                                                      progress =
                                                          λ s k l. omega (arith, f s k l, count);
                                                    })
                                                    _ refl
