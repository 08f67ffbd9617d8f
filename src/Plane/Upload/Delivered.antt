-- ===== src/Plane/Upload/Delivered.antt =====
-- A good chunk that is sent to src/transfer/laptop-data-plane.ts, where the file system works.
use vidyut.Prelude.{
  ℕ, ◌+◌, ◌≤◌, ◌<◌, ◌≡◌, ◌≢◌, refl, ap, ◌∙◌, subst, inl, inr, String, true, false, List, ◌++◌,
  Option, none, some, ok, arith, length, leb, ◌==◌, Bool-cases, nat_eq_refl, opt_all,
}
use vidyut.Wire.Types.{TransferFileOffer, max_safe_integer}
use vidyut.Queue.Types.{TransferFileRecord}
use vidyut.Plane.Decimal.{parse_non_negative_integer}
use vidyut.Plane.Cipher.{decrypt_transfer_chunk, decrypt_transfer_chunk-length}
use vidyut.Plane.Disk.{Works, IsLawful}
use vidyut.Plane.Sessions.{Session, session_for, live_accepted_offset}
use vidyut.Plane.State.{
  accepted, refused, refused_at, next, Plane, or_reply, or_raise, refuse_unless, body_lost, ◌>>=◌,
  ◌>>◌,
}
use vidyut.Plane.Rules.{Ends, Ends-bind, Ends-then, Ends-only, Ends-exactly, Ends-pass}
use vidyut.Plane.Upload.{
  Config, UploadRequest, active_destination, announced, opened_or_none, open_session, open_partial,
  set_session,
}
use vidyut.Plane.Upload.Finish.{received_chunk, receive, handle_upload_locked, handle_upload}
use vidyut.Plane.Upload.Receiving.{IsOpen, Held, Receiving, found-file_id, partial}
use vidyut.Plane.Upload.Opening.{Known, open_session-Known, open_partial-Held}
use vidyut.Plane.Upload.Sent.{plaintext_of, announced_parts, plaintext_of-eq}
use vidyut.Plane.Upload.Assembling.{Taken, open_session-Held}
use vidyut.Plane.Upload.Handled.{handle_upload-Taken}
use vidyut.Plane.Upload.Accepting.{receive_with-accepts}

module _ {Disk : Type 0} (c : Config Disk) (w : IsLawful c.fs) (works : Works c.fs w)
    (transfer_id file_id requested : String) (offer : TransferFileOffer)
    (safe : offer.size ≤ max_safe_integer) (xs : List ℕ) where
  abbrev path : String
  path = partial c w transfer_id file_id requested offer

  abbrev No : {A : Type 0} → A → Plane Disk → Type 0
  No a p = ⊥

  abbrev Opens : TransferFileRecord → Session → Plane Disk → Type 0
  Opens = Known c w transfer_id file_id requested offer xs

  abbrev used : TransferFileRecord → Plane Disk → Session
  used r p = session_for c.policy (c.clock p.tick).monotonic_now transfer_id r p.sessions

  open_session-goes :
      (r : TransferFileRecord) (p : Plane Disk)
      → (open_session c transfer_id file_id r p).0 ≡ next (used r p)
  unfolding open_session set_session ◌>>=◌ ◌>>◌
  open_session-goes r p = refl

  module _ (r : TransferFileRecord) (s : Session) (target : active_destination r ≡ some requested)
      (same : r.offered ≡ offer) (o : IsOpen r (length xs) s) where
    open_partial-goes :
        (p : Plane Disk)
        → Opens r s p
        → (open_partial c transfer_id file_id path (length xs) p).0 ≡ next tt
    unfolding open_partial ◌>>=◌ ◌>>◌
    open_partial-goes p k =
        let dir = c.paths.dirname path in
        let d = (c.fs.make_directory p.disk dir).1 in
        elim (Bool-cases (length xs == 0)) [
          | inl first ↦ rw (works.makes p.disk dir, first, works.opens_new d path)
          | inr later ↦
              let there : w.content d path ≢ none = λ gone. elim k.on_disk [
                | inl nothing ↦ absurd (ground arith)
                | inr (old, stored, _) ↦
                    absurd (cc (gone, w.make_directory-content p.disk dir path ∙ stored))
              ] in
              rw (works.makes p.disk dir, later, works.opens d path there)
        ]

    receive-accepts :
        (bytes : List ℕ) (claimed : Option String) (n : ℕ) (p : Plane Disk)
        → Held c w transfer_id file_id requested offer r s xs p
        → r.file_id ≡ file_id
        → length bytes ≡ n
        → length xs + n < offer.size
        → Ends
            (λ answer _. answer ≡ accepted (length xs + n) false)
            No
            (No tt)
            (receive c transfer_id file_id r (length xs) n bytes claimed path requested p)
    unfolding receive
    receive-accepts bytes claimed n p h named count small =
        Ends-bind _ _ p
          (Ends-only _ (used r p) (open_session-goes r p) (
            open_session-Held c w transfer_id file_id requested offer xs r s target same o p h
              named))
          λ s' p1 (o', h1).
            receive_with-accepts c w works transfer_id file_id requested offer safe xs r s' target
              same o' bytes claimed n p1 h1 count small

    module _ (req : UploadRequest) (nonce : String) (n : ℕ) (ciphertext bytes : List ℕ)
        (says : announced c.chunk_bytes (length xs) r req ≡ some (nonce, n))
        (short : opt_all
            (λ l. leb l (c.chunk_bytes + 16))
            (parse_non_negative_integer req.content_length)
          ≡ true)
        (arrives : req.body ≡ some ciphertext)
        (bounded : leb (length ciphertext) (c.chunk_bytes + 16) ≡ true)
        (opens_to : decrypt_transfer_chunk c.aead
            (received_chunk c transfer_id file_id (length xs) n nonce ciphertext)
            c.secret
          ≡ ok bytes)
        (more : length xs + n < offer.size) where
      locked-accepts :
          (p : Plane Disk)
          → Opens r s p
          → Ends
              (λ answer _. answer ≡ accepted (length xs + n) false)
              No
              (No tt)
              (handle_upload_locked c transfer_id file_id (length xs) r req p)
      unfolding handle_upload_locked
      locked-accepts p k =
          let chunk = received_chunk c transfer_id file_id (length xs) n nonce ciphertext in
          let named = found-file_id c w transfer_id file_id requested offer p r k.is_found in
          let count = decrypt_transfer_chunk-length c.aead c.secret chunk bytes opens_to in
          Ends-exactly _ _ p requested
            (ap (λ x. or_reply x (refused 409 "transfer_not_active") p) target)
            (Ends-exactly _ _ p (nonce, n)
              (ap (λ x. or_reply x (refused 400 "invalid_chunk") p) says)
              (Ends-pass _ _ p (ap (λ b. refuse_unless b (refused 413 "chunk_too_large") p) short) (
                Ends-exactly _ _ p ciphertext (ap (λ b. or_raise b body_lost p) arrives) (
                  Ends-pass _ _ p
                    (ap (λ b. refuse_unless b (refused 413 "chunk_too_large") p) bounded)
                    (Ends-exactly _ _ p bytes
                      (ap (λ x. or_reply (opened_or_none x) (refused 400 "chunk_auth_failed") p)
                        opens_to)
                      (Ends-then _ _ p
                        (Ends-only _ tt (open_partial-goes p k) (
                          open_partial-Held c w transfer_id file_id requested offer xs r s target
                            same o (length xs) p k refl))
                        λ p1 h. receive-accepts bytes req.sha256 n p1 h named count more))))))

  module _ (p : Plane Disk) (h : Receiving c w transfer_id file_id requested offer xs p)
      (req : UploadRequest) (nonce : String) (n : ℕ) (ciphertext bytes : List ℕ)
      (says : announced c.chunk_bytes (length xs) h.file req ≡ some (nonce, n))
      (short : opt_all
          (λ l. leb l (c.chunk_bytes + 16))
          (parse_non_negative_integer req.content_length)
        ≡ true)
      (arrives : req.body ≡ some ciphertext)
      (bounded : leb (length ciphertext) (c.chunk_bytes + 16) ≡ true)
      (opens_to : decrypt_transfer_chunk c.aead
          (received_chunk c transfer_id file_id (length xs) n nonce ciphertext)
          c.secret
        ≡ ok bytes)
      (more : length xs + n < offer.size) where
    live_at :
        (s : Session) (q : Plane Disk)
        → IsOpen h.file (length xs) s
        → Opens h.file s q
        → live_accepted_offset transfer_id file_id h.file.confirmed_offset q.sessions ≡ length xs
    unfolding live_accepted_offset
    live_at s q o k = rw k.kept o.accepts

    answered :
        Ends
          (λ answer _. answer ≡ accepted (length xs + n) false)
          No
          (No tt)
          (handle_upload c transfer_id file_id (length xs) req p)
    unfolding handle_upload
    answered = Ends-exactly _ _ p (some h.file) (ap (λ x. (next x, p)) h.is_found) (
        Ends-exactly _ _ p h.file refl (
          Ends-bind _ _ p
            (Ends-only _ (used h.file p) (open_session-goes h.file p)
              (open_session-Known c w transfer_id file_id requested offer xs h.file p h refl))
            λ s p1 (o, k).
              Ends-exactly _ _ p1 (length xs) (ap (λ x. (next x, p1)) (live_at s p1 o k)) (
                Ends-pass _ _ p1
                  (ap (λ b. refuse_unless b (refused_at 409 "offset_not_confirmed" (length xs)) p1)
                    (nat_eq_refl (length xs)))
                  (locked-accepts h.file s h.target h.same_offer o req nonce n ciphertext bytes says
                    short arrives bounded opens_to more p1 k))))

    -- On a file system that works and keeps to the laws: a file of a size that is a safe integer is
    -- between its uploads, with some bytes received. A request whose headers announce a number of
    -- bytes that fits, and whose body decrypts to bytes, and which is not the last of the file, is
    -- answered with the new offset, and those bytes are received behind the others. It is neither
    -- refused nor broken off.
    pub handle_upload-Delivered :
        Ends
          (λ answer q.
            (answer ≡ accepted (length xs + n) false)
            × Receiving c w transfer_id file_id requested offer (xs ++ bytes) q)
          (λ _ _. ⊥)
          (λ _. ⊥)
          (handle_upload c transfer_id file_id (length xs) req p)
    handle_upload-Delivered =
        let (present_nonce, parsed, small) =
          announced_parts c.chunk_bytes (length xs) h.file req nonce n says in
        let carried =
          plaintext_of-eq c transfer_id file_id (length xs) n req nonce ciphertext bytes
            present_nonce parsed arrives (ap opened_or_none opens_to) in
        let taken =
          handle_upload-Taken c w transfer_id file_id requested offer xs (length xs) req p h in
        record {
          on_next = λ a e.
              let ends = answered.on_next a e in
              (
                ends,
                subst
                    (λ b.
                      Receiving c w transfer_id file_id requested offer (xs ++ b)
                        (handle_upload c transfer_id file_id (length xs) req p).1)
                    carried
                    (subst
                      (λ x.
                        Taken c w transfer_id file_id requested offer xs
                          (plaintext_of c transfer_id file_id (length xs) req) x
                          (handle_upload c transfer_id file_id (length xs) req p).1)
                      ends (taken.on_next a e)).1,
              );
          on_reply = answered.on_reply;
          on_throw = answered.on_throw;
        }
