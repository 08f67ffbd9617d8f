-- ===== src/Plane/Upload/Handled.antt =====
-- One upload to src/transfer/laptop-data-plane.ts, from the request to the answer.
use vidyut.Prelude.{
  ℕ, ◌≡◌, refl, sym, subst, inl, String, false, List, none, some, arith, length, ◌==◌,
}
use vidyut.Wire.Types.{TransferFileOffer}
use vidyut.Queue.Types.{TransferFileRecord, is_active}
use vidyut.Plane.Cipher.{decrypt_transfer_chunk, decrypt_transfer_chunk-length}
use vidyut.Plane.Disk.{IsLawful}
use vidyut.Plane.Sessions.{Session, live_accepted_offset}
use vidyut.Plane.State.{Response, Plane, Act, ◌>>◌, body_lost}
use vidyut.Plane.Rules.{
  Ends, Ends-next, Ends-bind, Ends-then, Ends-or_raise, Ends-or_reply, Ends-refuse_unless,
}
use vidyut.Plane.Upload.{
  Config, UploadRequest, active_destination, announced, opened_or_none, open_session, set_session,
  open_partial,
}
use vidyut.Paths.{partial_path_for}
use vidyut.Plane.Upload.Finish.{received_chunk, receive, handle_upload_locked, handle_upload}
use vidyut.Plane.Upload.Receiving.{IsOpen, found, Receiving, Idle, Otherwise, Held, found-file_id}
use vidyut.Plane.Upload.Opening.{Known, open_session-Known, open_partial-Held, Known-Else}
use vidyut.Plane.Upload.Sent.{plaintext_of, announced_parts, opened-ok, plaintext_of-eq}
use vidyut.Plane.Upload.Assembling.{Taken, receive-Taken}

module _ {Disk : Type 0} (c : Config Disk) (w : IsLawful c.fs)
    (transfer_id file_id requested : String) (offer : TransferFileOffer) where
  module _ (xs : List ℕ) where
    abbrev Else : Plane Disk → Type 0
    Else = Otherwise c w transfer_id file_id requested offer xs

    abbrev Takes : List ℕ → Response → Plane Disk → Type 0
    Takes = Taken c w transfer_id file_id requested offer xs

    abbrev Found : TransferFileRecord → Session → Plane Disk → Type 0
    Found = Known c w transfer_id file_id requested offer xs

    handle_upload_locked-Taken :
        (r : TransferFileRecord) (s : Session) (target : active_destination r ≡ some requested)
        (same : r.offered ≡ offer) (o : IsOpen r (length xs) s) (req : UploadRequest)
        (p : Plane Disk)
        → Found r s p
        → Ends
            (Takes (plaintext_of c transfer_id file_id (length xs) req))
            (λ _. Else)
            Else
            (handle_upload_locked c transfer_id file_id (length xs) r req p)
    unfolding handle_upload_locked
    handle_upload_locked-Taken r s target same o req p k =
        let else_here : Else p =
          Known-Else c w transfer_id file_id requested offer xs r s target same o p p k refl refl
            k.on_disk in
        let named = found-file_id c w transfer_id file_id requested offer p r k.is_found in
        let sent = plaintext_of c transfer_id file_id (length xs) req in
        let chunk = received_chunk c transfer_id file_id (length xs) in
        Ends-bind {Q = λ d q. (d ≡ requested) × (q ≡ p)} _ _ p
          (Ends-or_reply (active_destination r) _ p (λ d e. (cc (e, target), refl))
            (λ _. else_here))
          λ d p1 (ed, e1).
            Ends-bind {Q = λ a q. (announced c.chunk_bytes (length xs) r req ≡ some a) × (q ≡ p)} _
              _ p1
              (Ends-or_reply (announced c.chunk_bytes (length xs) r req) _ p1 (λ a e. (e, e1))
                (λ _. rw e1 else_here))
              λ (nonce, n) p2 (ea, e2).
                Ends-then {Q = λ q. q ≡ p} _ _ p2
                  (Ends-refuse_unless _ _ p2 (λ _. e2) (λ _. rw e2 else_here))
                  λ p3 e3.
                    Ends-bind {Q = λ b q. (req.body ≡ some b) × (q ≡ p)} _ _ p3
                      (Ends-or_raise req.body body_lost p3 (λ b e. (e, e3)) (λ _. rw e3 else_here))
                      λ ciphertext p4 (eb, e4).
                        Ends-then {Q = λ q. q ≡ p} _ _ p4
                          (Ends-refuse_unless _ _ p4 (λ _. e4) (λ _. rw e4 else_here))
                          λ p5 e5.
                            Ends-bind
                              {Q = λ x q.
                                (opened_or_none (
                                    decrypt_transfer_chunk c.aead (chunk n nonce ciphertext)
                                      c.secret)
                                  ≡ some x)
                                × (q ≡ p)}
                              _ _ p5
                              (Ends-or_reply
                                (opened_or_none (
                                  decrypt_transfer_chunk c.aead (chunk n nonce ciphertext)
                                    c.secret))
                                _ p5 (λ x e. (e, e5)) (λ _. rw e5 else_here))
                              λ bytes p6 (ex, e6).
                                let (present_nonce, parsed, small) =
                                  announced_parts c.chunk_bytes (length xs) r req nonce n ea in
                                let count =
                                  decrypt_transfer_chunk-length c.aead c.secret
                                    (chunk n nonce ciphertext) bytes (opened-ok _ bytes ex) in
                                let carried : sent ≡ bytes =
                                  plaintext_of-eq c transfer_id file_id (length xs) n req nonce
                                    ciphertext bytes present_nonce parsed eb ex in
                                subst (λ b. Ends (Takes b) (λ _. Else) Else (rest d n bytes p6))
                                  (sym carried)
                                  (Ends-then _ _ p6
                                    (subst
                                      (λ x.
                                        Ends
                                          (λ _. Held c w transfer_id file_id requested offer r s xs)
                                          (λ _. Else) Else
                                          (open_partial c transfer_id file_id
                                            (partial_path_for c.paths x file_id) (length xs) p6))
                                      (sym ed)
                                      (subst
                                        (λ x.
                                          Ends
                                            (λ _.
                                              Held c w transfer_id file_id requested offer r s xs)
                                            (λ _. Else) Else
                                            (open_partial c transfer_id file_id
                                              (partial_path_for c.paths requested file_id)
                                              (length xs) x))
                                        (sym e6)
                                        (open_partial-Held c w transfer_id file_id requested offer
                                          xs r s target same o (length xs) p k refl)))
                                    λ p7 h.
                                      subst
                                        (λ x.
                                          Ends (Takes bytes) (λ _. Else) Else
                                            (receive c transfer_id file_id r (length xs) n bytes
                                              req.sha256 (partial_path_for c.paths x file_id) x p7))
                                        (sym ed)
                                        (receive-Taken c w transfer_id file_id requested offer xs r
                                          s target same o bytes req.sha256 n p7 h named count
                                          small))
      where
        rest : String → ℕ → List ℕ → Act Disk Response
        rest d n bytes = do
          open_partial c transfer_id file_id (partial_path_for c.paths d file_id) (length xs)
          receive c transfer_id file_id r (length xs) n bytes req.sha256
              (partial_path_for c.paths d file_id) d

    pub handle_upload-Taken :
        (offset : ℕ) (req : UploadRequest) (p : Plane Disk)
        → Receiving c w transfer_id file_id requested offer xs p
        → Ends
            (Takes (plaintext_of c transfer_id file_id offset req))
            (λ _. Else)
            Else
            (handle_upload c transfer_id file_id offset req p)
    unfolding handle_upload live_accepted_offset
    handle_upload-Taken offset req p h =
        Ends-bind {Q = λ o q. (o ≡ found c w transfer_id file_id requested offer p) × (q ≡ p)} _ _ p
          (Ends-next (λ o q. (o ≡ found c w transfer_id file_id requested offer p) × (q ≡ p)) _ p
            (refl, refl))
          λ o p1 (eo, e1).
            Ends-bind {Q = λ r q. (h.file ≡ r) × (q ≡ p)} _ _ p1
              (Ends-or_reply o _ p1 (λ r e. (cc (e, eo, h.is_found), e1)) (λ _. inl (rw e1 h)))
              λ r p2 (er, e2).
                Ends-bind _ _ p2
                  (subst
                    (λ q.
                      Ends (λ s p'. IsOpen r (length xs) s × Found r s p') (λ _. Else) Else
                        (open_session c transfer_id file_id r q))
                    (sym e2)
                    (open_session-Known c w transfer_id file_id requested offer xs r p h er))
                  λ s p3 (open_at, k).
                    let target : active_destination r ≡ some requested =
                      subst (λ x. active_destination x ≡ some requested) er h.target in
                    let same : r.offered ≡ offer = subst (λ x. x.offered ≡ offer) er h.same_offer in
                    Ends-bind {Q = λ n q. (n ≡ length xs) × (q ≡ p3)} _ _ p3
                      (Ends-next (λ n q. (n ≡ length xs) × (q ≡ p3)) _ p3
                        (rw k.kept open_at.accepts, refl))
                      λ n p4 (en, e4).
                        Ends-then {Q = λ q. (offset ≡ length xs) × (q ≡ p3)} _ _ p4
                          (Ends-refuse_unless (offset == n) _ p4 (λ e. (ground arith, e4))
                            (λ _. rw e4 (
                              Known-Else c w transfer_id file_id requested offer xs r s target same
                                open_at p3 p3 k refl refl k.on_disk)))
                          λ p5 (at, e5).
                            subst
                              (λ q.
                                Ends (Takes (plaintext_of c transfer_id file_id offset req))
                                  (λ _. Else) Else
                                  (handle_upload_locked c transfer_id file_id offset r req q))
                              (sym e5)
                              (subst
                                (λ m.
                                  Ends (Takes (plaintext_of c transfer_id file_id m req))
                                    (λ _. Else) Else
                                    (handle_upload_locked c transfer_id file_id m r req p3))
                                (sym at)
                                (handle_upload_locked-Taken r s target same open_at req p3 k))

  -- The queue and the disk stay.
  abbrev pub Still : Plane Disk → Plane Disk → Type 0
  Still p q = (q.queue ≡ p.queue) × (q.disk ≡ p.disk)

  -- A file that is not active takes nothing.
  pub handle_upload-Still :
      (offset : ℕ) (req : UploadRequest) (p : Plane Disk)
      → Idle c w transfer_id file_id requested offer p
      → Ends (λ _ _. ⊥) (λ _. Still p) (Still p) (handle_upload c transfer_id file_id offset req p)
  unfolding handle_upload handle_upload_locked open_session set_session active_destination
  handle_upload-Still offset req p i =
      Ends-bind {Q = λ o q. (o ≡ found c w transfer_id file_id requested offer p) × Still p q} _ _ p
        (Ends-next (λ o q. (o ≡ found c w transfer_id file_id requested offer p) × Still p q) _ p
          (refl, (refl, refl)))
        λ o p1 (eo, s1).
          Ends-bind {Q = λ r q. (i.file ≡ r) × Still p q} _ _ p1
            (Ends-or_reply o _ p1 (λ r e. (cc (e, eo, i.is_found), s1)) (λ _. s1))
            λ r p2 (er, s2).
              Ends-bind {Q = λ _. Still p} _ _ p2
                (Ends-bind {Q = λ _. Still p} _ _ p2 (Ends-next (λ _. Still p) _ p2 s2) λ s p2' s2'.
                  Ends-then {Q = Still p} _ _ p2' (Ends-next (λ _. Still p) tt _ s2')
                    λ p2'' s2''. Ends-next (λ _. Still p) _ p2'' s2'')
                λ s p3 s3.
                  Ends-bind {Q = λ _. Still p} _ _ p3 (Ends-next (λ _. Still p) _ p3 s3) λ n p4 s4.
                    Ends-then {Q = Still p} _ _ p4
                      (Ends-refuse_unless (offset == n) _ p4 (λ _. s4) (λ _. s4))
                      λ p5 s5.
                        Ends-bind {Q = λ _ _. ⊥} _ _ p5
                          (Ends-or_reply (active_destination r) _ p5
                            (λ d e. absurd (
                              cc (
                                idle_target r
                                    (subst (λ x. is_active x.status ≡ false) er i.inactive),
                                e,
                              )))
                            (λ _. s5))
                          λ d p6 no. absurd no
    where
      idle_target :
          (r : TransferFileRecord) → is_active r.status ≡ false → active_destination r ≡ none
      idle_target r h = rw h
