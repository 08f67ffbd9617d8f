-- ===== src/Plane/Upload/Assembling.antt =====
-- The uploads of one file of src/transfer/laptop-data-plane.ts, one after the other, against the
-- bytes that their chunks carry.
use vidyut.Prelude.{
  ℕ, ◌+◌, ◌≤◌, ◌≡◌, refl, sym, ap, ◌∙◌, subst, inr, String, Bool, true, false, List, [], ◌++◌,
  Option, some, arith, length, ◌==◌, length-append,
}
use mathlib.Core.List.{append-nil}
use vidyut.Wire.Types.{TransferFileOffer}
use vidyut.Queue.Types.{TransferFileRecord}
use vidyut.Queue.Timing.{lookup}
use vidyut.Plane.Disk.{IsLawful}
use vidyut.Plane.Sessions.{Session, progress_key, session_for, mark_published}
use vidyut.Plane.State.{
  Response, refused, refused_at, accepted, served, offered, enqueue_failed, unrouted, Plane, when,
}
use vidyut.Plane.Rules.{Ends, Ends-next, Ends-bind, Ends-then, Ends-when, Ends-weaken}
use vidyut.Plane.Upload.{
  Config, active_destination, open_session, set_session, digest_refusal, expected_sha256, announce,
  mark,
}
use vidyut.Plane.Upload.Finish.{finish, receive_with, receive}
use vidyut.Plane.Upload.Receiving.{
  IsOpen, session_for-kept, lookup-assign, partial, Receiving, Otherwise, Held,
}
use vidyut.Plane.Upload.Steps.{mark-Held, write_chunk-Held, sync_partial-Held, refuse_some-Held}
use vidyut.Plane.Upload.Moving.{advance-Moved, announce-Moved, Moved}
use vidyut.Plane.Upload.Publishing.{Finished, finish-Finished}
use vidyut.Plane.Upload.Bytes.{Starts-whole}

module _ {Disk : Type 0} (c : Config Disk) (w : IsLawful c.fs)
    (transfer_id file_id requested : String) (offer : TransferFileOffer) (xs : List ℕ) where
  abbrev Else : Plane Disk → Type 0
  Else = Otherwise c w transfer_id file_id requested offer xs

  abbrev Between : List ℕ → Plane Disk → Type 0
  Between = Receiving c w transfer_id file_id requested offer

  abbrev partial_path : String
  partial_path = partial c w transfer_id file_id requested offer

  -- Behind an answer that takes the chunk: the bytes are those received before and the chunk's, and
  -- the file is still active, with that many bytes accepted, or it is finished with all its bytes.
  abbrev pub Taken : List ℕ → Response → Plane Disk → Type 0
  Taken bytes (accepted k false) p = (k ≡ length (xs ++ bytes)) × Between (xs ++ bytes) p
  Taken bytes (accepted k true) p =
      (k ≡ length (xs ++ bytes))
      × (length (xs ++ bytes) ≡ offer.size)
      × Finished c w transfer_id file_id requested offer (xs ++ bytes) p
  Taken bytes (refused status code) p = ⊥
  Taken bytes (refused_at status code offset) p = ⊥
  Taken bytes (served nonce body offset n total eof) p = ⊥
  Taken bytes (offered id) p = ⊥
  Taken bytes (enqueue_failed message) p = ⊥
  Taken bytes unrouted p = ⊥

  module _ (r : TransferFileRecord) (s : Session) (target : active_destination r ≡ some requested)
      (same : r.offered ≡ offer) (o : IsOpen r (length xs) s) where
    abbrev Holding : List ℕ → Plane Disk → Type 0
    Holding = Held c w transfer_id file_id requested offer r s

    abbrev Advanced : Bool → Session → List ℕ → Plane Disk → Type 0
    Advanced = Moved c w transfer_id file_id requested offer xs r s target same o

    -- The last steps, from the state behind the queue's call.
    abbrev Ended : Bool → List ℕ → Plane Disk → Type 0
    Ended true zs p = Finished c w transfer_id file_id requested offer zs p
    Ended false zs p = Between zs p

    finish-Ended :
        (last : Bool) (moved : Session) (confirmed : ℕ) (expected : String) (zs : List ℕ)
        (p : Plane Disk)
        → Advanced last moved zs p
        → Ends
            (λ _. Ended last zs)
            (λ _. Else)
            Else
            (when last (finish c transfer_id file_id r confirmed expected partial_path requested) p)
    finish-Ended true moved confirmed expected zs p v =
        Ends-when true _ p
          (λ _.
            Ends-weaken _ (λ _ _ i. inr i) (λ _ i. inr i)
              (finish-Finished c w transfer_id file_id requested offer zs r confirmed expected p (
                record { file = v.file; is_found = v.is_found; inactive = rw v.verifying refl },
                (let (old, there, starts) = v.stored in
                    there ∙ ap some (Starts-whole offer.size zs old starts v.whole)),
              )))
          (λ h. absurd (cc h))
    finish-Ended false moved confirmed expected zs p a =
        Ends-when false _ p (λ h. absurd (cc h))
          (λ _. record {
            file = a.file;
            is_found = a.is_found;
            target = a.to_target;
            same_offer = a.same_offer;
            synced = rw a.kept a.open_at;
            on_disk = inr a.stored;
          })

    Ended-Taken :
        (last : Bool) (confirmed : ℕ) (bytes : List ℕ) (p : Plane Disk)
        → confirmed ≡ length (xs ++ bytes)
        → (last ≡ true → confirmed ≡ offer.size)
        → Ended last (xs ++ bytes) p
        → Taken bytes (accepted confirmed last) p
    Ended-Taken true confirmed bytes p at whole f = (at, sym at ∙ whole refl, f)
    Ended-Taken false confirmed bytes p at whole b = (at, b)

    pub open_session-Held :
        (p : Plane Disk)
        → Holding xs p
        → r.file_id ≡ file_id
        → Ends
            (λ s' p'.
              IsOpen r (length xs) s' × Held c w transfer_id file_id requested offer r s' xs p')
            (λ _. Else)
            Else
            (open_session c transfer_id file_id r p)
    unfolding open_session set_session
    open_session-Held p h named =
        let now = (c.clock p.tick).monotonic_now in
        let opened = session_for c.policy now transfer_id r p.sessions in
        let again : opened ≡ s =
          session_for-kept c.policy now (length xs) transfer_id r p.sessions s
            (subst (λ f. lookup (progress_key transfer_id f) p.sessions ≡ some s) (sym named)
              h.kept)
            o in
        Ends-bind {Q = λ t q. (t ≡ s) × (q ≡ p)} _ _ p
          (Ends-next (λ t q. (t ≡ s) × (q ≡ p)) opened p (again, refl))
          λ t q (et, eq).
            Ends-then {Q = Held c w transfer_id file_id requested offer r t xs} _ _ q
              (Ends-next (λ _. Held c w transfer_id file_id requested offer r t xs) tt _
                (record {
                  file = h.file;
                  is_found = rw eq h.is_found;
                  same = h.same;
                  kept = lookup-assign (progress_key transfer_id file_id) t q.sessions;
                  stored = rw eq h.stored;
                }))
              λ p' k.
                Ends-next
                  (λ s' p''.
                    IsOpen r (length xs) s'
                    × Held c w transfer_id file_id requested offer r s' xs p'')
                  t p' (subst (λ x. IsOpen r (length xs) x) (sym et) o, k)

    receive_with-Taken :
        (bytes : List ℕ) (claimed : Option String) (n : ℕ) (p : Plane Disk)
        → Holding xs p
        → length bytes ≡ n
        → length xs + n ≤ r.size
        → Ends
            (Taken bytes)
            (λ _. Else)
            Else
            (receive_with c transfer_id file_id r
              (length xs)
              n
              bytes
              claimed
              partial_path
              requested
              s
              p)
    unfolding receive_with
    receive_with-Taken bytes claimed n p h count small =
        let size_of : r.size ≡ offer.size = ap (λ f. f.size) same in
        let at : length xs + n ≡ length (xs ++ bytes) =
          omega (arith, length-append xs bytes, count) in
        let last = length xs + n == r.size in
        let whole : last ≡ true → length xs + n ≡ offer.size =
          λ e. let full : length xs + n ≡ r.size = ground arith in full ∙ size_of in
        let fits_in : length xs + length bytes ≤ offer.size =
          omega (arith, size_of, count, small) in
        let kept = λ (zs : List ℕ).
          mark-Held c w transfer_id file_id requested offer xs r s target same o zs in
        Ends-bind {Q = λ _ q. Holding xs q} _ _ p (Ends-next (λ _ q. Holding xs q) _ p h)
          λ now p2 h2.
            Ends-then {Q = Holding xs} _ _ p2
              (Ends-when _ _ p2 (λ _. unmarked "first_payload_byte" p2 h2) (λ _. h2))
              λ p3 h3.
                Ends-then {Q = Holding xs} _ _ p3
                  (Ends-when _ _ p3 (λ _. unmarked "last_payload_byte" p3 h3) (λ _. h3))
                  λ p4 h4.
                    Ends-then {Q = Holding (xs ++ bytes)} _ _ p4
                      (write_chunk-Held c w transfer_id file_id requested offer xs r s target same o
                        bytes p4 h4 fits_in)
                      λ p5 h5.
                        Ends-then {Q = Holding (xs ++ bytes)} _ _ p5
                          (Ends-when _ _ p5
                            (λ _.
                              sync_partial-Held c w transfer_id file_id requested offer xs r s
                                target same o bytes partial_path p5 h5)
                            (λ _. h5))
                          λ p6 h6.
                            Ends-then {Q = Holding (xs ++ bytes)} _ _ p6
                              (Ends-when _ _ p6 (λ _. kept bytes "first_payload_byte" true p6 h6)
                                (λ _. h6))
                              λ p7 h7.
                                Ends-then {Q = Holding (xs ++ bytes)} _ _ p7
                                  (Ends-when _ _ p7 (λ _. kept bytes "last_payload_byte" true p7 h7)
                                    (λ _. h7))
                                  λ p8 h8.
                                    Ends-then {Q = Holding (xs ++ bytes)} _ _ p8
                                      (Ends-when _ _ p8
                                        (λ _.
                                          refuse_some-Held c w transfer_id file_id requested offer
                                            xs r s target same o bytes (digest_refusal r claimed) p8
                                            h8)
                                        (λ _. h8))
                                      λ p9 h9.
                                        Ends-bind _ _ p9
                                          (advance-Moved c w transfer_id file_id requested offer xs
                                            r s target same o bytes (length xs + n) now last _ p9 h9
                                            at whole)
                                          λ moved p10 h10.
                                            Ends-then
                                              {Q = λ q.
                                                (m : Session) × Advanced last m (xs ++ bytes) q}
                                              _ _ p10
                                              (Ends-when _ _ p10
                                                (λ _.
                                                  Ends-announced (xs ++ bytes) (length xs + n) now
                                                    last moved p10 h10)
                                                (λ _. (moved, h10)))
                                              λ p11 (m, h11).
                                                Ends-then {Q = Ended last (xs ++ bytes)} _ _ p11
                                                  (finish-Ended last m (length xs + n)
                                                    (expected_sha256 r claimed) (xs ++ bytes) p11
                                                    h11)
                                                  λ p12 h12. Ends-next (Taken bytes) _ p12 (
                                                    Ended-Taken last (length xs + n) bytes p12 at
                                                      whole h12)
      where
        unmarked :
            (stage : String) (q : Plane Disk)
            → Holding xs q
            → Ends (λ _. Holding xs) (λ _. Else) Else (mark c transfer_id file_id stage false q)
        unmarked stage q k =
            subst
              (λ l.
                Ends (λ _. Holding l) (λ _. Else) Else (mark c transfer_id file_id stage false q))
              (append-nil xs)
              (mark-Held c w transfer_id file_id requested offer xs r s target same o [] stage false
                q (rw (append-nil xs) k))

        Ends-announced :
            (zs : List ℕ) (confirmed now : ℕ) (last : Bool) (moved : Session) (q : Plane Disk)
            → Advanced last moved zs q
            → Ends
                (λ _ q'. (m : Session) × Advanced last m zs q')
                (λ _. Else)
                Else
                (announce c transfer_id file_id confirmed now moved q)
        Ends-announced zs confirmed now last moved q k =
            let a =
              announce-Moved c w transfer_id file_id requested offer xs r s target same o zs
                confirmed now last moved q k in
            record {
              on_next = λ u e. (mark_published now moved, a.on_next u e);
              on_reply = a.on_reply;
              on_throw = a.on_throw;
            }

  pub receive-Taken :
      (r : TransferFileRecord) (s : Session) (target : active_destination r ≡ some requested)
      (same : r.offered ≡ offer) (o : IsOpen r (length xs) s) (bytes : List ℕ)
      (claimed : Option String) (n : ℕ) (p : Plane Disk)
      → Held c w transfer_id file_id requested offer r s xs p
      → r.file_id ≡ file_id
      → length bytes ≡ n
      → length xs + n ≤ r.size
      → Ends
          (Taken bytes)
          (λ _. Else)
          Else
          (receive c transfer_id file_id r (length xs) n bytes claimed partial_path requested p)
  unfolding receive
  receive-Taken r s target same o bytes claimed n p h named count small =
      Ends-bind _ _ p (open_session-Held r s target same o p h named)
        λ s' p1 (o', h1). receive_with-Taken r s' target same o' bytes claimed n p1 h1 count small
