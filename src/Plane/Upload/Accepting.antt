-- ===== src/Plane/Upload/Accepting.antt =====
-- The uploads that src/transfer/laptop-data-plane.ts cannot refuse, where the file system works.
use vidyut.Prelude.{
  ℕ, ◌+◌, ◌≤◌, ◌<◌, ◌≡◌, refl, sym, ap, ◌∙◌, subst, inl, inr, String, Bool, true, false, List, [],
  ◌∷◌, ◌++◌, Option, some, arith, length, ltb, ◌==◌, ◌||◌, Bool-cases, nat_eq_refl, length-append,
}
use mathlib.Core.List.{append-nil}
use vidyut.Wire.Types.{TransferDirection, TransferFileOffer, max_safe_integer}
use vidyut.Queue.Types.{TransferFileRecord, is_active}
use vidyut.Plane.Disk.{Works, IsLawful}
use vidyut.Plane.Sessions.{Session, should_checkpoint, mark_accepted, mark_checkpoint}
use vidyut.Plane.State.{accepted, Flow, next, Plane, when, ◌>>=◌, ◌>>◌, on_queue, publish}
use vidyut.Plane.Rules.{Ends, Ends-next, Ends-bind, Ends-then, Ends-when, Ends-only}
use vidyut.Plane.Upload.{
  Config, active_destination, mark, write_chunk, sync_partial, advance, announce, set_session,
}
use vidyut.Plane.Upload.Finish.{receive_with}
use vidyut.Plane.Upload.Records.Calls.{mark_stage_returns, confirm_progress_returns}
use vidyut.Plane.Upload.Receiving.{IsOpen, Held, partial}
use vidyut.Plane.Upload.Steps.{mark-Held, write_chunk-Held, sync_partial-Held}

module _ {Disk : Type 0} (c : Config Disk) (w : IsLawful c.fs) (works : Works c.fs w)
    (transfer_id file_id requested : String) (offer : TransferFileOffer)
    (safe : offer.size ≤ max_safe_integer) (xs : List ℕ) where
  abbrev Never : {A : Type 0} → A → Plane Disk → Type 0
  Never a p = ⊥

  goes_on :
      {A : Type 0} (r : Flow A × Plane Disk) (a : A)
      → r.0 ≡ next a
      → Ends (λ _ _. Unit {0}) Never (Never tt) r
  goes_on r a goes = record {
    on_next = λ b e. tt;
    on_reply = λ t e. absurd (cc (e, goes));
    on_throw = λ t e. absurd (cc (e, goes));
  }

  abbrev path : String
  path = partial c w transfer_id file_id requested offer

  module _ (r : TransferFileRecord) (s : Session) (target : active_destination r ≡ some requested)
      (same : r.offered ≡ offer) (o : IsOpen r (length xs) s) where
    abbrev Holding : List ℕ → Plane Disk → Type 0
    Holding = Held c w transfer_id file_id requested offer r s

    active : is_active r.status ≡ true
    unfolding active_destination
    active = elim (Bool-cases (is_active r.status)) [
      | inl e ↦ e
      | inr e ↦ absurd (cc (rw e at target))
    ]

    mark-goes :
        (zs : List ℕ) (stage : String) (end : Bool) (p : Plane Disk)
        → Holding zs p
        → (mark c transfer_id file_id stage end p).0 ≡ next tt
    unfolding mark on_queue
    mark-goes zs stage end p h =
        let (q, done) =
          mark_stage_returns transfer_id file_id TransferDirection.phone_to_laptop (c.clock p.tick)
            p.queue h.file h.is_found stage end in
        rw done

    mark_holds :
        (zs : List ℕ) (stage : String) (end : Bool) (p : Plane Disk)
        → Holding (xs ++ zs) p
        → Ends (λ _. Holding (xs ++ zs)) Never (Never tt) (mark c transfer_id file_id stage end p)
    mark_holds zs stage end p h =
        Ends-only _ tt (mark-goes (xs ++ zs) stage end p h)
          (mark-Held c w transfer_id file_id requested offer xs r s target same o zs stage end p h)

    write_chunk-goes :
        (bytes : List ℕ) (p : Plane Disk)
        → Holding xs p
        → (write_chunk c transfer_id file_id path (length xs) bytes p).0 ≡ next tt
    unfolding write_chunk when ◌>>=◌ ◌>>◌
    write_chunk-goes [] p h = refl
    write_chunk-goes (b ∷ bytes) p h =
        let some_bytes : ltb 0 (length (b ∷ bytes)) ≡ true = ground arith in
        let (old, there, _) = h.stored in
        let wrote =
          works.writes p.disk path (length xs) (b ∷ bytes) (λ e. absurd (cc (e, there))) in
        rw (some_bytes, wrote, nat_eq_refl (length (b ∷ bytes)))

    written :
        (bytes : List ℕ) (p : Plane Disk)
        → Holding xs p
        → length xs + length bytes ≤ offer.size
        → Ends
            (λ _. Holding (xs ++ bytes))
            Never
            (Never tt)
            (write_chunk c transfer_id file_id path (length xs) bytes p)
    written bytes p h small = Ends-only _ tt (write_chunk-goes bytes p h) (
        write_chunk-Held c w transfer_id file_id requested offer xs r s target same o bytes p h
          small)

    sync_partial-goes : (p : Plane Disk) → (sync_partial c transfer_id file_id path p).0 ≡ next tt
    unfolding sync_partial ◌>>=◌ ◌>>◌
    sync_partial-goes p = rw (works.syncs p.disk path)

    synced :
        (zs : List ℕ) (p : Plane Disk)
        → Holding (xs ++ zs) p
        → Ends
            (λ _. Holding (xs ++ zs))
            Never
            (Never tt)
            (sync_partial c transfer_id file_id path p)
    synced zs p h =
        Ends-only _ tt (sync_partial-goes p) (
          sync_partial-Held c w transfer_id file_id requested offer xs r s target same o zs path p
            h)

    abbrev moved_to : ℕ → ℕ → Bool → Session
    moved_to n now true = mark_checkpoint n now s
    moved_to n now false = mark_accepted n s

    advance-goes :
        (bytes : List ℕ) (n now : ℕ) (due : Bool) (p : Plane Disk)
        → Holding (xs ++ bytes) p
        → n ≡ length (xs ++ bytes)
        → n ≤ offer.size
        → (advance c transfer_id file_id n now false due s p).0 ≡ next (moved_to n now due)
    unfolding advance on_queue set_session ◌>>=◌ ◌>>◌
    advance-goes bytes n now false p h at small = refl
    advance-goes bytes n now true p h at small =
        let size_of : h.file.size ≡ offer.size = ap (λ f. f.size) (h.same.offers ∙ same) in
        let low : h.file.confirmed_offset ≤ n =
          omega (arith, h.same.confirms, o.ahead, at, length-append xs bytes) in
        let standing : is_active h.file.status ≡ true = ap is_active h.same.stands ∙ active in
        let (q, done) =
          confirm_progress_returns transfer_id file_id TransferDirection.phone_to_laptop
            (c.clock p.tick) p.queue h.file h.is_found n standing low
            (omega (arith, small, size_of)) (omega (arith, safe, size_of)) in
        rw done

    announce-goes :
        (n now : ℕ) (moved : Session) (p : Plane Disk)
        → (announce c transfer_id file_id n now moved p).0 ≡ next tt
    unfolding announce publish set_session ◌>>=◌ ◌>>◌
    announce-goes n now moved p = refl

    advances :
        (bytes : List ℕ) (n now : ℕ) (due : Bool) (p : Plane Disk)
        → Holding (xs ++ bytes) p
        → n ≡ length (xs ++ bytes)
        → n ≤ offer.size
        → Ends
            (λ _ _. Unit {0})
            Never
            (Never tt)
            (advance c transfer_id file_id n now false due s p)
    advances bytes n now due p h at small =
        goes_on _ (moved_to n now due) (advance-goes bytes n now due p h at small)

    announces :
        (n now : ℕ) (moved : Session) (p : Plane Disk)
        → Ends (λ _ _. Unit {0}) Never (Never tt) (announce c transfer_id file_id n now moved p)
    announces n now moved p = goes_on _ tt (announce-goes n now moved p)

    -- The answer to a chunk that is not the last one of the file.
    pub receive_with-accepts :
        (bytes : List ℕ) (claimed : Option String) (n : ℕ) (p : Plane Disk)
        → Holding xs p
        → length bytes ≡ n
        → length xs + n < offer.size
        → Ends
            (λ answer _. answer ≡ accepted (length xs + n) false)
            Never
            (Never tt)
            (receive_with c transfer_id file_id r (length xs) n bytes claimed path requested s p)
    unfolding receive_with
    receive_with-accepts bytes claimed n p h count small =
        let size_of : r.size ≡ offer.size = ap (λ f. f.size) same in
        let at : length xs + n ≡ length (xs ++ bytes) =
          omega (arith, length-append xs bytes, count) in
        let m = length xs + n in
        let more : (m == r.size) ≡ false = ground (arith, size_of, small) in
        let before = λ (stage : String) (q : Plane Disk) (k : Holding xs q).
          subst
            (λ l. Ends (λ _. Holding l) Never (Never tt) (mark c transfer_id file_id stage false q))
            (append-nil xs) (mark_holds [] stage false q (rw (append-nil xs) k)) in
        Ends-bind {Q = λ _ q. Holding xs q} _ _ p (Ends-next (λ _ q. Holding xs q) _ p h)
          λ now p2 h2.
            Ends-then {Q = Holding xs} _ _ p2
              (Ends-when _ _ p2 (λ _. before "first_payload_byte" p2 h2) (λ _. h2))
              λ p3 h3.
                Ends-then {Q = Holding xs} _ _ p3
                  (Ends-when _ _ p3 (λ _. before "last_payload_byte" p3 h3) (λ _. h3))
                  λ p4 h4.
                    Ends-then {Q = Holding (xs ++ bytes)} _ _ p4
                      (written bytes p4 h4 (omega (arith, count, small)))
                      λ p5 h5.
                        Ends-then {Q = Holding (xs ++ bytes)} _ _ p5
                          (Ends-when _ _ p5 (λ _. synced bytes p5 h5) (λ _. h5))
                          λ p6 h6.
                            Ends-then {Q = Holding (xs ++ bytes)} _ _ p6
                              (Ends-when _ _ p6
                                (λ _. mark_holds bytes "first_payload_byte" true p6 h6) (λ _. h6))
                              λ p7 h7.
                                Ends-then {Q = Holding (xs ++ bytes)} _ _ p7
                                  (Ends-when _ _ p7
                                    (λ _. mark_holds bytes "last_payload_byte" true p7 h7)
                                    (λ _. h7))
                                  λ p8 h8.
                                    Ends-then {Q = Holding (xs ++ bytes)} _ _ p8
                                      (Ends-when (m == r.size) _ p8 (λ e. absurd (cc (e, more)))
                                        (λ _. h8))
                                      λ p9 h9.
                                        Ends-bind {Q = λ _ _. Unit {0}} _ _ p9
                                          (subst
                                            (λ b.
                                              Ends (λ _ _. Unit {0}) Never (Never tt)
                                                (advance c transfer_id file_id m now b
                                                  ((m == r.size) || should_checkpoint m now s) s
                                                  p9))
                                            (sym more)
                                            (advances bytes m now _ p9 h9 at
                                              (omega (arith, small))))
                                          λ moved p10 done.
                                            Ends-then {Q = λ _. Unit {0}} _ _ p10
                                              (Ends-when _ _ p10 (λ _. announces m now moved p10)
                                                (λ _. tt))
                                              λ p11 done.
                                                Ends-then {Q = λ _. Unit {0}} _ _ p11
                                                  (Ends-when (m == r.size) _ p11
                                                    (λ e. absurd (cc (e, more))) (λ _. tt))
                                                  λ p12 done.
                                                    Ends-next
                                                      (λ answer _. answer ≡ accepted m false) _ p12
                                                      (ap (accepted m) more)
