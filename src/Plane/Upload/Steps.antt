-- ===== src/Plane/Upload/Steps.antt =====
-- What each step of an upload of src/transfer/laptop-data-plane.ts does to the state between the
-- uploads, up to the point where the queue takes the bytes.
use vidyut.Prelude.{
  ℕ, ◌+◌, ◌≤◌, ◌≡◌, refl, sym, ap, ◌∙◌, inl, String, Bool, false, List, [], ◌∷◌, ◌++◌, Option, none,
  some, arith, length, ltb, ◌==◌,
}
use mathlib.Core.List.{append-nil}
use vidyut.Wire.Types.{TransferFileOffer}
use vidyut.Queue.Types.{TransferFileRecord}
use vidyut.Queue.Progress.{mark_stage, fail}
use vidyut.Plane.Disk.{IsLawful, WriteAnswer, bytes_written, not_written}
use vidyut.Plane.Sessions.{Session}
use vidyut.Plane.State.{Response, Plane, of_disk, publish, file_terminal}
use vidyut.Plane.Rules.{
  Ends, Ends-next, Ends-reply, Ends-throw, Ends-bind, Ends-then, Ends-when, Ends-on_queue,
  Ends-refuse_unless, Ends-or_raise,
}
use vidyut.Plane.Upload.{
  Config, end_session, mark, give_up, write_chunk, write_answer, after_write, sync_partial,
  refuse_some, active_destination,
}
use vidyut.Plane.Upload.Records.Calls.{mark_stage-Now, fail-Now}
use vidyut.Plane.Upload.Bytes.{write_at-Stored}
use vidyut.Plane.Upload.Receiving.{
  IsOpen, found, partial, OnDisk, Idle, Otherwise, Held, Held-Receiving,
}

module _ {Disk : Type 0} (c : Config Disk) (w : IsLawful c.fs)
    (transfer_id file_id requested : String) (offer : TransferFileOffer) (xs : List ℕ) where
  abbrev Else : Plane Disk → Type 0
  Else = Otherwise c w transfer_id file_id requested offer xs

  abbrev found_now : Plane Disk → Option TransferFileRecord
  found_now = found c w transfer_id file_id requested offer

  abbrev Holds : TransferFileRecord → Session → List ℕ → Plane Disk → Type 0
  Holds = Held c w transfer_id file_id requested offer

  abbrev Bytes : List ℕ → Disk → Type 0
  Bytes = OnDisk c w transfer_id file_id requested offer

  pub Holds-with :
      (r : TransferFileRecord) (s : Session) (ys zs : List ℕ) (p p' : Plane Disk)
      → Holds r s ys p
      → p'.queue ≡ p.queue
      → p'.sessions ≡ p.sessions
      → Bytes zs p'.disk
      → Holds r s zs p'
  Holds-with r s ys zs p p' h q e d = record {
    file = h.file;
    is_found = rw q h.is_found;
    same = h.same;
    kept = rw e h.kept;
    stored = d;
  }

  abbrev IsIdle : Plane Disk → Type 0
  IsIdle = Idle c w transfer_id file_id requested offer

  pub Idle-with : (p p' : Plane Disk) → IsIdle p → p'.queue ≡ p.queue → IsIdle p'
  Idle-with p p' i q = record { file = i.file; is_found = rw q i.is_found; inactive = i.inactive }

  pub give_up-Idle :
      (code : String) (p : Plane Disk)
      → IsIdle p
      → Ends (λ _. IsIdle) (λ _. IsIdle) IsIdle (give_up c transfer_id file_id code p)
  unfolding give_up publish end_session file_terminal
  give_up-Idle code p idle =
      Ends-then _ _ p
        (Ends-on_queue c.clock (λ env q. fail env q transfer_id file_id code) p
          (record {
            apply = λ q e.
                let (y, there, inactive) =
                  (fail-Now transfer_id file_id _ (c.clock p.tick) p.queue idle.file idle.is_found
                      code).apply
                    q e in
                record { file = y; is_found = there; inactive = inactive };
          })
          (record { file = idle.file; is_found = idle.is_found; inactive = idle.inactive }))
        λ p1 i. Ends-then _ _ p1 (Ends-next (λ _. IsIdle) tt _ (Idle-with p1 _ i refl)) λ p2 j.
          Ends-then _ _ p2 (Ends-next (λ _. IsIdle) tt _ (Idle-with p2 _ j refl))
            λ p3 k. Ends-next (λ _. IsIdle) tt _ (Idle-with p3 _ k refl)

  -- The file as it was looked up, with its session.
  module _ (r : TransferFileRecord) (s : Session) (target : active_destination r ≡ some requested)
      (same : r.offered ≡ offer) (o : IsOpen r (length xs) s) where
    -- A state that holds more bytes than the session has accepted is one between uploads.
    pub back : (zs : List ℕ) (p : Plane Disk) → Holds r s (xs ++ zs) p → Else p
    back zs p h =
        inl (Held-Receiving c w transfer_id file_id requested offer r s xs zs p target same o h)

    pub mark-Held :
        (zs : List ℕ) (stage : String) (end : Bool) (p : Plane Disk)
        → Holds r s (xs ++ zs) p
        → Ends (λ _. Holds r s (xs ++ zs)) (λ _. Else) Else (mark c transfer_id file_id stage end p)
    unfolding mark
    mark-Held zs stage end p h =
        Ends-on_queue c.clock (λ env q. mark_stage env q transfer_id file_id stage end) p
          (record {
            apply = λ q e.
                let (y, there, m) =
                  (mark_stage-Now transfer_id file_id _ (c.clock p.tick) p.queue h.file h.is_found
                      stage end).apply
                    q e in
                record {
                  file = y;
                  is_found = there;
                  same = record {
                    stands = m.stands ∙ h.same.stands;
                    confirms = m.confirms ∙ h.same.confirms;
                    offers = m.offers ∙ h.same.offers;
                    goes_to = m.goes_to ∙ h.same.goes_to;
                  };
                  kept = h.kept;
                  stored = h.stored;
                };
          })
          (back zs _ (Holds-with r s (xs ++ zs) (xs ++ zs) p _ h refl refl h.stored))

    after_write-Held :
        (bytes : List ℕ) (answer : WriteAnswer) (p : Plane Disk)
        → Holds r s (xs ++ []) p
        → (answer ≡ bytes_written (length bytes) → Holds r s (xs ++ bytes) p)
        → Ends
            (λ _. Holds r s (xs ++ bytes))
            (λ _. Else)
            Else
            (after_write c transfer_id file_id (length bytes) answer p)
    after_write-Held bytes (bytes_written m) p h k =
        Ends-refuse_unless (m == length bytes) _ p (λ e. k (ap bytes_written (ground arith)))
          (λ e. back [] p h)
    after_write-Held bytes not_written p h k =
        Ends-throw (λ _. Holds r s (xs ++ bytes)) _ p (back [] p h)

    pub write_chunk-Held :
        (bytes : List ℕ) (p : Plane Disk)
        → Holds r s xs p
        → length xs + length bytes ≤ offer.size
        → Ends
            (λ _. Holds r s (xs ++ bytes))
            (λ _. Else)
            Else
            (write_chunk c transfer_id file_id
              (partial c w transfer_id file_id requested offer)
              (length xs)
              bytes
              p)
    unfolding write_chunk
    write_chunk-Held [] p h small =
        Ends-when false _ p (λ e. absurd (cc e)) (λ e. rw (append-nil xs) h)
    write_chunk-Held (b ∷ bytes) p h small =
        let path = partial c w transfer_id file_id requested offer in
        let (part, full) =
          write_at-Stored c.fs w path offer.size xs (b ∷ bytes) p.disk h.stored small in
        let p' = (write_answer c transfer_id file_id path (length xs) (b ∷ bytes) p).1 in
        Ends-when (ltb 0 (length (b ∷ bytes))) _ p
          (λ e.
            Ends-bind _ _ p
              (Ends-next
                (λ answer q.
                  (q ≡ p') × (answer ≡ (c.fs.write_at p.disk path (length xs) (b ∷ bytes)).0))
                _ p' (refl, refl))
              λ answer q told. rw told.0 (
                after_write-Held (b ∷ bytes) answer p'
                  (Holds-with r s xs (xs ++ []) p p' h refl refl (rw (append-nil xs) part))
                  (λ wrote.
                    Holds-with r s xs (xs ++ (b ∷ bytes)) p p' h refl refl
                      (full (sym told.1 ∙ wrote)))))
          (λ e. absurd (ground arith))

    pub sync_partial-Held :
        (zs : List ℕ) (path : String) (p : Plane Disk)
        → Holds r s (xs ++ zs) p
        → Ends
            (λ _. Holds r s (xs ++ zs))
            (λ _. Else)
            Else
            (sync_partial c transfer_id file_id path p)
    unfolding sync_partial
    sync_partial-Held zs path p h =
        Ends-bind _ _ p (Ends-next (λ _ q. q ≡ p) _ p refl) λ synced q same_state.
          rw same_state (Ends-or_raise _ of_disk p (λ _ _. h) (λ _. back zs p h))

    pub refuse_some-Held :
        (zs : List ℕ) (answer : Option Response) (p : Plane Disk)
        → Holds r s (xs ++ zs) p
        → Ends
            (λ _. Holds r s (xs ++ zs))
            (λ _. Else)
            Else
            (refuse_some c transfer_id file_id answer p)
    refuse_some-Held zs none p h = Ends-next (λ _. Holds r s (xs ++ zs)) tt p h
    refuse_some-Held zs (some a) p h = Ends-reply (λ _. Holds r s (xs ++ zs)) a p (back zs p h)
