-- ===== src/Plane/Upload/Moving.antt =====
-- Where an upload of src/transfer/laptop-data-plane.ts gives its bytes to the queue, and announces
-- them.
use vidyut.Prelude.{
  ℕ, ◌≡◌, refl, sym, ◌∙◌, String, Bool, true, false, List, ◌++◌, Option, none, some, arith, length,
  length-append,
}
use vidyut.Wire.Types.{TransferFileOffer}
use vidyut.Wire.Number.{natural}
use vidyut.Queue.Types.{TransferFileRecord, TransferFileStatus}
use vidyut.Queue.Timing.{lookup, assign}
use vidyut.Queue.Progress.{begin_verification, confirm_progress}
use vidyut.Plane.Disk.{IsLawful}
use vidyut.Plane.Sessions.{Session, progress_key, mark_accepted, mark_checkpoint, mark_published}
use vidyut.Plane.State.{Plane, publish}
use vidyut.Plane.Rules.{Ends, Ends-next, Ends-then, Ends-on_queue}
use vidyut.Plane.Upload.{Config, set_session, advance, announce, active_destination}
use vidyut.Plane.Upload.Records.{IsSameFile}
use vidyut.Plane.Upload.Records.Calls.{confirm_progress-Now, begin_verification-Now}
use vidyut.Plane.Upload.Receiving.{IsOpen, lookup-assign, found, OnDisk, Otherwise, Held}
use vidyut.Plane.Upload.Steps.{Holds-with, back}

module _ {Disk : Type 0} (c : Config Disk) (w : IsLawful c.fs)
    (transfer_id file_id requested : String) (offer : TransferFileOffer) (xs : List ℕ) where
  abbrev Else : Plane Disk → Type 0
  Else = Otherwise c w transfer_id file_id requested offer xs

  abbrev found_now : Plane Disk → Option TransferFileRecord
  found_now = found c w transfer_id file_id requested offer

  abbrev Holds : TransferFileRecord → Session → List ℕ → Plane Disk → Type 0
  Holds = Held c w transfer_id file_id requested offer

  abbrev Bytes : List ℕ → Disk → Type 0
  Bytes = OnDisk c w transfer_id file_id requested offer

  -- The file as it was looked up, with its session.
  module _ (r : TransferFileRecord) (s : Session) (target : active_destination r ≡ some requested)
      (same : r.offered ≡ offer) (o : IsOpen r (length xs) s) where
    -- The state behind the queue's call: the file under verification with all its bytes, or one that
    -- holds the session that has accepted them.
    pub record Verifying (zs : List ℕ) (p : Plane Disk) : Type 0 where
      pub file : TransferFileRecord
      pub is_found : found_now p ≡ some file
      pub verifying : file.status ≡ TransferFileStatus.verifying
      pub stored : Bytes zs p.disk
      pub whole : length zs ≡ offer.size

    pub record Accepted (moved : Session) (zs : List ℕ) (p : Plane Disk) : Type 0 where
      pub file : TransferFileRecord
      pub is_found : found_now p ≡ some file
      pub to_target : active_destination file ≡ some requested
      pub same_offer : file.offered ≡ offer
      pub kept : lookup (progress_key transfer_id file_id) p.sessions ≡ some moved
      pub open_at : IsOpen file (length zs) moved
      pub stored : Bytes zs p.disk

    abbrev pub Moved : Bool → Session → List ℕ → Plane Disk → Type 0
    Moved true moved zs p = Verifying zs p
    Moved false moved zs p = Accepted moved zs p

    same_target :
        (y : TransferFileRecord)
        → y.status ≡ r.status
        → y.destination_path ≡ r.destination_path
        → active_destination y ≡ some requested
    unfolding active_destination
    same_target y h k = rw (h, k) target

    set_session_kept :
        (moved : Session) (p : Plane Disk)
        → lookup
            (progress_key transfer_id file_id)
            (assign (progress_key transfer_id file_id) moved p.sessions)
          ≡ some moved
    set_session_kept moved p = lookup-assign (progress_key transfer_id file_id) moved p.sessions

    pub advance-Moved :
        (bytes : List ℕ) (confirmed now : ℕ) (last due : Bool) (p : Plane Disk)
        → Holds r s (xs ++ bytes) p
        → confirmed ≡ length (xs ++ bytes)
        → (last ≡ true → confirmed ≡ offer.size)
        → Ends
            (λ moved. Moved last moved (xs ++ bytes))
            (λ _. Else)
            Else
            (advance c transfer_id file_id confirmed now last due s p)
    unfolding advance set_session mark_checkpoint mark_accepted
    advance-Moved bytes n now true due p h at whole =
        let moved = mark_checkpoint n now s in
        Ends-then {Q = Verifying (xs ++ bytes)} _ _ p
          (Ends-on_queue c.clock (λ env q. begin_verification env q transfer_id file_id n) p
            (record {
              apply = λ q e.
                  let (y, there, m) =
                    (begin_verification-Now transfer_id file_id _ (c.clock p.tick) p.queue h.file
                        h.is_found n).apply
                      q e in
                  record {
                    file = y;
                    is_found = there;
                    verifying = m.stands;
                    stored = h.stored;
                    whole = sym at ∙ whole refl;
                  };
            })
            (back c w transfer_id file_id requested offer xs r s target same o bytes _ (
              Holds-with c w transfer_id file_id requested offer xs r s (xs ++ bytes) (xs ++ bytes)
                p _ h refl refl h.stored)))
          λ p1 v.
            Ends-then _ _ p1
              (Ends-next (λ _. Verifying (xs ++ bytes)) tt _
                (record {
                  file = v.file;
                  is_found = v.is_found;
                  verifying = v.verifying;
                  stored = v.stored;
                  whole = v.whole;
                }))
              λ p2 v'. Ends-next (λ _. Verifying (xs ++ bytes)) moved p2 v'
    advance-Moved bytes n now false true p h at whole =
        let moved = mark_checkpoint n now s in
        Ends-then
          {Q = λ p'.
            (y : TransferFileRecord) × (found_now p' ≡ some y)
            × IsSameFile h.file.status n h.file y
            × Bytes (xs ++ bytes) p'.disk}
          _ _ p
          (Ends-on_queue c.clock
            (λ env q. confirm_progress env q transfer_id file_id (natural n) none) p
            (record {
              apply = λ q e.
                  let (y, there, m) =
                    (confirm_progress-Now transfer_id file_id _ (c.clock p.tick) p.queue h.file
                        h.is_found n none).apply
                      q e in
                  (y, there, m, h.stored);
            })
            (back c w transfer_id file_id requested offer xs r s target same o bytes _ (
              Holds-with c w transfer_id file_id requested offer xs r s (xs ++ bytes) (xs ++ bytes)
                p _ h refl refl h.stored)))
          λ p1 (y, there, m, stored).
            Ends-then _ _ p1
              (Ends-next (λ _. Accepted moved (xs ++ bytes)) tt _
                (record {
                  file = y;
                  is_found = there;
                  to_target = same_target y (m.stands ∙ h.same.stands) (m.goes_to ∙ h.same.goes_to);
                  same_offer = m.offers ∙ h.same.offers ∙ same;
                  kept = set_session_kept moved p1;
                  open_at = record {
                    accepts = at;
                    durable = sym m.confirms;
                    ahead = omega (arith, m.confirms, at);
                  };
                  stored = stored;
                }))
              λ p2 a. Ends-next (λ moved. Accepted moved (xs ++ bytes)) moved p2 a
    advance-Moved bytes n now false false p h at whole =
        let moved = mark_accepted n s in
        Ends-then _ _ p
          (Ends-next (λ _. Accepted moved (xs ++ bytes)) tt _
            (record {
              file = h.file;
              is_found = h.is_found;
              to_target = same_target h.file h.same.stands h.same.goes_to;
              same_offer = h.same.offers ∙ same;
              kept = set_session_kept moved p;
              open_at = record {
                accepts = at;
                durable = o.durable ∙ sym h.same.confirms;
                ahead = omega (arith, o.ahead, h.same.confirms, at, length-append xs bytes);
              };
              stored = h.stored;
            }))
          λ p2 a. Ends-next (λ moved. Accepted moved (xs ++ bytes)) moved p2 a

    pub announce-Moved :
        (zs : List ℕ) (confirmed now : ℕ) (last : Bool) (moved : Session) (p : Plane Disk)
        → Moved last moved zs p
        → Ends
            (λ _. Moved last (mark_published now moved) zs)
            (λ _. Else)
            Else
            (announce c transfer_id file_id confirmed now moved p)
    unfolding announce publish set_session mark_published
    announce-Moved zs confirmed now true moved p v =
        Ends-then _ _ p
          (Ends-next (λ _. Verifying zs) tt _
            (record {
              file = v.file;
              is_found = v.is_found;
              verifying = v.verifying;
              stored = v.stored;
              whole = v.whole;
            }))
          λ p1 u.
            Ends-next (λ _. Verifying zs) tt _
              (record {
                file = u.file;
                is_found = u.is_found;
                verifying = u.verifying;
                stored = u.stored;
                whole = u.whole;
              })
    announce-Moved zs confirmed now false moved p a =
        let published = mark_published now moved in
        Ends-then _ _ p
          (Ends-next (λ _. Accepted moved zs) tt _
            (record {
              file = a.file;
              is_found = a.is_found;
              to_target = a.to_target;
              same_offer = a.same_offer;
              kept = a.kept;
              open_at = a.open_at;
              stored = a.stored;
            }))
          λ p1 u.
            Ends-next (λ _. Accepted published zs) tt _
              (record {
                file = u.file;
                is_found = u.is_found;
                to_target = u.to_target;
                same_offer = u.same_offer;
                kept = set_session_kept published p1;
                open_at = record {
                  accepts = u.open_at.accepts;
                  durable = u.open_at.durable;
                  ahead = u.open_at.ahead;
                };
                stored = u.stored;
              })
