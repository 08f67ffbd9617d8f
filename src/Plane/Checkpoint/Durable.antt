-- ===== src/Plane/Checkpoint/Durable.antt =====
-- What `checkpointAnd` of src/transfer/laptop-data-plane.ts leaves for the call behind it.
use vidyut.Prelude.{
  ℕ, ◌≡◌, refl, sym, ap, ◌∙◌, inl, inr, String, List, Option, none, some, arith, length, ltb,
  if◌then◌else◌, Bool-cases,
}
use vidyut.Wire.Types.{TransferDirection, TransferFileOffer}
use vidyut.Wire.Number.{natural}
use vidyut.Queue.Types.{TransferFileRecord, is_active}
use vidyut.Queue.Timing.{lookup, assign}
use vidyut.Queue.Progress.{confirm_progress, present}
use vidyut.Plane.Disk.{IsLawful}
use vidyut.Plane.Sessions.{Session, progress_key, mark_checkpoint}
use vidyut.Plane.State.{of_disk, no_destination, Plane}
use vidyut.Plane.Rules.{
  Ends, Ends-next, Ends-bind, Ends-then, Ends-when, Ends-on_queue, Ends-or_raise,
}
use vidyut.Plane.Upload.{Config, set_session, sync_partial, active_destination}
use vidyut.Plane.Upload.Records.{IsSameFile, found_in-Located}
use vidyut.Plane.Upload.Records.Calls.{confirm_progress-Now}
use vidyut.Plane.Upload.Receiving.{IsOpen, Synced, Receiving, found, lookup-assign}
use vidyut.Plane.Checkpoint.{
  find_file, destination_of, can_open, make_durable, checkpoint_session, checkpoint,
}

module _ {Disk : Type 0} (c : Config Disk) (w : IsLawful c.fs)
    (transfer_id file_id requested : String) (offer : TransferFileOffer) (xs : List ℕ) where
  abbrev Between : Plane Disk → Type 0
  Between = Receiving c w transfer_id file_id requested offer xs

  -- What was accepted is confirmed.
  abbrev pub AllDurable : Plane Disk → Type 0
  AllDurable p = (h : Between p) × (h.file.confirmed_offset ≡ length xs)

  present_target :
      (r : TransferFileRecord)
      → active_destination r ≡ some requested
      → present r.destination_path ≡ some requested
  unfolding active_destination
  present_target r h = elim (Bool-cases (is_active r.status)) [
    | inl e ↦ rw e at h
    | inr e ↦ absurd (cc (rw e at h))
  ]

  found_destination :
      (p : Plane Disk) (h : Between p)
      → destination_of (find_file p.queue transfer_id file_id) ≡ some requested
  unfolding find_file
  found_destination p h =
      let l = found_in-Located transfer_id file_id _ p.queue h.file h.is_found in
      let there : find_file p.queue transfer_id file_id ≡ some h.file =
        rw (l.batch_found, find_file) l.file_found in
      ap destination_of there ∙ present_target h.file h.target

  with_session :
      (p p' : Plane Disk)
      → Between p
      → p'.queue ≡ p.queue
      → p'.sessions ≡ p.sessions
      → p'.disk ≡ p.disk
      → Between p'
  with_session p p' h q e d = record {
    file = h.file;
    is_found = rw q h.is_found;
    target = h.target;
    same_offer = h.same_offer;
    synced = rw e h.synced;
    on_disk = rw d h.on_disk;
  }

  target_of :
      (r y : TransferFileRecord)
      → y.status ≡ r.status
      → y.destination_path ≡ r.destination_path
      → active_destination r ≡ some requested
      → active_destination y ≡ some requested
  unfolding active_destination
  target_of r y h k t = rw (h, k) t

  there_at :
      (p q : Plane Disk) (h : Between p)
      → q ≡ p
      → found c w transfer_id file_id requested offer q ≡ some h.file
  there_at p q h e = ap (found c w transfer_id file_id requested offer) e ∙ h.is_found

  make_durable-AllDurable :
      (s : Session) (p : Plane Disk) (h : Between p)
      → IsOpen h.file (length xs) s
      → Ends (λ _. AllDurable) (λ _ _. ⊥) Between (make_durable c transfer_id file_id s p)
  unfolding make_durable sync_partial set_session mark_checkpoint
  make_durable-AllDurable s p h o =
      Ends-bind {Q = λ d q. q ≡ p} _ _ p (Ends-or_raise _ no_destination p (λ d e. refl) (λ _. h))
        λ d p1 e1.
          Ends-bind {Q = λ _ q. q ≡ p} _ _ p1 (Ends-next (λ _ q. q ≡ p) _ p1 e1) λ answer p2 e2.
            Ends-then {Q = λ q. q ≡ p} _ _ p2
              (Ends-or_raise (can_open answer) of_disk p2 (λ _ _. e2) (λ _. rw e2 h))
              λ p3 e3.
                Ends-then {Q = λ q. q ≡ p} _ _ p3
                  (Ends-bind {Q = λ _ q. q ≡ p} _ _ p3 (Ends-next (λ _ q. q ≡ p) _ p3 e3)
                    λ b p3' e3'.
                      Ends-or_raise (if b then some tt else none) of_disk p3' (λ _ _. e3')
                        (λ _. rw e3' h))
                  λ p4 e4.
                    Ends-then
                      {Q = λ q.
                        (y : TransferFileRecord) × (found c w transfer_id file_id requested offer q
                          ≡ some y)
                        × IsSameFile h.file.status s.accepted_offset h.file y
                        × (q.disk ≡ p.disk)}
                      _ _ p4
                      (Ends-on_queue c.clock
                        (λ env q.
                          confirm_progress env q transfer_id file_id (natural s.accepted_offset)
                            none)
                        p4
                        (record {
                          apply = λ q e.
                              let (y, there, m) =
                                (confirm_progress-Now transfer_id file_id
                                    TransferDirection.phone_to_laptop (c.clock p4.tick) p4.queue
                                    h.file (there_at p p4 h e4) s.accepted_offset none).apply
                                  q e in
                              (y, there, m, ap (λ x. x.disk) e4);
                        })
                        (with_session p _ h (ap (λ x. x.queue) e4) (ap (λ x. x.sessions) e4)
                          (ap (λ x. x.disk) e4)))
                      λ p5 (y, there, m, same_disk).
                        Ends-bind {Q = λ _ q. (q.queue ≡ p5.queue) × (q.disk ≡ p.disk)} _ _ p5
                          (Ends-next (λ _ q. (q.queue ≡ p5.queue) × (q.disk ≡ p.disk)) _ p5
                            (refl, same_disk))
                          λ now p6 (eq, ed).
                            let key = progress_key transfer_id file_id in
                            let p7 : Plane Disk = record p6 {
                              sessions =
                                  assign key (mark_checkpoint s.accepted_offset now s) p6.sessions;
                            } in
                            Ends-next (λ _. AllDurable) tt p7
                              (
                                record {
                                  file = y;
                                  is_found = rw eq there;
                                  target = target_of h.file y m.stands m.goes_to h.target;
                                  same_offer = m.offers ∙ h.same_offer;
                                  synced =
                                      rw
                                        (lookup-assign (progress_key transfer_id file_id)
                                          (mark_checkpoint s.accepted_offset now s) p6.sessions)
                                        (record {
                                          accepts = o.accepts;
                                          durable = sym m.confirms;
                                          ahead = omega (arith, m.confirms, o.accepts);
                                        });
                                  on_disk = rw ed h.on_disk;
                                },
                                m.confirms ∙ o.accepts,
                              )

  checkpoint_session-AllDurable :
      (o : Option Session) (p : Plane Disk) (h : Between p)
      → Synced h.file (length xs) o
      → Ends (λ _. AllDurable) (λ _ _. ⊥) Between (checkpoint_session c transfer_id file_id o p)
  checkpoint_session-AllDurable none p h e = Ends-next (λ _. AllDurable) tt p (h, e)
  checkpoint_session-AllDurable (some s) p h o =
      Ends-when (ltb s.durable_offset s.accepted_offset) _ p (λ _. make_durable-AllDurable s p h o)
        (λ e. (h, ground (arith, o.accepts, o.durable, o.ahead)))

  -- Between the uploads of a file, what goes before the call in `checkpointAnd` leaves the file as it
  -- was, with every byte that was accepted confirmed in the queue; where it throws, so that the call is
  -- not made, the file is still between its uploads, with the same bytes.
  pub checkpoint-AllDurable :
      (p : Plane Disk)
      → Between p
      → Ends (λ _. AllDurable) (λ _ _. ⊥) Between (checkpoint c transfer_id file_id p)
  unfolding checkpoint
  checkpoint-AllDurable p h =
      Ends-bind {Q = λ o q. (o ≡ lookup (progress_key transfer_id file_id) p.sessions) × (q ≡ p)} _
        _ p
        (Ends-next (λ o q. (o ≡ lookup (progress_key transfer_id file_id) p.sessions) × (q ≡ p)) _ p
          (refl, refl))
        λ o q (eo, eq). rw (eo, eq) (checkpoint_session-AllDurable _ p h h.synced)
