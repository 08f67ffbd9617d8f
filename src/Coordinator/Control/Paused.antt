-- ===== src/Coordinator/Control/Paused.antt =====
-- A file that the phone pauses while src/transfer/laptop-data-plane.ts receives it.
use vidyut.Prelude.{
  ℕ, ◌≡◌, ◌⊎◌, ◌∙◌, String, true, false, List, some, length, str_eq, inl, inr, Bool-cases,
}
use vidyut.Wire.Types.{TransferDirection, TransferFileOffer}
use vidyut.Queue.Types.{TransferFileRecord, TransferFileStatus, is_active}
use vidyut.Queue.Control.{pause}
use vidyut.Plane.Disk.{IsLawful}
use vidyut.Plane.State.{Plane, on_queue}
use vidyut.Plane.Rules.{Ends, Ends-then, Ends-on_queue_ok}
use vidyut.Plane.Upload.{active_destination}
use vidyut.Plane.Upload.Records.Calls.{pause-Now}
use vidyut.Plane.Upload.Receiving.{Receiving, OnDisk, found}
use vidyut.Plane.Checkpoint.{checkpoint, checkpoint_and}
use vidyut.Plane.Checkpoint.Durable.{AllDurable, checkpoint-AllDurable}
use vidyut.Coordinator.{CoordinatorOptions}
use vidyut.Coordinator.Control.{pause_file, pause_transfer}

is_active_of :
    (r : TransferFileRecord) (requested : String)
    → active_destination r ≡ some requested
    → is_active r.status ≡ true
unfolding active_destination
is_active_of r requested h = elim (Bool-cases (is_active r.status)) [
  | inl e ↦ e
  | inr e ↦ absurd (cc (rw e at h))
]

module _ {Disk : Type 0} (c : CoordinatorOptions Disk) (w : IsLawful c.plane.fs)
    (transfer_id file_id requested : String) (offer : TransferFileOffer) (xs : List ℕ) where
  abbrev Between : Plane Disk → Type 0
  Between = Receiving c.plane w transfer_id file_id requested offer xs

  -- The file is paused, confirms the bytes `xs`, and they are on disk, if there are any.
  pub record IsPaused (p : Plane Disk) : Type 0 where
    pub file : TransferFileRecord
    pub is_found : found c.plane w transfer_id file_id requested offer p ≡ some file
    pub paused : file.status ≡ TransferFileStatus.paused
    pub confirms : file.confirmed_offset ≡ length xs
    pub same_offer : file.offered ≡ offer
    pub on_disk : (length xs ≡ 0) ⊎ OnDisk c.plane w transfer_id file_id requested offer xs p.disk

  -- Pausing a file between its uploads, by a call that names it, leaves it paused with every byte
  -- that was accepted confirmed in the queue and on disk; where the checkpoint throws, the file is
  -- still between its uploads with the same bytes.
  pub pause_transfer-IsPaused :
      (p : Plane Disk)
      → str_eq file_id "" ≡ false
      → Between p
      → Ends (λ _. IsPaused) (λ _ _. ⊥) Between (pause_transfer c transfer_id (some file_id) p)
  unfolding pause_transfer pause_file checkpoint_and
  pause_transfer-IsPaused p named h =
      Ends-then {Q = AllDurable c.plane w transfer_id file_id requested offer xs}
        (checkpoint c.plane transfer_id file_id)
        (on_queue c.plane.clock λ env q. pause env q transfer_id (some file_id)) p
        (checkpoint-AllDurable c.plane w transfer_id file_id requested offer xs p h)
        λ p' (r, all).
          let (q, paused, (y, there, same)) =
            pause-Now transfer_id file_id TransferDirection.phone_to_laptop (c.plane.clock p'.tick)
              p'.queue r.file r.is_found (is_active_of r.file requested r.target) named in
          Ends-on_queue_ok c.plane.clock (λ env q. pause env q transfer_id (some file_id)) p' paused
            (record {
              file = y;
              is_found = there;
              paused = same.stands;
              confirms = same.confirms ∙ all;
              same_offer = same.offers ∙ r.same_offer;
              on_disk = r.on_disk;
            })
