-- ===== src/Coordinator/Control/Accepted.antt =====
-- The receiver's offsets that src/transfer/transfer-coordinator.ts accepts.
use vidyut.Prelude.{ℕ, ◌≤◌, ◌≡◌, String, Option, some}
use vidyut.Wire.Types.{TransferDirection}
use vidyut.Queue.Types.{TransferFileRecord}
use vidyut.Plane.State.{Plane}
use vidyut.Plane.Upload.Records.{IsSameFile, found_in, Now}
use vidyut.Coordinator.{CoordinatorOptions}

module _ {Disk : Type 0} (c : CoordinatorOptions Disk) (transfer_id file_id : String) (n : ℕ)
    (largest : Option ℕ) (p : Plane Disk) where
  abbrev direction : TransferDirection
  direction = TransferDirection.laptop_to_phone

  -- The file that the laptop sends confirmed no more than `n` bytes, and confirms `n` now.
  pub record Acknowledged (q : Plane Disk) : Type 0 where
    pub before : TransferFileRecord
    pub was_found : found_in transfer_id file_id direction p.queue ≡ some before
    pub no_lower : before.confirmed_offset ≤ n
    pub within : n ≤ before.size
    pub now : Now transfer_id file_id direction (IsSameFile before.status n before) q.queue

  abbrev pub SameQueue : Plane Disk → Type 0
  SameQueue q = q.queue ≡ p.queue
