-- ===== src/Plane/Checkpoint.antt =====
-- `checkpointAnd` of src/transfer/laptop-data-plane.ts, inside the lock of the file.
pub mod Durable
use vidyut.Prelude.{
  ℕ, String, Bool, true, false, List, Option, none, some, ltb, if◌then◌else◌, find?,
}
use vidyut.Paths.{partial_path_for}
use vidyut.Wire.Number.{natural}
use vidyut.Queue.Types.{TransferFileRecord}
use vidyut.Queue.Timing.{lookup}
use vidyut.Queue.Store.{Queue, has_transfer_id, has_file_id}
use vidyut.Queue.Progress.{confirm_progress, present}
use vidyut.Plane.Disk.{OpenAnswer, opened, missing, not_opened}
use vidyut.Plane.Sessions.{Session, progress_key, mark_checkpoint}
use vidyut.Plane.State.{
  of_disk, no_destination, Plane, Act, ◌>>=◌, ◌>>◌, gets, or_raise, when, on_queue,
}
use vidyut.Plane.Upload.{Config, set_session, sync_partial}

-- The file of a batch of either direction.
unfoldable pub find_file : Queue → String → String → Option TransferFileRecord
find_file q transfer_id file_id = elim (find? (has_transfer_id transfer_id) q.batches) [
  | none ↦ none
  | some b ↦ find? (has_file_id file_id) b.files
]

abbrev pub destination_of : Option TransferFileRecord → Option String
destination_of none = none
destination_of (some r) = present r.destination_path

-- `open(path, "r+")` throws where the file is missing, too.
abbrev pub can_open : OpenAnswer → Option (Unit {0})
can_open opened = some tt
can_open missing = none
can_open not_opened = none

module _ {Disk : Type 0} (c : Config Disk) (transfer_id file_id : String) where
  unfoldable pub make_durable : Session → Act Disk (Unit {0})
  unfolding find_file sync_partial on_queue confirm_progress set_session mark_checkpoint
  make_durable s = do
    destination ←
        (λ p. or_raise (destination_of (find_file p.queue transfer_id file_id)) no_destination p)
    let partial = partial_path_for c.paths destination file_id
    answer ← gets λ p. c.fs.open_existing p.disk partial
    or_raise (can_open answer) of_disk
    sync_partial c transfer_id file_id partial
    on_queue c.clock
        λ env q. confirm_progress env q transfer_id file_id (natural s.accepted_offset) none
    now ← gets λ p. (c.clock p.tick).monotonic_now
    set_session c transfer_id file_id (mark_checkpoint s.accepted_offset now s)

  abbrev pub checkpoint_session : Option Session → Act Disk (Unit {0})
  checkpoint_session none = gets λ p. tt
  checkpoint_session (some s) = when (ltb s.durable_offset s.accepted_offset) (make_durable s)

  unfoldable pub checkpoint : Act Disk (Unit {0})
  unfolding make_durable
  checkpoint = do
    session ← gets λ p. lookup (progress_key transfer_id file_id) p.sessions
    checkpoint_session session

  unfoldable pub checkpoint_and : {A : Type 0} → Act Disk A → Act Disk A
  unfolding checkpoint
  checkpoint_and operation = do checkpoint; operation
