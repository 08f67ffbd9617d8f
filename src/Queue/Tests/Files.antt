-- ===== src/Queue/Tests/Files.antt =====
-- Concrete calls of src/transfer/transfer-queue.ts on one file and on an offer.
use vidyut.Prelude.{◌≡◌, refl, String, List, [], ◌∷◌, some, none, ok}
use vidyut.Wire.Types.{TransferDirection, TransferOffer}
use vidyut.Wire.Number.{natural, natural?, is_safe_integer, is_non_negative}
use vidyut.Queue.Types.{
  TransferFileRecord, TransferBatchRecord, TransferFileStatus, TransferBatchStatus,
}
use vidyut.Queue.Store.{Queue, find_batch, find_in_batch, set_anchor, mark_timing}
use vidyut.Queue.Progress.{
  confirm_progress, complete, next_offset, next_chunk, final_sha256, completed_file, keep_touched,
  keep_derived,
}
use vidyut.Queue.Recover.{opened}
use vidyut.Queue.Offers.{received_batch}
use vidyut.Queue.Progress.Outcomes.{Completed, complete-Completed}
use vidyut.Queue.Calls.{or_same}
use vidyut.Queue.Tracks.{find_record}
use vidyut.Queue.Tests.{file_id, transfer_id, sha, offered, file, batch, snapshot, env}
use vidyut.Queue.Progress.Confirmed.{Confirmed, confirm_progress-Confirmed}

abbrev phone_offer : TransferOffer
phone_offer = record {
  transfer_id = transfer_id;
  batch_id = "batch-0123456789abcdef";
  origin = "phone";
  direction = TransferDirection.phone_to_laptop;
  created_at_ms = 7;
  files = offered ∷ [];
}

abbrev destinations : List (String × String)
destinations = (file_id, "/tmp/notes.txt") ∷ []

abbrev first_time : Queue
first_time = opened (record { v = 1; batches = [] })

abbrev accepted : TransferBatchRecord
accepted = received_batch 100 destinations (some "phone") phone_offer

abbrev whole : Queue
whole = opened (record {
  v = 1;
  batches = batch TransferBatchStatus.active (file TransferFileStatus.verifying 10) ∷ [];
})

completes_whole :
    complete env whole transfer_id file_id sha
    ≡ ok (or_same whole (complete env whole transfer_id file_id sha))
unfolding complete find_batch find_in_batch final_sha256 completed_file keep_derived set_anchor
    mark_timing
completes_whole = refl

complete-Completed_example :
    (x : TransferFileRecord) × (y : TransferFileRecord) × (find_record whole.batches transfer_id
        file_id
      ≡ some x)
    × (find_record
          (or_same whole (complete env whole transfer_id file_id sha)).batches
          transfer_id
          file_id
        ≡ some y)
    × Completed sha x y
complete-Completed_example =
    complete-Completed env whole (or_same whole (complete env whole transfer_id file_id sha))
      transfer_id file_id sha completes_whole

confirms_all :
    confirm_progress env (opened snapshot) transfer_id file_id (natural 10) none
    ≡ ok (
        or_same
          (opened snapshot)
          (confirm_progress env (opened snapshot) transfer_id file_id (natural 10) none))
unfolding confirm_progress find_batch find_in_batch next_offset next_chunk natural? is_safe_integer
    is_non_negative keep_touched
confirms_all = refl

confirm_progress-Confirmed_example :
    (x : TransferFileRecord) × (y : TransferFileRecord) × (find_record snapshot.batches transfer_id
        file_id
      ≡ some x)
    × (find_record
          (or_same
            (opened snapshot)
            (confirm_progress env (opened snapshot) transfer_id file_id (natural 10) none)).batches
          transfer_id
          file_id
        ≡ some y)
    × Confirmed (natural 10) x y
confirm_progress-Confirmed_example =
    confirm_progress-Confirmed env (opened snapshot)
      (or_same (opened snapshot)
        (confirm_progress env (opened snapshot) transfer_id file_id (natural 10) none))
      transfer_id file_id (natural 10) none confirms_all
