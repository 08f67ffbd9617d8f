-- ===== src/Queue/Store.antt =====
-- The state of the queue of src/transfer/transfer-queue.ts, and what every operation on it shares:
-- `findBatch`, `findFile`, `persist`, `markTiming`.
use vidyut.Prelude.{
  ℕ, ◌-◌, String, Bool, List, ◌∷◌, Result, or_throw, some, find?, replace_first, str_eq,
}
use vidyut.Queue.Types.{TransferFileRecord, TransferBatchRecord, TransferQueueSnapshot}
use vidyut.Queue.Timing.{Env, lookup, assign, anchor_or, anchor_key, marked}
use vidyut.Queue.Batch.{QueueError, unknown_transfer, unknown_file}

-- `saved` is what `persist` has handed to the storage and `unlinked` what was removed from the
-- file system, the newest first.
pub record Queue : Type 0 where
  pub state : TransferQueueSnapshot
  pub open state use {batches}
  pub monotonic_anchors : List (String × ℕ)
  pub saved : List TransferQueueSnapshot
  pub unlinked : List String

abbrev pub M : Type 0 → Type 0
M A = Result QueueError A

abbrev pub has_transfer_id : String → TransferBatchRecord → Bool
has_transfer_id transfer_id b = str_eq b.transfer_id transfer_id

abbrev pub has_file_id : String → TransferFileRecord → Bool
has_file_id file_id f = str_eq f.file_id file_id

unfoldable pub find_batch : Queue → String → M TransferBatchRecord
find_batch q transfer_id =
    or_throw (find? (has_transfer_id transfer_id) q.batches) (unknown_transfer transfer_id)

unfoldable pub find_in_batch : TransferBatchRecord → String → M TransferFileRecord
find_in_batch b file_id = or_throw (find? (has_file_id file_id) b.files) (unknown_file file_id)

unfoldable pub persist : Queue → Queue
persist q = record q { saved = q.state ∷ q.saved }

-- What an assignment to a field of the batch, or of the file, that was found leaves behind.
unfoldable pub put_batch : String → TransferBatchRecord → Queue → Queue
put_batch transfer_id b q = record q {
  state = record q.state { batches = replace_first (has_transfer_id transfer_id) b q.batches };
}

unfoldable pub put_file : String → TransferFileRecord → TransferBatchRecord → TransferBatchRecord
put_file file_id f b = record b { files = replace_first (has_file_id file_id) f b.files }

-- The anchor of the file's clock: the one that is stored, or this reading.
unfoldable pub anchor_of : Env → String → String → Queue → ℕ
anchor_of env transfer_id file_id q =
    anchor_or env.monotonic_now (lookup (anchor_key transfer_id file_id) q.monotonic_anchors)

unfoldable pub set_anchor : Env → String → String → Queue → Queue
set_anchor env transfer_id file_id q = record q {
  monotonic_anchors =
      assign (anchor_key transfer_id file_id) (anchor_of env transfer_id file_id q)
        q.monotonic_anchors;
}

-- `markTiming` on a file; its other half is `set_anchor`.
unfoldable pub mark_timing :
    Env → String → String → Queue → String → Bool → TransferFileRecord → TransferFileRecord
mark_timing env transfer_id file_id q stage end f = record f {
  timing =
      some (
        marked env.now stage (env.monotonic_now - anchor_of env transfer_id file_id q) end
          f.timing);
}
