-- ===== src/Queue/Moves/Batches.antt =====
-- What holds between the queue before and behind a call of src/transfer/transfer-queue.ts.
use vidyut.Prelude.{ℕ, ◌≡◌, refl, String, List, [], ◌∷◌, some, ok, or_throw-eq-ok, find?}
use vidyut.Queue.Types.{TransferFileRecord, TransferBatchRecord, TransferQueueSnapshot}
use vidyut.Queue.Timing.{Env}
use vidyut.Queue.Batch.{touch, derive_batch_status}
use vidyut.Queue.Store.{
  Queue, has_transfer_id, has_file_id, find_batch, find_in_batch, persist, put_batch, put_file,
}
use vidyut.Queue.Progress.{keep_touched, keep_derived}
use vidyut.Queue.Moves.{
  FileMove, FileMoves, BatchMove, BatchMoves, BatchMoves-refl, FileMoves-replace,
  BatchMoves-replace, derived_status-terminal, IsClosed,
}

-- What a reload would find: the snapshot that was saved last, or the one loaded at the start.
abbrev pub on_disk : TransferQueueSnapshot → List TransferQueueSnapshot → TransferQueueSnapshot
on_disk loaded [] = loaded
on_disk loaded (s ∷ rest) = s

-- Every batch and file stays where it is and moves as it may, and what was on disk stays in step.
pub record Kept (q r : Queue) : Type 0 where
  pub moves : BatchMoves q.batches r.batches
  pub version : r.state.v ≡ q.state.v
  pub durable :
      (loaded : TransferQueueSnapshot)
      → on_disk loaded q.saved ≡ q.state
      → on_disk loaded r.saved ≡ r.state

pub Kept-refl : (q : Queue) → Kept q q
Kept-refl q = record { moves = BatchMoves-refl q.batches; version = refl; durable = λ loaded h. h }

pub find_batch-eq-ok :
    (q : Queue) (transfer_id : String) (b : TransferBatchRecord)
    → find_batch q transfer_id ≡ ok b
    → find? (has_transfer_id transfer_id) q.batches ≡ some b
unfolding find_batch
find_batch-eq-ok q transfer_id b h = or_throw-eq-ok _ _ b h

pub find_in_batch-eq-ok :
    (b : TransferBatchRecord) (file_id : String) (f : TransferFileRecord)
    → find_in_batch b file_id ≡ ok f
    → find? (has_file_id file_id) b.files ≡ some f
unfolding find_in_batch
find_in_batch-eq-ok b file_id f h = or_throw-eq-ok _ _ f h

-- A batch that is put back in place of the one found.
pub put_batch-Kept :
    (q : Queue) (transfer_id : String) (b c : TransferBatchRecord)
    → find_batch q transfer_id ≡ ok b
    → BatchMove b c
    → Kept q (persist (put_batch transfer_id c q))
unfolding persist put_batch
put_batch-Kept q transfer_id b c h m = record {
  moves = BatchMoves-replace _ q.batches b c (find_batch-eq-ok q transfer_id b h) m;
  version = refl;
  durable = λ loaded e. refl;
}

pub derived-BatchMove :
    (now : ℕ) (b : TransferBatchRecord) (fs : List TransferFileRecord)
    → FileMoves b.files fs
    → BatchMove b (derive_batch_status now (record b { files = fs }))
unfolding derive_batch_status touch
derived-BatchMove now b fs m = record {
  same_transfer = refl;
  files_move = m;
  closed = λ _ h. derived_status-terminal fs h;
}

module _ (env : Env) (q : Queue) (transfer_id file_id : String) (b : TransferBatchRecord)
    (f g : TransferFileRecord) (found_batch : find_batch q transfer_id ≡ ok b)
    (found_file : find_in_batch b file_id ≡ ok f) (m : FileMove f g) where
  files-moved : FileMoves b.files (put_file file_id g b).files
  unfolding put_file
  files-moved = FileMoves-replace _ b.files f g (find_in_batch-eq-ok b file_id f found_file) m

  pub keep_derived-Kept : Kept q (keep_derived env transfer_id file_id b g q)
  unfolding keep_derived
  keep_derived-Kept =
      put_batch-Kept q transfer_id b _ found_batch
        (unfold put_file in derived-BatchMove env.now b _ files-moved)

  -- Without a change of the batch's status the files must stay finished where they were.
  pub keep_touched-Kept :
      (IsClosed b → IsClosed (put_file file_id g b))
      → Kept q (keep_touched env transfer_id file_id b g q)
  unfolding keep_touched
  keep_touched-Kept closed = put_batch-Kept q transfer_id b _ found_batch (
      unfold touch put_file in
      record { same_transfer = refl; files_move = files-moved; closed = closed })
