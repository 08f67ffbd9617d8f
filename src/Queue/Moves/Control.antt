-- ===== src/Queue/Moves/Control.antt =====
-- `pause`, `resume`, `cancel` and `retry` of src/transfer/transfer-queue.ts, as moves of the
-- queue.
use vidyut.Prelude.{
  ◌≤◌, ◌≡◌, refl, String, List, Option, some, none, ok, All, All-All, find?-All, Ensures,
  Ensures-bind, Ensures-ok,
}
use vidyut.Paths.{NodePath}
use vidyut.Wire.Types.{max_safe_integer}
use vidyut.Queue.Types.{TransferFileRecord, TransferBatchRecord}
use vidyut.Queue.Timing.{Env}
use vidyut.Queue.Store.{Queue, find_batch, find_in_batch}
use vidyut.Queue.Progress.{present}
use vidyut.Queue.Control.{
  change_files, named_files, paused_file, resumed_file, cancelled_file, retried_file, pause,
  pause_files, resume, cancel, retry,
}
use vidyut.Queue.Moves.{FileMove, FileMoves-map}
use vidyut.Queue.Moves.Changes.{
  paused_file-FileMove, resumed_file-FileMove, cancelled_file-FileMove, retried_file-FileMove,
  HasRoom,
}
use vidyut.Queue.Moves.Batches.{
  Kept, keep_derived-Kept, put_batch-Kept, derived-BatchMove, find_batch-eq-ok, find_in_batch-eq-ok,
}

-- What holds of every file of the queue.
abbrev pub EveryFile : (TransferFileRecord → Type 0) → List TransferBatchRecord → Type 0
EveryFile P = All (λ b. All P b.files)

module _ (change : TransferFileRecord → TransferFileRecord) (P : TransferFileRecord → Type 0)
    (m : (f : TransferFileRecord) → P f → FileMove f (change f)) (env : Env) (q : Queue)
    (every : EveryFile P q.batches) where
  every-found :
      (transfer_id : String) (b : TransferBatchRecord)
      → find_batch q transfer_id ≡ ok b
      → All P b.files
  every-found transfer_id b h =
      find?-All (λ c. All P c.files) _ q.batches b (find_batch-eq-ok q transfer_id b h) every

  pub change_files-Kept :
      (transfer_id : String) (file_id : Option String)
      → Ensures (Kept q) (change_files change env q transfer_id file_id)
  unfolding change_files
  change_files-Kept transfer_id none = Ensures-bind (find_batch q transfer_id) _ λ b hb.
      Ensures-ok _ (
        put_batch-Kept q transfer_id b _ hb (
          derived-BatchMove env.now b _
            (FileMoves-map change P b.files m (every-found transfer_id b hb))))
  change_files-Kept transfer_id (some file_id) = Ensures-bind (find_batch q transfer_id) _ λ b hb.
      Ensures-bind (find_in_batch b file_id) _ λ f hf. Ensures-ok _ (
        keep_derived-Kept env q transfer_id file_id b f _ hb hf (
          m f (
            find?-All P _ b.files f (find_in_batch-eq-ok b file_id f hf)
              (every-found transfer_id b hb))))

abbrev AnyFile : TransferFileRecord → Type 0
AnyFile f = Unit

every_file : (bs : List TransferBatchRecord) → EveryFile AnyFile bs
every_file = All-All _ (λ b. All-All _ (λ f. tt) b.files)

module _ (env : Env) (q : Queue) (transfer_id : String) where
  pub resume-Kept : (file_id : Option String) → Ensures (Kept q) (resume env q transfer_id file_id)
  unfolding resume
  resume-Kept file_id =
      change_files-Kept resumed_file AnyFile (λ f _. resumed_file-FileMove f) env q
        (every_file q.batches) transfer_id (present file_id)

  pub cancel-Kept : (file_id : Option String) → Ensures (Kept q) (cancel env q transfer_id file_id)
  unfolding cancel
  cancel-Kept file_id =
      change_files-Kept cancelled_file AnyFile (λ f _. cancelled_file-FileMove f) env q
        (every_file q.batches) transfer_id (present file_id)

  pause_files-Kept :
      (file_id : Option String) → Ensures (Kept q) (pause_files env q transfer_id file_id)
  unfolding pause_files
  pause_files-Kept none = Ensures-bind (find_batch q transfer_id) _ λ b hb. Ensures-ok _ (
      put_batch-Kept q transfer_id b _ hb (record {
        same_transfer = refl;
        files_move =
            FileMoves-map paused_file AnyFile b.files (λ f _. paused_file-FileMove f)
              (All-All _ (λ f. tt) b.files);
        closed = λ _ h. absurd (cc h);
      }))
  pause_files-Kept (some file_id) =
      change_files-Kept paused_file AnyFile (λ f _. paused_file-FileMove f) env q
        (every_file q.batches) transfer_id (some file_id)

  pub pause-Kept : (file_id : Option String) → Ensures (Kept q) (pause env q transfer_id file_id)
  unfolding pause
  pause-Kept file_id = pause_files-Kept (present file_id)

  pub retry-Kept :
      (paths : NodePath) (file_id : Option String)
      → env.now ≤ max_safe_integer
      → EveryFile HasRoom q.batches
      → Ensures (Kept q) (retry paths env q transfer_id file_id)
  unfolding retry
  retry-Kept paths file_id now_ok room =
      Ensures-bind (named_files q transfer_id (present file_id)) _ λ files _.
        Ensures-bind (change_files (retried_file env.now) env q transfer_id (present file_id)) _
          λ r hr. Ensures-ok _ (
            let k : Kept q r =
              (change_files-Kept (retried_file env.now) HasRoom
                  (λ f h. retried_file-FileMove env.now f now_ok h) env q room transfer_id
                  (present file_id)).apply
                r hr in
            record { moves = k.moves; version = k.version; durable = k.durable })
