-- ===== src/Queue/Recover.antt =====
-- `recoverInterrupted` and `open` of src/transfer/transfer-queue.ts. The file system is a parameter:
-- `shares_inode` answers `pathsShareInode`.
use vidyut.Prelude.{
  ℕ, String, Bool, true, false, ◌&&◌, ◌||◌, List, [], ◌∷◌, ◌++◌, Option, none, some, ok, ◌>>◌, ltb,
  ◌==◌, if◌then◌else◌,
}
use vidyut.Paths.{NodePath}
use vidyut.Queue.Types.{
  TransferFileRecord, TransferBatchRecord, TransferFileStatus, TransferQueueSnapshot, is_active,
  is_verifying, is_finalizing, is_terminal_batch,
}
use vidyut.Queue.Timing.{Env}
use vidyut.Queue.Batch.{derive_batch_status, assert_snapshot}
use vidyut.Queue.Store.{Queue, M, persist}
use vidyut.Queue.Progress.{present}
use vidyut.Queue.Control.{partial_of, cons_opt}
use vidyut.Queue.Claim.{expire, with_batches}

-- What a restart does with a file: leave it, alter it, or find it published already.
pub data Recovery : Type 0 where
  kept altered published : Recovery

-- Where the loop over the files of a batch stands: the files behind it, the batch's own fields,
-- `batchChanged`, and the queue with what was saved and removed so far.
pub record Walk : Type 0 where
  pub done : List TransferFileRecord
  pub header : TransferBatchRecord
  pub changed : Bool
  pub queue : Queue

-- Where the loop over the batches stands.
pub record Scan : Type 0 where
  pub scanned : List TransferBatchRecord
  pub changed : Bool
  pub queue : Queue

abbrev pub derive_if : Bool → ℕ → TransferBatchRecord → TransferBatchRecord
derive_if true now b = derive_batch_status now b
derive_if false now b = b

abbrev pub walked_batch : ℕ → Walk → TransferBatchRecord
walked_batch now w = derive_if w.changed now (record w.header { files = w.done })

abbrev pub opened : TransferQueueSnapshot → Queue
opened s = record { state = s; monotonic_anchors = []; saved = []; unlinked = [] }

abbrev pub loaded_or_empty : Option TransferQueueSnapshot → TransferQueueSnapshot
loaded_or_empty none = record { v = 1; batches = [] }
loaded_or_empty (some s) = s

module _ (paths : NodePath) (shares_inode : String → String → Bool) where
  abbrev pub published_path : TransferFileRecord → Option String
  published_path f = elim (present (partial_of paths f)) [
    | none ↦ none
    | some partial ↦ elim (present f.finalizing_path) [
      | none ↦ none
      | some final ↦ if shares_inode partial final then some final else none
    ]
  ]

  abbrev pub bytes_complete : TransferFileRecord → Bool
  bytes_complete f = is_active f.status && (ltb 0 f.size && f.confirmed_offset == f.size)

  abbrev interrupted : String → TransferFileRecord → TransferFileRecord
  interrupted code f = record f { status = TransferFileStatus.failed; error_code = some code }

  unfoldable pub recovered_finalizing : TransferFileRecord → TransferFileRecord × Recovery
  recovered_finalizing f = elim (published_path f) [
    | some final ↦ (
      record f {
        destination_path = some final;
        finalizing_path = none;
        error_code = none;
        status = TransferFileStatus.completed;
      },
      Recovery.published,
    )
    | none ↦ (
      record (interrupted "finalization_interrupted" f) { finalizing_path = none },
      Recovery.altered,
    )
  ]

  unfoldable pub recover_file : TransferFileRecord → TransferFileRecord × Recovery
  unfolding recovered_finalizing
  recover_file f =
      if is_finalizing f.status
      then recovered_finalizing f
      else if is_verifying f.status || bytes_complete f
      then (interrupted "verification_interrupted" f, Recovery.altered)
      else if is_active f.status
      then (record f { status = TransferFileStatus.queued }, Recovery.altered)
      else (f, Recovery.kept)

  -- The partial file that goes with it.
  unfoldable pub recover_unlink : TransferFileRecord → Option String
  recover_unlink f =
      if is_finalizing f.status || is_verifying f.status || bytes_complete f
      then partial_of paths f
      else none

  -- Where the loop stands in the snapshot: the batches before, the batch, the batches behind.
  unfoldable pub at_batch :
      List TransferBatchRecord → TransferBatchRecord → List TransferBatchRecord → Queue → Queue
  at_batch before b after q = with_batches (before ++ (b ∷ after)) q

  -- One round of the loop over the files of a batch, at `f` with `fs` behind it. A published file
  -- is written down at once, before its partial file goes.
  unfoldable pub recover_round :
      Env
      → List TransferBatchRecord
      → List TransferBatchRecord
      → TransferFileRecord
      → List TransferFileRecord
      → Walk
      → Walk
  unfolding at_batch derive_batch_status persist
  recover_round env before after f fs w =
      let f' = (recover_file f).0 in
      let moved = record w {
        done = w.done ++ (f' ∷ []);
        queue = record w.queue { unlinked = cons_opt (recover_unlink f) w.queue.unlinked };
      } in
      elim (recover_file f).1 [
        | kept ↦ moved
        | altered ↦ record moved { changed = true }
        | published ↦
            let b = derive_batch_status env.now (record w.header { files = w.done ++ (f' ∷ fs) }) in
            record moved { header = b; queue = persist (at_batch before b after moved.queue) }
      ]

  unfoldable pub recover_files :
      Env
      → List TransferBatchRecord
      → List TransferBatchRecord
      → List TransferFileRecord
      → Walk
      → Walk
  recover_files env before after [] w = w
  recover_files env before after (f ∷ fs) w =
      recover_files env before after fs (recover_round env before after f fs w)

  -- One round of the loop over the batches, at `b` with `bs` behind it.
  unfoldable pub recover_batch : Env → TransferBatchRecord → List TransferBatchRecord → Scan → Scan
  unfolding recover_files recover_round derive_batch_status
  recover_batch env b bs s =
      if is_terminal_batch b.status
      then record s { scanned = s.scanned ++ (b ∷ []) }
      else let w =
          recover_files env s.scanned bs b.files
            (record { done = []; header = b; changed = false; queue = s.queue }) in
        record {
          scanned = s.scanned ++ (walked_batch env.now w ∷ []);
          changed = s.changed || w.changed;
          queue = w.queue;
        }

  unfoldable pub recover_batches : Env → List TransferBatchRecord → Scan → Scan
  recover_batches env [] s = s
  recover_batches env (b ∷ bs) s = recover_batches env bs (recover_batch env b bs s)

  unfoldable pub recover_interrupted : Env → Queue → Queue
  unfolding recover_batches recover_batch persist
  recover_interrupted env q =
      let s = recover_batches env q.batches (record { scanned = []; changed = false; queue = q }) in
      let q' = with_batches s.scanned s.queue in if s.changed then persist q' else q'

  unfoldable pub open_queue : Env → Env → Option TransferQueueSnapshot → M Queue
  unfolding recover_interrupted
  open_queue first env loaded = do
    let s = loaded_or_empty loaded
    assert_snapshot s
    ok (expire env (recover_interrupted first (opened s)))
