-- ===== src/Plane/Upload/Records.antt =====
-- The file that an upload of src/transfer/laptop-data-plane.ts is for, before and behind the calls
-- on the queue that the upload makes.
pub mod Calls
use vidyut.Prelude.{
  ℕ, ◌≡◌, refl, String, Bool, true, false, Option, some, ok, arith, find?, find?-replaced,
  find?-holds, Option-cases, Bool-cases, inl, inr, if◌then◌else◌, Ensures, Ensures-bind, Ensures-ok,
  Ensures-guard, or_throw, or_throw-eq-ok, not, ◌||◌, ◌&&◌, str_eq, leb, ◌==◌,
}
use vidyut.Wire.Types.{TransferDirection}
use vidyut.Wire.Number.{Number, natural, natural?}
use vidyut.Queue.Types.{
  TransferFileRecord, TransferBatchRecord, TransferFileStatus, is_active, is_verifying,
  is_finalizing, is_terminal_file, is_completed, is_queued, in_flight,
}
use vidyut.Queue.Timing.{Env}
use vidyut.Queue.Batch.{touch, derive_batch_status}
use vidyut.Queue.Store.{
  Queue, has_transfer_id, has_file_id, find_batch, find_in_batch, put_batch, put_file, persist,
  set_anchor, mark_timing,
}
use vidyut.Queue.Progress.{
  keep_touched, keep_derived, mark_stage, confirm_progress, next_offset, next_chunk,
  begin_verification, begin_finalization, complete, final_sha256, completed_file, fail, failed_file,
}
use vidyut.Queue.Control.{pause, pause_files, change_files, paused_file}
use vidyut.Queue.Progress.Outcomes.{digest_parts}
use vidyut.Queue.Progress.Confirmed.{offset_parts}
use vidyut.Queue.Moves.Batches.{find_batch-eq-ok, find_in_batch-eq-ok}
use vidyut.Plane.Upload.{find_transfer, same_direction}

-- `y` is `r` up to its status, its offset, its timing and the largest chunk.
pub record IsSameFile (status : TransferFileStatus) (confirmed : ℕ) (r y : TransferFileRecord)
    : Type 0 where
  pub stands : y.status ≡ status
  pub confirms : y.confirmed_offset ≡ confirmed
  pub offers : y.offered ≡ r.offered
  pub goes_to : y.destination_path ≡ r.destination_path

module _ (transfer_id file_id : String) (direction : TransferDirection) where
  abbrev pub found_in : Queue → Option TransferFileRecord
  found_in q = find_transfer q transfer_id file_id direction

  -- What holds of the file behind a call.
  abbrev pub Now : (TransferFileRecord → Type 0) → Queue → Type 0
  Now P q = (y : TransferFileRecord) × (found_in q ≡ some y) × P y

  -- The file was found in a batch of the direction.
  pub record Located (q : Queue) (r : TransferFileRecord) : Type 0 where
    pub holder : TransferBatchRecord
    pub batch_found : find? (has_transfer_id transfer_id) q.batches ≡ some holder
    pub directed : same_direction holder.direction direction ≡ true
    pub file_found : find? (has_file_id file_id) holder.files ≡ some r

  pub found_in-Located : (q : Queue) (r : TransferFileRecord) → found_in q ≡ some r → Located q r
  unfolding find_transfer
  found_in-Located q r h = elim (Option-cases (find? (has_transfer_id transfer_id) q.batches)) [
    | inl e ↦ absurd (cc (rw (e, find_transfer) at h))
    | inr (b, e) ↦ elim (Bool-cases (same_direction b.direction direction)) [
      | inr d ↦ absurd (cc (rw d at (rw (e, find_transfer) at h)))
      | inl d ↦ record {
        holder = b;
        batch_found = e;
        directed = d;
        file_found = rw d at (rw (e, find_transfer) at h);
      }
    ]
  ]

  located-found_in :
      (q : Queue) (b : TransferBatchRecord) (r : TransferFileRecord)
      → find? (has_transfer_id transfer_id) q.batches ≡ some b
      → same_direction b.direction direction ≡ true
      → find? (has_file_id file_id) b.files ≡ some r
      → found_in q ≡ some r
  unfolding find_transfer
  located-found_in q b r h d k = rw (h, find_transfer) (rw d k)

  module _ (env : Env) (q : Queue) (r : TransferFileRecord) (here : found_in q ≡ some r) where
    -- The batch and the file that the method finds are those of the search.
    same_batch :
        (b : TransferBatchRecord)
        → find_batch q transfer_id ≡ ok b
        → (same_direction b.direction direction ≡ true)
          × (find? (has_file_id file_id) b.files ≡ some r)
    same_batch b h =
        let l = found_in-Located q r here in
        let same : l.holder ≡ b = cc (l.batch_found, find_batch-eq-ok q transfer_id b h) in
        rw (← same) (l.directed, l.file_found)

    same_record :
        (b : TransferBatchRecord) (x : TransferFileRecord)
        → find_batch q transfer_id ≡ ok b
        → find_in_batch b file_id ≡ ok x
        → r ≡ x
    same_record b x h k = cc ((same_batch b h).1, find_in_batch-eq-ok b file_id x k)

    touched :
        (b : TransferBatchRecord) (x y : TransferFileRecord)
        → find_batch q transfer_id ≡ ok b
        → find_in_batch b file_id ≡ ok x
        → y.file_id ≡ x.file_id
        → found_in (keep_touched env transfer_id file_id b y q) ≡ some y
    unfolding keep_touched persist put_batch put_file touch
    touched b x y h k named =
        let found = find_batch-eq-ok q transfer_id b h in
        let there = find_in_batch-eq-ok b file_id x k in
        located-found_in (keep_touched env transfer_id file_id b y q)
          (touch env.now (put_file file_id y b)) y
          (find?-replaced (has_transfer_id transfer_id) q.batches b _ found
            (find?-holds (has_transfer_id transfer_id) q.batches b found))
          (same_batch b h).0
          (find?-replaced (has_file_id file_id) b.files x y there
            (rw named (find?-holds (has_file_id file_id) b.files x there)))

    derived :
        (b : TransferBatchRecord) (x y : TransferFileRecord)
        → find_batch q transfer_id ≡ ok b
        → find_in_batch b file_id ≡ ok x
        → y.file_id ≡ x.file_id
        → found_in (keep_derived env transfer_id file_id b y q) ≡ some y
    unfolding keep_derived persist put_batch put_file derive_batch_status touch
    derived b x y h k named =
        let found = find_batch-eq-ok q transfer_id b h in
        let there = find_in_batch-eq-ok b file_id x k in
        located-found_in (keep_derived env transfer_id file_id b y q)
          (derive_batch_status env.now (put_file file_id y b)) y
          (find?-replaced (has_transfer_id transfer_id) q.batches b _ found
            (find?-holds (has_transfer_id transfer_id) q.batches b found))
          (same_batch b h).0
          (find?-replaced (has_file_id file_id) b.files x y there
            (rw named (find?-holds (has_file_id file_id) b.files x there)))
