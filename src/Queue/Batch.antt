-- ===== src/Queue/Batch.antt =====
-- One batch of src/transfer/transfer-queue.ts: `deriveBatchStatus`, `touch`, `assertBatch`,
-- `assertSnapshot`.
use vidyut.Prelude.{
  all_distinct, ℕ, ◌+◌, String, Bool, true, false, not, ◌&&◌, List, [], ◌∷◌, map, leb, ltb, ◌==◌,
  if◌then◌else◌, opt_all, all, any, Result, ok, guard, ◌>>◌,
}
use vidyut.Wire.Types.{max_safe_integer}
use vidyut.Queue.Types.{
  TransferFileRecord, TransferBatchRecord, TransferQueueSnapshot, TransferBatchStatus,
  is_terminal_file, is_queued, is_completed, is_cancelled, in_flight,
}
use vidyut.Queue.Timing.{is_timing}

-- The messages of the exceptions that the queue throws.
pub data QueueError : Type 0 where
  no_files invalid_offer missing_destination identity_conflict : QueueError
  invalid_snapshot invalid_batch invalid_progress invalid_timing : QueueError
  unknown_transfer unknown_file : String → QueueError
  only_active_confirms offset_not_monotonic chunk_not_positive : QueueError
  only_in_flight_completes bytes_unconfirmed hash_mismatch : QueueError
  only_active_verifies verification_too_early : QueueError
  empty_destination only_verifying_finalizes : QueueError

-- `7 * 24 * 60 * 60 * 1000`
abbrev pub seven_days_ms : ℕ
seven_days_ms = 604_800_000

unfoldable pub touch : ℕ → TransferBatchRecord → TransferBatchRecord
touch now b = record b { updated_at_ms = now; expires_at_ms = now + seven_days_ms }

unfoldable pub derived_status : List TransferFileRecord → TransferBatchStatus
derived_status files =
    if all (λ f. is_completed f.status) files
    then TransferBatchStatus.completed
    else if all (λ f. is_cancelled f.status) files
    then TransferBatchStatus.cancelled
    else if all (λ f. is_terminal_file f.status) files
    then TransferBatchStatus.completed_with_issues
    else if any (λ f. in_flight f.status) files
    then TransferBatchStatus.active
    else if any (λ f. is_queued f.status) files
    then TransferBatchStatus.queued
    else TransferBatchStatus.paused

unfoldable pub derive_batch_status : ℕ → TransferBatchRecord → TransferBatchRecord
derive_batch_status now b = touch now (record b { status = derived_status b.files })

abbrev pub file_ids : List TransferFileRecord → List String
file_ids = map (λ f. f.file_id)

unfoldable pub progress_ok : TransferFileRecord → Bool
progress_ok f =
    leb f.size max_safe_integer
    && (leb f.confirmed_offset max_safe_integer
        && (leb f.confirmed_offset f.size
            && opt_all (λ n. leb n max_safe_integer && ltb 0 n) f.max_chunk_bytes))

unfoldable pub timing_ok : TransferFileRecord → Bool
timing_ok f = opt_all is_timing f.timing

-- The loop of `assertBatch`.
unfoldable pub assert_files : List TransferFileRecord → Result QueueError (Unit {0})
assert_files [] = ok tt
assert_files (f ∷ fs) = do
  guard (progress_ok f) QueueError.invalid_progress
  guard (timing_ok f) QueueError.invalid_timing
  assert_files fs

abbrev pub is_empty {ℓ} : {A : Type ℓ} → List A → Bool
is_empty [] = true
is_empty (x ∷ xs) = false

unfoldable pub assert_batch : TransferBatchRecord → Result QueueError (Unit {0})
assert_batch b = do
  guard (not (is_empty b.files) && all_distinct (file_ids b.files)) QueueError.invalid_batch
  assert_files b.files

unfoldable pub assert_batches : List TransferBatchRecord → Result QueueError (Unit {0})
assert_batches [] = ok tt
assert_batches (b ∷ bs) = do assert_batch b; assert_batches bs

unfoldable pub assert_snapshot : TransferQueueSnapshot → Result QueueError (Unit {0})
assert_snapshot s = do guard (s.v == 1) QueueError.invalid_snapshot; assert_batches s.batches
