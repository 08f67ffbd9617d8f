-- ===== src/Queue/Types.antt =====
-- The records of src/transfer/transfer-queue.ts, and the tests on a status.
use vidyut.Prelude.{ℕ, String, Bool, true, false, ◌||◌, List, Option}
use vidyut.Wire.Types.{TransferFileOffer, TransferDirection, TransferTimingSummary}

pub data TransferFileStatus : Type 0 where
  queued active verifying finalizing paused completed failed cancelled : TransferFileStatus

pub data TransferBatchStatus : Type 0 where
  queued active paused completed completed_with_issues cancelled expired : TransferBatchStatus

-- `extends TransferFileOffer`
pub record TransferFileRecord : Type 0 where
  pub offered : TransferFileOffer
  pub open offered use *
  pub source_path : Option String
  pub destination_path : Option String
  pub finalizing_path : Option String
  pub max_chunk_bytes : Option ℕ
  pub status : TransferFileStatus
  pub confirmed_offset : ℕ
  pub error_code : Option String
  pub timing : Option TransferTimingSummary

pub record TransferBatchRecord : Type 0 where
  pub transfer_id : String
  pub batch_id : String
  pub origin : String
  pub direction : TransferDirection
  pub source_device_id : Option String
  pub created_at_ms : ℕ
  pub updated_at_ms : ℕ
  pub expires_at_ms : ℕ
  pub status : TransferBatchStatus
  pub files : List TransferFileRecord

pub record TransferQueueSnapshot : Type 0 where
  pub v : ℕ
  pub batches : List TransferBatchRecord

abbrev pub is_terminal_file : TransferFileStatus → Bool
is_terminal_file TransferFileStatus.completed = true
is_terminal_file TransferFileStatus.failed = true
is_terminal_file TransferFileStatus.cancelled = true
is_terminal_file _ = false

abbrev pub is_terminal_batch : TransferBatchStatus → Bool
is_terminal_batch TransferBatchStatus.completed = true
is_terminal_batch TransferBatchStatus.completed_with_issues = true
is_terminal_batch TransferBatchStatus.cancelled = true
is_terminal_batch TransferBatchStatus.expired = true
is_terminal_batch _ = false

-- `file.status === "active"`, and so on for the other statuses.
abbrev pub is_queued : TransferFileStatus → Bool
is_queued TransferFileStatus.queued = true
is_queued _ = false

abbrev pub is_active : TransferFileStatus → Bool
is_active TransferFileStatus.active = true
is_active _ = false

abbrev pub is_verifying : TransferFileStatus → Bool
is_verifying TransferFileStatus.verifying = true
is_verifying _ = false

abbrev pub is_finalizing : TransferFileStatus → Bool
is_finalizing TransferFileStatus.finalizing = true
is_finalizing _ = false

abbrev pub is_paused : TransferFileStatus → Bool
is_paused TransferFileStatus.paused = true
is_paused _ = false

abbrev pub is_completed : TransferFileStatus → Bool
is_completed TransferFileStatus.completed = true
is_completed _ = false

abbrev pub is_failed : TransferFileStatus → Bool
is_failed TransferFileStatus.failed = true
is_failed _ = false

abbrev pub is_cancelled : TransferFileStatus → Bool
is_cancelled TransferFileStatus.cancelled = true
is_cancelled _ = false

-- The test that `claimNext` and `deriveBatchStatus` write out.
abbrev pub in_flight : TransferFileStatus → Bool
in_flight s = is_active s || is_verifying s || is_finalizing s

abbrev pub is_paused_batch : TransferBatchStatus → Bool
is_paused_batch TransferBatchStatus.paused = true
is_paused_batch _ = false
