-- ===== src/Queue/Progress.antt =====
-- The operations of src/transfer/transfer-queue.ts that move one file forward: `confirmProgress`,
-- `complete`, `beginVerification`, `beginFinalization`, `markStage`, `fail`, `setDestinationPath`,
-- `associateSourceDevice`. A call either throws, with the queue unchanged, or returns the new queue.
pub mod Outcomes
pub mod Confirmed
use vidyut.Prelude.{
  ℕ, String, Bool, true, false, not, ◌&&◌, ◌||◌, Option, none, some, ok, err, ◌>>=◌, ◌>>◌, guard,
  or_throw, leb, ltb, ◌==◌, if◌then◌else◌, str_eq,
}
use vidyut.Wire.Types.{unknown_transfer_sha256}
use vidyut.Wire.Number.{Number, natural?}
use vidyut.Wire.Patterns.{is_sha256_hex}
use vidyut.Queue.Types.{
  TransferFileRecord, TransferBatchRecord, TransferFileStatus, is_active, is_verifying,
  is_finalizing, is_terminal_file, in_flight,
}
use vidyut.Queue.Timing.{Env}
use vidyut.Queue.Batch.{QueueError, touch, derive_batch_status}
use vidyut.Queue.Store.{
  Queue, M, find_batch, find_in_batch, persist, put_batch, put_file, set_anchor, mark_timing,
}

-- `touch` and `persist` after a change of one file.
unfoldable pub keep_touched :
    Env → String → String → TransferBatchRecord → TransferFileRecord → Queue → Queue
unfolding touch put_file put_batch persist
keep_touched env transfer_id file_id b f q =
    persist (put_batch transfer_id (touch env.now (put_file file_id f b)) q)

-- `deriveBatchStatus` and `persist` after a change of one file.
unfoldable pub keep_derived :
    Env → String → String → TransferBatchRecord → TransferFileRecord → Queue → Queue
unfolding derive_batch_status put_file put_batch persist
keep_derived env transfer_id file_id b f q =
    persist (put_batch transfer_id (derive_batch_status env.now (put_file file_id f b)) q)

-- An offset that is a safe integer, no lower than the one confirmed and within the file.
unfoldable pub next_offset : Number → TransferFileRecord → Option ℕ
next_offset c f = elim (natural? c) [
  | none ↦ none
  | some n ↦ if leb f.confirmed_offset n && leb n f.size then some n else none
]

-- The maximum that the file keeps: the one given, a positive safe integer, or its own.
unfoldable pub next_chunk : Option Number → TransferFileRecord → M (Option ℕ)
next_chunk none f = ok f.max_chunk_bytes
next_chunk (some c) f = elim (natural? c) [
  | none ↦ err QueueError.chunk_not_positive
  | some n ↦ if ltb 0 n then ok (some n) else err QueueError.chunk_not_positive
]

unfoldable pub confirm_progress : Env → Queue → String → String → Number → Option Number → M Queue
confirm_progress env q transfer_id file_id confirmed_offset max_chunk_bytes = do
  b ← find_batch q transfer_id
  f ← find_in_batch b file_id
  guard (is_active f.status) QueueError.only_active_confirms
  offset ← or_throw (next_offset confirmed_offset f) QueueError.offset_not_monotonic
  chunk ← next_chunk max_chunk_bytes f
  let f' = record f { confirmed_offset = offset; max_chunk_bytes = chunk }
  ok (keep_touched env transfer_id file_id b f' q)

-- The digest that the completed file has: the offered one, or the verified one where the offer
-- left it open.
unfoldable pub final_sha256 : String → String → M String
final_sha256 offered verified =
    if str_eq offered unknown_transfer_sha256
    then (if str_eq verified unknown_transfer_sha256 || not (is_sha256_hex verified)
        then err QueueError.hash_mismatch
        else ok verified)
    else if str_eq verified offered
    then ok offered
    else err QueueError.hash_mismatch

-- `if (path)`: an empty path counts as none.
abbrev pub present : Option String → Option String
present none = none
present (some p) = if str_eq p "" then none else some p

abbrev pub final_destination : Option String → Option String → Option String
final_destination none d = d
final_destination (some p) d = some p

unfoldable pub completed_file : String → TransferFileRecord → TransferFileRecord
completed_file sha f = record f {
  offered = record f.offered { sha256 = sha };
  destination_path = final_destination (present f.finalizing_path) f.destination_path;
  finalizing_path = elim (present f.finalizing_path) [ none ↦ f.finalizing_path | some p ↦ none ];
  status = TransferFileStatus.completed;
  error_code = none;
}

unfoldable pub complete : Env → Queue → String → String → String → M Queue
complete env q transfer_id file_id verified_sha256 = do
  b ← find_batch q transfer_id
  f ← find_in_batch b file_id
  guard (in_flight f.status) QueueError.only_in_flight_completes
  guard (f.confirmed_offset == f.size) QueueError.bytes_unconfirmed
  sha ← final_sha256 f.sha256 verified_sha256
  let mark = mark_timing env transfer_id file_id q
  let f' = mark "durable_completion" true (mark "publish_finalization" true (completed_file sha f))
  ok (keep_derived env transfer_id file_id b f' (set_anchor env transfer_id file_id q))

unfoldable pub begin_verification : Env → Queue → String → String → ℕ → M Queue
begin_verification env q transfer_id file_id confirmed_offset = do
  b ← find_batch q transfer_id
  f ← find_in_batch b file_id
  guard (is_active f.status) QueueError.only_active_verifies
  guard (confirmed_offset == f.size && leb f.confirmed_offset confirmed_offset)
      QueueError.verification_too_early
  let moved = record f {
    confirmed_offset = confirmed_offset;
    status = TransferFileStatus.verifying;
  }
  let f' = mark_timing env transfer_id file_id q "receiver_verification" false moved
  ok (keep_derived env transfer_id file_id b f' (set_anchor env transfer_id file_id q))

unfoldable pub begin_finalization : Env → Queue → String → String → String → M Queue
begin_finalization env q transfer_id file_id destination_path = do
  guard (not (str_eq destination_path "")) QueueError.empty_destination
  b ← find_batch q transfer_id
  f ← find_in_batch b file_id
  guard (is_verifying f.status || is_finalizing f.status) QueueError.only_verifying_finalizes
  let mark = mark_timing env transfer_id file_id q
  let moved = record f {
    status = TransferFileStatus.finalizing;
    finalizing_path = some destination_path;
  }
  let f' = mark "publish_finalization" false (mark "receiver_verification" true moved)
  ok (keep_derived env transfer_id file_id b f' (set_anchor env transfer_id file_id q))

unfoldable pub mark_stage : Env → Queue → String → String → String → Bool → M Queue
mark_stage env q transfer_id file_id stage end = do
  b ← find_batch q transfer_id
  f ← find_in_batch b file_id
  let f' = mark_timing env transfer_id file_id q stage end f
  ok (keep_touched env transfer_id file_id b f' (set_anchor env transfer_id file_id q))

unfoldable pub failed_file : String → TransferFileRecord → TransferFileRecord
failed_file error_code f = record f {
  status = TransferFileStatus.failed;
  error_code = some error_code;
  finalizing_path = none;
}

-- A finished file is left as it is, and nothing is written.
unfoldable pub fail : Env → Queue → String → String → String → M Queue
fail env q transfer_id file_id error_code = do
  b ← find_batch q transfer_id
  f ← find_in_batch b file_id
  ok (
      if is_terminal_file f.status
      then q
      else keep_derived env transfer_id file_id b (failed_file error_code f) q)

unfoldable pub set_destination_path : Env → Queue → String → String → String → M Queue
set_destination_path env q transfer_id file_id destination_path = do
  guard (not (str_eq destination_path "")) QueueError.empty_destination
  b ← find_batch q transfer_id
  f ← find_in_batch b file_id
  let f' = record f { destination_path = some destination_path }
  ok (keep_touched env transfer_id file_id b f' q)

abbrev pub with_source_device : String → TransferBatchRecord → TransferBatchRecord
with_source_device device b = record b { source_device_id = some device }

unfoldable pub associate_source_device : Env → Queue → String → String → M Queue
unfolding touch put_batch persist
associate_source_device env q transfer_id source_device_id = do
  b ← find_batch q transfer_id
  ok (elim b.source_device_id [
    | some d ↦ q
    | none ↦
        persist (put_batch transfer_id (touch env.now (with_source_device source_device_id b)) q)
  ])
