-- ===== src/Queue/Tests.antt =====
-- Concrete runs of src/transfer/transfer-queue.ts.
mod Files
use vidyut.Prelude.{
  ℕ, ◌≡◌, refl, String, Bool, true, false, any, List, [], ◌∷◌, some, none, ok, arith,
}
use vidyut.Paths.{NodePath}
use vidyut.Wire.Types.{TransferFileOffer, TransferDirection, TransferOffer}
use vidyut.Wire.Number.{natural, natural?, is_safe_integer, is_non_negative}
use vidyut.Queue.Types.{
  TransferFileRecord, TransferBatchRecord, TransferQueueSnapshot, TransferFileStatus,
  TransferBatchStatus, is_completed,
}
use vidyut.Queue.Timing.{
  Env, marked, mark_span, mark_stage_of, mark_last, new_timing, is_timing, attempt_ok,
}
use vidyut.Wire.Guards.{
  is_transfer_offer, offer_fields, is_file_list, is_transfer_file_offer, file_offer_fields,
  is_natural, id_ok, sha256_ok,
}
use vidyut.Wire.Patterns.{is_id, is_sha256_hex, is_filename}
use vidyut.Wire.Encode.{offer_json}
use vidyut.Queue.Batch.{
  assert_batch, assert_batches, assert_snapshot, assert_files, progress_ok, timing_ok, touch,
  derive_batch_status, derived_status,
}
use vidyut.Queue.Store.{
  Queue, find_batch, find_in_batch, set_anchor, mark_timing, anchor_of, put_file, put_batch,
  persist,
}
use vidyut.Queue.Progress.{
  confirm_progress, complete, begin_verification, next_offset, next_chunk, final_sha256,
  completed_file, keep_touched, keep_derived,
}
use vidyut.Queue.Control.{cancel, change_files, cancelled_file}
use vidyut.Queue.Recover.{opened, open_queue, recover_interrupted}
use vidyut.Queue.Calls.Idle.{open_queue-idle}
use vidyut.Queue.Claim.{push_batch, expire, is_due, has_in_flight}
use vidyut.Queue.Moves.Expiry.{expire-settled}
use vidyut.Queue.Offers.{accept_offer, accept_new, received_batch, received_file}
use vidyut.Queue.Progress.Outcomes.{Completed, complete-Completed}
use vidyut.Queue.Calls.{or_same}
use vidyut.Queue.Tracks.{find_record, may_move}
use vidyut.Queue.Moves.Batches.{on_disk}
use vidyut.Queue.Calls.History.{perform-tracks, run-completed}
use vidyut.Queue.Calls.Reload.{open_queue-Inv, run-open_queue}
use vidyut.Queue.Invariant.{Inv}
use vidyut.Queue.Calls.{Call, confirms, verifies, completes, cancels, fails, perform, run, Timely}
use vidyut.Queue.Calls.Safety.{run-Inv, run-durable}

abbrev file_id : String
file_id = "file-0123456789abcdef"

abbrev transfer_id : String
transfer_id = "transfer-0123456789abcdef"

abbrev sha : String
sha = "aaaaaaaaaaaaaaaaaaaaaaaaaaaaaaaaaaaaaaaaaaaaaaaaaaaaaaaaaaaaaaaa"

abbrev offered : TransferFileOffer
offered = record {
  file_id = file_id;
  filename = "notes.txt";
  mime = "text/plain";
  size = 10;
  last_modified_ms = 5;
  last_modified_known = none;
  sha256 = sha;
  sender_timing = none;
  folder = none;
}

abbrev file : TransferFileStatus → ℕ → TransferFileRecord
file status offset = record {
  offered = offered;
  source_path = some "/tmp/notes.txt";
  destination_path = none;
  finalizing_path = none;
  max_chunk_bytes = none;
  status = status;
  confirmed_offset = offset;
  error_code = none;
  timing = none;
}

abbrev batch : TransferBatchStatus → TransferFileRecord → TransferBatchRecord
batch status f = record {
  transfer_id = transfer_id;
  batch_id = "batch-0123456789abcdef";
  origin = "laptop";
  direction = TransferDirection.laptop_to_phone;
  source_device_id = none;
  created_at_ms = 7;
  updated_at_ms = 7;
  expires_at_ms = 604_800_007;
  status = status;
  files = f ∷ [];
}

abbrev snapshot : TransferQueueSnapshot
snapshot = record {
  v = 1;
  batches = batch TransferBatchStatus.active (file TransferFileStatus.active 4) ∷ [];
}

abbrev env : Env
env = record { now = 100; monotonic_now = 30; id = λ prefix n. prefix }

abbrev paths : NodePath
paths = record { join = λ d f. f; dirname = λ p. p; basename = λ p. p }

abbrev comes_first : String → String → Bool
comes_first x y = true

abbrev same_inode : String → String → Bool
same_inode x y = false

abbrev calls : List (Env × Call)
calls =
    (env, confirms transfer_id file_id (natural 10) none)
    ∷ (env, verifies transfer_id file_id 10)
    ∷ (env, completes transfer_id file_id sha)
    ∷ (env, cancels transfer_id none)
    ∷ []

snapshot-Inv : Inv snapshot
unfolding progress_ok timing_ok
snapshot-Inv = record {
  version = refl;
  batches_sound = (
    record {
      some_files = refl;
      distinct = refl;
      files_sound = (record { progress = refl; timing = refl; whole = λ e. absurd (cc e) }, tt);
      closed = λ e. absurd (cc e);
    },
    tt,
  );
  single_flight = omega arith;
}

calls-Timely : Timely paths comes_first calls (opened snapshot)
unfolding perform confirm_progress complete begin_verification cancel change_files find_batch
    find_in_batch next_offset next_chunk natural? final_sha256 completed_file cancelled_file
    keep_touched keep_derived set_anchor mark_timing anchor_of marked mark_span mark_stage_of
    mark_last new_timing touch derive_batch_status derived_status put_file put_batch persist
    is_safe_integer is_non_negative
calls-Timely = (
  record { clock = omega arith; room = ((λ now. omega arith, tt), tt) },
  (
    record { clock = omega arith; room = ((λ now. omega arith, tt), tt) },
    (
      record { clock = omega arith; room = ((λ now. omega arith, tt), tt) },
      (record { clock = omega arith; room = ((λ now. omega arith, tt), tt) }, tt),
    ),
  ),
)

run-Inv_example : Inv (run paths comes_first calls (opened snapshot)).state
run-Inv_example = run-Inv paths comes_first calls (opened snapshot) calls-Timely snapshot-Inv

run-durable_example :
    on_disk snapshot (run paths comes_first calls (opened snapshot)).saved
    ≡ (run paths comes_first calls (opened snapshot)).state
run-durable_example =
    run-durable paths comes_first calls (opened snapshot) snapshot calls-Timely refl

abbrev done : Queue
done = opened (record {
  v = 1;
  batches = batch TransferBatchStatus.completed (file TransferFileStatus.completed 10) ∷ [];
})

done-Timely : Timely paths comes_first ((env, cancels transfer_id none) ∷ []) done
unfolding new_timing
done-Timely = (record { clock = omega arith; room = ((λ now. omega arith, tt), tt) }, tt)

run-completed_example :
    (y : TransferFileRecord) × (find_record
        (run paths comes_first ((env, cancels transfer_id none) ∷ []) done).batches
        transfer_id
        file_id
      ≡ some y)
    × (is_completed y.status ≡ true)
    × (y.sha256 ≡ sha)
run-completed_example =
    run-completed paths comes_first ((env, cancels transfer_id none) ∷ []) done transfer_id file_id
      (file TransferFileStatus.completed 10) done-Timely refl refl

perform-tracks_example :
    (y : TransferFileRecord) × (find_record
        (perform paths comes_first env (fails transfer_id file_id "x") (opened snapshot)).batches
        transfer_id
        file_id
      ≡ some y)
    × (may_move (file TransferFileStatus.active 4) y ≡ true)
unfolding new_timing
perform-tracks_example =
    perform-tracks paths comes_first env (fails transfer_id file_id "x") (opened snapshot)
      transfer_id file_id (file TransferFileStatus.active 4)
      (record { clock = omega arith; room = ((λ now. omega arith, tt), tt) }) refl

open_queue-Inv_example :
    (q : Queue) × (open_queue paths same_inode env env (some snapshot) ≡ ok q)
    × Inv q.state
    × (on_disk snapshot q.saved ≡ q.state)
open_queue-Inv_example = open_queue-Inv paths same_inode env env snapshot snapshot-Inv

run-open_queue_example :
    (q : Queue) × (open_queue paths same_inode env env
        (some (on_disk snapshot (run paths comes_first calls (opened snapshot)).saved))
      ≡ ok q)
    × Inv q.state
run-open_queue_example =
    run-open_queue paths same_inode comes_first env env calls snapshot snapshot-Inv calls-Timely

expire-settled_example :
    (any (is_due env.now) (expire env (opened snapshot)).batches ≡ false)
    × (expire env (expire env (opened snapshot)) ≡ expire env (opened snapshot))
expire-settled_example = expire-settled env (opened snapshot)

snapshot_opens :
    open_queue paths same_inode env env (some snapshot)
    ≡ ok (expire env (recover_interrupted paths same_inode env (opened snapshot)))
unfolding open_queue assert_snapshot assert_batches assert_batch assert_files progress_ok timing_ok
snapshot_opens = refl

open_queue-idle_example :
    any has_in_flight
      (expire env (recover_interrupted paths same_inode env (opened snapshot))).batches
    ≡ false
open_queue-idle_example =
    open_queue-idle paths same_inode env env snapshot
      (expire env (recover_interrupted paths same_inode env (opened snapshot))) snapshot-Inv
      snapshot_opens
