-- ===== src/Queue/Control.antt =====
-- `pause`, `resume`, `cancel` and `retry` of src/transfer/transfer-queue.ts, on one file or on all
-- files of a batch.
use vidyut.Prelude.{
  ℕ, ◌+◌, String, Bool, ◌||◌, List, [], ◌∷◌, ◌++◌, map, Option, none, some, ok, ◌>>=◌,
  if◌then◌else◌, get_last?, take_last,
}
use vidyut.Wire.Types.{Attempt, TransferTimingSummary}
use vidyut.Paths.{NodePath, partial_path_for}
use vidyut.Queue.Types.{
  TransferFileRecord, TransferBatchRecord, TransferFileStatus, TransferBatchStatus, is_queued,
  is_active, is_paused, is_failed, is_cancelled, is_terminal_file,
}
use vidyut.Queue.Timing.{Env, or_new}
use vidyut.Queue.Batch.{touch, derive_batch_status}
use vidyut.Queue.Store.{Queue, M, find_batch, find_in_batch, persist, put_batch}
use vidyut.Queue.Progress.{keep_derived, present}

unfoldable pub paused_file : TransferFileRecord → TransferFileRecord
paused_file f =
    if is_queued f.status || is_active f.status
    then record f { status = TransferFileStatus.paused }
    else f

unfoldable pub resumed_file : TransferFileRecord → TransferFileRecord
resumed_file f = if is_paused f.status then record f { status = TransferFileStatus.queued } else f

unfoldable pub cancelled_file : TransferFileRecord → TransferFileRecord
cancelled_file f =
    if is_terminal_file f.status
    then f
    else record f { status = TransferFileStatus.cancelled; error_code = none }

abbrev pub next_attempt : Option Attempt → ℕ
next_attempt none = 0
next_attempt (some a) = a.attempt + 1

unfoldable pub retried_timing : ℕ → Option TransferTimingSummary → TransferTimingSummary
retried_timing now timing =
    let t = or_new now timing in
    record t {
      attempts = take_last 4 (
          t.attempts
          ++ (record { attempt = next_attempt (get_last? t.attempts); stages = [] }) ∷ []);
    }

abbrev pub may_retry : TransferFileRecord → Bool
may_retry f = is_failed f.status || is_cancelled f.status

unfoldable pub retried_file : ℕ → TransferFileRecord → TransferFileRecord
retried_file now f =
    if may_retry f
    then record f {
      status = TransferFileStatus.queued;
      confirmed_offset = 0;
      timing = some (retried_timing now f.timing);
      error_code = none;
      finalizing_path = none;
    }
    else f

-- The partial file beside a destination, where the file has one.
abbrev pub partial_of : NodePath → TransferFileRecord → Option String
partial_of paths f = elim (present f.destination_path) [
  | none ↦ none
  | some d ↦ some (partial_path_for paths d f.file_id)
]

abbrev pub cons_opt {ℓ} : {A : Type ℓ} → Option A → List A → List A
cons_opt none xs = xs
cons_opt (some x) xs = x ∷ xs

-- The partial files that a retry removes, the last one first.
unfoldable pub retry_unlinks : NodePath → List TransferFileRecord → List String → List String
retry_unlinks paths [] acc = acc
retry_unlinks paths (f ∷ fs) acc =
    retry_unlinks paths fs (if may_retry f then cons_opt (partial_of paths f) acc else acc)

-- `files.forEach(change)` on the file named, or on all; then `deriveBatchStatus` and `persist`.
unfoldable pub change_files :
    (TransferFileRecord → TransferFileRecord) → Env → Queue → String → Option String → M Queue
unfolding derive_batch_status put_batch persist
change_files change env q transfer_id none = do
  b ← find_batch q transfer_id
  let b' = record b { files = map change b.files }
  ok (persist (put_batch transfer_id (derive_batch_status env.now b') q))
change_files change env q transfer_id (some file_id) = do
  b ← find_batch q transfer_id
  f ← find_in_batch b file_id
  ok (keep_derived env transfer_id file_id b (change f) q)

unfoldable pub resume : Env → Queue → String → Option String → M Queue
unfolding change_files
resume env q transfer_id file_id = change_files resumed_file env q transfer_id (present file_id)

unfoldable pub cancel : Env → Queue → String → Option String → M Queue
unfolding change_files
cancel env q transfer_id file_id = change_files cancelled_file env q transfer_id (present file_id)

abbrev pub paused_batch : TransferBatchRecord → TransferBatchRecord
paused_batch b = record b { files = map paused_file b.files; status = TransferBatchStatus.paused }

-- Without a file the batch itself is marked paused, whatever its files say.
unfoldable pub pause_files : Env → Queue → String → Option String → M Queue
unfolding change_files touch put_batch persist
pause_files env q transfer_id none = do
  b ← find_batch q transfer_id
  ok (persist (put_batch transfer_id (touch env.now (paused_batch b)) q))
pause_files env q transfer_id (some file_id) =
    change_files paused_file env q transfer_id (some file_id)

unfoldable pub pause : Env → Queue → String → Option String → M Queue
unfolding pause_files
pause env q transfer_id file_id = pause_files env q transfer_id (present file_id)

-- The files that a call names.
unfoldable pub named_files : Queue → String → Option String → M (List TransferFileRecord)
named_files q transfer_id none = do b ← find_batch q transfer_id; ok b.files
named_files q transfer_id (some file_id) = do
  b ← find_batch q transfer_id
  f ← find_in_batch b file_id
  ok (f ∷ [])

unfoldable pub retry : NodePath → Env → Queue → String → Option String → M Queue
unfolding change_files
retry paths env q transfer_id file_id = do
  files ← named_files q transfer_id (present file_id)
  q' ← change_files (retried_file env.now) env q transfer_id (present file_id)
  ok (record q' { unlinked = retry_unlinks paths files q.unlinked })
