-- ===== src/Queue/Claim.antt =====
-- `enqueue`, `expire` and `claimNext` of src/transfer/transfer-queue.ts.
pub mod Order
pub mod Flight
pub mod Enqueued
use vidyut.Prelude.{
  ℕ, suc, ◌+◌, String, Bool, not, ◌&&◌, ◌||◌, List, [], ◌∷◌, ◌++◌, map, Option, none, some, err, ok,
  ◌>>◌, leb, if◌then◌else◌, find?, replace_first, any,
}
use vidyut.Wire.Types.{TransferDirection}
use vidyut.Queue.Types.{
  TransferFileRecord, TransferBatchRecord, TransferFileStatus, TransferBatchStatus,
  is_terminal_file, is_terminal_batch, is_paused_batch, is_queued, in_flight,
}
use vidyut.Queue.Timing.{Env, new_timing}
use vidyut.Queue.Batch.{QueueError, touch, seven_days_ms, assert_batch}
use vidyut.Queue.Store.{Queue, M, persist}

pub record EnqueueTransferFile : Type 0 where
  pub filename : String
  pub mime : String
  pub size : ℕ
  pub last_modified_ms : ℕ
  pub sha256 : String
  pub source_path : Option String
  pub destination_path : Option String
  pub folder : Option String

unfoldable pub queued_file : Env → ℕ → EnqueueTransferFile → TransferFileRecord
unfolding new_timing
queued_file env n e = record {
  offered = record {
    file_id = env.id "file" n;
    filename = e.filename;
    mime = e.mime;
    size = e.size;
    last_modified_ms = e.last_modified_ms;
    last_modified_known = none;
    sha256 = e.sha256;
    sender_timing = none;
    folder = e.folder;
  };
  source_path = e.source_path;
  destination_path = e.destination_path;
  finalizing_path = none;
  max_chunk_bytes = none;
  status = TransferFileStatus.queued;
  confirmed_offset = 0;
  error_code = none;
  timing = some (new_timing env.now);
}

unfoldable pub queued_files : Env → ℕ → List EnqueueTransferFile → List TransferFileRecord
queued_files env n [] = []
queued_files env n (e ∷ es) = queued_file env n e ∷ queued_files env (suc n) es

unfoldable pub queued_batch :
    Env
    → TransferDirection
    → String
    → List EnqueueTransferFile
    → Option String
    → TransferBatchRecord
unfolding queued_files
queued_batch env direction origin files source_device_id = record {
  transfer_id = env.id "transfer" 1;
  batch_id = env.id "batch" 0;
  origin = origin;
  direction = direction;
  source_device_id = source_device_id;
  created_at_ms = env.now;
  updated_at_ms = env.now;
  expires_at_ms = env.now + seven_days_ms;
  status = TransferBatchStatus.queued;
  files = queued_files env 2 files;
}

-- `this.state.batches.push(batch)` and `persist`
unfoldable pub push_batch : TransferBatchRecord → Queue → Queue
unfolding persist
push_batch b q = persist (record q { state = record q.state { batches = q.batches ++ (b ∷ []) } })

unfoldable pub enqueue :
    Env
    → Queue
    → TransferDirection
    → String
    → List EnqueueTransferFile
    → Option String
    → M (TransferBatchRecord × Queue)
unfolding queued_batch push_batch
enqueue env q direction origin [] source_device_id = err QueueError.no_files
enqueue env q direction origin (e ∷ es) source_device_id = do
  let b = queued_batch env direction origin (e ∷ es) source_device_id
  assert_batch b
  ok (b, push_batch b q)

abbrev pub transfer_expired : String
transfer_expired = "transfer_expired"

unfoldable pub expired_file : TransferFileRecord → TransferFileRecord
expired_file f =
    if is_terminal_file f.status
    then f
    else record f { status = TransferFileStatus.failed; error_code = some transfer_expired }

abbrev pub is_due : ℕ → TransferBatchRecord → Bool
is_due now b = not (is_terminal_batch b.status) && leb b.expires_at_ms now

unfoldable pub expired_batch : ℕ → TransferBatchRecord → TransferBatchRecord
expired_batch now b =
    if is_due now b
    then record b {
      status = TransferBatchStatus.expired;
      files = map expired_file b.files;
      updated_at_ms = now;
    }
    else b

abbrev pub with_batches : List TransferBatchRecord → Queue → Queue
with_batches bs q = record q { state = record q.state { batches = bs } }

unfoldable pub expire : Env → Queue → Queue
unfolding persist
expire env q =
    if any (is_due env.now) q.batches
    then persist (with_batches (map (expired_batch env.now) q.batches) q)
    else q

pub record TransferClaim : Type 0 where
  pub batch : TransferBatchRecord
  pub file : TransferFileRecord

abbrev pub has_in_flight : TransferBatchRecord → Bool
has_in_flight b = any (λ f. in_flight f.status) b.files

abbrev pub takes : TransferFileRecord → Bool
takes f = is_queued f.status

-- The file that a batch offers to a claim.
unfoldable pub next_queued : TransferBatchRecord → Option TransferFileRecord
next_queued b =
    if is_terminal_batch b.status || is_paused_batch b.status then none else find? takes b.files

abbrev pub activated : TransferFileRecord → TransferFileRecord
activated f = record f { status = TransferFileStatus.active }

unfoldable pub claimed_batch : ℕ → TransferFileRecord → TransferBatchRecord → TransferBatchRecord
unfolding touch
claimed_batch now f b = touch now (record b {
  status = TransferBatchStatus.active;
  files = replace_first takes (activated f) b.files;
})

abbrev pub behind :
    TransferBatchRecord
    → Option (List TransferBatchRecord × TransferClaim)
    → Option (List TransferBatchRecord × TransferClaim)
behind b none = none
behind b (some (bs, c)) = some (b ∷ bs, c)

-- One round of the loop of `claimNext`: the file that `b` offers, or what the batches behind it give.
abbrev pub take_or :
    ℕ
    → TransferBatchRecord
    → List TransferBatchRecord
    → Option TransferFileRecord
    → Option (List TransferBatchRecord × TransferClaim)
    → Option (List TransferBatchRecord × TransferClaim)
take_or now b bs none rest = behind b rest
take_or now b bs (some f) rest =
    some (claimed_batch now f b ∷ bs, record { batch = claimed_batch now f b; file = activated f })

unfoldable pub claim_from :
    ℕ → List TransferBatchRecord → Option (List TransferBatchRecord × TransferClaim)
claim_from now [] = none
claim_from now (b ∷ bs) = take_or now b bs (next_queued b) (claim_from now bs)

-- What `claimNext` does behind its call of `expire`.
unfoldable pub claim : Env → Queue → Queue × Option TransferClaim
unfolding persist
claim env q =
    if any has_in_flight q.batches then (q, none) else elim (claim_from env.now q.batches) [
      | none ↦ (q, none)
      | some (bs, c) ↦ (persist (with_batches bs q), some c)
    ]

-- Other calls may run between the two halves: their clocks are read apart.
unfoldable pub claim_next : Env → Env → Queue → Queue × Option TransferClaim
claim_next first env q = claim env (expire first q)
