-- ===== src/Queue/Offers.antt =====
-- `offer`, `offersMatch` and `acceptOffer` of src/transfer/transfer-queue.ts. The order that
-- `localeCompare` puts identifiers in is a parameter, and the JSON texts of two offers are compared
-- value by value.
pub mod Accept
pub mod Again
use vidyut.Prelude.{
  ℕ, ◌+◌, String, Bool, true, false, not, ◌&&◌, List, [], ◌∷◌, map, Option, none, some, err, ok,
  ◌>>=◌, ◌>>◌, guard, find?, any, str_eq, bool_eq, opt_eq, list_eq, ◌==◌, if◌then◌else◌,
}
use vidyut.Wire.Types.{TransferFileOffer, TransferOffer, TransferDirection}
use vidyut.Wire.Guards.{is_transfer_offer}
use vidyut.Wire.Encode.{offer_json, direction_text}
use vidyut.Queue.Types.{
  TransferFileRecord, TransferBatchRecord, TransferFileStatus, TransferBatchStatus,
}
use vidyut.Queue.Timing.{Env, lookup, new_timing}
use vidyut.Queue.Batch.{QueueError, assert_batch, seven_days_ms}
use vidyut.Queue.Store.{Queue, M, find_batch, has_transfer_id, persist, put_batch}
use vidyut.Queue.Progress.{present, with_source_device}
use vidyut.Queue.Claim.{push_batch}

-- The offer that a batch stands for.
unfoldable pub offer_of : TransferBatchRecord → TransferOffer
offer_of b = record {
  transfer_id = b.transfer_id;
  batch_id = b.batch_id;
  origin = b.origin;
  direction = b.direction;
  created_at_ms = b.created_at_ms;
  files = map (λ f. f.offered) b.files;
}

unfoldable pub offer : Queue → String → M TransferOffer
offer q transfer_id = do b ← find_batch q transfer_id; ok (offer_of b)

-- Two files of an offer, without `senderTiming`.
unfoldable pub same_file : TransferFileOffer → TransferFileOffer → Bool
same_file f g =
    str_eq f.file_id g.file_id
    && (str_eq f.filename g.filename
        && (str_eq f.mime g.mime
            && (f.size == g.size
                && (f.last_modified_ms == g.last_modified_ms
                    && (opt_eq bool_eq f.last_modified_known g.last_modified_known
                        && (str_eq f.sha256 g.sha256 && opt_eq str_eq f.folder g.folder))))))

-- `destinationPaths.get(fileId)`, an empty path counting as none
abbrev pub destination_for : List (String × String) → TransferFileOffer → Option String
destination_for paths f = present (lookup f.file_id paths)

abbrev pub is_missing : Option String → Bool
is_missing none = true
is_missing (some p) = false

unfoldable pub received_file : ℕ → List (String × String) → TransferFileOffer → TransferFileRecord
unfolding new_timing
received_file now paths f = record {
  offered = f;
  source_path = none;
  destination_path = lookup f.file_id paths;
  finalizing_path = none;
  max_chunk_bytes = none;
  status = TransferFileStatus.queued;
  confirmed_offset = 0;
  error_code = none;
  timing = some (new_timing now);
}

unfoldable pub received_batch :
    ℕ → List (String × String) → Option String → TransferOffer → TransferBatchRecord
unfolding received_file
received_batch now paths device o = record {
  transfer_id = o.transfer_id;
  batch_id = o.batch_id;
  origin = o.origin;
  direction = o.direction;
  source_device_id = device;
  created_at_ms = o.created_at_ms;
  updated_at_ms = now;
  expires_at_ms = now + seven_days_ms;
  status = TransferBatchStatus.queued;
  files = map (received_file now paths) o.files;
}

-- The device is recorded on a batch that has none; nothing else changes.
unfoldable pub adopt_device :
    String → Option String → TransferBatchRecord → Queue → TransferBatchRecord × Queue
adopt_device transfer_id none b q = (b, q)
adopt_device transfer_id (some d) b q = elim b.source_device_id [
  | some known ↦ (b, q)
  | none ↦ (with_source_device d b, persist (put_batch transfer_id (with_source_device d b) q))
]

unfoldable pub accept_new :
    Env
    → Queue
    → TransferOffer
    → List (String × String)
    → Option String
    → M (TransferBatchRecord × Queue)
unfolding received_batch push_batch
accept_new env q o paths device = do
  let b = received_batch env.now paths device o
  assert_batch b
  ok (b, push_batch b q)

module _ (comes_first : String → String → Bool) where
  -- Where `sort` puts a file among those that are sorted: behind its equals.
  abbrev pub insert_file : TransferFileOffer → List TransferFileOffer → List TransferFileOffer
  insert_file f [] = f ∷ []
  insert_file f (g ∷ gs) =
      if comes_first f.file_id g.file_id then f ∷ g ∷ gs else g ∷ insert_file f gs

  unfoldable pub sort_files : List TransferFileOffer → List TransferFileOffer
  sort_files [] = []
  sort_files (f ∷ fs) = insert_file f (sort_files fs)

  unfoldable pub offers_match : TransferOffer → TransferOffer → Bool
  offers_match left right =
      str_eq left.transfer_id right.transfer_id
      && (str_eq left.origin right.origin
          && (str_eq (direction_text left.direction) (direction_text right.direction)
              && list_eq same_file (sort_files left.files) (sort_files right.files)))

  -- A known transfer must be offered as before.
  unfoldable pub accept_known :
      TransferOffer → Option String → Queue → TransferBatchRecord → M (TransferBatchRecord × Queue)
  unfolding adopt_device
  accept_known o device q b = do
    guard (offers_match (offer_of b) o) QueueError.identity_conflict
    ok (adopt_device o.transfer_id device b q)

  unfoldable pub accept_offer :
      Env
      → Queue
      → TransferOffer
      → List (String × String)
      → Option String
      → M (TransferBatchRecord × Queue)
  unfolding accept_known accept_new
  accept_offer env q o paths device = do
    guard (is_transfer_offer (offer_json o)) QueueError.invalid_offer
    guard (not (any (λ f. is_missing (destination_for paths f)) o.files))
        QueueError.missing_destination
    elim (find? (has_transfer_id o.transfer_id) q.batches) [
      | some b ↦ accept_known o device q b
      | none ↦ accept_new env q o paths device
    ]
