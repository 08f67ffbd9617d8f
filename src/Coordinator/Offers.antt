-- ===== src/Coordinator/Offers.antt =====
-- `acceptPhoneOffer` of src/transfer/transfer-coordinator.ts: an offer of the phone, new or known.
pub mod Answered
use vidyut.Prelude.{
  ℕ, ◌+◌, ◌-◌, String, Bool, true, false, not, ◌&&◌, ◌||◌, List, [], ◌∷◌, map, Option, none, some,
  ltb, if◌then◌else◌, find?,
}
use vidyut.Wire.Types.{TransferFileOffer, TransferOffer, TransferDirection, transfer_file_failed}
use vidyut.Wire.Guards.{is_transfer_offer}
use vidyut.Wire.Encode.{offer_json}
use vidyut.Queue.Types.{
  TransferFileRecord, TransferFileStatus, TransferBatchRecord, is_completed, is_failed,
  is_cancelled,
}
use vidyut.Queue.Progress.{fail}
use vidyut.Queue.Control.{partial_of, retry}
use vidyut.Queue.Offers.{accept_offer}
use vidyut.Plane.State.{
  Plane, Act, ◌>>=◌, ◌>>◌, gets, publish, raise_unless, or_raise, each, on_queue, ask_queue,
  of_disk, invalid_phone_offer,
}
use vidyut.Plane.Upload.{same_direction, remove}
use vidyut.Coordinator.{
  CoordinatorOptions, find_batch_of, publish_phone_complete, publish_phone_failure,
  make_destination,
}

-- "new", "existing", "rejected"
pub data OfferResult : Type 0 where
  fresh existing rejected : OfferResult

abbrev pub insufficient_storage : String
insufficient_storage = "insufficient_storage"

-- The bytes that a file of a known transfer still takes.
unfoldable pub bytes_needed : TransferFileStatus → ℕ → ℕ → ℕ
bytes_needed TransferFileStatus.queued size confirmed = size - confirmed
bytes_needed TransferFileStatus.active size confirmed = size - confirmed
bytes_needed TransferFileStatus.verifying size confirmed = size - confirmed
bytes_needed TransferFileStatus.finalizing size confirmed = size - confirmed
bytes_needed TransferFileStatus.paused size confirmed = size - confirmed
bytes_needed TransferFileStatus.cancelled size confirmed = size
bytes_needed TransferFileStatus.completed size confirmed = 0
bytes_needed TransferFileStatus.failed size confirmed = 0

unfoldable pub known_bytes : List TransferFileRecord → ℕ
unfolding bytes_needed
known_bytes [] = 0
known_bytes (f ∷ fs) = bytes_needed f.status f.size f.confirmed_offset + known_bytes fs

unfoldable pub offered_bytes : List TransferFileOffer → ℕ
offered_bytes [] = 0
offered_bytes (f ∷ fs) = f.size + offered_bytes fs

abbrev pub required_bytes : Option TransferBatchRecord → TransferOffer → ℕ
required_bytes none o = offered_bytes o.files
required_bytes (some b) o = known_bytes b.files

module _ {Disk : Type 0} (c : CoordinatorOptions Disk) where
  abbrev pub too_large_file : TransferOffer → Option TransferFileOffer
  too_large_file o = find? (λ f. ltb c.max_file_bytes f.size) o.files

  abbrev pub destination_paths : TransferOffer → List (String × String)
  destination_paths o =
      map (λ f. (f.file_id, c.plane.paths.join c.destination_directory f.filename)) o.files

  unfoldable pub accept_in_queue : TransferOffer → String → Act Disk TransferBatchRecord
  unfolding ask_queue accept_offer
  accept_in_queue o device =
      ask_queue c.plane.clock
        λ env q. accept_offer c.comes_first env q o (destination_paths o) (some device)

  unfoldable pub refuse_offered : String → TransferFileOffer → Act Disk (Unit {0})
  unfolding publish
  refuse_offered transfer_id f =
      publish (transfer_file_failed transfer_id f.file_id insufficient_storage)

  -- A file of a known transfer that there is no room for.
  unfoldable pub refuse_known : String → TransferFileRecord → Act Disk (Unit {0})
  unfolding publish_phone_complete publish_phone_failure publish on_queue fail
  refuse_known transfer_id f =
      if is_completed f.status
      then publish_phone_complete c transfer_id f
      else if is_failed f.status
      then publish_phone_failure c transfer_id f
      else if is_cancelled f.status
      then gets (λ p. tt)
      else (do
        on_queue c.plane.clock λ env q. fail env q transfer_id f.file_id insufficient_storage
        publish (transfer_file_failed transfer_id f.file_id insufficient_storage))

  abbrev pub refuse_storage : Option TransferBatchRecord → TransferOffer → Act Disk (Unit {0})
  refuse_storage none o = each (refuse_offered o.transfer_id) o.files
  refuse_storage (some b) o = each (refuse_known o.transfer_id) b.files

  unfoldable pub with_room :
      Bool
      → Option TransferBatchRecord
      → TransferOffer
      → Act Disk OfferResult
      → Act Disk OfferResult
  unfolding each refuse_offered refuse_known make_destination
  with_room true current o go = do make_destination c; go
  with_room false current o go = do refuse_storage current o; gets λ p. rejected

  -- The call goes on where there is room for the offer.
  unfoldable pub within_storage :
      Option TransferBatchRecord → TransferOffer → Act Disk OfferResult → Act Disk OfferResult
  unfolding with_room offered_bytes known_bytes
  within_storage current o go = do
    available ← λ p. or_raise (c.available_bytes p.disk) of_disk p
    with_room (not (ltb available (required_bytes current o))) current o go

  -- The queue removes the partial file of one that it retries.
  abbrev pub remove_partial : String → String → Option String → Act Disk (Unit {0})
  remove_partial transfer_id file_id none = gets λ p. tt
  remove_partial transfer_id file_id (some partial) = remove c.plane transfer_id file_id partial

  unfoldable pub retry_cancelled : String → TransferFileRecord → Act Disk (Unit {0})
  unfolding on_queue retry remove
  retry_cancelled transfer_id f =
      if is_cancelled f.status
      then (do
        on_queue c.plane.clock λ env q. retry c.plane.paths env q transfer_id (some f.file_id)
        remove_partial transfer_id f.file_id (partial_of c.plane.paths f))
      else gets (λ p. tt)

  unfoldable pub accept_known_offer :
      TransferOffer → String → TransferBatchRecord → Act Disk OfferResult
  unfolding accept_in_queue within_storage each retry_cancelled
  accept_known_offer o device b = do
    accepted ← accept_in_queue o device
    current ← gets λ p. find_batch_of p.queue o.transfer_id
    within_storage current o (do each (retry_cancelled o.transfer_id) b.files; gets λ p. existing)

  unfoldable pub accept_small_offer : TransferOffer → String → Act Disk OfferResult
  unfolding within_storage accept_in_queue
  accept_small_offer o device =
      within_storage none o (do accepted ← accept_in_queue o device; gets λ p. fresh)

  unfoldable pub accept_new_offer :
      TransferOffer → String → Option TransferFileOffer → Act Disk OfferResult
  unfolding publish accept_small_offer
  accept_new_offer o device none = accept_small_offer o device
  accept_new_offer o device (some f) = do
    publish (transfer_file_failed o.transfer_id f.file_id "file_too_large")
    gets λ p. rejected

  abbrev pub answer_offer :
      TransferOffer → String → Option TransferBatchRecord → Act Disk OfferResult
  answer_offer o device none = accept_new_offer o device (too_large_file o)
  answer_offer o device (some b) = accept_known_offer o device b

  unfoldable pub accept_phone_offer : TransferOffer → String → Act Disk OfferResult
  unfolding accept_known_offer accept_new_offer
  accept_phone_offer o device = do
    raise_unless (is_transfer_offer (offer_json o)) invalid_phone_offer
    raise_unless (same_direction o.direction TransferDirection.phone_to_laptop) invalid_phone_offer
    known ← gets λ p. find_batch_of p.queue o.transfer_id
    answer_offer o device known
