-- ===== src/Coordinator/Control.antt =====
-- `handleControl` of src/transfer/transfer-coordinator.ts: what a message of the phone does.
pub mod Accepted
pub mod Paused
use vidyut.Prelude.{
  ℕ, ◌-◌, String, Bool, true, false, not, ◌&&◌, ◌||◌, List, [], ◌∷◌, map, Option, none, some, leb,
  ltb, ◌==◌, if◌then◌else◌, filter,
}
use vidyut.Wire.Types.{
  TransferControlMessage, TransferDirection, transfer_offer, transfer_accept, transfer_progress,
  transfer_pause, transfer_resume, transfer_cancel, transfer_file_complete, transfer_file_failed,
}
use vidyut.Wire.Number.{Number, natural}
use vidyut.Chunks.{legacy_transfer_chunk_bytes, negotiate_transfer_chunk_bytes}
use vidyut.Queue.Types.{TransferFileRecord, TransferBatchRecord, is_active, is_completed, is_failed}
use vidyut.Queue.Store.{Queue}
use vidyut.Queue.Progress.{associate_source_device, confirm_progress, complete, fail}
use vidyut.Queue.Control.{pause, resume, cancel, partial_of}
use vidyut.Queue.Claim.{TransferClaim}
use vidyut.Plane.Sessions.{or_default, live_accepted_offset}
use vidyut.Plane.State.{
  Plane, Act, ◌>>=◌, ◌>>◌, gets, publish, raise_unless, or_raise, each, when, catching, on_queue,
  unknown_laptop_transfer, outside_progress,
}
use vidyut.Plane.Upload.{is_some, same_direction, find_transfer, end_session}
use vidyut.Plane.Checkpoint.{find_file, checkpoint_and}
use vidyut.Coordinator.{
  CoordinatorOptions, find_batch_of, publish_phone_accept, publish_phone_complete,
  publish_phone_failure, activate_next,
}
use vidyut.Coordinator.Offers.{
  OfferResult, fresh, existing, rejected, accept_phone_offer, remove_partial,
}

abbrev pub active_ids : Option TransferBatchRecord → List String
active_ids none = []
active_ids (some b) = map (λ f. f.file_id) (filter (λ f. is_active f.status) b.files)

-- The files that a message without a file is about.
abbrev pub named_ids : Queue → String → Option String → List String
named_ids q transfer_id none = active_ids (find_batch_of q transfer_id)
named_ids q transfer_id (some file_id) = file_id ∷ []

abbrev pub partial_to_remove :
    {Disk : Type 0} → CoordinatorOptions Disk → Option TransferFileRecord → Option String
partial_to_remove c none = none
partial_to_remove c (some f) = partial_of c.plane.paths f

module _ {Disk : Type 0} (c : CoordinatorOptions Disk) where
  unfoldable pub republish_file : String → Bool → TransferFileRecord → Act Disk (Unit {0})
  unfolding publish_phone_complete publish_phone_failure publish_phone_accept live_accepted_offset
  republish_file transfer_id include_active f =
      if is_completed f.status
      then publish_phone_complete c transfer_id f
      else if is_failed f.status
      then publish_phone_failure c transfer_id f
      else if include_active
          && (is_active f.status && (f.size == 0 || ltb f.confirmed_offset f.size))
      then (do
        offset ← gets λ p. live_accepted_offset transfer_id f.file_id f.confirmed_offset p.sessions
        publish_phone_accept c transfer_id f.file_id offset)
      else gets (λ p. tt)

  abbrev pub republish_batch : Bool → Option TransferBatchRecord → Act Disk (Unit {0})
  republish_batch include_active none = gets λ p. tt
  republish_batch include_active (some b) =
      when (same_direction b.direction TransferDirection.phone_to_laptop)
        (each (republish_file b.transfer_id include_active) b.files)

  unfoldable pub republish_phone_progress : String → Bool → Act Disk (Unit {0})
  unfolding when each republish_file
  republish_phone_progress transfer_id include_active = do
    known ← gets λ p. find_batch_of p.queue transfer_id
    republish_batch include_active known

  abbrev pub negotiated : Option ℕ → Option Number
  negotiated none = none
  negotiated (some n) = some (
      natural (
        negotiate_transfer_chunk_bytes (some (natural n))
          (or_default c.max_chunk_bytes legacy_transfer_chunk_bytes)))

  unfoldable pub accept_receiver_offset : String → String → ℕ → Option ℕ → Act Disk (Unit {0})
  unfolding find_transfer when on_queue confirm_progress negotiate_transfer_chunk_bytes
  accept_receiver_offset transfer_id file_id confirmed_offset max_chunk_bytes = do
    known ← gets λ p. find_transfer p.queue transfer_id file_id TransferDirection.laptop_to_phone
    f ← or_raise known unknown_laptop_transfer
    raise_unless (leb f.confirmed_offset confirmed_offset && leb confirmed_offset f.size)
        outside_progress
    when (ltb f.confirmed_offset confirmed_offset || is_some (negotiated max_chunk_bytes)) (
        on_queue c.plane.clock λ env q.
          confirm_progress env q transfer_id file_id (natural confirmed_offset)
            (negotiated max_chunk_bytes))

  unfoldable pub pause_file : String → String → Act Disk (Unit {0})
  unfolding checkpoint_and on_queue pause
  pause_file transfer_id file_id =
      checkpoint_and c.plane transfer_id file_id
        (on_queue c.plane.clock λ env q. pause env q transfer_id (some file_id))

  unfoldable pub pause_transfer : String → Option String → Act Disk (Unit {0})
  unfolding each pause_file
  pause_transfer transfer_id none = do
    ids ← gets λ p. active_ids (find_batch_of p.queue transfer_id)
    each (pause_file transfer_id) ids
    on_queue c.plane.clock λ env q. pause env q transfer_id none
  pause_transfer transfer_id (some file_id) = pause_file transfer_id file_id

  unfoldable pub cancel_file : String → String → Act Disk (Unit {0})
  unfolding checkpoint_and on_queue cancel end_session find_file
  cancel_file transfer_id file_id = do
    known ← gets λ p. find_file p.queue transfer_id file_id
    checkpoint_and c.plane transfer_id file_id (do
      on_queue c.plane.clock λ env q. cancel env q transfer_id (some file_id)
      remove_partial c transfer_id file_id (partial_to_remove c known)
      end_session c.plane transfer_id file_id)

  unfoldable pub cancel_transfer : String → Option String → Act Disk (Unit {0})
  unfolding each cancel_file
  cancel_transfer transfer_id none = do
    ids ← gets λ p. active_ids (find_batch_of p.queue transfer_id)
    each (cancel_file transfer_id) ids
    on_queue c.plane.clock λ env q. cancel env q transfer_id none
  cancel_transfer transfer_id (some file_id) = cancel_file transfer_id file_id

  unfoldable pub fail_and_publish : String → String → String → Act Disk (Unit {0})
  unfolding on_queue publish fail
  fail_and_publish transfer_id code file_id = do
    on_queue c.plane.clock λ env q. fail env q transfer_id file_id code
    publish (transfer_file_failed transfer_id file_id code)

  unfoldable pub fail_progress_control : String → Option String → String → Act Disk (Unit {0})
  unfolding each fail_and_publish
  fail_progress_control transfer_id file_id code = do
    ids ← gets λ p. named_ids p.queue transfer_id file_id
    each (fail_and_publish transfer_id code) ids

  abbrev pub after_offer : String → OfferResult → Act Disk (Unit {0})
  after_offer transfer_id rejected = gets λ p. tt
  after_offer transfer_id fresh = do claimed ← activate_next c; gets λ p. tt
  after_offer transfer_id existing = do
    claimed ← activate_next c
    republish_phone_progress transfer_id (not (is_some claimed))

  -- What most messages end with.
  abbrev pub then_activate : Act Disk (Unit {0}) → Act Disk (Unit {0})
  then_activate act = do act; claimed ← activate_next c; gets λ p. tt

  unfoldable pub handle_control : TransferControlMessage → String → Act Disk (Unit {0})
  unfolding activate_next accept_phone_offer republish_phone_progress accept_receiver_offset
      pause_transfer cancel_transfer fail_progress_control on_queue associate_source_device
      confirm_progress complete fail resume catching
  handle_control (transfer_offer o) device = do
    result ← accept_phone_offer c o device
    after_offer o.transfer_id result
  handle_control (transfer_accept t f offset max_chunk_bytes) device = do
    on_queue c.plane.clock λ env q. associate_source_device env q t device
    accept_receiver_offset t f offset max_chunk_bytes
  handle_control (transfer_progress t f offset) device =
      on_queue c.plane.clock λ env q. confirm_progress env q t f (natural offset) none
  handle_control (transfer_file_complete t f sha256) device =
      then_activate (on_queue c.plane.clock λ env q. complete env q t f sha256)
  handle_control (transfer_file_failed t f code) device =
      then_activate (on_queue c.plane.clock λ env q. fail env q t f code)
  handle_control (transfer_pause t f) device =
      then_activate (catching (pause_transfer t f) (fail_progress_control t f "checkpoint_failed"))
  handle_control (transfer_resume t f) device =
      then_activate (on_queue c.plane.clock λ env q. resume env q t f)
  handle_control (transfer_cancel t f) device =
      then_activate (catching (cancel_transfer t f) (fail_progress_control t f "checkpoint_failed"))
