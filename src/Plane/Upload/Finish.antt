-- ===== src/Plane/Upload/Finish.antt =====
-- The end of `handleUploadLocked` of src/transfer/laptop-data-plane.ts: the digest of the whole file,
-- the final path, and the handler that is put together from its parts.
use vidyut.Prelude.{
  ℕ, zero, suc, ◌+◌, String, Bool, true, false, not, ◌&&◌, ◌||◌, List, [], ◌∷◌, Option, none, some,
  leb, ◌==◌, if◌then◌else◌, length, str_eq, opt_all,
}
use vidyut.Paths.{partial_path_for}
use vidyut.Wire.Types.{TransferDirection, transfer_file_complete}
use vidyut.Queue.Types.{TransferFileRecord, is_completed}
use vidyut.Queue.Progress.{complete, begin_finalization, present}
use vidyut.Plane.Decimal.{parse_non_negative_integer}
use vidyut.Plane.Cipher.{EncryptedTransferChunk, decrypt_transfer_chunk}
use vidyut.Plane.Sessions.{Session, live_accepted_offset, should_checkpoint, should_publish}
use vidyut.Plane.Disk.{LinkAnswer, linked, taken, not_linked}
use vidyut.Plane.State.{
  Response, refused, refused_at, accepted, of_disk, no_free_candidate, body_lost, next, Plane, Act,
  ◌>>=◌, ◌>>◌, replies, throws, gets, or_reply, or_raise, refuse_unless, when, on_queue, publish,
  file_terminal, catching,
}
use vidyut.Plane.Upload.{
  Config, UploadRequest, find_transfer, active_destination, announced, opened_or_none,
  has_timing_stage, digest_refusal, expected_sha256, open_session, end_session, mark, give_up,
  remove, open_partial, write_chunk, sync_partial, refuse_some, advance, announce,
}

abbrev pub candidate_rounds : ℕ
candidate_rounds = 10_000

module _ {Disk : Type 0} (c : Config Disk) (transfer_id file_id : String) where
  abbrev pub link_answer : String → String → Act Disk LinkAnswer
  link_answer partial candidate p =
      let (answer, d) = c.fs.link p.disk partial candidate in (next answer, record p { disk = d })

  -- `EEXIST` goes on with the loop.
  abbrev pub after_link : String → Act Disk String → LinkAnswer → Act Disk String
  after_link path rest linked = gets λ p. path
  after_link path rest taken = rest
  after_link path rest not_linked = throws of_disk

  -- The loop of `finalizeWithoutOverwrite`, with the rounds that are left and the suffix to try.
  unfoldable pub finalize_from : ℕ → ℕ → String → String → Act Disk String
  unfolding on_queue begin_finalization
  finalize_from zero suffix partial requested = throws no_free_candidate
  finalize_from (suc rounds) suffix partial requested = do
    let path = c.candidate requested suffix
    on_queue c.clock λ env q. begin_finalization env q transfer_id file_id path
    answer ← link_answer partial path
    after_link path (finalize_from rounds (suffix + 1) partial requested) answer

  unfoldable pub finalize_without_overwrite : String → String → Act Disk String
  unfolding finalize_from
  finalize_without_overwrite partial requested = finalize_from candidate_rounds 0 partial requested

  -- `unlinkFinalizedLink`
  unfoldable pub unlink_finalized_link : String → String → Act Disk (Unit {0})
  unfolding remove
  unlink_finalized_link partial finalized p =
      if c.fs.same_inode p.disk partial finalized
      then remove c transfer_id file_id finalized p
      else (next tt, p)

  abbrev pub mismatched : String → Act Disk String
  mismatched partial = do
    remove c transfer_id file_id partial
    give_up c transfer_id file_id "hash_mismatch"
    replies (refused 409 "hash_mismatch")

  abbrev pub publish_file : String → String → String → Act Disk String
  publish_file verified partial requested = do
    path ← finalize_without_overwrite partial requested
    on_queue c.clock λ env q. complete env q transfer_id file_id verified
    remove c transfer_id file_id partial
    gets λ p. verified

  -- The `try` block. The time of the last change, set behind it, has no model.
  unfoldable pub verify_and_publish :
      TransferFileRecord → String → String → String → Act Disk String
  unfolding remove give_up finalize_without_overwrite on_queue complete
  verify_and_publish r expected partial requested = do
    bytes ← (λ p. or_raise (c.fs.read p.disk partial) of_disk p)
    let verified = c.sha256 bytes
    if str_eq verified expected then publish_file verified partial requested else mismatched partial

  abbrev pub publish_complete : String → Act Disk (Unit {0})
  publish_complete sha = do
    publish (transfer_file_complete transfer_id file_id sha)
    end_session c transfer_id file_id
    file_terminal

  abbrev pub current : Plane Disk → Option TransferFileRecord
  current p = find_transfer p.queue transfer_id file_id TransferDirection.phone_to_laptop

  abbrev pub is_done : Option TransferFileRecord → Bool
  is_done none = false
  is_done (some r) = is_completed r.status

  abbrev pub linked_path : Option TransferFileRecord → Option String
  linked_path none = none
  linked_path (some r) = present r.finalizing_path

  abbrev pub undo_link : String → Option String → Act Disk (Unit {0})
  undo_link partial none = gets λ p. tt
  undo_link partial (some path) = unlink_finalized_link partial path

  abbrev pub done_already : TransferFileRecord → ℕ → Act Disk String
  done_already r confirmed = do publish_complete r.sha256; replies (accepted confirmed true)

  abbrev pub failed_finally : String → Option TransferFileRecord → Act Disk String
  failed_finally partial now = do
    undo_link partial (linked_path now)
    remove c transfer_id file_id partial
    give_up c transfer_id file_id "terminal_processing_failed"
    replies (refused 500 "terminal_processing_failed")

  -- The `catch` block; it always answers.
  unfoldable pub terminal_failure : TransferFileRecord → ℕ → String → Act Disk String
  unfolding publish end_session file_terminal unlink_finalized_link remove give_up find_transfer
  terminal_failure r confirmed partial = do
    now ← gets current
    if is_done now then done_already r confirmed else failed_finally partial now

  unfoldable pub finish : TransferFileRecord → ℕ → String → String → String → Act Disk (Unit {0})
  unfolding verify_and_publish terminal_failure publish end_session file_terminal
  finish r confirmed expected partial requested = do
    verified ←
        catching (verify_and_publish r expected partial requested)
          (terminal_failure r confirmed partial)
    publish_complete verified

  -- From the open partial file to the answer.
  unfoldable pub receive_with :
      TransferFileRecord
      → ℕ
      → ℕ
      → List ℕ
      → Option String
      → String
      → String
      → Session
      → Act Disk Response
  unfolding mark write_chunk sync_partial digest_refusal advance announce finish expected_sha256
      should_checkpoint should_publish
  receive_with r offset n plaintext claimed partial requested s = do
    let confirmed = offset + n
    let last = confirmed == r.size
    let first_started = not (has_timing_stage "first_payload_byte" r.timing)
    let last_started = last && not (has_timing_stage "last_payload_byte" r.timing)
    now ← gets λ p. (c.clock p.tick).monotonic_now
    let checkpoint_due = last || should_checkpoint confirmed now s
    when first_started (mark c transfer_id file_id "first_payload_byte" false)
    when last_started (mark c transfer_id file_id "last_payload_byte" false)
    write_chunk c transfer_id file_id partial offset plaintext
    when checkpoint_due (sync_partial c transfer_id file_id partial)
    when first_started (mark c transfer_id file_id "first_payload_byte" true)
    when last_started (mark c transfer_id file_id "last_payload_byte" true)
    let publish_due = checkpoint_due || should_publish now false s
    when last (refuse_some c transfer_id file_id (digest_refusal r claimed))
    moved ← advance c transfer_id file_id confirmed now last checkpoint_due s
    when publish_due (announce c transfer_id file_id confirmed now moved)
    when last (finish r confirmed (expected_sha256 r claimed) partial requested)
    gets λ p. accepted confirmed last

  -- The session is looked up once more.
  unfoldable pub receive :
      TransferFileRecord → ℕ → ℕ → List ℕ → Option String → String → String → Act Disk Response
  unfolding open_session receive_with
  receive r offset n plaintext claimed partial requested = do
    s ← open_session c transfer_id file_id r
    receive_with r offset n plaintext claimed partial requested s

  abbrev pub received_chunk : ℕ → ℕ → String → List ℕ → EncryptedTransferChunk
  received_chunk offset n nonce ciphertext = record {
    metadata = record {
      transfer_id = transfer_id;
      file_id = file_id;
      offset = offset;
      plaintext_bytes = n;
    };
    nonce = nonce;
    ciphertext = ciphertext;
  }

  -- `handleUploadLocked`
  unfoldable pub handle_upload_locked : ℕ → TransferFileRecord → UploadRequest → Act Disk Response
  unfolding active_destination announced open_partial receive
  handle_upload_locked offset r req = do
    requested ← or_reply (active_destination r) (refused 409 "transfer_not_active")
    (nonce, n) ← or_reply (announced c.chunk_bytes offset r req) (refused 400 "invalid_chunk")
    refuse_unless
        (opt_all (λ l. leb l (c.chunk_bytes + 16)) (parse_non_negative_integer req.content_length))
        (refused 413 "chunk_too_large")
    ciphertext ← or_raise req.body body_lost
    refuse_unless (leb (length ciphertext) (c.chunk_bytes + 16)) (refused 413 "chunk_too_large")
    let chunk = received_chunk offset n nonce ciphertext
    plaintext ←
        or_reply (opened_or_none (decrypt_transfer_chunk c.aead chunk c.secret))
          (refused 400 "chunk_auth_failed")
    let partial = partial_path_for c.paths requested file_id
    open_partial c transfer_id file_id partial offset
    receive r offset n plaintext req.sha256 partial requested

  -- `handleUpload`, inside the lock of the file.
  unfoldable pub handle_upload : ℕ → UploadRequest → Act Disk Response
  unfolding find_transfer open_session live_accepted_offset handle_upload_locked
  handle_upload offset req = do
    found ← gets current
    r ← or_reply found (refused 404 "transfer_not_found")
    session ← open_session c transfer_id file_id r
    expected ← gets λ p. live_accepted_offset transfer_id file_id r.confirmed_offset p.sessions
    refuse_unless (offset == expected) (refused_at 409 "offset_not_confirmed" expected)
    handle_upload_locked offset r req

-- Uploads of any files, one after the other.
pub record Upload : Type 0 where
  pub transfer_id : String
  pub file_id : String
  pub offset : ℕ
  pub request : UploadRequest

unfoldable pub run_uploads : {Disk : Type 0} → Config Disk → List Upload → Plane Disk → Plane Disk
unfolding handle_upload
run_uploads c [] p = p
run_uploads c (u ∷ us) p =
    run_uploads c us (handle_upload c u.transfer_id u.file_id u.offset u.request p).1
