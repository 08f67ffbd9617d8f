-- ===== src/Plane/Upload/Steady.antt =====
-- The queue behind an upload of src/transfer/laptop-data-plane.ts, against its invariant and its
-- storage.
use vidyut.Prelude.{
  ℕ, zero, suc, ◌+◌, ◌≤◌, refl, String, true, false, List, [], ◌∷◌, Option, none, some, arith,
  str_eq,
}
use vidyut.Wire.Types.{max_safe_integer}
use vidyut.Queue.Types.{TransferFileRecord}
use vidyut.Queue.Store.{Queue}
use vidyut.Queue.Moves.Operations.{complete-Kept, begin_finalization-Kept}
use vidyut.Plane.Disk.{LinkAnswer, linked, taken, not_linked}
use vidyut.Plane.State.{Plane, Act, ◌>>=◌, ◌>>◌, publish, file_terminal, of_disk}
use vidyut.Plane.Keeping.{Keeps, Keeps-bind, Keeps-then, Keeps-catching, Keeps-when}
use vidyut.Plane.Sessions.{Session}
use vidyut.Plane.Upload.{Config, UploadRequest, end_session, remove}
use vidyut.Plane.Upload.Finish.{
  after_link, finalize_from, finalize_without_overwrite, unlink_finalized_link, verify_and_publish,
  publish_file, mismatched, publish_complete, undo_link, is_done, terminal_failure,
  candidate_rounds, finish, receive_with, receive, handle_upload_locked, handle_upload, Upload,
  run_uploads,
}
use vidyut.Plane.Upload.SteadyCalls.{
  Steady, IsSteady, quiet, by_test, or_reply-quiet, or_raise-quiet, refuse_unless-quiet,
  on_queue-Steady, mark-Steady, give_up-Steady, remove-Steady, open_session-Steady,
  open_partial-Steady, write_chunk-Steady, sync_partial-Steady, refuse_some-Steady, advance-Steady,
  announce-Steady,
}

module _ {Disk : Type 0} (c : Config Disk) (transfer_id file_id : String)
    (timely : (n : ℕ) → (c.clock n).now ≤ max_safe_integer) (q : Queue) where
  after_link-Steady :
      (next_act : Act Disk String) (path : String) (answer : LinkAnswer)
      → Keeps (IsSteady q) next_act
      → Keeps (IsSteady q) (after_link c transfer_id file_id path next_act answer)
  after_link-Steady next_act path linked h = quiet q (λ p. refl)
  after_link-Steady next_act path taken h = h
  after_link-Steady next_act path not_linked h = quiet q (λ p. refl)

  finalize_from-Steady :
      (rounds suffix : ℕ) (partial requested : String)
      → Keeps (IsSteady q) (finalize_from c transfer_id file_id rounds suffix partial requested)
  unfolding finalize_from
  finalize_from-Steady zero suffix partial requested = quiet q (λ p. refl)
  finalize_from-Steady (suc rounds) suffix partial requested =
      Keeps-then _
        (on_queue-Steady c transfer_id file_id timely q _ λ env r now_ok.
          begin_finalization-Kept env now_ok r transfer_id file_id (c.candidate requested suffix))
        (Keeps-bind _ (quiet q (λ p. refl)) λ answer.
          after_link-Steady _ (c.candidate requested suffix) answer
            (finalize_from-Steady rounds (suffix + 1) partial requested))

  finalize_without_overwrite-Steady :
      (partial requested : String)
      → Keeps (IsSteady q) (finalize_without_overwrite c transfer_id file_id partial requested)
  unfolding finalize_without_overwrite
  finalize_without_overwrite-Steady partial requested =
      finalize_from-Steady candidate_rounds 0 partial requested

  publish_complete-Steady :
      (sha : String) → Keeps (IsSteady q) (publish_complete c transfer_id file_id sha)
  unfolding publish end_session file_terminal ◌>>=◌ ◌>>◌
  publish_complete-Steady sha = quiet q (λ p. refl)

  mismatched-Steady :
      (partial : String) → Keeps (IsSteady q) (mismatched c transfer_id file_id partial)
  mismatched-Steady partial = Keeps-then _ (remove-Steady c transfer_id file_id timely q partial) (
      Keeps-then _ (give_up-Steady c transfer_id file_id timely q "hash_mismatch")
        (quiet q (λ p. refl)))

  publish_file-Steady :
      (verified partial requested : String)
      → Keeps (IsSteady q) (publish_file c transfer_id file_id verified partial requested)
  publish_file-Steady verified partial requested =
      Keeps-bind _ (finalize_without_overwrite-Steady partial requested) λ path.
        Keeps-then _
          (on_queue-Steady c transfer_id file_id timely q _
            λ env r now_ok. complete-Kept env now_ok r transfer_id file_id verified)
          (Keeps-then _ (remove-Steady c transfer_id file_id timely q partial)
            (quiet q (λ p. refl)))

  verify_and_publish-Steady :
      (r : TransferFileRecord) (expected partial requested : String)
      → Keeps (IsSteady q) (verify_and_publish c transfer_id file_id r expected partial requested)
  unfolding verify_and_publish
  verify_and_publish-Steady r expected partial requested =
      Keeps-bind _
        (record { keep = λ p i. (or_raise-quiet q (c.fs.read p.disk partial) of_disk).keep p i })
        λ bytes.
          by_test q (str_eq (c.sha256 bytes) expected)
            (publish_file-Steady (c.sha256 bytes) partial requested) (mismatched-Steady partial)

  unlink_finalized_link-Steady :
      (partial path : String)
      → Keeps (IsSteady q) (unlink_finalized_link c transfer_id file_id partial path)
  unfolding unlink_finalized_link remove
  unlink_finalized_link-Steady partial path = quiet q (λ p. ground arith)

  undo_link-Steady :
      (partial : String) (path : Option String)
      → Keeps (IsSteady q) (undo_link c transfer_id file_id partial path)
  undo_link-Steady partial none = quiet q (λ p. refl)
  undo_link-Steady partial (some path) = unlink_finalized_link-Steady partial path

  terminal_failure-Steady :
      (r : TransferFileRecord) (confirmed : ℕ) (partial : String)
      → Keeps (IsSteady q) (terminal_failure c transfer_id file_id r confirmed partial)
  unfolding terminal_failure
  terminal_failure-Steady r confirmed partial = Keeps-bind _ (quiet q (λ p. refl)) λ now.
      by_test q (is_done c transfer_id file_id now)
        (Keeps-then _ (publish_complete-Steady r.sha256) (quiet q (λ p. refl)))
        (Keeps-then _ (undo_link-Steady partial _) (
          Keeps-then _ (remove-Steady c transfer_id file_id timely q partial) (
            Keeps-then _
              (give_up-Steady c transfer_id file_id timely q "terminal_processing_failed")
              (quiet q (λ p. refl)))))

  finish-Steady :
      (r : TransferFileRecord) (confirmed : ℕ) (expected partial requested : String)
      → Keeps (IsSteady q) (finish c transfer_id file_id r confirmed expected partial requested)
  unfolding finish
  finish-Steady r confirmed expected partial requested =
      Keeps-bind _
        (Keeps-catching _ (verify_and_publish-Steady r expected partial requested)
          (terminal_failure-Steady r confirmed partial))
        publish_complete-Steady

  receive_with-Steady :
      (r : TransferFileRecord) (offset n : ℕ) (plaintext : List ℕ) (claimed : Option String)
      (partial requested : String) (s : Session)
      → Keeps
          (IsSteady q)
          (receive_with c transfer_id file_id r offset n plaintext claimed partial requested s)
  unfolding receive_with
  receive_with-Steady r offset n plaintext claimed partial requested s =
      Keeps-bind _ (quiet q (λ p. refl)) λ now.
        Keeps-then _ (Keeps-when _ _ (mark-Steady c transfer_id file_id timely q _ false)) (
          Keeps-then _ (Keeps-when _ _ (mark-Steady c transfer_id file_id timely q _ false)) (
            Keeps-then _
              (write_chunk-Steady c transfer_id file_id timely q partial offset plaintext)
              (Keeps-then _
                (Keeps-when _ _ (sync_partial-Steady c transfer_id file_id timely q partial))
                (Keeps-then _ (Keeps-when _ _ (mark-Steady c transfer_id file_id timely q _ true)) (
                  Keeps-then _ (Keeps-when _ _ (mark-Steady c transfer_id file_id timely q _ true))
                    (Keeps-then _
                      (Keeps-when _ _ (refuse_some-Steady c transfer_id file_id timely q _))
                      (Keeps-bind _ (advance-Steady c transfer_id file_id timely q _ now _ _ s)
                        λ moved.
                          Keeps-then _
                            (Keeps-when _ _
                              (announce-Steady c transfer_id file_id timely q _ now moved))
                            (Keeps-then _ (Keeps-when _ _ (finish-Steady r _ _ partial requested))
                              (quiet q (λ p. refl))))))))))

  receive-Steady :
      (r : TransferFileRecord) (offset n : ℕ) (plaintext : List ℕ) (claimed : Option String)
      (partial requested : String)
      → Keeps
          (IsSteady q)
          (receive c transfer_id file_id r offset n plaintext claimed partial requested)
  unfolding receive
  receive-Steady r offset n plaintext claimed partial requested =
      Keeps-bind _ (open_session-Steady c transfer_id file_id timely q r)
        (receive_with-Steady r offset n plaintext claimed partial requested)

  handle_upload_locked-Steady :
      (offset : ℕ) (r : TransferFileRecord) (req : UploadRequest)
      → Keeps (IsSteady q) (handle_upload_locked c transfer_id file_id offset r req)
  unfolding handle_upload_locked
  handle_upload_locked-Steady offset r req = Keeps-bind _ (or_reply-quiet q _ _) λ requested.
      Keeps-bind _ (or_reply-quiet q _ _) λ taken_in. Keeps-then _ (refuse_unless-quiet q _ _) (
        Keeps-bind _ (or_raise-quiet q _ _) λ ciphertext. Keeps-then _ (refuse_unless-quiet q _ _) (
          Keeps-bind _ (or_reply-quiet q _ _) λ plaintext.
            Keeps-then _ (open_partial-Steady c transfer_id file_id timely q _ offset)
              (receive-Steady r offset taken_in.1 plaintext req.sha256 _ requested)))

  handle_upload-Steady :
      (offset : ℕ) (req : UploadRequest)
      → Keeps (IsSteady q) (handle_upload c transfer_id file_id offset req)
  unfolding handle_upload
  handle_upload-Steady offset req = Keeps-bind _ (quiet q (λ p. refl)) λ found.
      Keeps-bind _ (or_reply-quiet q _ _) λ r.
        Keeps-bind _ (open_session-Steady c transfer_id file_id timely q r) λ session.
          Keeps-bind _ (quiet q (λ p. refl)) λ expected.
            Keeps-then _ (refuse_unless-quiet q _ _) (handle_upload_locked-Steady offset r req)

module _ {Disk : Type 0} (c : Config Disk)
    (timely : (n : ℕ) → (c.clock n).now ≤ max_safe_integer) where
  run_uploads-keeps :
      (q : Queue) (us : List Upload) (p : Plane Disk)
      → IsSteady q p
      → IsSteady q (run_uploads c us p)
  unfolding run_uploads
  run_uploads-keeps q [] p i = i
  run_uploads-keeps q (u ∷ us) p i =
      run_uploads-keeps q us _
        ((handle_upload-Steady c u.transfer_id u.file_id timely q u.offset u.request).keep p i)

  -- Where the clock reads safe integers: behind any uploads of any files, answered, refused or broken
  -- off by an exception, whatever the file system answers, the queue's invariant holds if it held
  -- before, and the snapshot that was saved last is the state in memory if it was before.
  pub run_uploads-Steady :
      (us : List Upload) (p : Plane Disk) → Steady p.queue (run_uploads c us p).queue
  run_uploads-Steady us p =
      run_uploads-keeps p.queue us p (record { keeps = λ i. i; durable = λ loaded e. e })
