-- ===== src/Plane/Upload/Publishing.antt =====
-- The end of an upload of src/transfer/laptop-data-plane.ts: the file is verified, linked to a path
-- that was free, and completed; or it is given up.
use vidyut.Prelude.{
  ℕ, zero, suc, ◌+◌, ◌≡◌, ◌≢◌, refl, sym, ap, ◌∙◌, subst, inl, inr, Bool-cases, String, true, List,
  Option, none, some, str_eq, if◌then◌else◌,
}
use vidyut.Wire.Types.{TransferFileOffer}
use vidyut.Queue.Types.{TransferFileRecord, is_completed}
use vidyut.Queue.Progress.{complete, begin_finalization}
use vidyut.Plane.Disk.{IsLawful, LinkAnswer, linked, taken, not_linked}
use vidyut.Plane.State.{
  Flow, Plane, Act, of_disk, no_free_candidate, publish, file_terminal, on_queue,
}
use vidyut.Plane.Rules.{
  Ends, Ends-next, Ends-reply, Ends-throw, Ends-bind, Ends-then, Ends-on_queue, Ends-or_raise,
  Ends-catching, Ends-if,
}
use vidyut.Plane.Upload.{Config, end_session, remove}
use vidyut.Plane.Upload.Finish.{
  after_link, finalize_from, finalize_without_overwrite, candidate_rounds, publish_file, mismatched,
  verify_and_publish, publish_complete, unlink_finalized_link, undo_link, linked_path, is_done,
  done_already, failed_finally, terminal_failure, finish,
}
use vidyut.Plane.Upload.Records.Calls.{begin_finalization-Now, complete-Now}
use vidyut.Plane.Upload.Receiving.{found, partial, Idle}
use vidyut.Plane.Upload.Steps.{give_up-Idle, Idle-with}

module _ {Disk : Type 0} (c : Config Disk) (w : IsLawful c.fs)
    (transfer_id file_id requested : String) (offer : TransferFileOffer) (zs : List ℕ) where
  abbrev IsIdle : Plane Disk → Type 0
  IsIdle = Idle c w transfer_id file_id requested offer

  abbrev partial_path : String
  partial_path = partial c w transfer_id file_id requested offer

  abbrev EndsIdle : {A : Type 0} → (A → Plane Disk → Type 0) → Flow A × Plane Disk → Type 0
  EndsIdle Q = Ends Q (λ _. IsIdle) IsIdle

  IsIdle-with : (p p' : Plane Disk) → IsIdle p → p'.queue ≡ p.queue → IsIdle p'
  IsIdle-with = Idle-with c w transfer_id file_id requested offer zs

  -- The whole file is at the partial path.
  abbrev Whole : Plane Disk → Type 0
  Whole p = IsIdle p × (w.content p.disk partial_path ≡ some zs)

  -- The file is finished under the digest of its bytes, which are at a path.
  pub record Finished (p : Plane Disk) : Type 0 where
    pub file : TransferFileRecord
    pub is_found : found c w transfer_id file_id requested offer p ≡ some file
    pub done : is_completed file.status ≡ true
    pub digest : file.sha256 ≡ c.sha256 zs
    pub path : String
    pub bytes : w.content p.disk path ≡ some zs

  -- The file is linked.
  abbrev Linked : String → Plane Disk → Type 0
  Linked path p = IsIdle p × (w.content p.disk path ≡ some zs) × (path ≢ partial_path)

  after_link-Linked :
      (path : String) (rest : Act Disk String) (answer : LinkAnswer) (p : Plane Disk)
      → IsIdle p
      → (answer ≡ linked → (w.content p.disk path ≡ some zs) × (path ≢ partial_path))
      → (answer ≡ taken → EndsIdle Linked (rest p))
      → EndsIdle Linked (after_link c transfer_id file_id path rest answer p)
  after_link-Linked path rest linked p i h k = Ends-next Linked path p (i, (h refl).0, (h refl).1)
  after_link-Linked path rest taken p i h k = k refl
  after_link-Linked path rest not_linked p i h k = Ends-throw Linked of_disk p i

  begin_finalization-Whole :
      (path : String) (p : Plane Disk)
      → Whole p
      → EndsIdle
          (λ _. Whole)
          (on_queue c.clock (λ env q. begin_finalization env q transfer_id file_id path) p)
  begin_finalization-Whole path p (idle, there) =
      Ends-on_queue c.clock (λ env q. begin_finalization env q transfer_id file_id path) p
        (record {
          apply = λ q e.
              let (y, found_y, m) =
                (begin_finalization-Now transfer_id file_id _ (c.clock p.tick) p.queue idle.file
                    idle.is_found path).apply
                  q e in
              (record { file = y; is_found = found_y; inactive = rw m.stands refl }, there);
        })
        (IsIdle-with p _ idle refl)

  pub finalize_from-Linked :
      (rounds suffix : ℕ) (p : Plane Disk)
      → Whole p
      → EndsIdle Linked (finalize_from c transfer_id file_id rounds suffix partial_path requested p)
  unfolding finalize_from
  finalize_from-Linked zero suffix p (i, there) = Ends-throw Linked no_free_candidate p i
  finalize_from-Linked (suc rounds) suffix p start =
      let path = c.candidate requested suffix in
      Ends-then _ _ p (begin_finalization-Whole path p start) λ p1 (i, there).
        let p2 : Plane Disk = record p1 { disk = (c.fs.link p1.disk partial_path path).1 } in
        Ends-bind {Q = λ answer q. (q ≡ p2) × (answer ≡ (c.fs.link p1.disk partial_path path).0)} _
          _ p1
          (Ends-next (λ answer q. (q ≡ p2) × (answer ≡ (c.fs.link p1.disk partial_path path).0)) _
            p2 (refl, refl))
          λ answer q (eq, ea). rw eq (
            after_link-Linked path
              (finalize_from c transfer_id file_id rounds (suffix + 1) partial_path requested)
              answer p2 (IsIdle-with p1 p2 i refl)
              (λ yes_linked. (
                w.link-content p1.disk partial_path path (sym ea ∙ yes_linked) ∙ there,
                λ same. absurd (
                    cc (
                      subst (λ q. w.content p1.disk q ≡ none) same
                          (w.link-free p1.disk partial_path path (sym ea ∙ yes_linked)),
                      there,
                    )),
              ))
              (λ is_taken. finalize_from-Linked rounds (suffix + 1) p2 (
                IsIdle-with p1 p2 i refl,
                w.link-failed p1.disk partial_path path partial_path (λ h. cc (h, ea, is_taken))
                    ∙ there,
              )))

  publish_file-Finished :
      (verified : String) (p : Plane Disk)
      → verified ≡ c.sha256 zs
      → Whole p
      → EndsIdle
          (λ _. Finished)
          (publish_file c transfer_id file_id verified partial_path requested p)
  unfolding finalize_without_overwrite remove
  publish_file-Finished verified p known start =
      Ends-bind _ _ p (finalize_from-Linked candidate_rounds 0 p start) λ path p1 (i, there, apart).
        Ends-then
          {Q = λ q.
            (y : TransferFileRecord) × (found c w transfer_id file_id requested offer q ≡ some y)
            × (is_completed y.status ≡ true)
            × (y.sha256 ≡ c.sha256 zs)
            × (w.content q.disk path ≡ some zs)}
          _ _ p1
          (Ends-on_queue c.clock (λ env q. complete env q transfer_id file_id verified) p1
            (record {
              apply = λ q e.
                  let (y, found_y, (done, digest)) =
                    (complete-Now transfer_id file_id _ (c.clock p1.tick) p1.queue i.file i.is_found
                        verified).apply
                      q e in
                  (y, found_y, done, digest ∙ known, there);
            })
            (IsIdle-with p1 _ i refl))
          λ p2 (y, found_y, done, digest, bytes).
            Ends-then {Q = Finished} _ _ p2
              (Ends-next (λ _. Finished) tt _
                (record {
                  file = y;
                  is_found = found_y;
                  done = done;
                  digest = digest;
                  path = path;
                  bytes = w.unlink-others p2.disk partial_path path apart ∙ bytes;
                }))
              λ p3 f. Ends-next (λ _. Finished) _ p3 f

  mismatched-Idle :
      (p : Plane Disk)
      → IsIdle p
      → EndsIdle (λ _. Finished) (mismatched c transfer_id file_id partial_path p)
  unfolding remove
  mismatched-Idle p i =
      Ends-then {Q = IsIdle} _ _ p (Ends-next (λ _. IsIdle) tt _ (IsIdle-with p _ i refl)) λ p1 j.
        Ends-then _ _ p1
          (give_up-Idle c w transfer_id file_id requested offer zs "hash_mismatch" p1 j)
          λ p2 k. Ends-reply (λ _. Finished) _ p2 k

  verify_and_publish-Finished :
      (r : TransferFileRecord) (expected : String) (p : Plane Disk)
      → Whole p
      → EndsIdle
          (λ _. Finished)
          (verify_and_publish c transfer_id file_id r expected partial_path requested p)
  unfolding verify_and_publish
  verify_and_publish-Finished r expected p (i, there) =
      Ends-bind {Q = λ bytes q. Whole q × (bytes ≡ zs)} _ _ p
        (Ends-or_raise {Q = λ bytes q. Whole q × (bytes ≡ zs)} (c.fs.read p.disk partial_path)
          of_disk p
          (λ bytes e. ((i, there), cc (w.read-content p.disk partial_path bytes e, there)))
          (λ _. i))
        λ bytes q (whole, same).
          Ends-if (str_eq (c.sha256 bytes) expected) _ _ q
            (λ _. publish_file-Finished (c.sha256 bytes) q (ap c.sha256 same) whole)
            (λ _. mismatched-Idle q whole.0)

  publish_complete-keeps :
      {P : Plane Disk → Type 0} (sha : String) (p : Plane Disk)
      → ((q : Plane Disk) → q.queue ≡ p.queue → q.disk ≡ p.disk → P q)
      → EndsIdle (λ _. P) (publish_complete c transfer_id file_id sha p)
  unfolding publish end_session file_terminal
  publish_complete-keeps {P = P} sha p h =
      Ends-then {Q = λ q. (q.queue ≡ p.queue) × (q.disk ≡ p.disk)} _ _ p
        (Ends-next (λ _ q. (q.queue ≡ p.queue) × (q.disk ≡ p.disk)) tt _ (refl, refl))
        λ p1 (a, b).
          Ends-then {Q = λ q. (q.queue ≡ p.queue) × (q.disk ≡ p.disk)} _ _ p1
            (Ends-next (λ _ q. (q.queue ≡ p.queue) × (q.disk ≡ p.disk)) tt _ (a, b))
            λ p2 (a2, b2). Ends-next (λ _. P) tt _ (h _ a2 b2)

  unlink_finalized_link-Idle :
      (path : String) (p : Plane Disk)
      → IsIdle p
      → EndsIdle (λ _. IsIdle) (unlink_finalized_link c transfer_id file_id partial_path path p)
  unfolding unlink_finalized_link remove
  unlink_finalized_link-Idle path p i =
      elim (Bool-cases (c.fs.same_inode p.disk partial_path path)) [
        | inl e ↦ rw e (Ends-next (λ _. IsIdle) tt _ (IsIdle-with p _ i refl))
        | inr e ↦ rw e (Ends-next (λ _. IsIdle) tt p i)
      ]

  undo_link-Idle :
      (path : Option String) (p : Plane Disk)
      → IsIdle p
      → EndsIdle (λ _. IsIdle) (undo_link c transfer_id file_id partial_path path p)
  undo_link-Idle none p i = Ends-next (λ _. IsIdle) tt p i
  undo_link-Idle (some path) p i = unlink_finalized_link-Idle path p i

  terminal_failure-Idle :
      (r : TransferFileRecord) (confirmed : ℕ) (p : Plane Disk)
      → IsIdle p
      → EndsIdle (λ _. Finished) (terminal_failure c transfer_id file_id r confirmed partial_path p)
  unfolding terminal_failure remove
  terminal_failure-Idle r confirmed p i =
      Ends-bind {Q = λ _ q. q ≡ p} _ _ p (Ends-next (λ _ q. q ≡ p) _ p refl) λ now q eq.
        subst
          (λ x.
            EndsIdle (λ _. Finished)
              ((if is_done c transfer_id file_id now
                  then done_already c transfer_id file_id r confirmed
                  else failed_finally c transfer_id file_id partial_path now)
                x))
          (sym eq)
          (Ends-if (is_done c transfer_id file_id now) _ _ p
            (λ _.
              Ends-then {Q = IsIdle} _ _ p
                (publish_complete-keeps {P = IsIdle} r.sha256 p (λ p' a b. IsIdle-with p p' i a))
                λ p1 j. Ends-reply (λ _. Finished) _ p1 j)
            (λ _.
              Ends-then _ _ p (undo_link-Idle (linked_path c transfer_id file_id now) p i) λ p1 j.
                Ends-then {Q = IsIdle} _ _ p1
                  (Ends-next (λ _. IsIdle) tt _ (IsIdle-with p1 _ j refl))
                  λ p2 k.
                    Ends-then _ _ p2
                      (give_up-Idle c w transfer_id file_id requested offer zs
                        "terminal_processing_failed" p2 k)
                      λ p3 l. Ends-reply (λ _. Finished) _ p3 l))

  -- A file that is whole on disk ends finished, or idle.
  pub finish-Finished :
      (r : TransferFileRecord) (confirmed : ℕ) (expected : String) (p : Plane Disk)
      → Whole p
      → EndsIdle
          (λ _. Finished)
          (finish c transfer_id file_id r confirmed expected partial_path requested p)
  unfolding finish
  finish-Finished r confirmed expected p start =
      Ends-bind _ _ p
        (Ends-catching _ _ p (verify_and_publish-Finished r expected p start)
          (λ p' i. terminal_failure-Idle r confirmed p' i))
        λ sha p1 f. publish_complete-keeps {P = Finished} sha p1 (λ p' a b. record {
          file = f.file;
          is_found = rw a f.is_found;
          done = f.done;
          digest = f.digest;
          path = f.path;
          bytes = rw b f.bytes;
        })
