-- ===== src/Queue/Moves/Operations.antt =====
-- The operations of src/transfer/transfer-queue.ts on one file, as moves of the queue.
use vidyut.Prelude.{
  ℕ, ◌≤◌, ◌≡◌, refl, String, Bool, true, false, ◌||◌, Option, some, none, arith, ok, or_throw,
  Ensures, Ensures-bind, Ensures-ok, Ensures-guard, or_throw-eq-ok, not, ◌&&◌, str_eq, Bool-cases,
  Option-cases, inl, inr, find?-all, all-replace_first, leb, ◌==◌,
}
use vidyut.Wire.Types.{max_safe_integer}
use vidyut.Wire.Number.{Number}
use vidyut.Queue.Types.{
  TransferFileRecord, TransferBatchRecord, is_active, is_verifying, is_finalizing, in_flight,
  is_terminal_file,
}
use vidyut.Queue.Timing.{Env}
use vidyut.Queue.Store.{Queue, find_batch, find_in_batch, put_file, set_anchor, mark_timing}
use vidyut.Queue.Progress.{
  confirm_progress, next_offset, next_chunk, keep_touched, keep_derived, complete, final_sha256,
  begin_verification, begin_finalization, mark_stage, fail, failed_file, set_destination_path,
  associate_source_device,
}
use vidyut.Queue.Moves.{FileMove-refl, FileMoves-refl, IsClosed}
use vidyut.Queue.Moves.Files.{
  confirmed-FileMove, mark_timing-FileMove, completed-FileMove, verifying-FileMove,
  finalizing-FileMove, failed-FileMove, destination-FileMove,
}
use vidyut.Queue.Moves.Batches.{
  Kept, Kept-refl, keep_derived-Kept, keep_touched-Kept, find_in_batch-eq-ok, put_batch-Kept,
}

same_status-IsClosed :
    (b : TransferBatchRecord) (file_id : String) (f g : TransferFileRecord)
    → find_in_batch b file_id ≡ ok f
    → g.status ≡ f.status
    → IsClosed b
    → IsClosed (put_file file_id g b)
unfolding put_file
same_status-IsClosed b file_id f g h e closed t =
    all-replace_first _ (λ x. is_terminal_file x.status) g b.files (closed t)
      (rw e (
        find?-all _ (λ x. is_terminal_file x.status) b.files f (find_in_batch-eq-ok b file_id f h)
          (closed t)))

-- The anchors of the clocks stand outside the snapshot.
module _ (env : Env) (q : Queue) (transfer_id file_id : String) (b : TransferBatchRecord)
    (g : TransferFileRecord) where
  anchored_derived :
      Kept q (keep_derived env transfer_id file_id b g q)
      → Kept q (keep_derived env transfer_id file_id b g (set_anchor env transfer_id file_id q))
  unfolding keep_derived set_anchor
  anchored_derived k = record { moves = k.moves; version = k.version; durable = λ _ _. refl }

  anchored_touched :
      Kept q (keep_touched env transfer_id file_id b g q)
      → Kept q (keep_touched env transfer_id file_id b g (set_anchor env transfer_id file_id q))
  unfolding keep_touched set_anchor
  anchored_touched k = record { moves = k.moves; version = k.version; durable = λ _ _. refl }

pub confirm_progress-Kept :
    (env : Env) (q : Queue) (transfer_id file_id : String) (c : Number) (m : Option Number)
    → Ensures (Kept q) (confirm_progress env q transfer_id file_id c m)
unfolding confirm_progress
confirm_progress-Kept env q transfer_id file_id c m =
    Ensures-bind (find_batch q transfer_id) _ λ b hb.
      Ensures-bind (find_in_batch b file_id) _ λ f hf.
        Ensures-guard (is_active f.status) _ _ λ active.
          Ensures-bind (or_throw (next_offset c f) _) _ λ n hn.
            Ensures-bind (next_chunk m f) _ λ chunk hc. Ensures-ok _ (
              keep_touched-Kept env q transfer_id file_id b f _ hb hf
                (confirmed-FileMove f c m n chunk active (or_throw-eq-ok _ _ n hn) hc)
                (same_status-IsClosed b file_id f _ hf refl))

module _ (env : Env) (now_ok : env.now ≤ max_safe_integer) (q : Queue) where
  pub complete-Kept :
      (transfer_id file_id verified : String)
      → Ensures (Kept q) (complete env q transfer_id file_id verified)
  unfolding complete
  complete-Kept transfer_id file_id verified = Ensures-bind (find_batch q transfer_id) _ λ b hb.
      Ensures-bind (find_in_batch b file_id) _ λ f hf.
        Ensures-guard (in_flight f.status) _ _ λ flying.
          Ensures-guard (f.confirmed_offset == f.size) _ _ λ whole.
            Ensures-bind (final_sha256 f.sha256 verified) _ λ sha hs. Ensures-ok _ (
              anchored_derived env q transfer_id file_id b _ (
                keep_derived-Kept env q transfer_id file_id b f _ hb hf (
                  mark_timing-FileMove env transfer_id file_id q _ true f _ now_ok (
                    mark_timing-FileMove env transfer_id file_id q _ true f _ now_ok
                      (completed-FileMove f sha flying (ground arith))))))

  pub begin_verification-Kept :
      (transfer_id file_id : String) (offset : ℕ)
      → Ensures (Kept q) (begin_verification env q transfer_id file_id offset)
  unfolding begin_verification
  begin_verification-Kept transfer_id file_id offset =
      Ensures-bind (find_batch q transfer_id) _ λ b hb.
        Ensures-bind (find_in_batch b file_id) _ λ f hf.
          Ensures-guard (is_active f.status) _ _ λ active.
            Ensures-guard (offset == f.size && leb f.confirmed_offset offset) _ _ λ whole.
              let same : offset ≡ f.size = ground arith in
              Ensures-ok _ (
                anchored_derived env q transfer_id file_id b _ (
                  keep_derived-Kept env q transfer_id file_id b f _ hb hf (
                    mark_timing-FileMove env transfer_id file_id q _ false f _ now_ok
                      (rw same (verifying-FileMove f active)))))

  pub begin_finalization-Kept :
      (transfer_id file_id path : String)
      → Ensures (Kept q) (begin_finalization env q transfer_id file_id path)
  unfolding begin_finalization
  begin_finalization-Kept transfer_id file_id path = Ensures-guard (not (str_eq path "")) _ _ λ _.
      Ensures-bind (find_batch q transfer_id) _ λ b hb.
        Ensures-bind (find_in_batch b file_id) _ λ f hf.
          Ensures-guard (is_verifying f.status || is_finalizing f.status) _ _ λ verified.
            Ensures-ok _ (
              anchored_derived env q transfer_id file_id b _ (
                keep_derived-Kept env q transfer_id file_id b f _ hb hf (
                  mark_timing-FileMove env transfer_id file_id q _ false f _ now_ok (
                    mark_timing-FileMove env transfer_id file_id q _ true f _ now_ok
                      (finalizing-FileMove f (some path) verified)))))

  pub mark_stage-Kept :
      (transfer_id file_id stage : String) (end : Bool)
      → Ensures (Kept q) (mark_stage env q transfer_id file_id stage end)
  unfolding mark_stage mark_timing
  mark_stage-Kept transfer_id file_id stage end = Ensures-bind (find_batch q transfer_id) _ λ b hb.
      Ensures-bind (find_in_batch b file_id) _ λ f hf. Ensures-ok _ (
        anchored_touched env q transfer_id file_id b _ (
          keep_touched-Kept env q transfer_id file_id b f _ hb hf
            (mark_timing-FileMove env transfer_id file_id q stage end f f now_ok (FileMove-refl f))
            (same_status-IsClosed b file_id f _ hf refl)))

module _ (env : Env) (q : Queue) where
  pub fail-Kept :
      (transfer_id file_id code : String) → Ensures (Kept q) (fail env q transfer_id file_id code)
  unfolding fail failed_file
  fail-Kept transfer_id file_id code = Ensures-bind (find_batch q transfer_id) _ λ b hb.
      Ensures-bind (find_in_batch b file_id) _ λ f hf.
        Ensures-ok _ (elim (Bool-cases (is_terminal_file f.status)) [
          | inl done ↦ rw done (Kept-refl q)
          | inr unfinished ↦ rw unfinished (
              keep_derived-Kept env q transfer_id file_id b f _ hb hf
                (failed-FileMove f (some code) none unfinished))
        ])

  pub set_destination_path-Kept :
      (transfer_id file_id path : String)
      → Ensures (Kept q) (set_destination_path env q transfer_id file_id path)
  unfolding set_destination_path
  set_destination_path-Kept transfer_id file_id path = Ensures-guard (not (str_eq path "")) _ _ λ _.
      Ensures-bind (find_batch q transfer_id) _ λ b hb.
        Ensures-bind (find_in_batch b file_id) _ λ f hf. Ensures-ok _ (
          keep_touched-Kept env q transfer_id file_id b f _ hb hf
            (destination-FileMove f (some path)) (same_status-IsClosed b file_id f _ hf refl))

  pub associate_source_device-Kept :
      (transfer_id device : String)
      → Ensures (Kept q) (associate_source_device env q transfer_id device)
  unfolding associate_source_device
  associate_source_device-Kept transfer_id device =
      Ensures-bind (find_batch q transfer_id) _ λ b hb.
        Ensures-ok _ (elim (Option-cases b.source_device_id) [
          | inl unknown ↦ rw unknown (
              put_batch-Kept q transfer_id b _ hb (record {
                same_transfer = refl;
                files_move = FileMoves-refl b.files;
                closed = λ c. c;
              }))
          | inr (d, known) ↦ rw known (Kept-refl q)
        ])
