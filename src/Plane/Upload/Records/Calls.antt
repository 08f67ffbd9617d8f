-- ===== src/Plane/Upload/Records/Calls.antt =====
-- What the calls on the queue leave of the file that an upload of src/transfer/laptop-data-plane.ts
-- is for.
use vidyut.Prelude.{
  ◌≤◌, ℕ, ◌≡◌, refl, String, Bool, true, false, Option, none, some, ok, arith, Bool-cases, inl, inr,
  if◌then◌else◌, Ensures, Ensures-bind, Ensures-ok, Ensures-guard, or_throw, or_throw-eq-ok, not,
  ◌||◌, ◌&&◌, str_eq, leb, ◌==◌,
}
use vidyut.Wire.Types.{max_safe_integer, TransferDirection}
use vidyut.Wire.Number.{natural?-natural, Number, natural, natural?}
use vidyut.Queue.Types.{
  TransferFileRecord, TransferFileStatus, is_active, is_verifying, is_finalizing, is_terminal_file,
  is_completed, is_queued, in_flight,
}
use vidyut.Queue.Timing.{Env}
use vidyut.Queue.Store.{Queue, find_batch, find_in_batch, set_anchor, mark_timing}
use vidyut.Queue.Progress.{
  keep_derived, keep_touched, mark_stage, confirm_progress, next_offset, next_chunk,
  begin_verification, begin_finalization, complete, final_sha256, completed_file, fail, failed_file,
}
use vidyut.Queue.Control.{pause, pause_files, change_files, paused_file}
use vidyut.Queue.Progress.Outcomes.{digest_parts}
use vidyut.Queue.Progress.Confirmed.{offset_parts}
use vidyut.Plane.Upload.{find_transfer}
use vidyut.Plane.Upload.Records.{
  IsSameFile, found_in, Now, found_in-Located, touched, derived, same_record,
}

next_offset-natural :
    (n : ℕ) (r : TransferFileRecord)
    → natural? (natural n) ≡ some n
    → (leb r.confirmed_offset n && leb n r.size) ≡ true
    → next_offset (natural n) r ≡ some n
unfolding next_offset
next_offset-natural n r h k = rw (h, next_offset, k)

module _ (transfer_id file_id : String) (direction : TransferDirection) where
  module _ (env : Env) (q : Queue) (r : TransferFileRecord)
      (here : found_in transfer_id file_id direction q ≡ some r) where
    pub mark_stage-Now :
        (stage : String) (end : Bool)
        → Ensures
            (Now transfer_id file_id direction (IsSameFile r.status r.confirmed_offset r))
            (mark_stage env q transfer_id file_id stage end)
    unfolding mark_stage set_anchor find_batch mark_timing find_transfer
    mark_stage-Now stage end = Ensures-bind (find_batch q transfer_id) _ λ b hb.
        Ensures-bind (find_in_batch b file_id) _ λ x hx.
          let y = mark_timing env transfer_id file_id q stage end x in
          let same = same_record transfer_id file_id direction env q r here b x hb hx in
          Ensures-ok _ (
            y,
            touched transfer_id file_id direction env (set_anchor env transfer_id file_id q) r here
                b x y hb hx refl,
            rw same (record { stands = refl; confirms = refl; offers = refl; goes_to = refl }),
          )

    pub confirm_progress-Now :
        (n : ℕ) (largest : Option Number)
        → Ensures
            (Now transfer_id file_id direction (IsSameFile r.status n r))
            (confirm_progress env q transfer_id file_id (natural n) largest)
    unfolding confirm_progress
    confirm_progress-Now n largest = Ensures-bind (find_batch q transfer_id) _ λ b hb.
        Ensures-bind (find_in_batch b file_id) _ λ x hx. Ensures-guard (is_active x.status) _ _ λ _.
          Ensures-bind (or_throw (next_offset (natural n) x) _) _ λ m hm.
            Ensures-bind (next_chunk largest x) _ λ k _.
              let y = record x { confirmed_offset = m; max_chunk_bytes = k } in
              let same = same_record transfer_id file_id direction env q r here b x hb hx in
              let (value, _, _) = offset_parts (natural n) x m (or_throw-eq-ok _ _ m hm) in
              let exact : m ≡ n = unfold natural? in ground arith in
              Ensures-ok _ (
                y,
                touched transfer_id file_id direction env q r here b x y hb hx refl,
                rw same (record { stands = refl; confirms = exact; offers = refl; goes_to = refl }),
              )

    -- An active file that is paused, by a call that names it.
    pub pause-Now :
        is_active r.status ≡ true
        → str_eq file_id "" ≡ false
        → (q' : Queue) × (pause env q transfer_id (some file_id) ≡ ok q')
          × Now transfer_id file_id direction
              (IsSameFile TransferFileStatus.paused r.confirmed_offset r)
              q'
    unfolding pause pause_files change_files paused_file find_batch find_in_batch
    pause-Now active named =
        let l = found_in-Located transfer_id file_id direction q r here in
        let paused = record r { status = TransferFileStatus.paused } in
        let both : is_queued r.status || is_active r.status ≡ true = ground (arith, active) in
        (
          keep_derived env transfer_id file_id l.holder paused q,
          rw (named, l.batch_found, l.file_found, both) refl,
          (
            paused,
            derived transfer_id file_id direction env q r here l.holder r paused
                (rw l.batch_found refl) (rw l.file_found refl) refl,
            record { stands = refl; confirms = refl; offers = refl; goes_to = refl },
          ),
        )

    pub begin_verification-Now :
        (n : ℕ)
        → Ensures
            (Now transfer_id file_id direction (IsSameFile TransferFileStatus.verifying n r))
            (begin_verification env q transfer_id file_id n)
    unfolding begin_verification set_anchor find_batch mark_timing find_transfer
    begin_verification-Now n = Ensures-bind (find_batch q transfer_id) _ λ b hb.
        Ensures-bind (find_in_batch b file_id) _ λ x hx. Ensures-guard (is_active x.status) _ _ λ _.
          Ensures-guard (n == x.size && leb x.confirmed_offset n) _ _ λ _.
            let y =
              mark_timing env transfer_id file_id q "receiver_verification" false
                (record x { confirmed_offset = n; status = TransferFileStatus.verifying }) in
            let same = same_record transfer_id file_id direction env q r here b x hb hx in
            Ensures-ok _ (
              y,
              derived transfer_id file_id direction env (set_anchor env transfer_id file_id q) r
                  here b x y hb hx refl,
              rw same (record { stands = refl; confirms = refl; offers = refl; goes_to = refl }),
            )

    pub begin_finalization-Now :
        (path : String)
        → Ensures
            (Now transfer_id file_id direction
              (IsSameFile TransferFileStatus.finalizing r.confirmed_offset r))
            (begin_finalization env q transfer_id file_id path)
    unfolding begin_finalization set_anchor find_batch mark_timing find_transfer
    begin_finalization-Now path = Ensures-guard (not (str_eq path "")) _ _ λ _.
        Ensures-bind (find_batch q transfer_id) _ λ b hb.
          Ensures-bind (find_in_batch b file_id) _ λ x hx.
            Ensures-guard (is_verifying x.status || is_finalizing x.status) _ _ λ _.
              let y = mark_timing env transfer_id file_id q "publish_finalization" false (
                mark_timing env transfer_id file_id q "receiver_verification" true (record x {
                  status = TransferFileStatus.finalizing;
                  finalizing_path = some path;
                })) in
              let same = same_record transfer_id file_id direction env q r here b x hb hx in
              Ensures-ok _ (
                y,
                derived transfer_id file_id direction env (set_anchor env transfer_id file_id q) r
                    here b x y hb hx refl,
                rw same (record { stands = refl; confirms = refl; offers = refl; goes_to = refl }),
              )

    -- The file is finished under the digest that was verified.
    pub complete-Now :
        (verified : String)
        → Ensures
            (Now transfer_id file_id direction
              (λ y. (is_completed y.status ≡ true) × (y.sha256 ≡ verified)))
            (complete env q transfer_id file_id verified)
    unfolding complete set_anchor find_batch mark_timing find_transfer completed_file
    complete-Now verified = Ensures-bind (find_batch q transfer_id) _ λ b hb.
        Ensures-bind (find_in_batch b file_id) _ λ x hx. Ensures-guard (in_flight x.status) _ _ λ _.
          Ensures-guard (x.confirmed_offset == x.size) _ _ λ _.
            Ensures-bind (final_sha256 x.sha256 verified) _ λ sha hs.
              let mark = mark_timing env transfer_id file_id q in
              let y =
                mark "durable_completion" true
                  (mark "publish_finalization" true (completed_file sha x)) in
              Ensures-ok _ (
                y,
                derived transfer_id file_id direction env (set_anchor env transfer_id file_id q) r
                    here b x y hb hx refl,
                (refl, (digest_parts x.sha256 verified sha hs).0),
              )

    pub fail-Now :
        (code : String)
        → Ensures
            (Now transfer_id file_id direction (λ y. is_active y.status ≡ false))
            (fail env q transfer_id file_id code)
    unfolding fail failed_file
    fail-Now code = Ensures-bind (find_batch q transfer_id) _ λ b hb.
        Ensures-bind (find_in_batch b file_id) _ λ x hx.
          let same = same_record transfer_id file_id direction env q r here b x hb hx in
          Ensures-ok _ (elim (Bool-cases (is_terminal_file x.status)) [
            | inl done ↦ rw done (r, here, ground arith)
            | inr unfinished ↦ rw unfinished (
              failed_file code x,
              derived transfer_id file_id direction env q r here b x _ hb hx refl,
              refl,
            )
          ])

    -- A file that is there is given up without an exception.
    pub fail_returns :
        (code : String) → (q' : Queue) × (fail env q transfer_id file_id code ≡ ok q')
    unfolding fail find_batch find_in_batch
    fail_returns code =
        let l = found_in-Located transfer_id file_id direction q r here in
        (
          (if is_terminal_file r.status
              then q
              else keep_derived env transfer_id file_id l.holder (failed_file code r) q),
          rw (l.batch_found, l.file_found),
        )

    pub mark_stage_returns :
        (stage : String) (end : Bool)
        → (q' : Queue) × (mark_stage env q transfer_id file_id stage end ≡ ok q')
    unfolding mark_stage find_batch find_in_batch
    mark_stage_returns stage end =
        let l = found_in-Located transfer_id file_id direction q r here in
        (
          keep_touched env transfer_id file_id l.holder
              (mark_timing env transfer_id file_id q stage end r)
              (set_anchor env transfer_id file_id q),
          rw (l.batch_found, l.file_found),
        )

    -- An active file takes an offset that is no lower and within the file.
    pub confirm_progress_returns :
        (n : ℕ)
        → is_active r.status ≡ true
        → r.confirmed_offset ≤ n
        → n ≤ r.size
        → r.size ≤ max_safe_integer
        → (q' : Queue) × (confirm_progress env q transfer_id file_id (natural n) none ≡ ok q')
    unfolding confirm_progress find_batch find_in_batch next_chunk
    confirm_progress_returns n active low high safe =
        let l = found_in-Located transfer_id file_id direction q r here in
        let whole = natural?-natural n (omega (arith, high, safe)) in
        let inside : leb r.confirmed_offset n && leb n r.size ≡ true = ground (arith, low, high) in
        let taken : next_offset (natural n) r ≡ some n = next_offset-natural n r whole inside in
        let y = record r { confirmed_offset = n } in
        (
          keep_touched env transfer_id file_id l.holder y q,
          rw (l.batch_found, l.file_found, active, taken),
        )
