-- ===== src/Queue/Calls/Idle.antt =====
-- Which files are in flight behind a restart of src/transfer/transfer-queue.ts.
use vidyut.Prelude.{
  ℕ, ◌≡◌, refl, ap, sym, ◌∙◌, String, Bool, true, false, ◌||◌, List, [], ◌∷◌, ◌++◌, map, some, ok,
  arith, All, any, all, Bool-cases, inl, inr,
}
use vidyut.Paths.{NodePath}
use vidyut.Queue.Types.{
  TransferFileRecord, TransferBatchRecord, TransferQueueSnapshot, in_flight, is_terminal_file,
  is_terminal_batch,
}
use vidyut.Queue.Timing.{Env}
use vidyut.Queue.Batch.{derive_batch_status, touch}
use vidyut.Queue.Store.{Queue, persist}
use vidyut.Queue.Claim.{expire, expired_batch, expired_file, is_due, has_in_flight}
use vidyut.Queue.Recover.{
  Walk, Scan, recover_file, recovered_finalizing, recover_round, recover_files, recover_batch,
  recover_batches, recover_interrupted, open_queue, opened, walked_batch,
}
use vidyut.Queue.Invariant.{IsSoundBatch, Inv, Inv-assert_snapshot}

abbrev flying : TransferFileRecord → Bool
flying f = in_flight f.status

any-append {ℓ} :
    {A : Type ℓ} (p : A → Bool) (xs ys : List A) → any p (xs ++ ys) ≡ (any p xs || any p ys)
any-append p [] ys = refl
any-append p (x ∷ xs) ys = ground (arith, any-append p xs ys)

terminal_grounded :
    (fs : List TransferFileRecord)
    → all (λ f. is_terminal_file f.status) fs ≡ true
    → any flying fs ≡ false
terminal_grounded [] h = refl
terminal_grounded (f ∷ fs) h = ground (arith, terminal_grounded fs)

none_after : (a b : Bool) → a ≡ false → b ≡ false → (a || (b || false)) ≡ false
none_after a b h k = ground arith

expired_files-grounded : (fs : List TransferFileRecord) → any flying (map expired_file fs) ≡ false
unfolding expired_file
expired_files-grounded [] = refl
expired_files-grounded (f ∷ fs) = ground (arith, expired_files-grounded fs)

expired_batch-grounded :
    (now : ℕ) (b : TransferBatchRecord)
    → has_in_flight b ≡ false
    → has_in_flight (expired_batch now b) ≡ false
unfolding expired_batch
expired_batch-grounded now b h = elim (Bool-cases (is_due now b)) [
  | inl due ↦ rw due (expired_files-grounded b.files)
  | inr live ↦ rw live h
]

expired-grounded :
    (now : ℕ) (bs : List TransferBatchRecord)
    → any has_in_flight bs ≡ false
    → any has_in_flight (map (expired_batch now) bs) ≡ false
expired-grounded now [] h = refl
expired-grounded now (b ∷ bs) h =
    ground (arith, expired_batch-grounded now b, expired-grounded now bs)

expire-grounded :
    (env : Env) (q : Queue)
    → any has_in_flight q.batches ≡ false
    → any has_in_flight (expire env q).batches ≡ false
unfolding expire persist
expire-grounded env q h = elim (Bool-cases (any (is_due env.now) q.batches)) [
  | inl due ↦ rw due (expired-grounded env.now q.batches h)
  | inr live ↦ rw live h
]

module _ (paths : NodePath) (shares_inode : String → String → Bool) where
  recover_file-grounded :
      (f : TransferFileRecord) → flying (recover_file paths shares_inode f).0 ≡ false
  unfolding recover_file recovered_finalizing
  recover_file-grounded f = ground arith

  round_done :
      (env : Env) (before after : List TransferBatchRecord) (f : TransferFileRecord)
      (fs : List TransferFileRecord) (w : Walk)
      → (recover_round paths shares_inode env before after f fs w).done
        ≡ w.done ++ ((recover_file paths shares_inode f).0 ∷ [])
  unfolding recover_round
  round_done env before after f fs w = ground arith

  walk_grounded :
      (env : Env) (before after : List TransferBatchRecord) (fs : List TransferFileRecord)
      (w : Walk)
      → any flying w.done ≡ false
      → any flying (recover_files paths shares_inode env before after fs w).done ≡ false
  unfolding recover_files
  walk_grounded env before after [] w h = h
  walk_grounded env before after (f ∷ fs) w h = walk_grounded env before after fs _ (
      ap (any flying) (round_done env before after f fs w)
      ∙ (any-append flying w.done _ ∙ ground (arith, recover_file-grounded f)))

  derived_files : (env : Env) (w : Walk) → (walked_batch env.now w).files ≡ w.done
  unfolding derive_batch_status touch
  derived_files env w = ground arith

  batch_grounded :
      (env : Env) (b : TransferBatchRecord) (bs : List TransferBatchRecord) (s : Scan)
      → IsSoundBatch b
      → any has_in_flight s.scanned ≡ false
      → any has_in_flight (recover_batch paths shares_inode env b bs s).scanned ≡ false
  unfolding recover_batch
  batch_grounded env b bs s sound h = elim (Bool-cases (is_terminal_batch b.status)) [
    | inl e ↦ rw e (
        any-append has_in_flight s.scanned (b ∷ [])
        ∙ ground (arith, h, terminal_grounded b.files (sound.closed e)))
    | inr e ↦
        let start : Walk = record { done = []; header = b; changed = false; queue = s.queue } in
        let w = recover_files paths shares_inode env s.scanned bs b.files start in
        rw e (
          any-append has_in_flight s.scanned (walked_batch env.now w ∷ [])
          ∙ none_after _ _ h (
              ap (any flying) (derived_files env w)
              ∙ walk_grounded env s.scanned bs b.files start refl))
  ]

  batches_grounded :
      (env : Env) (bs : List TransferBatchRecord) (s : Scan)
      → All IsSoundBatch bs
      → any has_in_flight s.scanned ≡ false
      → any has_in_flight (recover_batches paths shares_inode env bs s).scanned ≡ false
  unfolding recover_batches
  batches_grounded env [] s sound h = h
  batches_grounded env (b ∷ bs) s sound h =
      batches_grounded env bs _ sound.1 (batch_grounded env b bs s sound.0 h)

  recovered_batches :
      (env : Env) (q : Queue)
      → (recover_interrupted paths shares_inode env q).batches
        ≡ (recover_batches paths shares_inode env q.batches
            (record { scanned = []; changed = false; queue = q })).scanned
  unfolding recover_interrupted persist
  recovered_batches env q = ground arith

  -- The queue that opens from a snapshot that keeps the invariant has no file in flight: what was
  -- interrupted is queued again, failed, or completed where it had been published.
  pub open_queue-idle :
      (first env : Env) (s : TransferQueueSnapshot) (q : Queue)
      → Inv s
      → open_queue paths shares_inode first env (some s) ≡ ok q
      → any has_in_flight q.batches ≡ false
  unfolding open_queue
  open_queue-idle first env s q i h =
      let r = recover_interrupted paths shares_inode first (opened s) in
      let same : expire env r ≡ q = cc (rw (Inv-assert_snapshot s i) at h) in
      ap (λ x. any has_in_flight x.batches) (sym same)
      ∙ expire-grounded env r (
          ap (any has_in_flight) (recovered_batches first (opened s))
          ∙ batches_grounded first s.batches _ i.batches_sound refl)
