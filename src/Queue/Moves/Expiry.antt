-- ===== src/Queue/Moves/Expiry.antt =====
-- `expire` of src/transfer/transfer-queue.ts, as a move of the queue.
use vidyut.Prelude.{
  ℕ, ◌≡◌, refl, true, false, List, [], ◌∷◌, map, all, All-All, arith, Bool-cases, inl, inr, any,
  and_join,
}
use vidyut.Queue.Types.{TransferFileRecord, TransferBatchRecord, is_terminal_file}
use vidyut.Queue.Timing.{Env}
use vidyut.Queue.Store.{Queue, persist}
use vidyut.Queue.Claim.{expire, expired_batch, expired_file, is_due}
use vidyut.Queue.Moves.{BatchMove, BatchMove-refl, BatchMoves-map, FileMoves-map}
use vidyut.Queue.Moves.Changes.{expired_file-FileMove}
use vidyut.Queue.Moves.Batches.{Kept, Kept-refl}

expired_file-terminal : (f : TransferFileRecord) → is_terminal_file (expired_file f).status ≡ true
unfolding expired_file
expired_file-terminal f = ground arith

pub expired_files-terminal :
    (fs : List TransferFileRecord)
    → all (λ f. is_terminal_file f.status) (map expired_file fs) ≡ true
expired_files-terminal [] = refl
expired_files-terminal (f ∷ fs) = and_join _ _ (expired_file-terminal f) (expired_files-terminal fs)

pub expired_batch-BatchMove :
    (now : ℕ) (b : TransferBatchRecord) → BatchMove b (expired_batch now b)
unfolding expired_batch
expired_batch-BatchMove now b = elim (Bool-cases (is_due now b)) [
  | inl due ↦ rw due (record {
    same_transfer = refl;
    files_move =
        FileMoves-map expired_file (λ f. Unit) b.files (λ f _. expired_file-FileMove f)
          (All-All _ (λ f. tt) b.files);
    closed = λ _ _. expired_files-terminal b.files;
  })
  | inr live ↦ rw live (BatchMove-refl b)
]

pub expire-Kept : (env : Env) (q : Queue) → Kept q (expire env q)
unfolding expire persist
expire-Kept env q = elim (Bool-cases (any (is_due env.now) q.batches)) [
  | inl due ↦ rw due (record {
    moves = BatchMoves-map (expired_batch env.now) q.batches (expired_batch-BatchMove env.now);
    version = refl;
    durable = λ loaded h. refl;
  })
  | inr live ↦ rw live (Kept-refl q)
]

expired_batch-not_due :
    (now : ℕ) (b : TransferBatchRecord) → is_due now (expired_batch now b) ≡ false
unfolding expired_batch
expired_batch-not_due now b = elim (Bool-cases (is_due now b)) [
  | inl due ↦ rw (due, expired_batch) refl
  | inr live ↦ rw (live, expired_batch) live
]

none_due :
    (now : ℕ) (bs : List TransferBatchRecord)
    → any (is_due now) (map (expired_batch now) bs) ≡ false
none_due now [] = refl
none_due now (b ∷ bs) = rw (expired_batch-not_due now b) (none_due now bs)

-- Behind `expire` no batch is due, and a second call at the same reading of the clock changes nothing.
pub expire-settled :
    (env : Env) (q : Queue)
    → (any (is_due env.now) (expire env q).batches ≡ false)
      × (expire env (expire env q) ≡ expire env q)
unfolding expire persist
expire-settled env q = elim (Bool-cases (any (is_due env.now) q.batches)) [
  | inl due ↦
      let settled = none_due env.now q.batches in
      (rw (due, expire) settled, rw (due, expire) (rw (settled, expire) refl))
  | inr live ↦ (rw (live, expire) live, rw (live, expire) (rw (live, expire) refl))
]
