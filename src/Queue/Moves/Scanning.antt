-- ===== src/Queue/Moves/Scanning.antt =====
-- The loop of `recoverInterrupted` of src/transfer/transfer-queue.ts over the batches: moves, and
-- what is on disk.
use mathlib.Core.List.{append_assoc, append-nil}
use vidyut.Prelude.{
  ℕ, ◌≡◌, refl, sym, ap, subst, ◌∙◌, String, Bool, true, false, ◌||◌, ◌⊎◌, List, [], ◌∷◌, ◌++◌,
  arith, Bool-cases, inl, inr,
}
use vidyut.Paths.{NodePath}
use vidyut.Queue.Types.{TransferBatchRecord, TransferQueueSnapshot, is_terminal_batch}
use vidyut.Queue.Timing.{Env}
use vidyut.Queue.Batch.{derive_batch_status, touch}
use vidyut.Queue.Store.{Queue, persist}
use vidyut.Queue.Recover.{
  Walk, Scan, recover_files, recover_batch, recover_batches, recover_interrupted, derive_if,
  walked_batch, opened,
}
use vidyut.Queue.Moves.{
  FileMoves, BatchMove, BatchMove-refl, BatchMoves, BatchMoves-append, IsClosed,
  derived_status-terminal,
}
use vidyut.Queue.Moves.Batches.{Kept, on_disk}
use vidyut.Queue.Moves.Recovery.{WalkOk, walk-Ok}

module _ (now : ℕ) (b : TransferBatchRecord) (w : Walk) where
  walked-BatchMove :
      w.header.transfer_id ≡ b.transfer_id
      → FileMoves b.files w.done
      → (w.changed ≡ true) ⊎ IsClosed (record w.header { files = w.done })
      → BatchMove b (walked_batch now w)
  unfolding derive_batch_status touch
  walked-BatchMove same m c = elim (Bool-cases w.changed) [
    | inl changed ↦
        rw (changed, derive_if)
          (record {
            same_transfer = same;
            files_move = m;
            closed = λ _ h. derived_status-terminal w.done h;
          })
    | inr settled ↦
        rw (settled, derive_if)
          (record {
            same_transfer = same;
            files_move = m;
            closed = λ _. elim c [ inl e ↦ absurd (cc (e, settled)) | inr k ↦ k ];
          })
  ]

module _ (loaded : TransferQueueSnapshot) (q : Queue) where
  record ScanOk (s : Scan) (bs : List TransferBatchRecord) : Type 0 where
    behind : List TransferBatchRecord
    split : q.batches ≡ behind ++ bs
    moved : BatchMoves behind s.scanned
    same_version : s.queue.state.v ≡ q.state.v
    settled :
        (s.changed ≡ true)
        ⊎ (on_disk loaded s.queue.saved ≡ record { v = q.state.v; batches = s.scanned ++ bs })

module _ (paths : NodePath) (shares : String → String → Bool) (env : Env)
    (loaded : TransferQueueSnapshot) (q : Queue) where
  abbrev Seen : Scan → List TransferBatchRecord → Type 0
  Seen = ScanOk loaded q

  module _ (b : TransferBatchRecord) (bs : List TransferBatchRecord) (s : Scan)
      (o : Seen s (b ∷ bs)) (live : is_terminal_batch b.status ≡ false) where
    abbrev start : Walk
    start = record { done = []; header = b; changed = false; queue = s.queue }

    abbrev walked : Walk
    walked = recover_files paths shares env s.scanned bs b.files start

    start_ok : WalkOk loaded q.state.v s.changed s.scanned bs b start b.files
    start_ok = record {
      same_transfer = refl;
      behind = [];
      split = refl;
      moved = tt;
      same_version = o.same_version;
      settled = inr (λ h. absurd (cc (h, live)), o.settled);
    }

    done_ok : WalkOk loaded q.state.v s.changed s.scanned bs b walked []
    done_ok =
        walk-Ok paths shares env loaded q.state.v s.changed s.scanned bs b b.files start start_ok

    walked_files :
        record walked.header { files = walked.done ++ [] }
        ≡ record walked.header { files = walked.done }
    walked_files = ap (λ l. record walked.header { files = l }) (append-nil walked.done)

    walked_move : BatchMove b (walked_batch env.now walked)
    walked_move =
        walked-BatchMove env.now b walked done_ok.same_transfer
          (subst (λ l. FileMoves l walked.done) (sym (done_ok.split ∙ append-nil done_ok.behind))
            done_ok.moved)
          (elim done_ok.settled [ inl e ↦ inl e | inr r ↦ inr (subst IsClosed walked_files r.0) ])

    walked_settled :
        ((s.changed || walked.changed) ≡ true)
        ⊎ (on_disk loaded walked.queue.saved ≡ record {
          v = q.state.v;
          batches = (s.scanned ++ (walked_batch env.now walked ∷ [])) ++ bs;
        })
    walked_settled = elim (Bool-cases walked.changed) [
      | inl e ↦ inl (ground arith)
      | inr e ↦ elim done_ok.settled [
        | inl c ↦ absurd (cc (c, e))
        | inr r ↦ elim r.1 [
          | inl stale ↦ inl (ground arith)
          | inr disk ↦ inr (
              rw (append_assoc, e)
                (subst
                  (λ c.
                    on_disk loaded walked.queue.saved
                    ≡ record { v = q.state.v; batches = s.scanned ++ (c ∷ bs) })
                  walked_files disk))
        ]
      ]
    ]

  batch_ok :
      (b : TransferBatchRecord) (bs : List TransferBatchRecord) (s : Scan)
      → Seen s (b ∷ bs)
      → Seen (recover_batch paths shares env b bs s) bs
  unfolding recover_batch
  batch_ok b bs s o = elim (Bool-cases (is_terminal_batch b.status)) [
    | inl finished ↦ rw finished (record {
      behind = o.behind ++ (b ∷ []);
      split = o.split ∙ sym (append_assoc o.behind (b ∷ []) bs);
      moved = BatchMoves-append o.behind s.scanned (b ∷ []) (b ∷ []) o.moved (BatchMove-refl b, tt);
      same_version = o.same_version;
      settled = rw append_assoc o.settled;
    })
    | inr live ↦ rw live (record {
      behind = o.behind ++ (b ∷ []);
      split = o.split ∙ sym (append_assoc o.behind (b ∷ []) bs);
      moved =
          BatchMoves-append o.behind s.scanned (b ∷ []) _ o.moved (walked_move b bs s o live, tt);
      same_version = (done_ok b bs s o live).same_version;
      settled = walked_settled b bs s o live;
    })
  ]

  batches_ok :
      (bs : List TransferBatchRecord) (s : Scan)
      → Seen s bs
      → Seen (recover_batches paths shares env bs s) []
  unfolding recover_batches
  batches_ok [] s o = o
  batches_ok (b ∷ bs) s o = batches_ok bs _ (batch_ok b bs s o)

module _ (paths : NodePath) (shares : String → String → Bool) (env : Env)
    (s : TransferQueueSnapshot) where
  abbrev scanned : Scan
  scanned =
      recover_batches paths shares env s.batches
        (record { scanned = []; changed = false; queue = opened s })

  scanned_ok : (loaded : TransferQueueSnapshot) → loaded ≡ s → ScanOk loaded (opened s) scanned []
  scanned_ok loaded e =
      batches_ok paths shares env loaded (opened s) s.batches _
        (record { behind = []; split = refl; moved = tt; same_version = refl; settled = inr e })

  scanned_moves : BatchMoves s.batches scanned.scanned
  scanned_moves =
      let o = scanned_ok s refl in
      subst (λ l. BatchMoves l scanned.scanned) (sym (o.split ∙ append-nil o.behind)) o.moved

  pub recover_interrupted-Kept : Kept (opened s) (recover_interrupted paths shares env (opened s))
  unfolding recover_interrupted persist
  recover_interrupted-Kept = elim (Bool-cases scanned.changed) [
    | inl changed ↦ rw changed (record {
      moves = scanned_moves;
      version = (scanned_ok s refl).same_version;
      durable = λ loaded e. refl;
    })
    | inr kept ↦ rw kept (record {
      moves = scanned_moves;
      version = (scanned_ok s refl).same_version;
      durable = λ loaded e. elim (scanned_ok loaded e).settled [
        | inl c ↦ absurd (cc (c, kept))
        | inr disk ↦
            disk
            ∙ ap (λ l. record { v = s.v; batches = l }) (append-nil scanned.scanned)
            ∙ ap (λ v. record { v = v; batches = scanned.scanned })
                (sym (scanned_ok loaded e).same_version)
      ];
    })
  ]
