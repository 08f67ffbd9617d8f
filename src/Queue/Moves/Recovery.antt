-- ===== src/Queue/Moves/Recovery.antt =====
-- The loop of `recoverInterrupted` of src/transfer/transfer-queue.ts over the files of a batch:
-- moves, and what is on disk.
use vidyut.Prelude.{
  ℕ, ◌≡◌, refl, sym, ap, subst, ◌∙◌, String, Bool, true, ◌⊎◌, List, [], ◌∷◌, ◌++◌, arith, inl, inr,
}
use mathlib.Core.List.{append_assoc}
use vidyut.Paths.{NodePath}
use vidyut.Queue.Types.{TransferFileRecord, TransferBatchRecord, TransferQueueSnapshot}
use vidyut.Queue.Timing.{Env}
use vidyut.Queue.Batch.{derive_batch_status, touch}
use vidyut.Queue.Store.{persist}
use vidyut.Queue.Recover.{Recovery, Walk, recover_file, recover_round, recover_files, at_batch}
use vidyut.Queue.Moves.{FileMoves, FileMoves-append, IsClosed, derived_status-terminal}
use vidyut.Queue.Moves.Changes.{recover_file-FileMove}
use vidyut.Queue.Moves.Batches.{on_disk}

kept_file :
    (paths : NodePath) (shares : String → String → Bool) (f : TransferFileRecord)
    → (recover_file paths shares f).1 ≡ Recovery.kept
    → (recover_file paths shares f).0 ≡ f
unfolding recover_file
kept_file paths shares f h = ground arith

data Kind (k : Recovery) : Type 0 where
  is_kept : k ≡ Recovery.kept → Kind k
  is_altered : k ≡ Recovery.altered → Kind k
  is_published : k ≡ Recovery.published → Kind k

Kind-of : (k : Recovery) → Kind k
Kind-of Recovery.kept = is_kept refl
Kind-of Recovery.altered = is_altered refl
Kind-of Recovery.published = is_published refl

-- The batch as the walk has it, with `fs` still to come.
abbrev whole_batch : Walk → List TransferFileRecord → TransferBatchRecord
whole_batch w fs = record w.header { files = w.done ++ fs }

module _ (loaded : TransferQueueSnapshot) (version : ℕ) (stale : Bool)
    (before after : List TransferBatchRecord) (b : TransferBatchRecord) where
  pub record WalkOk (w : Walk) (fs : List TransferFileRecord) : Type 0 where
    pub same_transfer : w.header.transfer_id ≡ b.transfer_id
    pub behind : List TransferFileRecord
    pub split : b.files ≡ behind ++ fs
    pub moved : FileMoves behind w.done
    pub same_version : w.queue.state.v ≡ version
    pub settled :
        (w.changed ≡ true)
        ⊎ (IsClosed (whole_batch w fs)
            × ((stale ≡ true)
                ⊎ (on_disk loaded w.queue.saved
                    ≡ record { v = version; batches = before ++ (whole_batch w fs ∷ after) })))

module _ (paths : NodePath) (shares : String → String → Bool) (env : Env)
    (loaded : TransferQueueSnapshot) (version : ℕ) (stale : Bool)
    (before after : List TransferBatchRecord) (b : TransferBatchRecord) where
  abbrev Ok : Walk → List TransferFileRecord → Type 0
  Ok = WalkOk loaded version stale before after b

  abbrev recovered : TransferFileRecord → TransferFileRecord
  recovered f = (recover_file paths shares f).0

  module _ (f : TransferFileRecord) (fs : List TransferFileRecord) (w : Walk)
      (o : Ok w (f ∷ fs)) where
    abbrev next : Walk
    next = recover_round paths shares env before after f fs w

    split_next : b.files ≡ (o.behind ++ (f ∷ [])) ++ fs
    split_next = o.split ∙ sym (append_assoc o.behind (f ∷ []) fs)

    moved_next : FileMoves (o.behind ++ (f ∷ [])) (w.done ++ (recovered f ∷ []))
    moved_next =
        FileMoves-append o.behind w.done (f ∷ []) (recovered f ∷ []) o.moved
          (recover_file-FileMove paths shares f, tt)

    -- The batch that the walk shows is the same, whichever side of the split `f` stands on.
    shown :
        (h : TransferBatchRecord) (g : TransferFileRecord)
        → record h { files = (w.done ++ (g ∷ [])) ++ fs } ≡ record h { files = w.done ++ (g ∷ fs) }
    shown h g = ap (λ l. record h { files = l }) (append_assoc w.done (g ∷ []) fs)

    abbrev snapshot_with : ℕ → TransferBatchRecord → TransferQueueSnapshot
    snapshot_with v c = record { v = v; batches = before ++ (c ∷ after) }

    abbrev Shown : TransferBatchRecord → TransferQueueSnapshot → Type 0
    Shown c disk = IsClosed c × ((stale ≡ true) ⊎ (disk ≡ snapshot_with version c))

    abbrev Settled : Bool → TransferBatchRecord → TransferQueueSnapshot → Type 0
    Settled changed c disk = (changed ≡ true) ⊎ Shown c disk

    kept-Settled :
        (recover_file paths shares f).1 ≡ Recovery.kept
        → Settled w.changed
            (record w.header { files = (w.done ++ (recovered f ∷ [])) ++ fs })
            (on_disk loaded w.queue.saved)
    kept-Settled e = rw (kept_file paths shares f e) (
        subst (λ c. Settled w.changed c (on_disk loaded w.queue.saved)) (sym (shown w.header f))
          o.settled)

    abbrev published_batch : TransferBatchRecord
    published_batch =
        derive_batch_status env.now (record w.header { files = w.done ++ (recovered f ∷ fs) })

    published-Settled :
        Settled w.changed
          (record published_batch { files = (w.done ++ (recovered f ∷ [])) ++ fs })
          (snapshot_with w.queue.state.v published_batch)
    unfolding derive_batch_status touch
    published-Settled = inr (
        subst (λ c. Shown c (snapshot_with w.queue.state.v published_batch))
          (sym (shown published_batch (recovered f)))
          (derived_status-terminal _, inr (rw o.same_version)))

    round-Ok : Ok next fs
    unfolding recover_round persist at_batch
    round-Ok = elim (Kind-of (recover_file paths shares f).1) [
      | is_kept e ↦
          rw (e, recover_round)
            (record {
              same_transfer = o.same_transfer;
              behind = o.behind ++ (f ∷ []);
              split = split_next;
              moved = moved_next;
              same_version = o.same_version;
              settled = kept-Settled e;
            })
      | is_altered e ↦
          rw (e, recover_round)
            (record {
              same_transfer = o.same_transfer;
              behind = o.behind ++ (f ∷ []);
              split = split_next;
              moved = moved_next;
              same_version = o.same_version;
              settled = inl refl;
            })
      | is_published e ↦
          rw (e, recover_round)
            (record {
              same_transfer = unfold derive_batch_status touch in o.same_transfer;
              behind = o.behind ++ (f ∷ []);
              split = split_next;
              moved = moved_next;
              same_version = o.same_version;
              settled = published-Settled;
            })
    ]

  pub walk-Ok :
      (fs : List TransferFileRecord) (w : Walk)
      → Ok w fs
      → Ok (recover_files paths shares env before after fs w) []
  unfolding recover_files
  walk-Ok [] w o = o
  walk-Ok (f ∷ fs) w o = walk-Ok fs _ (round-Ok f fs w o)
