-- ===== src/Queue/Claim/Enqueued.antt =====
-- The batches that `enqueue` and `acceptOffer` of src/transfer/transfer-queue.ts append, and the
-- invariant.
use vidyut.Prelude.{
  all_distinct, ℕ, suc, ◌≡◌, refl, String, true, false, not, ◌&&◌, List, [], ◌∷◌, Option, arith,
  All, All-append, ok, Ensures, Ensures-bind, Ensures-ok, Bool-cases, inl, inr, and_split,
}
use vidyut.Wire.Types.{TransferDirection}
use vidyut.Queue.Types.{
  TransferFileRecord, TransferBatchRecord, TransferQueueSnapshot, is_queued, is_terminal_batch,
}
use vidyut.Queue.Timing.{Env}
use vidyut.Queue.Batch.{assert_batch, assert_files, progress_ok, timing_ok, file_ids, is_empty}
use vidyut.Queue.Store.{Queue, persist}
use vidyut.Queue.Claim.{
  EnqueueTransferFile, enqueue, queued_file, queued_files, queued_batch, push_batch,
}
use vidyut.Queue.Claim.Flight.{all_flights-append}
use vidyut.Queue.Moves.{IsSound}
use vidyut.Queue.Moves.Batches.{on_disk}
use vidyut.Queue.Tracks.{Tracks, append-Tracks}
use vidyut.Queue.Invariant.{flights, IsSoundBatch, Inv}

abbrev pub IsQueued : TransferFileRecord → Type 0
IsQueued f = is_queued f.status ≡ true

assert_files-IsSound :
    (fs : List TransferFileRecord) → All IsQueued fs → assert_files fs ≡ ok tt → All IsSound fs
unfolding assert_files
assert_files-IsSound [] a h = tt
assert_files-IsSound (f ∷ fs) a h = elim (Bool-cases (progress_ok f)) [
  | inr bad ↦ absurd (ground arith)
  | inl good ↦ elim (Bool-cases (timing_ok f)) [
    | inr bad ↦ absurd (ground arith)
    | inl fine ↦ (
      record { progress = good; timing = fine; whole = λ w. absurd (ground arith) },
      assert_files-IsSound fs a.1 (ground arith),
    )
  ]
]

queued-flights : (fs : List TransferFileRecord) → All IsQueued fs → flights fs ≡ 0
queued-flights [] a = refl
queued-flights (f ∷ fs) a = ground (arith, queued-flights fs a.1)

pub asserted-IsSoundBatch :
    (b : TransferBatchRecord)
    → All IsQueued b.files
    → is_terminal_batch b.status ≡ false
    → assert_batch b ≡ ok tt
    → IsSoundBatch b
unfolding assert_batch
asserted-IsSoundBatch b a live h =
    elim (Bool-cases (not (is_empty b.files) && all_distinct (file_ids b.files))) [
      | inr bad ↦ absurd (ground arith)
      | inl good ↦ record {
        some_files = ground arith;
        distinct = (and_split (not (is_empty b.files)) _ good).1;
        files_sound = assert_files-IsSound b.files a (ground arith);
        closed = λ e. absurd (cc (e, live));
      }
    ]

pub push_batch-Inv :
    (b : TransferBatchRecord) (q : Queue)
    → IsSoundBatch b
    → All IsQueued b.files
    → Inv q.state
    → Inv (push_batch b q).state
unfolding push_batch
push_batch-Inv b q s a i = record {
  version = i.version;
  batches_sound = All-append IsSoundBatch q.batches (b ∷ []) i.batches_sound (s, tt);
  single_flight =
      omega
        (arith, all_flights-append q.batches (b ∷ []), queued-flights b.files a, i.single_flight);
}

queued_files-IsQueued :
    (env : Env) (n : ℕ) (es : List EnqueueTransferFile) → All IsQueued (queued_files env n es)
unfolding queued_files queued_file
queued_files-IsQueued env n [] = tt
queued_files-IsQueued env n (e ∷ es) = (refl, queued_files-IsQueued env (suc n) es)

-- What an operation that appends a batch ensures: the invariant, a storage in step, and files that
-- move as they may.
pub record Grown {A : Type 0} (q : Queue) (r : A × Queue) : Type 0 where
  pub keeps : Inv q.state → Inv (r.1).state
  pub durable :
      (loaded : TransferQueueSnapshot)
      → on_disk loaded q.saved ≡ q.state
      → on_disk loaded (r.1).saved ≡ (r.1).state
  pub tracks : Tracks q.batches (r.1).batches

pub pushed-Grown :
    (b : TransferBatchRecord) (q : Queue)
    → All IsQueued b.files
    → is_terminal_batch b.status ≡ false
    → assert_batch b ≡ ok tt
    → Grown q (b, push_batch b q)
unfolding push_batch persist
pushed-Grown b q a live h = record {
  keeps = push_batch-Inv b q (asserted-IsSoundBatch b a live h) a;
  durable = λ loaded d. refl;
  tracks = append-Tracks q.batches (b ∷ []);
}

queued_batch-IsQueued :
    (env : Env) (direction : TransferDirection) (origin : String) (es : List EnqueueTransferFile)
    (device : Option String)
    → All IsQueued (queued_batch env direction origin es device).files
unfolding queued_batch
queued_batch-IsQueued env direction origin es device = queued_files-IsQueued env 2 es

queued_batch-live :
    (env : Env) (direction : TransferDirection) (origin : String) (es : List EnqueueTransferFile)
    (device : Option String)
    → is_terminal_batch (queued_batch env direction origin es device).status ≡ false
unfolding queued_batch
queued_batch-live env direction origin es device = refl

pub enqueue-Grown :
    (env : Env) (q : Queue) (direction : TransferDirection) (origin : String)
    (files : List EnqueueTransferFile) (device : Option String)
    → Ensures (Grown q) (enqueue env q direction origin files device)
unfolding enqueue
enqueue-Grown env q direction origin [] device = record { apply = λ a h. absurd (cc h) }
enqueue-Grown env q direction origin (e ∷ es) device =
    let b = queued_batch env direction origin (e ∷ es) device in
    Ensures-bind (assert_batch b) _ λ u h. Ensures-ok _ (
      pushed-Grown b q (queued_batch-IsQueued env direction origin (e ∷ es) device)
        (queued_batch-live env direction origin (e ∷ es) device) h)
