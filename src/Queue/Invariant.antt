-- ===== src/Queue/Invariant.antt =====
-- The invariant of the queue of src/transfer/transfer-queue.ts, against moves and the check of a
-- reload.
use vidyut.Prelude.{
  all_distinct, ℕ, ◌+◌, ◌≤◌, ◌≡◌, refl, ◌∙◌, Bool, true, false, List, [], ◌∷◌, ok, arith, All,
}
use vidyut.Queue.Types.{TransferFileRecord, TransferBatchRecord, TransferQueueSnapshot, in_flight}
use vidyut.Queue.Batch.{
  assert_files, assert_batch, assert_batches, assert_snapshot, file_ids, is_empty,
}
use vidyut.Queue.Moves.{FileMove, FileMoves, BatchMove, BatchMoves, IsSound, IsClosed}

-- How many files are being transferred, verified or finalised.
abbrev one_if : Bool → ℕ
one_if true = 1
one_if false = 0

abbrev pub flights : List TransferFileRecord → ℕ
flights [] = 0
flights (f ∷ fs) = one_if (in_flight f.status) + flights fs

abbrev pub all_flights : List TransferBatchRecord → ℕ
all_flights [] = 0
all_flights (b ∷ bs) = flights b.files + all_flights bs

-- A batch with files, of distinct identifiers, each sound, and all finished if the batch is.
pub record IsSoundBatch (b : TransferBatchRecord) : Type 0 where
  pub some_files : is_empty b.files ≡ false
  pub distinct : all_distinct (file_ids b.files) ≡ true
  pub files_sound : All IsSound b.files
  pub closed : IsClosed b

pub record Inv (s : TransferQueueSnapshot) : Type 0 where
  pub version : s.v ≡ 1
  pub batches_sound : All IsSoundBatch s.batches
  pub single_flight : all_flights s.batches ≤ 1

may_step-flight :
    (f g : TransferFileRecord)
    → FileMove f g
    → one_if (in_flight g.status) ≤ one_if (in_flight f.status)
may_step-flight f g m = ground arith

pub FileMoves-flights :
    (fs gs : List TransferFileRecord) → FileMoves fs gs → flights gs ≤ flights fs
FileMoves-flights [] [] m = omega arith
FileMoves-flights (f ∷ fs) (g ∷ gs) m =
    omega (arith, may_step-flight f g m.0, FileMoves-flights fs gs m.1)
FileMoves-flights [] (g ∷ gs) m = elim m [ ]
FileMoves-flights (f ∷ fs) [] m = elim m [ ]

pub FileMoves-IsSound :
    (fs gs : List TransferFileRecord) → FileMoves fs gs → All IsSound fs → All IsSound gs
FileMoves-IsSound [] [] m a = tt
FileMoves-IsSound (f ∷ fs) (g ∷ gs) m a = (m.0.sound a.0, FileMoves-IsSound fs gs m.1 a.1)
FileMoves-IsSound [] (g ∷ gs) m a = elim m [ ]
FileMoves-IsSound (f ∷ fs) [] m a = elim m [ ]

pub FileMoves-ids : (fs gs : List TransferFileRecord) → FileMoves fs gs → file_ids gs ≡ file_ids fs
FileMoves-ids [] [] m = refl
FileMoves-ids (f ∷ fs) (g ∷ gs) m = rw (m.0.same_id, FileMoves-ids fs gs m.1)
FileMoves-ids [] (g ∷ gs) m = elim m [ ]
FileMoves-ids (f ∷ fs) [] m = elim m [ ]

FileMoves-is_empty : (fs gs : List TransferFileRecord) → FileMoves fs gs → is_empty gs ≡ is_empty fs
FileMoves-is_empty [] [] m = refl
FileMoves-is_empty (f ∷ fs) (g ∷ gs) m = refl
FileMoves-is_empty [] (g ∷ gs) m = elim m [ ]
FileMoves-is_empty (f ∷ fs) [] m = elim m [ ]

BatchMove-IsSound : (b c : TransferBatchRecord) → BatchMove b c → IsSoundBatch b → IsSoundBatch c
BatchMove-IsSound b c m s = record {
  some_files = FileMoves-is_empty b.files c.files m.files_move ∙ s.some_files;
  distinct = rw (FileMoves-ids b.files c.files m.files_move) s.distinct;
  files_sound = FileMoves-IsSound b.files c.files m.files_move s.files_sound;
  closed = m.closed s.closed;
}

pub BatchMoves-IsSound :
    (bs cs : List TransferBatchRecord)
    → BatchMoves bs cs
    → All IsSoundBatch bs
    → All IsSoundBatch cs
BatchMoves-IsSound [] [] m a = tt
BatchMoves-IsSound (b ∷ bs) (c ∷ cs) m a =
    (BatchMove-IsSound b c m.0 a.0, BatchMoves-IsSound bs cs m.1 a.1)
BatchMoves-IsSound [] (c ∷ cs) m a = elim m [ ]
BatchMoves-IsSound (b ∷ bs) [] m a = elim m [ ]

pub BatchMoves-flights :
    (bs cs : List TransferBatchRecord) → BatchMoves bs cs → all_flights cs ≤ all_flights bs
BatchMoves-flights [] [] m = omega arith
BatchMoves-flights (b ∷ bs) (c ∷ cs) m =
    omega (arith, FileMoves-flights b.files c.files m.0.files_move, BatchMoves-flights bs cs m.1)
BatchMoves-flights [] (c ∷ cs) m = elim m [ ]
BatchMoves-flights (b ∷ bs) [] m = elim m [ ]

pub moves-Inv :
    (s t : TransferQueueSnapshot) → BatchMoves s.batches t.batches → t.v ≡ s.v → Inv s → Inv t
moves-Inv s t m e i = record {
  version = e ∙ i.version;
  batches_sound = BatchMoves-IsSound s.batches t.batches m i.batches_sound;
  single_flight = omega (arith, i.single_flight, BatchMoves-flights s.batches t.batches m);
}

-- A state that the invariant holds of passes the check that `open` makes.
assert_files_of : (fs : List TransferFileRecord) → All IsSound fs → assert_files fs ≡ ok tt
unfolding assert_files
assert_files_of [] a = refl
assert_files_of (f ∷ fs) a = rw (a.0.progress, a.0.timing) (assert_files_of fs a.1)

assert_batch_of : (b : TransferBatchRecord) → IsSoundBatch b → assert_batch b ≡ ok tt
unfolding assert_batch
assert_batch_of b s = rw (s.some_files, s.distinct) (assert_files_of b.files s.files_sound)

assert_batches_of :
    (bs : List TransferBatchRecord) → All IsSoundBatch bs → assert_batches bs ≡ ok tt
unfolding assert_batches
assert_batches_of [] a = refl
assert_batches_of (b ∷ bs) a = rw (assert_batch_of b a.0) (assert_batches_of bs a.1)

pub Inv-assert_snapshot : (s : TransferQueueSnapshot) → Inv s → assert_snapshot s ≡ ok tt
unfolding assert_snapshot
Inv-assert_snapshot s i = rw i.version (assert_batches_of s.batches i.batches_sound)
