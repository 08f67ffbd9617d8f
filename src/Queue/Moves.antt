-- ===== src/Queue/Moves.antt =====
-- What an operation of src/transfer/transfer-queue.ts may do to a file and to a batch: the statuses
-- that follow one another, and what stays.
pub mod Files
pub mod Changes
pub mod Batches
pub mod Operations
pub mod Control
pub mod Expiry
pub mod Recovery
pub mod Scanning
use vidyut.Prelude.{
  ◌≡◌, refl, Bool, true, false, ◌||◌, List, [], ◌∷◌, ◌++◌, map, some, arith, find?, replace_first,
  all, All, Bool-cases, inl, inr, and_split, and_join,
}
use vidyut.Queue.Types.{
  TransferFileRecord, TransferBatchRecord, TransferFileStatus, is_queued, is_verifying,
  is_finalizing, is_paused, is_completed, is_failed, is_cancelled, is_terminal_file,
  is_terminal_batch,
}
use vidyut.Queue.Batch.{progress_ok, timing_ok, derived_status}

-- From an active file: all but finalizing, which comes behind verifying.
abbrev in_flight_step : TransferFileStatus → Bool
in_flight_step TransferFileStatus.finalizing = false
in_flight_step _ = true

-- The statuses that an operation other than a claim may lead to.
abbrev pub may_step : TransferFileStatus → TransferFileStatus → Bool
may_step TransferFileStatus.queued t = is_queued t || is_paused t || is_failed t || is_cancelled t
may_step TransferFileStatus.active t = in_flight_step t
may_step TransferFileStatus.verifying t =
    is_verifying t || is_finalizing t || is_completed t || is_failed t || is_cancelled t
may_step TransferFileStatus.finalizing t =
    is_finalizing t || is_completed t || is_failed t || is_cancelled t
may_step TransferFileStatus.paused t = is_paused t || is_queued t || is_failed t || is_cancelled t
may_step TransferFileStatus.completed t = is_completed t
may_step TransferFileStatus.failed t = is_failed t || is_queued t
may_step TransferFileStatus.cancelled t = is_cancelled t || is_queued t

-- The statuses in which every byte has been confirmed.
abbrev pub needs_whole : TransferFileStatus → Bool
needs_whole s = is_verifying s || is_finalizing s || is_completed s

-- A file that a reload accepts, and that has all its bytes where its status says so.
pub record IsSound (f : TransferFileRecord) : Type 0 where
  pub progress : progress_ok f ≡ true
  pub timing : timing_ok f ≡ true
  pub whole : needs_whole f.status ≡ true → f.confirmed_offset ≡ f.size

pub record FileMove (f g : TransferFileRecord) : Type 0 where
  pub same_id : g.file_id ≡ f.file_id
  pub same_size : g.size ≡ f.size
  pub step : may_step f.status g.status ≡ true
  pub digest : is_completed f.status ≡ true → g.sha256 ≡ f.sha256
  pub sound : IsSound f → IsSound g

-- A finished batch has only finished files.
abbrev pub IsClosed : TransferBatchRecord → Type 0
IsClosed b = is_terminal_batch b.status ≡ true → all (λ f. is_terminal_file f.status) b.files ≡ true

abbrev pub FileMoves : List TransferFileRecord → List TransferFileRecord → Type 0
FileMoves [] [] = Unit
FileMoves (f ∷ fs) (g ∷ gs) = FileMove f g × FileMoves fs gs
FileMoves [] (g ∷ gs) = ⊥
FileMoves (f ∷ fs) [] = ⊥

pub record BatchMove (b c : TransferBatchRecord) : Type 0 where
  pub same_transfer : c.transfer_id ≡ b.transfer_id
  pub files_move : FileMoves b.files c.files
  pub closed : IsClosed b → IsClosed c

abbrev pub BatchMoves : List TransferBatchRecord → List TransferBatchRecord → Type 0
BatchMoves [] [] = Unit
BatchMoves (b ∷ bs) (c ∷ cs) = BatchMove b c × BatchMoves bs cs
BatchMoves [] (c ∷ cs) = ⊥
BatchMoves (b ∷ bs) [] = ⊥

pub may_step_refl : (s : TransferFileStatus) → may_step s s ≡ true
may_step_refl TransferFileStatus.queued = refl
may_step_refl _ = refl

pub FileMove-refl : (f : TransferFileRecord) → FileMove f f
FileMove-refl f = record {
  same_id = refl;
  same_size = refl;
  step = may_step_refl f.status;
  digest = λ _. refl;
  sound = λ s. s;
}

pub FileMoves-refl : (fs : List TransferFileRecord) → FileMoves fs fs
FileMoves-refl [] = tt
FileMoves-refl (f ∷ fs) = (FileMove-refl f, FileMoves-refl fs)

pub BatchMove-refl : (b : TransferBatchRecord) → BatchMove b b
BatchMove-refl b = record {
  same_transfer = refl;
  files_move = FileMoves-refl b.files;
  closed = λ c. c;
}

pub BatchMoves-refl : (bs : List TransferBatchRecord) → BatchMoves bs bs
BatchMoves-refl [] = tt
BatchMoves-refl (b ∷ bs) = (BatchMove-refl b, BatchMoves-refl bs)

pub FileMoves-replace :
    (p : TransferFileRecord → Bool) (fs : List TransferFileRecord) (f g : TransferFileRecord)
    → find? p fs ≡ some f
    → FileMove f g
    → FileMoves fs (replace_first p g fs)
FileMoves-replace p [] f g h m = absurd (ground arith)
FileMoves-replace p (x ∷ xs) f g h m = elim (Bool-cases (p x)) [
  | inl e ↦ let same : x ≡ f = ground arith in rw (e, same) (m, FileMoves-refl xs)
  | inr e ↦ rw e (FileMove-refl x, FileMoves-replace p xs f g (rw e at h) m)
]

pub FileMoves-map :
    (h : TransferFileRecord → TransferFileRecord) (P : TransferFileRecord → Type 0)
    (fs : List TransferFileRecord)
    → ((f : TransferFileRecord) → P f → FileMove f (h f))
    → All P fs
    → FileMoves fs (map h fs)
FileMoves-map h P [] m a = tt
FileMoves-map h P (f ∷ fs) m a = (m f a.0, FileMoves-map h P fs m a.1)

pub FileMoves-append :
    (fs gs hs ks : List TransferFileRecord)
    → FileMoves fs gs
    → FileMoves hs ks
    → FileMoves (fs ++ hs) (gs ++ ks)
FileMoves-append [] [] hs ks m n = n
FileMoves-append (f ∷ fs) (g ∷ gs) hs ks m n = (m.0, FileMoves-append fs gs hs ks m.1 n)
FileMoves-append [] (g ∷ gs) hs ks m n = elim m [ ]
FileMoves-append (f ∷ fs) [] hs ks m n = elim m [ ]

pub BatchMoves-replace :
    (p : TransferBatchRecord → Bool) (bs : List TransferBatchRecord) (b c : TransferBatchRecord)
    → find? p bs ≡ some b
    → BatchMove b c
    → BatchMoves bs (replace_first p c bs)
BatchMoves-replace p [] b c h m = absurd (ground arith)
BatchMoves-replace p (x ∷ xs) b c h m = elim (Bool-cases (p x)) [
  | inl e ↦ let same : x ≡ b = ground arith in rw (e, same) (m, BatchMoves-refl xs)
  | inr e ↦ rw e (BatchMove-refl x, BatchMoves-replace p xs b c (rw e at h) m)
]

pub BatchMoves-map :
    (h : TransferBatchRecord → TransferBatchRecord) (bs : List TransferBatchRecord)
    → ((b : TransferBatchRecord) → BatchMove b (h b))
    → BatchMoves bs (map h bs)
BatchMoves-map h [] m = tt
BatchMoves-map h (b ∷ bs) m = (m b, BatchMoves-map h bs m)

pub BatchMoves-append :
    (zs bs cs ds : List TransferBatchRecord)
    → BatchMoves zs bs
    → BatchMoves cs ds
    → BatchMoves (zs ++ cs) (bs ++ ds)
BatchMoves-append [] [] cs ds m n = n
BatchMoves-append (a ∷ zs) (b ∷ bs) cs ds m n = (m.0, BatchMoves-append zs bs cs ds m.1 n)
BatchMoves-append [] (b ∷ bs) cs ds m n = elim m [ ]
BatchMoves-append (a ∷ zs) [] cs ds m n = elim m [ ]

-- Where a finished status is derived, all files are finished.
completed-terminal :
    (fs : List TransferFileRecord)
    → all (λ f. is_completed f.status) fs ≡ true
    → all (λ f. is_terminal_file f.status) fs ≡ true
completed-terminal [] h = refl
completed-terminal (f ∷ fs) h =
    let (a, b) = and_split (is_completed f.status) _ h in
    and_join _ _ (terminal_of f.status a) (completed-terminal fs b)
  where
    terminal_of : (s : TransferFileStatus) → is_completed s ≡ true → is_terminal_file s ≡ true
    terminal_of TransferFileStatus.completed e = refl
    terminal_of _ e = ground arith

cancelled-terminal :
    (fs : List TransferFileRecord)
    → all (λ f. is_cancelled f.status) fs ≡ true
    → all (λ f. is_terminal_file f.status) fs ≡ true
cancelled-terminal [] h = refl
cancelled-terminal (f ∷ fs) h =
    let (a, b) = and_split (is_cancelled f.status) _ h in
    and_join _ _ (terminal_of f.status a) (cancelled-terminal fs b)
  where
    terminal_of : (s : TransferFileStatus) → is_cancelled s ≡ true → is_terminal_file s ≡ true
    terminal_of TransferFileStatus.cancelled e = refl
    terminal_of _ e = ground arith

pub derived_status-terminal :
    (fs : List TransferFileRecord)
    → is_terminal_batch (derived_status fs) ≡ true
    → all (λ f. is_terminal_file f.status) fs ≡ true
unfolding derived_status
derived_status-terminal fs h = ground (arith, completed-terminal fs, cancelled-terminal fs)
