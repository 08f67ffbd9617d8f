-- ===== src/Queue/Tracks.antt =====
-- What a call on the queue of src/transfer/transfer-queue.ts does to one file, found by its
-- identifiers.
use vidyut.Prelude.{
  ℕ, ◌≡◌, refl, String, Bool, true, ◌&&◌, ◌||◌, List, [], ◌∷◌, ◌++◌, Option, some, none, arith,
  find?, replace_first, Bool-cases, inl, inr, ◌⊎◌, Option-cases,
}
use vidyut.Queue.Types.{TransferFileRecord, TransferBatchRecord, is_queued, is_active, is_completed}
use vidyut.Queue.Store.{Queue, persist, has_transfer_id, has_file_id}
use vidyut.Queue.Moves.{FileMove, FileMoves, BatchMove, BatchMoves, may_step, may_step_refl}
use vidyut.Queue.Claim.{claim, TransferClaim, activated, claimed_batch, takes}
use vidyut.Queue.Claim.Order.{Claims, next_queued-find?, claim-ClaimOutcome, busy, idle, claimed}
use vidyut.Queue.Timing.{Env}

abbrev pub find_record : List TransferBatchRecord → String → String → Option TransferFileRecord
find_record bs t f = elim (find? (has_transfer_id t) bs) [
  | none ↦ none
  | some b ↦ find? (has_file_id f) b.files
]

-- A step of the state machine, the claim of a queued file included.
abbrev pub may_move : TransferFileRecord → TransferFileRecord → Bool
may_move f g = may_step f.status g.status || (is_queued f.status && is_active g.status)

pub record FileTrack (f g : TransferFileRecord) : Type 0 where
  pub moved : may_move f g ≡ true
  pub digest : is_completed f.status ≡ true → g.sha256 ≡ f.sha256

-- Every file that the queue had is there behind the call, a step further at most.
abbrev pub Tracks : List TransferBatchRecord → List TransferBatchRecord → Type 0
Tracks bs cs =
    (t f : String) (x : TransferFileRecord)
    → find_record bs t f ≡ some x
    → (y : TransferFileRecord) × (find_record cs t f ≡ some y) × FileTrack x y

may_move_same : (f : TransferFileRecord) → may_move f f ≡ true
may_move_same f = ground (arith, may_step_refl f.status)

may_move_step : (f g : TransferFileRecord) → may_step f.status g.status ≡ true → may_move f g ≡ true
may_move_step f g h = rw h

FileTrack-refl : (f : TransferFileRecord) → FileTrack f f
FileTrack-refl f = record { moved = may_move_same f; digest = λ _. refl }

FileMove-FileTrack : (f g : TransferFileRecord) → FileMove f g → FileTrack f g
FileMove-FileTrack f g m = record { moved = may_move_step f g m.step; digest = m.digest }

pub Tracks-refl : (bs : List TransferBatchRecord) → Tracks bs bs
Tracks-refl bs t f x h = (x, h, FileTrack-refl x)

-- A file of a batch that moved.
moved_file :
    (id : String) (fs gs : List TransferFileRecord) (x : TransferFileRecord)
    → FileMoves fs gs
    → find? (has_file_id id) fs ≡ some x
    → (y : TransferFileRecord) × (find? (has_file_id id) gs ≡ some y) × FileMove x y
moved_file id [] [] x m h = absurd (cc h)
moved_file id (f ∷ fs) (g ∷ gs) x m h = elim (Bool-cases (has_file_id id f)) [
  | inl e ↦ let same : f ≡ x = ground arith in (g, rw (m.0.same_id, e), rw (← same) m.0)
  | inr e ↦
      let (y, found, move) = moved_file id fs gs x m.1 (rw e at h) in
      (y, rw (m.0.same_id, e) found, move)
]
moved_file id [] (g ∷ gs) x m h = elim m [ ]
moved_file id (f ∷ fs) [] x m h = elim m [ ]

-- The batch with an identifier, behind moves of the batches.
moved_batch :
    (t : String) (bs cs : List TransferBatchRecord) (b : TransferBatchRecord)
    → BatchMoves bs cs
    → find? (has_transfer_id t) bs ≡ some b
    → (c : TransferBatchRecord) × (find? (has_transfer_id t) cs ≡ some c) × BatchMove b c
moved_batch t [] [] b m h = absurd (cc h)
moved_batch t (x ∷ bs) (y ∷ cs) b m h = elim (Bool-cases (has_transfer_id t x)) [
  | inl e ↦ let same : x ≡ b = ground arith in (y, rw (m.0.same_transfer, e), rw (← same) m.0)
  | inr e ↦
      let (c, found, move) = moved_batch t bs cs b m.1 (rw e at h) in
      (c, rw (m.0.same_transfer, e) found, move)
]
moved_batch t [] (y ∷ cs) b m h = elim m [ ]
moved_batch t (x ∷ bs) [] b m h = elim m [ ]

-- The batch and the file that a search finds.
record_parts :
    (bs : List TransferBatchRecord) (t f : String) (x : TransferFileRecord)
    → find_record bs t f ≡ some x
    → (b : TransferBatchRecord) × (find? (has_transfer_id t) bs ≡ some b)
      × (find? (has_file_id f) b.files ≡ some x)
record_parts bs t f x h = elim (Option-cases (find? (has_transfer_id t) bs)) [
  | inl e ↦ absurd (cc (rw (e, find_record) at h))
  | inr (b, e) ↦ (b, e, ground arith)
]

pub record_of_parts :
    (bs : List TransferBatchRecord) (t f : String) (b : TransferBatchRecord)
    (x : TransferFileRecord)
    → find? (has_transfer_id t) bs ≡ some b
    → find? (has_file_id f) b.files ≡ some x
    → find_record bs t f ≡ some x
record_of_parts bs t f b x h k = rw (h, find_record) k

activated-FileTrack :
    (f : TransferFileRecord) → is_queued f.status ≡ true → FileTrack f (activated f)
activated-FileTrack f h = record { moved = ground arith; digest = λ _. refl }

pub BatchMoves-Tracks : (bs cs : List TransferBatchRecord) → BatchMoves bs cs → Tracks bs cs
BatchMoves-Tracks bs cs m t f x h =
    let (b, hb, hx) = record_parts bs t f x h in
    let (c, hc, mc) = moved_batch t bs cs b m hb in
    let (y, hy, my) = moved_file f b.files c.files x mc.files_move hx in
    (y, record_of_parts cs t f c y hc hy, FileMove-FileTrack x y my)

find?-front :
    (p : TransferBatchRecord → Bool) (bs cs : List TransferBatchRecord) (b : TransferBatchRecord)
    → find? p bs ≡ some b
    → find? p (bs ++ cs) ≡ some b
find?-front p [] cs b h = absurd (cc h)
find?-front p (x ∷ bs) cs b h = ground (arith, find?-front p bs cs b)

pub append-Tracks : (bs cs : List TransferBatchRecord) → Tracks bs (bs ++ cs)
append-Tracks bs cs t f x h =
    let (b, hb, hx) = record_parts bs t f x h in
    (x, record_of_parts (bs ++ cs) t f b x (find?-front _ bs cs b hb) hx, FileTrack-refl x)

-- The file found, where another queued file, or this one, has been activated.
activated_file :
    (id : String) (fs : List TransferFileRecord) (g x : TransferFileRecord)
    → find? takes fs ≡ some g
    → find? (has_file_id id) fs ≡ some x
    → (y : TransferFileRecord) × (find? (has_file_id id) (replace_first takes (activated g) fs)
        ≡ some y)
      × FileTrack x y
activated_file id [] g x h k = absurd (cc h)
activated_file id (f ∷ fs) g x h k = elim (Bool-cases (takes f)) [
  | inl e ↦ elim (Bool-cases (has_file_id id f)) [
    | inl hit ↦
        let fg : f ≡ g = ground arith in
        let fx : f ≡ x = ground arith in
        (activated g, rw (e, ← fg, hit), rw (← fx, ← fg) (activated-FileTrack f e))
    | inr miss ↦
        let fg : f ≡ g = ground arith in (x, rw (e, ← fg, miss) (rw miss at k), FileTrack-refl x)
  ]
  | inr e ↦ elim (Bool-cases (has_file_id id f)) [
    | inl hit ↦ let fx : f ≡ x = ground arith in (x, rw (e, hit) (ground arith), FileTrack-refl x)
    | inr miss ↦
        let (y, hy, ty) = activated_file id fs g x (rw e at h) (rw miss at k) in
        (y, rw (e, miss) hy, ty)
  ]
]

claimed_found :
    (now : ℕ) (t : String) (before after : List TransferBatchRecord) (b c : TransferBatchRecord)
    (g : TransferFileRecord)
    → find? (has_transfer_id t) (before ++ (b ∷ after)) ≡ some c
    → (find? (has_transfer_id t) (before ++ (claimed_batch now g b ∷ after)) ≡ some c)
      ⊎ ((c ≡ b)
          × (find? (has_transfer_id t) (before ++ (claimed_batch now g b ∷ after))
              ≡ some (claimed_batch now g b)))
unfolding claimed_batch
claimed_found now t [] after b c g h = ground arith
claimed_found now t (x ∷ before) after b c g h = elim (Bool-cases (has_transfer_id t x)) [
  | inl e ↦ inl (rw e (rw e at h))
  | inr e ↦ rw e (claimed_found now t before after b c g (rw e at h))
]

Claims-Tracks :
    (now : ℕ) (bs cs : List TransferBatchRecord) (c : TransferClaim)
    → Claims now bs cs c
    → Tracks bs cs
unfolding claimed_batch
Claims-Tracks now bs cs c k t f x h =
    let (b, hb, hx) = record_parts bs t f x h in
    elim (claimed_found now t k.before k.after k.taken b k.file (rw k.was at hb)) [
      | inl same ↦ (x, record_of_parts cs t f b x (rw k.becomes same) hx, FileTrack-refl x)
      | inr (eb, found) ↦
          let (y, hy, ty) =
            activated_file f k.taken.files k.file x (next_queued-find? k.taken k.file k.offered)
              (rw eb at hx) in
          (
            y,
            record_of_parts cs t f (claimed_batch now k.file k.taken) y (rw k.becomes found) hy,
            ty,
          )
    ]

pub claim-Tracks : (env : Env) (q : Queue) → Tracks q.batches (claim env q).0.batches
unfolding persist
claim-Tracks env q = elim (claim-ClaimOutcome env q) [
  | busy e r ↦ rw r (Tracks-refl q.batches)
  | idle e n r ↦ rw r (Tracks-refl q.batches)
  | claimed e bs c k r ↦ rw r (Claims-Tracks env.now q.batches bs c k)
]
