-- ===== src/Queue/Claim/Flight.antt =====
-- The invariant and the storage behind a claim of src/transfer/transfer-queue.ts.
use vidyut.Prelude.{
  ℕ, ◌+◌, ◌≤◌, ◌≡◌, refl, subst, false, List, [], ◌∷◌, ◌++◌, some, arith, All, All-append,
  All-split, All-replace_first, any, find?, replace_first, find?-All, Bool-cases, inl, inr, sym,
}
use vidyut.Queue.Types.{TransferFileRecord, TransferBatchRecord, TransferQueueSnapshot, in_flight}
use vidyut.Queue.Timing.{Env}
use vidyut.Queue.Batch.{progress_ok, timing_ok, file_ids, is_empty}
use vidyut.Queue.Store.{Queue, persist}
use vidyut.Queue.Claim.{
  TransferClaim, claim, claimed_batch, next_queued, activated, with_batches, has_in_flight, takes,
}
use vidyut.Queue.Claim.Order.{Claims, busy, idle, claimed, claim-ClaimOutcome, next_queued-find?}
use vidyut.Queue.Moves.{IsSound}
use vidyut.Queue.Moves.Batches.{on_disk}
use vidyut.Queue.Invariant.{flights, all_flights, IsSoundBatch, Inv}

activated-IsSound : (f : TransferFileRecord) → IsSound f → IsSound (activated f)
unfolding progress_ok timing_ok
activated-IsSound f s = record {
  progress = s.progress;
  timing = s.timing;
  whole = λ w. absurd (cc w);
}

activated-ids :
    (fs : List TransferFileRecord) (f : TransferFileRecord)
    → find? takes fs ≡ some f
    → file_ids (replace_first takes (activated f) fs) ≡ file_ids fs
activated-ids [] f h = refl
activated-ids (g ∷ fs) f h = elim (Bool-cases (takes g)) [
  | inl e ↦ let same : g ≡ f = ground arith in rw (e, same)
  | inr e ↦ rw e (rw (activated-ids fs f (rw e at h)))
]

activated-flights :
    (fs : List TransferFileRecord) (f : TransferFileRecord)
    → flights (replace_first takes (activated f) fs) ≤ flights fs + 1
activated-flights [] f = omega arith
activated-flights (g ∷ fs) f = ground (arith, activated-flights fs f)

activated-some :
    (fs : List TransferFileRecord) (f : TransferFileRecord)
    → is_empty (replace_first takes (activated f) fs) ≡ is_empty fs
activated-some [] f = refl
activated-some (g ∷ fs) f = ground arith

claimed_batch-IsSound :
    (now : ℕ) (f : TransferFileRecord) (b : TransferBatchRecord)
    → next_queued b ≡ some f
    → IsSoundBatch b
    → IsSoundBatch (claimed_batch now f b)
unfolding claimed_batch
claimed_batch-IsSound now f b h s =
    let found = next_queued-find? b f h in
    record {
      some_files = rw activated-some s.some_files;
      distinct = rw (activated-ids b.files f found) s.distinct;
      files_sound =
          All-replace_first IsSound takes (activated f) b.files s.files_sound
            (activated-IsSound f (find?-All IsSound takes b.files f found s.files_sound));
      closed = λ e. absurd (cc e);
    }

claimed_batch-flights :
    (now : ℕ) (f : TransferFileRecord) (b : TransferBatchRecord)
    → flights (claimed_batch now f b).files ≤ flights b.files + 1
unfolding claimed_batch
claimed_batch-flights now f b = activated-flights b.files f

pub all_flights-append :
    (bs cs : List TransferBatchRecord) → all_flights (bs ++ cs) ≡ all_flights bs + all_flights cs
all_flights-append [] cs = omega arith
all_flights-append (b ∷ bs) cs = omega (arith, all_flights-append bs cs)

files_grounded :
    (fs : List TransferFileRecord) → any (λ f. in_flight f.status) fs ≡ false → flights fs ≡ 0
files_grounded [] h = refl
files_grounded (f ∷ fs) h = ground (arith, files_grounded fs)

pub grounded : (bs : List TransferBatchRecord) → any has_in_flight bs ≡ false → all_flights bs ≡ 0
grounded [] h = refl
grounded (b ∷ bs) h = ground (arith, files_grounded b.files, grounded bs)

Claims-Inv :
    (now : ℕ) (q : Queue) (bs : List TransferBatchRecord) (c : TransferClaim)
    → any has_in_flight q.batches ≡ false
    → Claims now q.batches bs c
    → Inv q.state
    → Inv (with_batches bs q).state
Claims-Inv now q bs c free k i =
    let (front, rest) =
      All-split IsSoundBatch k.before (k.taken ∷ k.after)
        (subst (All IsSoundBatch) k.was i.batches_sound) in
    let zero_before : all_flights (k.before ++ (k.taken ∷ k.after)) ≡ 0 =
      rw k.was at (grounded q.batches free) in
    record {
      version = i.version;
      batches_sound = subst (All IsSoundBatch) (sym k.becomes) (
          All-append IsSoundBatch k.before _ front
            (claimed_batch-IsSound now k.file k.taken k.offered rest.0, rest.1));
      single_flight = rw k.becomes (
          omega (
            arith,
            all_flights-append k.before (k.taken ∷ k.after),
            all_flights-append k.before (claimed_batch now k.file k.taken ∷ k.after),
            claimed_batch-flights now k.file k.taken,
            zero_before,
          ));
    }

-- The queue behind a claim keeps the invariant, and the storage has the new state.
pub claim-Inv : (env : Env) (q : Queue) → Inv q.state → Inv (claim env q).0.state
unfolding persist
claim-Inv env q i = elim (claim-ClaimOutcome env q) [
  | busy e r ↦ rw r i
  | idle e n r ↦ rw r i
  | claimed e bs c k r ↦ rw r (Claims-Inv env.now q bs c e k i)
]

pub claim-durable :
    (env : Env) (q : Queue) (loaded : TransferQueueSnapshot)
    → on_disk loaded q.saved ≡ q.state
    → on_disk loaded (claim env q).0.saved ≡ (claim env q).0.state
unfolding persist
claim-durable env q loaded h = elim (claim-ClaimOutcome env q) [
  | busy e r ↦ rw r h
  | idle e n r ↦ rw r h
  | claimed e bs c k r ↦ rw r refl
]
