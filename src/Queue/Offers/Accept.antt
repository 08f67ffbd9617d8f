-- ===== src/Queue/Offers/Accept.antt =====
-- `acceptOffer` of src/transfer/transfer-queue.ts against the invariant and the storage.
use vidyut.Prelude.{
  ℕ, ◌≡◌, refl, String, Bool, List, [], ◌∷◌, map, Option, none, some, ok, All, any, not, find?,
  Ensures, Ensures-bind, Ensures-ok, Ensures-guard, Option-cases, inl, inr,
}
use vidyut.Wire.Types.{TransferFileOffer, TransferOffer}
use vidyut.Wire.Guards.{is_transfer_offer}
use vidyut.Wire.Encode.{offer_json}
use vidyut.Queue.Types.{TransferBatchRecord}
use vidyut.Queue.Timing.{Env}
use vidyut.Queue.Batch.{assert_batch}
use vidyut.Queue.Store.{Queue, has_transfer_id, find_batch}
use vidyut.Queue.Progress.{with_source_device}
use vidyut.Queue.Claim.Enqueued.{Grown, IsQueued, pushed-Grown}
use vidyut.Queue.Moves.{BatchMove, FileMoves-refl}
use vidyut.Queue.Moves.Batches.{Kept, Kept-refl, put_batch-Kept}
use vidyut.Queue.Tracks.{BatchMoves-Tracks}
use vidyut.Queue.Invariant.{moves-Inv}
use vidyut.Queue.Offers.{
  offer_of, offers_match, received_file, received_batch, adopt_device, accept_known, accept_new,
  accept_offer, destination_for, is_missing,
}

pub device-BatchMove : (d : String) (b : TransferBatchRecord) → BatchMove b (with_source_device d b)
device-BatchMove d b = record {
  same_transfer = refl;
  files_move = FileMoves-refl b.files;
  closed = λ c. c;
}

pub Kept-Grown : {A : Type 0} (q r : Queue) (a : A) → Kept q r → Grown q (a, r)
Kept-Grown q r a k = record {
  keeps = moves-Inv q.state r.state k.moves k.version;
  durable = k.durable;
  tracks = BatchMoves-Tracks q.batches r.batches k.moves;
}

found-ok :
    (q : Queue) (t : String) (b : TransferBatchRecord)
    → find? (has_transfer_id t) q.batches ≡ some b
    → find_batch q t ≡ ok b
unfolding find_batch
found-ok q t b h = rw h

module _ (comes_first : String → String → Bool) where
  adopt_device-Grown :
      (t : String) (device : Option String) (b : TransferBatchRecord) (q : Queue)
      → find? (has_transfer_id t) q.batches ≡ some b
      → Grown q (adopt_device t device b q)
  unfolding adopt_device
  adopt_device-Grown t none b q h = Kept-Grown q q b (Kept-refl q)
  adopt_device-Grown t (some d) b q h = elim (Option-cases b.source_device_id) [
    | inr (k, e) ↦ rw (e, adopt_device) (Kept-Grown q q b (Kept-refl q))
    | inl e ↦
        rw (e, adopt_device)
          (Kept-Grown q _ (with_source_device d b)
            (put_batch-Kept q t b _ (found-ok q t b h) (device-BatchMove d b)))
  ]

  received-IsQueued :
      (now : ℕ) (paths : List (String × String)) (fs : List TransferFileOffer)
      → All IsQueued (map (received_file now paths) fs)
  unfolding received_file
  received-IsQueued now paths [] = tt
  received-IsQueued now paths (f ∷ fs) = (refl, received-IsQueued now paths fs)

  module _ (env : Env) (q : Queue) (o : TransferOffer) (paths : List (String × String))
      (device : Option String) where
    abbrev new_batch : TransferBatchRecord
    new_batch = received_batch env.now paths device o

    accept_new-Grown : Ensures (Grown q) (accept_new env q o paths device)
    unfolding accept_new
    accept_new-Grown = Ensures-bind (assert_batch new_batch) _ λ u h. Ensures-ok _ (
        unfold received_batch in
        pushed-Grown new_batch q (received-IsQueued env.now paths o.files) refl h)

    accept_known-Grown :
        (b : TransferBatchRecord)
        → find? (has_transfer_id o.transfer_id) q.batches ≡ some b
        → Ensures (Grown q) (accept_known comes_first o device q b)
    unfolding accept_known
    accept_known-Grown b h =
        Ensures-guard (offers_match comes_first (offer_of b) o) _ _
          λ _. Ensures-ok _ (adopt_device-Grown o.transfer_id device b q h)

    pub accept_offer-Grown : Ensures (Grown q) (accept_offer comes_first env q o paths device)
    unfolding accept_offer
    accept_offer-Grown = Ensures-guard (is_transfer_offer (offer_json o)) _ _ λ _.
        Ensures-guard (not (any (λ f. is_missing (destination_for paths f)) o.files)) _ _ λ _.
          elim (Option-cases (find? (has_transfer_id o.transfer_id) q.batches)) [
            | inl e ↦ rw (e, accept_offer) accept_new-Grown
            | inr (b, e) ↦ rw (e, accept_offer) (accept_known-Grown b e)
          ]
