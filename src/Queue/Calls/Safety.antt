-- ===== src/Queue/Calls/Safety.antt =====
-- The invariant and the storage over histories of calls on src/transfer/transfer-queue.ts.
use vidyut.Prelude.{◌≡◌, refl, String, Bool, List, [], ◌∷◌, Result, ok, err, Ensures}
use vidyut.Paths.{NodePath}
use vidyut.Queue.Types.{TransferQueueSnapshot}
use vidyut.Queue.Timing.{Env}
use vidyut.Queue.Batch.{QueueError}
use vidyut.Queue.Store.{Queue, M}
use vidyut.Queue.Claim.Flight.{claim-Inv, claim-durable}
use vidyut.Queue.Claim.Enqueued.{Grown, enqueue-Grown}
use vidyut.Queue.Offers.Accept.{accept_offer-Grown}
use vidyut.Queue.Moves.Batches.{Kept, on_disk}
use vidyut.Queue.Moves.Operations.{
  confirm_progress-Kept, complete-Kept, begin_verification-Kept, begin_finalization-Kept,
  mark_stage-Kept, fail-Kept, set_destination_path-Kept, associate_source_device-Kept,
}
use vidyut.Queue.Moves.Control.{pause-Kept, resume-Kept, cancel-Kept, retry-Kept}
use vidyut.Queue.Moves.Expiry.{expire-Kept}
use vidyut.Queue.Invariant.{Inv, moves-Inv}
use vidyut.Queue.Tracks.{Tracks, Tracks-refl, BatchMoves-Tracks, claim-Tracks}
use vidyut.Queue.Calls.{
  Call, enqueues, accepts, associates, expires, claims, confirms, completes, verifies, finalizes,
  marks, fails, pauses, resumes, cancels, retries, redirects, or_same, or_same_of, perform, run,
  IsTimely, Timely,
}

-- What one call ensures.
pub record Safe (q r : Queue) : Type 0 where
  pub keeps : Inv q.state → Inv r.state
  pub durable :
      (loaded : TransferQueueSnapshot)
      → on_disk loaded q.saved ≡ q.state
      → on_disk loaded r.saved ≡ r.state
  pub tracks : Tracks q.batches r.batches

Safe-refl : (q : Queue) → Safe q q
Safe-refl q = record { keeps = λ i. i; durable = λ _ h. h; tracks = Tracks-refl q.batches }

Kept-Safe : (q r : Queue) → Kept q r → Safe q r
Kept-Safe q r k = record {
  keeps = moves-Inv q.state r.state k.moves k.version;
  durable = k.durable;
  tracks = BatchMoves-Tracks q.batches r.batches k.moves;
}

or_same-Safe : (q : Queue) (m : M Queue) → Ensures (Kept q) m → Safe q (or_same q m)
or_same-Safe q (ok r) h = Kept-Safe q r (h.apply r refl)
or_same-Safe q (err e) h = Safe-refl q

or_same_of-Safe :
    {A : Type 0} (q : Queue) (m : Result QueueError (A × Queue))
    → Ensures (Grown q) m
    → Safe q (or_same_of q m)
or_same_of-Safe q (ok (a, r)) h =
    let g = h.apply (a, r) refl in
    record { keeps = g.keeps; durable = g.durable; tracks = g.tracks }
or_same_of-Safe q (err e) h = Safe-refl q

module _ (paths : NodePath) (comes_first : String → String → Bool) where
  pub perform-Safe :
      (env : Env) (c : Call) (q : Queue)
      → IsTimely paths comes_first env q
      → Safe q (perform paths comes_first env c q)
  unfolding perform
  perform-Safe env (enqueues direction origin files device) q t =
      or_same_of-Safe q _ (enqueue-Grown env q direction origin files device)
  perform-Safe env (accepts o destinations device) q t =
      or_same_of-Safe q _ (accept_offer-Grown comes_first env q o destinations device)
  perform-Safe env (associates s device) q t =
      or_same-Safe q _ (associate_source_device-Kept env q s device)
  perform-Safe env expires q t = Kept-Safe q _ (expire-Kept env q)
  perform-Safe env claims q t = record {
    keeps = claim-Inv env q;
    durable = claim-durable env q;
    tracks = claim-Tracks env q;
  }
  perform-Safe env (confirms s f offset chunk) q t =
      or_same-Safe q _ (confirm_progress-Kept env q s f offset chunk)
  perform-Safe env (completes s f sha) q t = or_same-Safe q _ (complete-Kept env t.clock q s f sha)
  perform-Safe env (verifies s f offset) q t =
      or_same-Safe q _ (begin_verification-Kept env t.clock q s f offset)
  perform-Safe env (finalizes s f path) q t =
      or_same-Safe q _ (begin_finalization-Kept env t.clock q s f path)
  perform-Safe env (marks s f stage end) q t =
      or_same-Safe q _ (mark_stage-Kept env t.clock q s f stage end)
  perform-Safe env (fails s f code) q t = or_same-Safe q _ (fail-Kept env q s f code)
  perform-Safe env (pauses s f) q t = or_same-Safe q _ (pause-Kept env q s f)
  perform-Safe env (resumes s f) q t = or_same-Safe q _ (resume-Kept env q s f)
  perform-Safe env (cancels s f) q t = or_same-Safe q _ (cancel-Kept env q s f)
  perform-Safe env (retries s f) q t = or_same-Safe q _ (retry-Kept env q s paths f t.clock t.room)
  perform-Safe env (redirects s f path) q t =
      or_same-Safe q _ (set_destination_path-Kept env q s f path)

  -- After any history of calls the invariant holds: at most one file is in flight, every offset is
  -- within its file, and a file that is verified or completed has all its bytes.
  pub run-Inv :
      (cs : List (Env × Call)) (q : Queue)
      → Timely paths comes_first cs q
      → Inv q.state
      → Inv (run paths comes_first cs q).state
  unfolding run
  run-Inv [] q t i = i
  run-Inv ((env, c) ∷ cs) q t i = run-Inv cs _ t.1 ((perform-Safe env c q t.0).keeps i)

  -- After any history of calls the snapshot that was saved last is the state in memory.
  pub run-durable :
      (cs : List (Env × Call)) (q : Queue) (loaded : TransferQueueSnapshot)
      → Timely paths comes_first cs q
      → on_disk loaded q.saved ≡ q.state
      → on_disk loaded (run paths comes_first cs q).saved ≡ (run paths comes_first cs q).state
  unfolding run
  run-durable [] q loaded t h = h
  run-durable ((env, c) ∷ cs) q loaded t h =
      run-durable cs _ loaded t.1 ((perform-Safe env c q t.0).durable loaded h)
