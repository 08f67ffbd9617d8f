-- ===== src/Queue/Calls/History.antt =====
-- What a history of calls on the queue of src/transfer/transfer-queue.ts does to one file.
use vidyut.Prelude.{◌≡◌, refl, ◌∙◌, String, Bool, true, List, [], ◌∷◌, some, arith}
use vidyut.Paths.{NodePath}
use vidyut.Queue.Types.{TransferFileRecord, is_completed}
use vidyut.Queue.Timing.{Env}
use vidyut.Queue.Store.{Queue}
use vidyut.Queue.Tracks.{find_record, FileTrack, may_move}
use vidyut.Queue.Calls.{Call, perform, run, IsTimely, Timely}
use vidyut.Queue.Calls.Safety.{perform-Safe}

-- A completed file may only stay completed.
completed_stays :
    (x y : TransferFileRecord)
    → FileTrack x y
    → is_completed x.status ≡ true
    → is_completed y.status ≡ true
completed_stays x y t h = ground (arith, t.moved)

module _ (paths : NodePath) (comes_first : String → String → Bool) where
  -- A call loses no file, and moves each by one step of the state machine at most: only a queued file
  -- becomes active, only a verifying one finalizing, a failed or cancelled one goes back to the queue
  -- or stays, and a completed one stays.
  pub perform-tracks :
      (env : Env) (c : Call) (q : Queue) (t f : String) (x : TransferFileRecord)
      → IsTimely paths comes_first env q
      → find_record q.batches t f ≡ some x
      → (y : TransferFileRecord) × (find_record (perform paths comes_first env c q).batches t f
          ≡ some y)
        × (may_move x y ≡ true)
  perform-tracks env c q t f x timely h =
      let (y, hy, track) = (perform-Safe paths comes_first env c q timely).tracks t f x h in
      (y, hy, track.moved)

  -- After any history of calls a file that was completed is still there and completed, under the
  -- digest that it was completed with.
  pub run-completed :
      (cs : List (Env × Call)) (q : Queue) (t f : String) (x : TransferFileRecord)
      → Timely paths comes_first cs q
      → find_record q.batches t f ≡ some x
      → is_completed x.status ≡ true
      → (y : TransferFileRecord) × (find_record (run paths comes_first cs q).batches t f ≡ some y)
        × (is_completed y.status ≡ true)
        × (y.sha256 ≡ x.sha256)
  unfolding run
  run-completed [] q t f x timely h c = (x, h, c, refl)
  run-completed ((env, k) ∷ cs) q t f x timely h c =
      let (y, hy, ty) = (perform-Safe paths comes_first env k q timely.0).tracks t f x h in
      let (z, hz, cz, same) = run-completed cs _ t f y timely.1 hy (completed_stays x y ty c) in
      (z, hz, cz, same ∙ ty.digest c)
