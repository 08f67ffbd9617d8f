-- ===== src/Queue/Calls/Reload.antt =====
-- A restart of the queue of src/transfer/transfer-queue.ts.
use vidyut.Prelude.{◌≡◌, refl, String, Bool, List, some, ok}
use vidyut.Paths.{NodePath}
use vidyut.Queue.Types.{TransferQueueSnapshot}
use vidyut.Queue.Timing.{Env}
use vidyut.Queue.Store.{Queue}
use vidyut.Queue.Claim.{expire}
use vidyut.Queue.Recover.{recover_interrupted, open_queue, opened}
use vidyut.Queue.Moves.Batches.{on_disk}
use vidyut.Queue.Moves.Expiry.{expire-Kept}
use vidyut.Queue.Moves.Scanning.{recover_interrupted-Kept}
use vidyut.Queue.Invariant.{Inv, moves-Inv, Inv-assert_snapshot}
use vidyut.Queue.Calls.{Call, run, Timely}
use vidyut.Queue.Calls.Safety.{run-Inv, run-durable}

module _ (paths : NodePath) (shares_inode : String → String → Bool) where
  -- A snapshot that keeps the invariant opens, whatever the file system says; the queue then keeps
  -- the invariant too, and what is on disk is its state.
  pub open_queue-Inv :
      (first env : Env) (s : TransferQueueSnapshot)
      → Inv s
      → (q : Queue) × (open_queue paths shares_inode first env (some s) ≡ ok q)
        × Inv q.state
        × (on_disk s q.saved ≡ q.state)
  unfolding open_queue
  open_queue-Inv first env s i =
      let r = recover_interrupted paths shares_inode first (opened s) in
      let k = recover_interrupted-Kept paths shares_inode first s in
      let e = expire-Kept env r in
      (
        expire env r,
        rw (Inv-assert_snapshot s i) refl,
        moves-Inv r.state (expire env r).state e.moves e.version
            (moves-Inv s r.state k.moves k.version i),
        e.durable s (k.durable s refl),
      )

  -- The program may stop after any history of calls: the snapshot on disk opens again.
  pub run-open_queue :
      (comes_first : String → String → Bool) (first env : Env) (cs : List (Env × Call))
      (s : TransferQueueSnapshot)
      → Inv s
      → Timely paths comes_first cs (opened s)
      → (q : Queue) × (open_queue paths shares_inode first env
            (some (on_disk s (run paths comes_first cs (opened s)).saved))
          ≡ ok q)
        × Inv q.state
  run-open_queue comes_first first env cs s i timely =
      let stored = run-durable paths comes_first cs (opened s) s timely refl in
      let (q, opens, keeps, disk) =
        open_queue-Inv first env _ (run-Inv paths comes_first cs (opened s) timely i) in
      (q, rw stored opens, keeps)
