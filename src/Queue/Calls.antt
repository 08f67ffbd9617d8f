-- ===== src/Queue/Calls.antt =====
-- The calls on the queue of src/transfer/transfer-queue.ts as data, so that a history is a list. A
-- call that throws leaves the queue as it was. `claimNext` is the call `expires` and then the call
-- `claims`: it waits in between, and other calls may come there.
pub mod Safety
pub mod Reload
pub mod History
pub mod Idle
use vidyut.Prelude.{ℕ, ◌≤◌, String, Bool, List, [], ◌∷◌, Option, Result, ok, err}
use vidyut.Paths.{NodePath}
use vidyut.Wire.Types.{TransferOffer, TransferDirection, max_safe_integer}
use vidyut.Wire.Number.{Number}
use vidyut.Queue.Timing.{Env}
use vidyut.Queue.Batch.{QueueError}
use vidyut.Queue.Store.{Queue, M}
use vidyut.Queue.Progress.{
  confirm_progress, complete, begin_verification, begin_finalization, mark_stage, fail,
  set_destination_path, associate_source_device,
}
use vidyut.Queue.Control.{pause, resume, cancel, retry}
use vidyut.Queue.Claim.{EnqueueTransferFile, enqueue, expire, claim}
use vidyut.Queue.Offers.{accept_offer}
use vidyut.Queue.Moves.Changes.{HasRoom}
use vidyut.Queue.Moves.Control.{EveryFile}

pub data Call : Type 0 where
  enqueues : TransferDirection → String → List EnqueueTransferFile → Option String → Call
  accepts : TransferOffer → List (String × String) → Option String → Call
  associates : String → String → Call
  expires claims : Call
  confirms : String → String → Number → Option Number → Call
  completes : String → String → String → Call
  verifies : String → String → ℕ → Call
  finalizes : String → String → String → Call
  marks : String → String → String → Bool → Call
  fails : String → String → String → Call
  pauses resumes cancels retries : String → Option String → Call
  redirects : String → String → String → Call

abbrev pub or_same : Queue → M Queue → Queue
or_same q (ok r) = r
or_same q (err e) = q

abbrev pub or_same_of {ℓ} : {A : Type ℓ} → Queue → Result QueueError (A × Queue) → Queue
or_same_of q (ok (a, r)) = r
or_same_of q (err e) = q

module _ (paths : NodePath) (comes_first : String → String → Bool) where
  unfoldable pub perform : Env → Call → Queue → Queue
  perform env (enqueues direction origin files device) q =
      or_same_of q (enqueue env q direction origin files device)
  perform env (accepts o destinations device) q =
      or_same_of q (accept_offer comes_first env q o destinations device)
  perform env (associates t device) q = or_same q (associate_source_device env q t device)
  perform env expires q = expire env q
  perform env claims q = (claim env q).0
  perform env (confirms t f offset chunk) q = or_same q (confirm_progress env q t f offset chunk)
  perform env (completes t f sha) q = or_same q (complete env q t f sha)
  perform env (verifies t f offset) q = or_same q (begin_verification env q t f offset)
  perform env (finalizes t f path) q = or_same q (begin_finalization env q t f path)
  perform env (marks t f stage end) q = or_same q (mark_stage env q t f stage end)
  perform env (fails t f code) q = or_same q (fail env q t f code)
  perform env (pauses t f) q = or_same q (pause env q t f)
  perform env (resumes t f) q = or_same q (resume env q t f)
  perform env (cancels t f) q = or_same q (cancel env q t f)
  perform env (retries t f) q = or_same q (retry paths env q t f)
  perform env (redirects t f path) q = or_same q (set_destination_path env q t f path)

  unfoldable pub run : List (Env × Call) → Queue → Queue
  run [] q = q
  run ((env, c) ∷ cs) q = run cs (perform env c q)

  -- The clock reads safe integers, and no file has used up its 2 ^ 53 attempts.
  pub record IsTimely (env : Env) (q : Queue) : Type 0 where
    pub clock : env.now ≤ max_safe_integer
    pub room : EveryFile HasRoom q.batches

  abbrev pub Timely : List (Env × Call) → Queue → Type 0
  Timely [] q = Unit
  Timely ((env, c) ∷ cs) q = IsTimely env q × Timely cs (perform env c q)
