-- ===== src/Plane/Upload/SteadyCalls.antt =====
-- The calls on the way of a chunk of src/transfer/laptop-data-plane.ts, against the invariant of the
-- queue and its storage.
use vidyut.Prelude.{
  ℕ, ◌≤◌, ◌≡◌, refl, String, Bool, true, false, List, Option, none, some, ok, err, Ensures, arith,
  length, if◌then◌else◌, ◌==◌,
}
use vidyut.Wire.Types.{max_safe_integer}
use vidyut.Wire.Number.{natural}
use vidyut.Queue.Types.{TransferFileRecord, TransferQueueSnapshot}
use vidyut.Queue.Timing.{Env}
use vidyut.Queue.Store.{Queue, M}
use vidyut.Queue.Invariant.{Inv, moves-Inv}
use vidyut.Queue.Moves.Batches.{Kept, on_disk}
use vidyut.Queue.Moves.Operations.{
  confirm_progress-Kept, begin_verification-Kept, mark_stage-Kept, fail-Kept,
}
use vidyut.Plane.Disk.{
  OpenAnswer, opened, missing, not_opened, WriteAnswer, bytes_written, not_written,
}
use vidyut.Plane.State.{
  Response, Thrown, Plane, Act, ◌>>=◌, ◌>>◌, settled, on_queue, publish, file_terminal, or_reply,
  or_raise, refuse_unless,
}
use vidyut.Plane.Keeping.{Keeps, Keeps-bind, Keeps-then, Keeps-when}
use vidyut.Plane.Sessions.{Session}
use vidyut.Plane.Upload.{
  Config, open_session, set_session, end_session, mark, give_up, remove, open_partial, open_answer,
  after_open, write_chunk, after_write, sync_partial, refuse_some, advance, announce,
}

-- The invariant is kept, and what was on disk is in step.
pub record Steady (q r : Queue) : Type 0 where
  pub keeps : Inv q.state → Inv r.state
  pub durable :
      (loaded : TransferQueueSnapshot)
      → on_disk loaded q.saved ≡ q.state
      → on_disk loaded r.saved ≡ r.state

pub Kept-Steady : {q r s : Queue} → Steady q r → Kept r s → Steady q s
Kept-Steady {q} {r} {s} h k = record {
  keeps = λ i. moves-Inv r.state s.state k.moves k.version (h.keeps i);
  durable = λ loaded e. k.durable loaded (h.durable loaded e);
}

module _ {Disk : Type 0} (q : Queue) where
  abbrev pub IsSteady : Plane Disk → Type 0
  IsSteady p = Steady q p.queue

  pub settled-IsSteady :
      (p : Plane Disk) (m : M Queue)
      → IsSteady p
      → Ensures (Kept p.queue) m
      → IsSteady (settled p m).1
  settled-IsSteady p (ok r) h k = Kept-Steady h (k.apply r refl)
  settled-IsSteady p (err e) h k = h

  -- A call that leaves the queue alone.
  pub quiet :
      {A : Type 0} {act : Act Disk A}
      → ((p : Plane Disk) → (act p).1.queue ≡ p.queue)
      → Keeps IsSteady act
  quiet h = record { keep = λ p i. rw (h p) i }

  pub by_test :
      {A : Type 0} {yes_act no_act : Act Disk A} (test : Bool)
      → Keeps IsSteady yes_act
      → Keeps IsSteady no_act
      → Keeps IsSteady (if test then yes_act else no_act)
  by_test true h k = h
  by_test false h k = k

  pub or_reply-quiet : {A : Type 0} (o : Option A) (r : Response) → Keeps IsSteady (or_reply o r)
  or_reply-quiet none r = quiet (λ p. refl)
  or_reply-quiet (some a) r = quiet (λ p. refl)

  pub or_raise-quiet : {A : Type 0} (o : Option A) (e : Thrown) → Keeps IsSteady (or_raise o e)
  or_raise-quiet none r = quiet (λ p. refl)
  or_raise-quiet (some a) r = quiet (λ p. refl)

  pub refuse_unless-quiet : (b : Bool) (r : Response) → Keeps IsSteady (refuse_unless b r)
  refuse_unless-quiet true r = quiet (λ p. refl)
  refuse_unless-quiet false r = quiet (λ p. refl)

module _ {Disk : Type 0} (c : Config Disk) (transfer_id file_id : String)
    (timely : (n : ℕ) → (c.clock n).now ≤ max_safe_integer) (q : Queue) where
  pub on_queue-Steady :
      (method : Env → Queue → M Queue)
      → ((env : Env) (r : Queue) → env.now ≤ max_safe_integer → Ensures (Kept r) (method env r))
      → Keeps (IsSteady {Disk = Disk} q) (on_queue c.clock method)
  unfolding on_queue
  on_queue-Steady method h = record {
    keep = λ p i.
        settled-IsSteady q p (method (c.clock p.tick) p.queue) i
          (h (c.clock p.tick) p.queue (timely p.tick));
  }

  pub mark-Steady :
      (stage : String) (end : Bool) → Keeps (IsSteady q) (mark c transfer_id file_id stage end)
  unfolding mark
  mark-Steady stage end =
      on_queue-Steady _ λ env r now_ok. mark_stage-Kept env now_ok r transfer_id file_id stage end

  pub give_up-Steady : (code : String) → Keeps (IsSteady q) (give_up c transfer_id file_id code)
  unfolding give_up publish end_session file_terminal ◌>>=◌ ◌>>◌
  give_up-Steady code =
      Keeps-then _ (on_queue-Steady _ λ env r now_ok. fail-Kept env r transfer_id file_id code)
        (quiet q (λ p. refl))

  pub remove-Steady : (path : String) → Keeps (IsSteady q) (remove c transfer_id file_id path)
  unfolding remove
  remove-Steady path = quiet q (λ p. refl)

  pub open_session-Steady :
      (r : TransferFileRecord) → Keeps (IsSteady q) (open_session c transfer_id file_id r)
  unfolding open_session set_session ◌>>=◌ ◌>>◌
  open_session-Steady r = quiet q (λ p. refl)

  after_open-Steady :
      (partial : String) (answer : OpenAnswer)
      → Keeps (IsSteady q) (after_open c transfer_id file_id partial answer)
  after_open-Steady partial opened = quiet q (λ p. refl)
  after_open-Steady partial missing =
      Keeps-then _ (remove-Steady partial)
        (Keeps-then _ (give_up-Steady "partial_state_missing") (quiet q (λ p. refl)))
  after_open-Steady partial not_opened = quiet q (λ p. refl)

  open_answer_quiet :
      (partial : String) (offset : ℕ) (p : Plane Disk)
      → (open_answer c transfer_id file_id partial offset p).1.queue ≡ p.queue
  open_answer_quiet partial offset p = ground arith

  pub open_partial-Steady :
      (partial : String) (offset : ℕ)
      → Keeps (IsSteady q) (open_partial c transfer_id file_id partial offset)
  unfolding open_partial
  open_partial-Steady partial offset = Keeps-bind _ (quiet q (λ p. refl)) λ made.
      Keeps-then _ (or_raise-quiet q _ _)
        (Keeps-bind _ (quiet q (open_answer_quiet partial offset)) (after_open-Steady partial))

  after_write-Steady :
      (n : ℕ) (answer : WriteAnswer)
      → Keeps (IsSteady {Disk = Disk} q) (after_write c transfer_id file_id n answer)
  after_write-Steady n (bytes_written m) = refuse_unless-quiet q (m == n) _
  after_write-Steady n not_written = quiet q (λ p. refl)

  pub write_chunk-Steady :
      (partial : String) (offset : ℕ) (bytes : List ℕ)
      → Keeps (IsSteady q) (write_chunk c transfer_id file_id partial offset bytes)
  unfolding write_chunk
  write_chunk-Steady partial offset bytes =
      Keeps-when _ _ (Keeps-bind _ (quiet q (λ p. refl)) (after_write-Steady (length bytes)))

  pub sync_partial-Steady :
      (partial : String) → Keeps (IsSteady q) (sync_partial c transfer_id file_id partial)
  unfolding sync_partial
  sync_partial-Steady partial = Keeps-bind _ (quiet q (λ p. refl)) λ synced. or_raise-quiet q _ _

  pub refuse_some-Steady :
      (o : Option Response) → Keeps (IsSteady {Disk = Disk} q) (refuse_some c transfer_id file_id o)
  refuse_some-Steady none = quiet q (λ p. refl)
  refuse_some-Steady (some r) = quiet q (λ p. refl)

  set_session-Steady : (s : Session) → Keeps (IsSteady q) (set_session c transfer_id file_id s)
  unfolding set_session
  set_session-Steady s = quiet q (λ p. refl)

  pub advance-Steady :
      (confirmed now : ℕ) (last checkpoint_due : Bool) (s : Session)
      → Keeps (IsSteady q) (advance c transfer_id file_id confirmed now last checkpoint_due s)
  unfolding advance
  advance-Steady confirmed now true due s =
      Keeps-then _
        (on_queue-Steady _
          λ env r now_ok. begin_verification-Kept env now_ok r transfer_id file_id confirmed)
        (Keeps-then _ (set_session-Steady _) (quiet q (λ p. refl)))
  advance-Steady confirmed now false true s =
      Keeps-then _
        (on_queue-Steady _
          λ env r now_ok. confirm_progress-Kept env r transfer_id file_id (natural confirmed) none)
        (Keeps-then _ (set_session-Steady _) (quiet q (λ p. refl)))
  advance-Steady confirmed now false false s =
      Keeps-then _ (set_session-Steady _) (quiet q (λ p. refl))

  pub announce-Steady :
      (confirmed now : ℕ) (s : Session)
      → Keeps (IsSteady q) (announce c transfer_id file_id confirmed now s)
  unfolding announce publish set_session ◌>>=◌ ◌>>◌
  announce-Steady confirmed now s = quiet q (λ p. refl)
