-- ===== src/Queue/Moves/Changes.antt =====
-- The changes that `pause`, `resume`, `cancel`, `retry`, `expire` and `recoverInterrupted` of
-- src/transfer/transfer-queue.ts make to a file, as moves.
use vidyut.Prelude.{
  ℕ, ◌≤◌, ◌≡◌, refl, String, Bool, true, false, ◌||◌, [], ◌∷◌, ◌++◌, Option, some, none, arith,
  and_split, and_join, opt_all, leb_iff, all-append, all-drop, length-take_last, get_last?,
  Bool-cases, Option-cases, inl, inr,
}
use vidyut.Paths.{NodePath}
use vidyut.Wire.Types.{max_safe_integer, Attempt, TransferTimingSummary}
use vidyut.Queue.Types.{
  TransferFileRecord, TransferFileStatus, is_active, is_queued, is_paused, is_verifying,
  is_finalizing, is_terminal_file, is_completed,
}
use vidyut.Queue.Timing.{or_new, new_timing_ok, is_timing, attempt_ok}
use vidyut.Queue.Batch.{progress_ok, timing_ok}
use vidyut.Queue.Control.{
  paused_file, resumed_file, cancelled_file, retried_file, retried_timing, next_attempt, may_retry,
}
use vidyut.Queue.Claim.{expired_file, transfer_expired}
use vidyut.Queue.Recover.{recover_file, recovered_finalizing, published_path, bytes_complete}
use vidyut.Queue.Moves.{FileMove, FileMove-refl, may_step, needs_whole}

-- A change of the status and of fields that soundness does not read.
status-FileMove :
    (f : TransferFileRecord) (t : TransferFileStatus) (code path destination : Option String)
    → may_step f.status t ≡ true
    → (is_completed f.status ≡ false)
    → (needs_whole t ≡ true → needs_whole f.status ≡ true)
    → FileMove f (record f {
      status = t;
      error_code = code;
      finalizing_path = path;
      destination_path = destination;
    })
unfolding progress_ok timing_ok
status-FileMove f t code path destination step unfinished whole = record {
  same_id = refl;
  same_size = refl;
  step = step;
  digest = λ d. absurd (ground arith);
  sound = λ s. record { progress = s.progress; timing = s.timing; whole = λ w. s.whole (whole w) };
}

pub paused_file-FileMove : (f : TransferFileRecord) → FileMove f (paused_file f)
unfolding paused_file
paused_file-FileMove f = elim (Bool-cases (is_queued f.status || is_active f.status)) [
  | inl e ↦ rw e (
      status-FileMove f TransferFileStatus.paused f.error_code f.finalizing_path f.destination_path
        (ground arith) (ground arith) (λ w. ground arith))
  | inr e ↦ rw e (FileMove-refl f)
]

pub resumed_file-FileMove : (f : TransferFileRecord) → FileMove f (resumed_file f)
unfolding resumed_file
resumed_file-FileMove f = elim (Bool-cases (is_paused f.status)) [
  | inl e ↦ rw e (
      status-FileMove f TransferFileStatus.queued f.error_code f.finalizing_path f.destination_path
        (ground arith) (ground arith) (λ w. ground arith))
  | inr e ↦ rw e (FileMove-refl f)
]

pub cancelled_file-FileMove : (f : TransferFileRecord) → FileMove f (cancelled_file f)
unfolding cancelled_file
cancelled_file-FileMove f = elim (Bool-cases (is_terminal_file f.status)) [
  | inl e ↦ rw e (FileMove-refl f)
  | inr e ↦ rw e (
      status-FileMove f TransferFileStatus.cancelled none f.finalizing_path f.destination_path
        (ground arith) (ground arith) (λ w. ground arith))
]

pub expired_file-FileMove : (f : TransferFileRecord) → FileMove f (expired_file f)
unfolding expired_file
expired_file-FileMove f = elim (Bool-cases (is_terminal_file f.status)) [
  | inl e ↦ rw e (FileMove-refl f)
  | inr e ↦ rw e (
      status-FileMove f TransferFileStatus.failed (some transfer_expired) f.finalizing_path
        f.destination_path (ground arith) (ground arith) (λ w. ground arith))
]

pub recover_file-FileMove :
    (paths : NodePath) (shares_inode : String → String → Bool) (f : TransferFileRecord)
    → FileMove f (recover_file paths shares_inode f).0
unfolding recover_file
recover_file-FileMove paths shares f = elim (Bool-cases (is_finalizing f.status)) [
  | inl e ↦ rw e (elim (Option-cases (published_path paths shares f)) [
    | inl none_there ↦
        rw (none_there, recovered_finalizing)
          (status-FileMove f TransferFileStatus.failed (some "finalization_interrupted") none
            f.destination_path (ground arith) (ground arith) (λ w. ground arith))
    | inr (final, there) ↦
        rw (there, recovered_finalizing)
          (status-FileMove f TransferFileStatus.completed none none (some final) (ground arith)
            (ground arith) (λ w. ground arith))
  ])
  | inr e ↦ rw e (elim (Bool-cases (is_verifying f.status || bytes_complete paths shares f)) [
    | inl v ↦ rw v (
        status-FileMove f TransferFileStatus.failed (some "verification_interrupted")
          f.finalizing_path f.destination_path (ground arith) (ground arith) (λ w. ground arith))
    | inr v ↦ rw v (elim (Bool-cases (is_active f.status)) [
      | inl a ↦ rw a (
          status-FileMove f TransferFileStatus.queued f.error_code f.finalizing_path
            f.destination_path (ground arith) (ground arith) (λ w. ground arith))
      | inr a ↦ rw a (FileMove-refl f)
    ])
  ])
]

-- The retries that are left before an attempt's number is no safe integer.
abbrev pub HasRoom : TransferFileRecord → Type 0
HasRoom f = (now : ℕ) → next_attempt (get_last? (or_new now f.timing).attempts) ≤ max_safe_integer

or_new-is_timing :
    (now : ℕ) (t : Option TransferTimingSummary)
    → now ≤ max_safe_integer
    → opt_all is_timing t ≡ true
    → is_timing (or_new now t) ≡ true
or_new-is_timing now none h k = new_timing_ok now h
or_new-is_timing now (some t) h k = k

new_attempt_ok :
    (n : ℕ) → n ≤ max_safe_integer → attempt_ok (record { attempt = n; stages = [] }) ≡ true
unfolding attempt_ok
new_attempt_ok n h = ground arith

retried_timing_ok :
    (now : ℕ) (t : Option TransferTimingSummary)
    → now ≤ max_safe_integer
    → next_attempt (get_last? (or_new now t).attempts) ≤ max_safe_integer
    → opt_all is_timing t ≡ true
    → is_timing (retried_timing now t) ≡ true
unfolding retried_timing is_timing
retried_timing_ok now t h room k =
    let (wall, rest) = and_split _ _ (or_new-is_timing now t h k) in
    let (_, old) = and_split _ _ rest in
    let l = (or_new now t).attempts in
    let new : Attempt = record { attempt = next_attempt (get_last? l); stages = [] } in
    and_join _ _ wall (
      and_join _ _ ((leb_iff _ 4).1 (length-take_last 4 (l ++ (new ∷ [])))) (
        all-drop attempt_ok _ (l ++ (new ∷ [])) (
          all-append attempt_ok l (new ∷ []) old
            (and_join _ true (new_attempt_ok (next_attempt (get_last? l)) room) refl))))

retried-progress :
    (f : TransferFileRecord) (t : Option TransferTimingSummary)
    → progress_ok f ≡ true
    → progress_ok (record f {
      status = TransferFileStatus.queued;
      confirmed_offset = 0;
      timing = t;
      error_code = none;
      finalizing_path = none;
    })
      ≡ true
unfolding progress_ok
retried-progress f t p = ground arith

pub retried_file-FileMove :
    (now : ℕ) (f : TransferFileRecord)
    → now ≤ max_safe_integer
    → HasRoom f
    → FileMove f (retried_file now f)
unfolding retried_file
retried_file-FileMove now f h room = elim (Bool-cases (may_retry f)) [
  | inl e ↦ rw e (record {
    same_id = refl;
    same_size = refl;
    step = ground arith;
    digest = λ d. absurd (ground arith);
    sound = λ s. record {
      progress = retried-progress f _ s.progress;
      timing = unfold timing_ok in retried_timing_ok now f.timing h (room now) s.timing;
      whole = λ w. absurd (ground arith);
    };
  })
  | inr e ↦ rw e (FileMove-refl f)
]
