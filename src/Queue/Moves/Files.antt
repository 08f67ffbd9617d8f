-- ===== src/Queue/Moves/Files.antt =====
-- The changes of a file in src/transfer/transfer-queue.ts that carry it forward, as moves.
use vidyut.Prelude.{
  ℕ, ◌≤◌, ◌≡◌, refl, String, Bool, true, false, ◌&&◌, ◌||◌, Option, some, none, ok, arith, opt_all,
  leb, ltb, Option-cases, inl, inr,
}
use vidyut.Wire.Types.{max_safe_integer}
use vidyut.Wire.Number.{Number, natural?, natural?-le}
use vidyut.Queue.Types.{
  TransferFileRecord, TransferFileStatus, is_active, is_verifying, is_finalizing, in_flight,
  is_terminal_file, is_completed,
}
use vidyut.Queue.Timing.{Env, marked_ok}
use vidyut.Queue.Batch.{progress_ok, timing_ok}
use vidyut.Queue.Store.{Queue, mark_timing}
use vidyut.Queue.Progress.{next_offset, next_chunk, completed_file}
use vidyut.Queue.Moves.{FileMove, may_step, needs_whole}

step_refl : (s : TransferFileStatus) → may_step s s ≡ true
step_refl TransferFileStatus.queued = refl
step_refl _ = refl

active_not_whole : (s : TransferFileStatus) → is_active s ≡ true → needs_whole s ≡ true → ⊥
active_not_whole TransferFileStatus.queued a w = ground arith
active_not_whole _ a w = ground arith

active_step :
    (s : TransferFileStatus) → is_active s ≡ true → may_step s TransferFileStatus.verifying ≡ true
active_step TransferFileStatus.queued a = ground arith
active_step _ a = ground arith

active_not_done : (s : TransferFileStatus) → is_active s ≡ true → is_completed s ≡ true → ⊥
active_not_done TransferFileStatus.queued a d = ground arith
active_not_done _ a d = ground arith

flight_step :
    (s : TransferFileStatus) → in_flight s ≡ true → may_step s TransferFileStatus.completed ≡ true
flight_step TransferFileStatus.queued a = ground arith
flight_step _ a = ground arith

flight_not_done : (s : TransferFileStatus) → in_flight s ≡ true → is_completed s ≡ true → ⊥
flight_not_done TransferFileStatus.queued a d = ground arith
flight_not_done _ a d = ground arith

module _ (s : TransferFileStatus) (a : (is_verifying s || is_finalizing s) ≡ true) where
  verified_step : may_step s TransferFileStatus.finalizing ≡ true
  verified_step = ground arith

  verified_not_done : is_completed s ≡ true → ⊥
  verified_not_done d = ground arith

  verified_whole : needs_whole s ≡ true
  verified_whole = ground arith

module _ (s : TransferFileStatus) (a : is_terminal_file s ≡ false) where
  failed_step : may_step s TransferFileStatus.failed ≡ true
  failed_step = ground arith

  open_not_done : is_completed s ≡ true → ⊥
  open_not_done d = ground arith

abbrev chunk_ok : Option ℕ → Bool
chunk_ok = opt_all (λ n. leb n max_safe_integer && ltb 0 n)

confirmed-progress :
    (f : TransferFileRecord) (n : ℕ) (chunk : Option ℕ)
    → progress_ok f ≡ true
    → (n ≤ f.size) × (n ≤ max_safe_integer)
    → chunk_ok chunk ≡ true
    → progress_ok (record f { confirmed_offset = n; max_chunk_bytes = chunk }) ≡ true
unfolding progress_ok
confirmed-progress f n chunk p b k = ground arith

next_offset_bounds :
    (c : Number) (f : TransferFileRecord) (n : ℕ)
    → next_offset c f ≡ some n
    → (n ≤ f.size) × (n ≤ max_safe_integer)
unfolding next_offset
next_offset_bounds c f n h = elim (Option-cases (natural? c)) [
  | inl e ↦ absurd (ground arith)
  | inr (k, e) ↦ ground (arith, natural?-le c k e)
]

chunk_of : (f : TransferFileRecord) → progress_ok f ≡ true → chunk_ok f.max_chunk_bytes ≡ true
unfolding progress_ok
chunk_of f p = ground arith

full_bounds :
    (f : TransferFileRecord)
    → progress_ok f ≡ true
    → (f.size ≤ f.size) × (f.size ≤ max_safe_integer)
unfolding progress_ok
full_bounds f p = ground arith

next_chunk_ok :
    (m : Option Number) (f : TransferFileRecord) (chunk : Option ℕ)
    → progress_ok f ≡ true
    → next_chunk m f ≡ ok chunk
    → chunk_ok chunk ≡ true
unfolding next_chunk
next_chunk_ok none f chunk p h = ground (arith, chunk_of f p)
next_chunk_ok (some c) f chunk p h = elim (Option-cases (natural? c)) [
  | inl e ↦ absurd (ground arith)
  | inr (k, e) ↦ ground (arith, natural?-le c k e)
]

pub confirmed-FileMove :
    (f : TransferFileRecord) (c : Number) (m : Option Number) (n : ℕ) (chunk : Option ℕ)
    → is_active f.status ≡ true
    → next_offset c f ≡ some n
    → next_chunk m f ≡ ok chunk
    → FileMove f (record f { confirmed_offset = n; max_chunk_bytes = chunk })
unfolding timing_ok
confirmed-FileMove f c m n chunk a o k = record {
  same_id = refl;
  same_size = refl;
  step = step_refl f.status;
  digest = λ _. refl;
  sound = λ s. record {
    progress =
        confirmed-progress f n chunk s.progress (next_offset_bounds c f n o)
          (next_chunk_ok m f chunk s.progress k);
    timing = s.timing;
    whole = λ w. absurd (active_not_whole f.status a w);
  };
}

-- A mark changes the timing alone.
pub mark_timing-FileMove :
    (env : Env) (transfer_id file_id : String) (q : Queue) (stage : String) (end : Bool)
    (f g : TransferFileRecord)
    → env.now ≤ max_safe_integer
    → FileMove f g
    → FileMove f (mark_timing env transfer_id file_id q stage end g)
unfolding mark_timing progress_ok timing_ok
mark_timing-FileMove env transfer_id file_id q stage end f g now m = record {
  same_id = m.same_id;
  same_size = m.same_size;
  step = m.step;
  digest = m.digest;
  sound = λ s. record {
    progress = (m.sound s).progress;
    timing = marked_ok env.now stage _ end g.timing now (m.sound s).timing;
    whole = (m.sound s).whole;
  };
}

pub completed-FileMove :
    (f : TransferFileRecord) (sha : String)
    → in_flight f.status ≡ true
    → f.confirmed_offset ≡ f.size
    → FileMove f (completed_file sha f)
unfolding completed_file progress_ok timing_ok
completed-FileMove f sha a e = record {
  same_id = refl;
  same_size = refl;
  step = flight_step f.status a;
  digest = λ d. absurd (flight_not_done f.status a d);
  sound = λ s. record { progress = s.progress; timing = s.timing; whole = λ _. e };
}

pub verifying-FileMove :
    (f : TransferFileRecord)
    → is_active f.status ≡ true
    → FileMove f (record f { confirmed_offset = f.size; status = TransferFileStatus.verifying })
unfolding progress_ok timing_ok
verifying-FileMove f a = record {
  same_id = refl;
  same_size = refl;
  step = active_step f.status a;
  digest = λ d. absurd (active_not_done f.status a d);
  sound = λ s. record {
    progress =
        confirmed-progress f f.size f.max_chunk_bytes s.progress (full_bounds f s.progress)
          (chunk_of f s.progress);
    timing = s.timing;
    whole = λ _. refl;
  };
}

pub finalizing-FileMove :
    (f : TransferFileRecord) (path : Option String)
    → (is_verifying f.status || is_finalizing f.status) ≡ true
    → FileMove f (record f { status = TransferFileStatus.finalizing; finalizing_path = path })
unfolding progress_ok timing_ok
finalizing-FileMove f path a = record {
  same_id = refl;
  same_size = refl;
  step = verified_step f.status a;
  digest = λ d. absurd (verified_not_done f.status a d);
  sound = λ s. record {
    progress = s.progress;
    timing = s.timing;
    whole = λ _. s.whole (verified_whole f.status a);
  };
}

pub failed-FileMove :
    (f : TransferFileRecord) (code : Option String) (path : Option String)
    → is_terminal_file f.status ≡ false
    → FileMove f
        (record f { status = TransferFileStatus.failed; error_code = code; finalizing_path = path })
unfolding progress_ok timing_ok
failed-FileMove f code path a = record {
  same_id = refl;
  same_size = refl;
  step = failed_step f.status a;
  digest = λ d. absurd (open_not_done f.status a d);
  sound = λ s. record { progress = s.progress; timing = s.timing; whole = λ w. ground arith };
}

pub destination-FileMove :
    (f : TransferFileRecord) (path : Option String)
    → FileMove f (record f { destination_path = path })
unfolding progress_ok timing_ok
destination-FileMove f path = record {
  same_id = refl;
  same_size = refl;
  step = step_refl f.status;
  digest = λ _. refl;
  sound = λ s. record { progress = s.progress; timing = s.timing; whole = s.whole };
}
