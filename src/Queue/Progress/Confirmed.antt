-- ===== src/Queue/Progress/Confirmed.antt =====
-- The file before and behind `confirmProgress` of src/transfer/transfer-queue.ts.
use vidyut.Prelude.{
  ℕ, ◌≤◌, ◌≡◌, refl, String, Option, some, ok, arith, find?-replaced, find?-holds, or_throw,
  or_throw-eq-ok, Option-cases, inl, inr, Ensures, Ensures-bind, Ensures-ok, Ensures-guard, true,
}
use vidyut.Wire.Number.{Number, natural?}
use vidyut.Queue.Types.{TransferFileRecord, TransferBatchRecord, is_active}
use vidyut.Queue.Timing.{Env}
use vidyut.Queue.Batch.{touch}
use vidyut.Queue.Store.{
  Queue, has_transfer_id, has_file_id, find_batch, find_in_batch, put_batch, put_file, persist,
}
use vidyut.Queue.Progress.{confirm_progress, keep_touched, next_offset, next_chunk}
use vidyut.Queue.Moves.Batches.{find_batch-eq-ok, find_in_batch-eq-ok}
use vidyut.Queue.Tracks.{find_record, record_of_parts}

-- `x` was active, and `y` is `x` with an offset no lower, that is no more than the size.
pub record Confirmed (offset : Number) (x y : TransferFileRecord) : Type 0 where
  pub was_active : is_active x.status ≡ true
  pub still_active : y.status ≡ x.status
  pub value : natural? offset ≡ some y.confirmed_offset
  pub no_lower : x.confirmed_offset ≤ y.confirmed_offset
  pub within : y.confirmed_offset ≤ x.size
  pub same_offer : y.offered ≡ x.offered

pub offset_parts :
    (c : Number) (x : TransferFileRecord) (n : ℕ)
    → next_offset c x ≡ some n
    → (natural? c ≡ some n) × (x.confirmed_offset ≤ n) × (n ≤ x.size)
unfolding next_offset
offset_parts c x n h = elim (Option-cases (natural? c)) [
  | inl e ↦ absurd (ground arith)
  | inr (m, e) ↦ ground arith
]

touched_found :
    (env : Env) (q : Queue) (t f : String) (b : TransferBatchRecord) (x y : TransferFileRecord)
    → find_batch q t ≡ ok b
    → find_in_batch b f ≡ ok x
    → has_file_id f y ≡ true
    → find_record (keep_touched env t f b y q).batches t f ≡ some y
unfolding keep_touched persist put_batch put_file touch
touched_found env q t f b x y hb hx named =
    let found = find_batch-eq-ok q t b hb in
    record_of_parts (keep_touched env t f b y q).batches t f (touch env.now (put_file f y b)) y
      (find?-replaced (has_transfer_id t) q.batches b _ found
        (find?-holds (has_transfer_id t) q.batches b found))
      (find?-replaced (has_file_id f) b.files x y (find_in_batch-eq-ok b f x hx) named)

abbrev Outcome : Queue → String → String → Number → Queue → Type 0
Outcome q t f offset r =
    (x : TransferFileRecord) × (y : TransferFileRecord) × (find_record q.batches t f ≡ some x)
    × (find_record r.batches t f ≡ some y)
    × Confirmed offset x y

confirm_progress-Outcome :
    (env : Env) (q : Queue) (t f : String) (offset : Number) (chunk : Option Number)
    → Ensures (Outcome q t f offset) (confirm_progress env q t f offset chunk)
unfolding confirm_progress
confirm_progress-Outcome env q t f offset chunk = Ensures-bind (find_batch q t) _ λ b hb.
    Ensures-bind (find_in_batch b f) _ λ x hx. Ensures-guard (is_active x.status) _ _ λ active.
      Ensures-bind (or_throw (next_offset offset x) _) _ λ n hn.
        Ensures-bind (next_chunk chunk x) _ λ kept hc.
          let y = record x { confirmed_offset = n; max_chunk_bytes = kept } in
          let (value, low, high) = offset_parts offset x n (or_throw-eq-ok _ _ n hn) in
          let found = find_in_batch-eq-ok b f x hx in
          Ensures-ok _ (
            x,
            y,
            record_of_parts q.batches t f b x (find_batch-eq-ok q t b hb) found,
            touched_found env q t f b x y hb hx (find?-holds (has_file_id f) b.files x found),
            record {
              was_active = active;
              still_active = refl;
              value = value;
              no_lower = low;
              within = high;
              same_offer = refl;
            },
          )

-- A confirmation that is taken is for an active file, at a safe integer no lower than the offset
-- confirmed before and no more than the file's size; behind it the file has that offset, and its
-- status and its offer as before.
pub confirm_progress-Confirmed :
    (env : Env) (q r : Queue) (t f : String) (offset : Number) (chunk : Option Number)
    → confirm_progress env q t f offset chunk ≡ ok r
    → (x : TransferFileRecord) × (y : TransferFileRecord) × (find_record q.batches t f ≡ some x)
      × (find_record r.batches t f ≡ some y)
      × Confirmed offset x y
confirm_progress-Confirmed env q r t f offset chunk h =
    (confirm_progress-Outcome env q t f offset chunk).apply r h
